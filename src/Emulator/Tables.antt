-- ===== src/Emulator/Tables.antt =====
-- The dicts of `MultiItemServer` in integration/run.py: what is stored for a client is found.
use mathlib.Core.Logic.{if_pos}
use lean_s.Prelude.{◌≡◌, refl, Option, some}
use lean_s.Emulator.Server.{store}

pub store_self :
    {Client V : Type 0} (same : Discrete Client) (client : Client) (value : V)
    (table : Client → Option V)
    → store same client value table client ≡ some value
unfolding store
store_self same client value table = if_pos (same client client) refl (some value) (table client)
