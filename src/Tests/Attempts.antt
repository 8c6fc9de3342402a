-- ===== src/Tests/Attempts.antt =====
-- The retry accounting at concrete budgets.
use lean_s.Prelude.{◌≡◌}
use lean_s.Retry.{write_opt_in_mode, replays, serve}
use lean_s.Retry.Turns.{client, serve-client}

serve-client_example : serve write_opt_in_mode 2 5 ≡ client (replays write_opt_in_mode) 2 5
serve-client_example = serve-client write_opt_in_mode 2 5
