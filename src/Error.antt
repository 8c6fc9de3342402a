-- ===== src/Error.antt =====
-- Python's exceptions, by class: what a function returns that may raise.
use lean_s.Prelude.{◌≡◌, refl, Bool, true, false}

-- The classes that the modelled code raises itself or through `bytes`, `struct`, `int.to_bytes`,
-- subscripts and dictionaries. Message texts are left out.
pub data Error : Type 0 where
  value_error type_error struct_error overflow_error index_error key_error runtime_error
        assertion_error timeout_error :
      Error

-- What a call comes to: its value, or the exception that it raised.
pub data Result {ℓ} (V : Type ℓ) : Type ℓ where
  ok : V → Result V
  err : Error → Result V

module _ {ℓ κ} {V : Type ℓ} {W : Type κ} where
  infixl 5 ◌>>=◌
  -- the statements behind a call, which an exception skips
  abbrev pub ◌>>=◌ : Result V → (V → Result W) → Result W
  ◌>>=◌ called next = elim called [ ok v ↦ next v | err raised ↦ err raised ]

  -- A block that returns has returned from its first call, and from the rest on that value.
  pub >>=-eq-ok :
      (called : Result V) (next : V → Result W) {w : W}
      → (called >>= next) ≡ ok w
      → (v : V) × (called ≡ ok v) × (next v ≡ ok w)
  >>=-eq-ok (err raised) next returned = cc
  >>=-eq-ok (ok v) next returned = (v, refl, returned)

pub ok_inj {ℓ} : {V : Type ℓ} {v w : V} → ok v ≡ ok w → v ≡ w
ok_inj h = cc

infixl 5 ◌>>◌
abbrev pub ◌>>◌ {ℓ} : {W : Type ℓ} → Result (Unit {0}) → Result W → Result W
check >> rest = check >>= λ _. rest

-- `if bad: raise error`
abbrev pub raise_if : Bool → Error → Result (Unit {0})
raise_if bad raised = elim bad [ true ↦ err raised | false ↦ ok tt ]
