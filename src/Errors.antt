-- ===== src/Errors.antt =====
-- src/lib.rs: the error type and `Result`, and the two ways in which code fails.
-- A function that only reads returns a `Result`. One that writes is an `Exec`: what it wrote
-- before an error stays written, so the state comes back beside the error too.
-- The texts of messages are kept up to the values that `format!` puts into them.
use respawn.Base.{◌≡◌, refl, ◌⊎◌, inl, inr, String, Bytes, Bool, if◌then◌else◌}

pub data Error : Type 0 where
  io : String → Error
  corrupt : String → Error
  missing_object : Bytes → Error
  not_initialized : Error
  bad_hash : Bytes → Error
  sync : String → Error
  unsafe_path : Bytes → Error
  locked : String → Error

pub data Result {ℓ} (A : Type ℓ) : Type ℓ where
  ok : A → Result A
  err : Error → Result A

-- `if b { return Err(e) }`
abbrev pub refuse_if : Bool → Error → Result (Unit {0})
refuse_if b e = if b then err e else ok tt

infixl 5 ◌>>=◌ ◌>>◌
abbrev pub ◌>>=◌ {ℓ κ} : {A : Type ℓ} {B : Type κ} → Result A → (A → Result B) → Result B
err e >>= f = err e
ok a >>= f = f a

abbrev pub ◌>>◌ {ℓ} : {B : Type ℓ} → Result (Unit {0}) → Result B → Result B
err e >> k = err e
ok _ >> k = k

pub Result-cases {ℓ} :
    {A : Type ℓ} (r : Result A) → ((a : A) × (r ≡ ok a)) ⊎ ((e : Error) × (r ≡ err e))
Result-cases (ok a) = inl (a, refl)
Result-cases (err e) = inr (e, refl)
