-- ===== src/Base/Errors.antt =====
-- `libspectrum_error`, and a function's result together with what it hands back through pointers.

-- The error codes other than LIBSPECTRUM_ERROR_NONE.
pub data Error : Type 0 where
  warning memory unknown corrupt signature slt invalid logic : Error

-- `ok` is LIBSPECTRUM_ERROR_NONE.
pub data Result {ℓ} (A : Type ℓ) : Type ℓ where
  ok : A → Result A
  err : Error → Result A

infixl 5 ◌>>=◌
abbrev pub ◌>>=◌ {ℓ κ} : {A : Type ℓ} {B : Type κ} → Result A → (A → Result B) → Result B
ok a >>= f = f a
err e >>= f = err e
