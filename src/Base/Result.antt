-- ===== src/Base/Result.antt =====
-- What a call of C++ code ends in: a value, an exception, or undefined behaviour.
pub data Error : Type 0 where
  runtime_error spdlog_ex logic_error filesystem_error : Error

pub data Result {ℓ} (A : Type ℓ) : Type ℓ where
  ok : A → Result A
  throws : Error → Result A
  undefined : Result A

infixl 5 ◌>>=◌
abbrev pub ◌>>=◌ {ℓ κ} : {A : Type ℓ} {B : Type κ} → Result A → (A → Result B) → Result B
ok a >>= f = f a
throws e >>= f = throws e
undefined >>= f = undefined
