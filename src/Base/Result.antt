-- ===== src/Base/Result.antt =====
-- A call that may raise. Errors are those that the callers tell apart.
use mathlib.Core.Bool.{Bool}
use mathlib.Core.Logic.{◌⊎◌, inl, inr}
use mathlib.Core.Path.{◌≡◌, refl}
use session_search.Base.Tests.{if◌then◌else◌}

pub data Error : Type 0 where
  value_error os_error permission_error runtime_error offset_conflict integrity_error key_error :
      Error

pub data Result {ℓ} (A : Type ℓ) : Type ℓ where
  ok : A → Result A
  err : Error → Result A

infixl 5 ◌>>=◌ ◌>>◌
abbrev pub ◌>>=◌ {ℓ κ} : {A : Type ℓ} {B : Type κ} → Result A → (A → Result B) → Result B
m >>= f = elim m [ ok a ↦ f a | err e ↦ err e ]

abbrev pub ◌>>◌ {ℓ} : {B : Type ℓ} → Result (Unit {0}) → Result B → Result B
m >> k = elim m [ ok _ ↦ k | err e ↦ err e ]

-- `if not b: raise ValueError(…)`
abbrev pub require : Bool → Result (Unit {0})
require b = if b then ok tt else err value_error

pub Result-cases {ℓ} :
    {A : Type ℓ} (r : Result A) → ((a : A) × (r ≡ ok a)) ⊎ ((e : Error) × (r ≡ err e))
Result-cases (ok a) = inl (a, refl)
Result-cases (err e) = inr (e, refl)
