-- ===== src/Prelude/Outcome.antt =====
-- What a fallible function of the program returns: 1 with its results, or 0 with the error that it
-- sets: the `int` code of `RCError`, as its 32-bit pattern, and the format of its message.
use Prim.Native.Nat.{ℕ}
use Prim.Native.String.{String}
use native.Mathlib.Omega.{arith}
use mathlib.Core.Path.{◌≡◌, refl, ap}
use mathlib.Core.Logic.{◌⊎◌, ◌≢◌, inl, inr}
use mathlib.Core.Bool.{Bool, true, false}
use retro_cloud_sync.Prelude.Tests.{if◌then◌else◌}

pub data Result {ℓ} (A : Type ℓ) : Type ℓ where
  ok : A → Result A
  err : ℕ → String → Result A

infixl 5 ◌>>=◌
abbrev pub ◌>>=◌ {ℓ κ} : {A : Type ℓ} {B : Type κ} → Result A → (A → Result B) → Result B
ok a >>= f = f a
err c m >>= f = err c m

abbrev pub succeeded {ℓ} : {A : Type ℓ} → Result A → Bool
succeeded (ok _) = true
succeeded (err _ _) = false

pub Result-cases {ℓ} :
    {A : Type ℓ} (r : Result A) → ((a : A) × (r ≡ ok a)) ⊎ ((c : ℕ) × (m : String) × (r ≡ err c m))
Result-cases (ok a) = inl (a, refl)
Result-cases (err c m) = inr (c, m, refl)

pub ok_injective {ℓ} : {A : Type ℓ} {a b : A} → ok a ≡ ok b → a ≡ b
ok_injective {a = a} e = ap (λ r. elim r [ ok x ↦ x | err c m ↦ a ]) e

pub err≢ok {ℓ} : {A : Type ℓ} {c : ℕ} {m : String} {a : A} → err c m ≢ ok a
err≢ok e = ground arith

pub bind_ok {ℓ κ} :
    {A : Type ℓ} {B : Type κ} (r : Result A) (f : A → Result B) {b : B}
    → (r >>= f) ≡ ok b
    → (a : A) × (r ≡ ok a) × (f a ≡ ok b)
bind_ok (ok a) f e = (a, refl, e)
bind_ok (err c m) f e = absurd (err≢ok e)

pub if_ok :
    {A : Type 0} (b : Bool) {x y : Result A} {a : A}
    → (if b then x else y) ≡ ok a
    → ((b ≡ true) × (x ≡ ok a)) ⊎ ((b ≡ false) × (y ≡ ok a))
if_ok true e = inl (refl, e)
if_ok false e = inr (refl, e)
