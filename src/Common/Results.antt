-- ===== src/Common/Results.antt =====
-- What a C function gives: a value, or NULL (or FALSE). `bad_access` stands for a read or write through
-- a null pointer or outside of an object, `out_of_fuel` for no value of the code.

use Prim.Native.Nat.{◌<◌}
use mathlib.Core.Path.{◌≡◌, refl, ap, ◌∙◌, subst}
use mathlib.Core.Bool.{Bool, true, false}
use native.Mathlib.Omega.{arith}
use mafw.Common.Tests.{if◌then◌else◌}

pub data Outcome {ℓ} (A : Type ℓ) : Type ℓ where
  ok : A → Outcome A
  null bad_access out_of_fuel : Outcome A

infixl 5 ◌>>=◌
abbrev pub ◌>>=◌ {ℓ κ} : {A : Type ℓ} {B : Type κ} → Outcome A → (A → Outcome B) → Outcome B
ok a >>= f = f a
null >>= f = null
bad_access >>= f = bad_access
out_of_fuel >>= f = out_of_fuel

pub bind_ok {ℓ κ} :
    {A : Type ℓ} {B : Type κ} (o : Outcome A) (f : A → Outcome B) {b : B}
    → (o >>= f) ≡ ok b
    → (a : A) × (o ≡ ok a) × (f a ≡ ok b)
bind_ok (ok a) f e = (a, refl, e)
bind_ok null f e = cc e
bind_ok bad_access f e = cc e
bind_ok out_of_fuel f e = cc e

pub ok_inj {ℓ} : {A : Type ℓ} {a b : A} → ok a ≡ ok b → a ≡ b
ok_inj e = cc e

pub bind_eq {ℓ κ} :
    {A : Type ℓ} {B : Type κ} {o : Outcome A} {a : A} {r : Outcome B} (f : A → Outcome B)
    → o ≡ ok a
    → f a ≡ r
    → (o >>= f) ≡ r
bind_eq f e h = ap (λ o. o >>= f) e ∙ h

-- A value, if one is given, is as `P` says.
abbrev pub Ensures {ℓ} : {A : Type ℓ} → Outcome A → (A → Type 0) → Type 0
Ensures (ok a) P = P a
Ensures null P = 0 < 1
Ensures bad_access P = 0 < 1
Ensures out_of_fuel P = 0 < 1

pub Ensures-ok {ℓ} :
    {A : Type ℓ} {o : Outcome A} {a : A} (P : A → Type 0) → Ensures o P → o ≡ ok a → P a
Ensures-ok P h e = subst (λ o. Ensures o P) e h

pub Ensures-bind {ℓ κ} :
    {A : Type ℓ} {B : Type κ} (o : Outcome A) (f : A → Outcome B) (P : A → Type 0) (Q : B → Type 0)
    → Ensures o P
    → ((a : A) → P a → Ensures (f a) Q)
    → Ensures (o >>= f) Q
Ensures-bind (ok a) f P Q h k = k a h
Ensures-bind null f P Q h k = omega arith
Ensures-bind bad_access f P Q h k = omega arith
Ensures-bind out_of_fuel f P Q h k = omega arith

-- The first value does not matter.
pub Ensures-after {ℓ κ} :
    {A : Type ℓ} {B : Type κ} (o : Outcome A) (f : A → Outcome B) (Q : B → Type 0)
    → ((a : A) → Ensures (f a) Q)
    → Ensures (o >>= f) Q
Ensures-after (ok a) f Q k = k a
Ensures-after null f Q k = omega arith
Ensures-after bad_access f Q k = omega arith
Ensures-after out_of_fuel f Q k = omega arith

pub Ensures-if {ℓ} :
    {A : Type ℓ} (b : Bool) (o : Outcome A) (Q : A → Type 0)
    → (b ≡ true → Ensures o Q)
    → Ensures (if b then o else null) Q
Ensures-if true o Q h = h refl
Ensures-if false o Q h = omega arith

pub bind_bad {ℓ κ} :
    {A : Type ℓ} {B : Type κ} {o : Outcome A} (f : A → Outcome B)
    → o ≡ bad_access
    → (o >>= f) ≡ bad_access
bind_bad f e = ap (λ o. o >>= f) e
