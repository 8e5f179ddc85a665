-- ===== src/Common/Readers.antt =====
-- Readers that leave less of a list than they were given.
use Prim.Native.Nat.{ℕ, ◌<◌, ◌≤◌}
use mathlib.Core.Path.{refl}
use mathlib.Core.Logic.{◌≢◌}
use mathlib.Core.Bool.{Bool, true, false}
use mathlib.Core.List.{List}
use native.Mathlib.Omega.{arith}
use mafw.Common.Arrays.{length}
use mafw.Common.Tests.{if◌then◌else◌}
use mafw.Common.Results.{Outcome, ok, null, bad_access, out_of_fuel, ◌>>=◌}

-- Not out of fuel, and what is left is shorter than `n`.
abbrev pub Shrinks {ℓ} : {A : Type ℓ} → Outcome (A × List ℕ) → ℕ → Type 0
Shrinks (ok (a, rest)) n = length rest < n
Shrinks null n = 0 < 1
Shrinks bad_access n = 0 < 1
Shrinks out_of_fuel n = 1 < 0

pub Shrinks-le {ℓ} :
    {A : Type ℓ} (o : Outcome (A × List ℕ)) (m n : ℕ) → m ≤ n → Shrinks o m → Shrinks o n
Shrinks-le (ok (a, rest)) m n h s = omega arith
Shrinks-le null m n h s = s
Shrinks-le bad_access m n h s = s
Shrinks-le out_of_fuel m n h s = s

pub Shrinks-bind {ℓ κ} :
    {A : Type ℓ} {B : Type κ} (o : Outcome (A × List ℕ)) (f : A × List ℕ → Outcome (B × List ℕ))
    (m n : ℕ)
    → Shrinks o m
    → ((a : A) (rest : List ℕ) → length rest < m → Shrinks (f (a, rest)) n)
    → Shrinks (o >>= f) n
Shrinks-bind (ok (a, rest)) f m n s k = k a rest s
Shrinks-bind null f m n s k = omega arith
Shrinks-bind bad_access f m n s k = omega arith
Shrinks-bind out_of_fuel f m n s k = absurd (omega arith)

-- An answer that is not read from the text.
pub Shrinks-after {ℓ κ} :
    {A : Type ℓ} {B : Type κ} (o : Outcome A) (f : A → Outcome (B × List ℕ)) (n : ℕ)
    → o ≢ out_of_fuel
    → ((a : A) → Shrinks (f a) n)
    → Shrinks (o >>= f) n
Shrinks-after (ok a) f n h k = k a
Shrinks-after null f n h k = omega arith
Shrinks-after bad_access f n h k = omega arith
Shrinks-after out_of_fuel f n h k = absurd (h refl)

pub Shrinks-if {ℓ} :
    {A : Type ℓ} (b : Bool) (x y : Outcome (A × List ℕ)) (n : ℕ)
    → Shrinks x n
    → Shrinks y n
    → Shrinks (if b then x else y) n
Shrinks-if true x y n h k = h
Shrinks-if false x y n h k = k
