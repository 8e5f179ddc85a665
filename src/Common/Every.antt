-- ===== src/Common/Every.antt =====
-- Lists of numbers: all of them pass a test, and two of them are the same.
use Prim.Native.Nat.{ℕ}
use mathlib.Core.Path.{◌≡◌, refl, ap, sym, ◌∙◌}
use mathlib.Core.Logic.{inl, inr}
use mathlib.Core.Bool.{Bool, true, false, ◌&&◌}
use mathlib.Core.List.{List, [], ◌∷◌, ◌++◌}
use mafw.Common.Tests.{if◌then◌else◌, if_true, if_false, Bool-cases, ◌==◌, eq→==}

unfoldable pub all : (ℕ → Bool) → List ℕ → Bool
all test [] = true
all test (c ∷ cs) = if test c then all test cs else false

pub all_head : (test : ℕ → Bool) (c : ℕ) (cs : List ℕ) → all test (c ∷ cs) ≡ true → test c ≡ true
unfolding all
all_head test c cs h = elim (Bool-cases (test c)) [
  | inl e ↦ e
  | inr e ↦ cc (sym (if_false _ _ _ e) ∙ h)
]

pub all_tail :
    (test : ℕ → Bool) (c : ℕ) (cs : List ℕ) → all test (c ∷ cs) ≡ true → all test cs ≡ true
unfolding all
all_tail test c cs h = sym (if_true _ _ _ (all_head test c cs h)) ∙ h

pub all-append :
    (test : ℕ → Bool) (s t : List ℕ)
    → all test s ≡ true
    → all test t ≡ true
    → all test (s ++ t) ≡ true
unfolding all
all-append test [] t h k = k
all-append test (c ∷ cs) t h k =
    if_true _ _ _ (all_head test c cs h) ∙ all-append test cs t (all_tail test c cs h) k

-- `strcmp` finds no difference.
unfoldable pub text_eq : List ℕ → List ℕ → Bool
text_eq [] [] = true
text_eq [] (y ∷ ys) = false
text_eq (x ∷ xs) [] = false
text_eq (x ∷ xs) (y ∷ ys) = (x == y) && text_eq xs ys

pub text_eq_refl : (t : List ℕ) → text_eq t t ≡ true
unfolding text_eq
text_eq_refl [] = refl
text_eq_refl (x ∷ xs) = ap (λ b. b && text_eq xs xs) (eq→== x x refl) ∙ text_eq_refl xs

-- A longer text is another one.
pub text_eq-append : (t : List ℕ) (c : ℕ) (cs : List ℕ) → text_eq (t ++ c ∷ cs) t ≡ false
unfolding text_eq
text_eq-append [] c cs = refl
text_eq-append (x ∷ xs) c cs =
    ap (λ b. b && text_eq (xs ++ c ∷ cs) xs) (eq→== x x refl) ∙ text_eq-append xs c cs

pub text_eq-append_left : (t : List ℕ) (c : ℕ) (cs : List ℕ) → text_eq t (t ++ c ∷ cs) ≡ false
unfolding text_eq
text_eq-append_left [] c cs = refl
text_eq-append_left (x ∷ xs) c cs =
    ap (λ b. b && text_eq xs (xs ++ c ∷ cs)) (eq→== x x refl) ∙ text_eq-append_left xs c cs
