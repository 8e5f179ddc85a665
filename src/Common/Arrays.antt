-- ===== src/Common/Arrays.antt =====
-- C arrays as functions of the index. What an array holds beyond its valid part is unknown.
use Prim.Native.Nat.{ℕ, zero, suc, ◌+◌, ◌-◌, ◌<◌, ◌≤◌}
use mathlib.Core.Path.{◌≡◌, refl, ap, ap₂, ◌∙◌}
use mathlib.Core.Logic.{◌≢◌}
use mathlib.Core.List.{List, [], ◌∷◌, ◌++◌}
use mathlib.Core.Bool.{true, false, ◌&&◌}
use native.Mathlib.Omega.{arith}
use mafw.Common.Tests.{if_true, if_false, eq→==, ne→==, ltb, leb, ◌==◌, if◌then◌else◌}

add_suc_left : (m n : ℕ) → suc m + n ≡ suc (m + n)
add_suc_left m n = omega arith

module _ {ℓ} {A : Type ℓ} where
  abbrev pub update : (ℕ → A) → ℕ → A → ℕ → A
  update f i v j = if i == j then v else f j

  -- `memmove(&a[dst], &a[src], n)`.
  abbrev pub memmove : (ℕ → A) → ℕ → ℕ → ℕ → ℕ → A
  memmove a dst src n j = if leb dst j && ltb j (dst + n) then a (j - dst + src) else a j

  abbrev pub length : List A → ℕ
  length [] = 0
  length (x ∷ xs) = suc (length xs)

  abbrev pub take : ℕ → List A → List A
  take zero xs = []
  take (suc n) [] = []
  take (suc n) (x ∷ xs) = x ∷ take n xs

  abbrev pub drop : ℕ → List A → List A
  drop zero xs = xs
  drop (suc n) [] = []
  drop (suc n) (x ∷ xs) = drop n xs

  -- The elements `a[lo]` to `a[lo + n - 1]` as a list.
  unfoldable pub slice : (ℕ → A) → ℕ → ℕ → List A
  slice a lo zero = []
  slice a lo (suc n) = a lo ∷ slice a (suc lo) n

  pub length-append : (xs ys : List A) → length (xs ++ ys) ≡ length xs + length ys
  length-append [] ys = omega arith
  length-append (x ∷ xs) ys = omega (arith, length-append xs ys)

  pub length-slice : (a : ℕ → A) (lo n : ℕ) → length (slice a lo n) ≡ n
  unfolding slice
  length-slice a lo zero = refl
  length-slice a lo (suc n) = ap suc (length-slice a (suc lo) n)

  -- Arrays that agree on a range, up to a shift, have the same elements there.
  pub slice-ext :
      (a b : ℕ → A) (lo lo' n : ℕ)
      → ((k : ℕ) → k < n → a (lo + k) ≡ b (lo' + k))
      → slice a lo n ≡ slice b lo' n
  unfolding slice
  slice-ext a b lo lo' zero h = refl
  slice-ext a b lo lo' (suc n) h =
      ap₂ (◌∷◌) (ap a (omega arith) ∙ h 0 (omega arith) ∙ ap b (omega arith)) (
        slice-ext a b (suc lo) (suc lo') n
          λ k lt. ap a (omega arith) ∙ h (suc k) (omega arith) ∙ ap b (omega arith))

  pub slice-add : (a : ℕ → A) (lo m n : ℕ) → slice a lo (m + n) ≡ slice a lo m ++ slice a (lo + m) n
  unfolding slice
  slice-add a lo zero n = ap₂ (slice a) (omega arith) (omega arith)
  slice-add a lo (suc m) n = rw (add_suc_left m n) (
      ap (◌∷◌ (a lo))
        (slice-add a (suc lo) m n ∙ ap (λ k. slice a (suc lo) m ++ slice a k n) (omega arith)))

  pub take-slice : (a : ℕ → A) (lo m n : ℕ) → m ≤ n → take m (slice a lo n) ≡ slice a lo m
  unfolding slice
  take-slice a lo zero n h = refl
  take-slice a lo (suc m) zero h = absurd (omega arith)
  take-slice a lo (suc m) (suc n) h = ap (◌∷◌ (a lo)) (take-slice a (suc lo) m n (omega arith))

  pub drop-slice :
      (a : ℕ → A) (lo m n : ℕ) → m ≤ n → drop m (slice a lo n) ≡ slice a (lo + m) (n - m)
  unfolding slice
  drop-slice a lo zero n h = ap₂ (slice a) (omega arith) (omega arith)
  drop-slice a lo (suc m) zero h = absurd (omega arith)
  drop-slice a lo (suc m) (suc n) h =
      drop-slice a (suc lo) m n (omega arith) ∙ ap₂ (slice a) (omega arith) (omega arith)

  pub memmove_in :
      (a : ℕ → A) (dst src n k : ℕ) → k < n → memmove a dst src n (dst + k) ≡ a (src + k)
  memmove_in a dst src n k h =
      let inside : (leb dst (dst + k) && ltb (dst + k) (dst + n)) ≡ true = ground arith in
      if_true _ _ _ inside ∙ ap a (omega arith)

  pub memmove_below : (a : ℕ → A) (dst src n j : ℕ) → j < dst → memmove a dst src n j ≡ a j
  memmove_below a dst src n j h =
      let outside : (leb dst j && ltb j (dst + n)) ≡ false = ground arith in if_false _ _ _ outside

  pub memmove_above : (a : ℕ → A) (dst src n j : ℕ) → dst + n ≤ j → memmove a dst src n j ≡ a j
  memmove_above a dst src n j h =
      let outside : (leb dst j && ltb j (dst + n)) ≡ false = ground arith in if_false _ _ _ outside

  pub update_self : (a : ℕ → A) (i : ℕ) (v : A) → update a i v i ≡ v
  update_self a i v = if_true _ _ _ (eq→== i i refl)

  pub update_ne : (a : ℕ → A) (i j : ℕ) (v : A) → i ≢ j → update a i v j ≡ a j
  update_ne a i j v h = if_false _ _ _ (ne→== i j h)

  pub take-slice_all : (a : ℕ → A) (lo m n : ℕ) → n ≤ m → take m (slice a lo n) ≡ slice a lo n
  unfolding slice
  take-slice_all a lo zero zero h = refl
  take-slice_all a lo (suc m) zero h = refl
  take-slice_all a lo zero (suc n) h = absurd (omega arith)
  take-slice_all a lo (suc m) (suc n) h =
      ap (◌∷◌ (a lo)) (take-slice_all a (suc lo) m n (omega arith))
