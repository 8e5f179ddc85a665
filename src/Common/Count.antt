-- ===== src/Common/Count.antt =====
-- How often a number occurs in a list or in a part of an array.
use Prim.Native.Nat.{ℕ, zero, suc, ◌+◌, ◌<◌, ◌≤◌}
use mathlib.Core.Path.{◌≡◌, refl, ap, subst, ◌∙◌}
use mathlib.Core.Logic.{◌≢◌, inl, inr}
use mathlib.Core.List.{List, [], ◌∷◌}
use native.Mathlib.Omega.{arith}
use mafw.Common.Tests.{◌==◌, if◌then◌else◌, ltb, eq-cases, ne→==}
use mafw.Common.Arrays.{slice}

abbrev pub count : ℕ → List ℕ → ℕ
count v [] = 0
count v (x ∷ xs) = (if x == v then 1 else 0) + count v xs

pub count_absent :
    (v : ℕ) (f : ℕ → ℕ) (lo n : ℕ)
    → ((i : ℕ) → lo ≤ i → i < lo + n → f i ≢ v)
    → count v (slice f lo n) ≡ 0
unfolding slice
count_absent v f lo zero h = refl
count_absent v f lo (suc n) h =
    let head = ne→== (f lo) v (h lo (omega arith) (omega arith)) in
    ground (arith, head, count_absent v f (suc lo) n (λ i a b. h i (omega arith) (omega arith)))

-- `w` is the one place of `v`.
pub count_once :
    (v w : ℕ) (f : ℕ → ℕ) (lo n : ℕ)
    → lo ≤ w
    → w < lo + n
    → f w ≡ v
    → ((i : ℕ) → lo ≤ i → i < lo + n → f i ≡ v → i ≡ w)
    → count v (slice f lo n) ≡ 1
unfolding slice
count_once v w f lo zero a b at only = absurd (omega arith)
count_once v w f lo (suc n) a b at only = elim (eq-cases lo w) [
  | inl e ↦
      let hit = ap f e ∙ at in
      let rest =
        count_absent v f (suc lo) n
          λ i c d same. absurd (omega (arith, only i (omega arith) (omega arith) same)) in
      ground (arith, hit, rest)
  | inr ne ↦
      let miss = ne→== (f lo) v (λ same. ne (only lo (omega arith) (omega arith) same)) in
      ground (
        arith,
        miss,
        count_once v w f (suc lo) n (omega arith) (omega arith) at
            (λ i c d same. only i (omega arith) (omega arith) same),
      )
]

-- The sum of `g` below `m`, and the numbers of a list that are not below `m`.
unfoldable sum : ℕ → (ℕ → ℕ) → ℕ
sum zero g = 0
sum (suc m) g = sum m g + g m

unfoldable outside : ℕ → List ℕ → ℕ
outside m [] = 0
outside m (x ∷ xs) = (if ltb x m then 0 else 1) + outside m xs

sum_hit :
    (x m : ℕ) (g : ℕ → ℕ)
    → sum m (λ v. (if x == v then 1 else 0) + g v) ≡ (if ltb x m then 1 else 0) + sum m g
unfolding sum
sum_hit x zero g = ground arith
sum_hit x (suc m) g = ground (arith, sum_hit x m g)

sum_zero : (m : ℕ) → sum m (λ v. 0) ≡ 0
unfolding sum
sum_zero zero = refl
sum_zero (suc m) = omega (arith, sum_zero m)

sum_ones : (m : ℕ) (g : ℕ → ℕ) → ((v : ℕ) → v < m → g v ≡ 1) → sum m g ≡ m
unfolding sum
sum_ones zero g h = refl
sum_ones (suc m) g h = omega (arith, sum_ones m g (λ v lt. h v (omega arith)), h m (omega arith))

sum_count :
    (m : ℕ) (f : ℕ → ℕ) (lo n : ℕ)
    → sum m (λ v. count v (slice f lo n)) + outside m (slice f lo n) ≡ n
unfolding slice outside
sum_count m f lo zero = omega (arith, sum_zero m)
sum_count m f lo (suc n) =
    ground (arith, sum_hit (f lo) m (λ v. count v (slice f (suc lo) n)), sum_count m f (suc lo) n)

outside_none :
    (m : ℕ) (f : ℕ → ℕ) (lo n i : ℕ) → outside m (slice f lo n) ≡ 0 → lo ≤ i → i < lo + n → f i < m
unfolding slice outside
outside_none m f lo zero i e a b = absurd (omega arith)
outside_none m f lo (suc n) i e a b = elim (eq-cases lo i) [
  | inl same ↦ subst (λ k. f k < m) same (ground arith)
  | inr ne ↦ outside_none m f (suc lo) n i (ground arith) (omega arith) (omega arith)
]

-- If the `n` entries hold each number below `n` once, they hold no others.
pub count_full :
    (f : ℕ → ℕ) (n : ℕ) → ((v : ℕ) → v < n → count v (slice f 0 n) ≡ 1) → (i : ℕ) → i < n → f i < n
count_full f n once i lt =
    outside_none n f 0 n i
      (omega (arith, sum_count n f 0 n, sum_ones n (λ v. count v (slice f 0 n)) once)) (omega arith)
      (omega arith)
