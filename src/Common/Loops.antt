-- ===== src/Common/Loops.antt =====
-- `for (i = lo; i < lo + rounds; i++) body`, and its invariant rule.
use Prim.Native.Nat.{ℕ, zero, suc, ◌+◌, ◌<◌, ◌≤◌}
use mathlib.Core.Path.{◌≡◌, subst}
use native.Mathlib.Omega.{arith}

module _ {ℓ} {S : Type ℓ} (body : ℕ → S → S) where
  unfoldable pub for : ℕ → ℕ → S → S
  for i zero s = s
  for i (suc r) s = for (suc i) r (body i s)

  -- What holds at the first index, and passes from each index to the next, holds at the last.
  pub for_inv {κ} :
      (P : ℕ → S → Type κ) (i r hi : ℕ) (s : S)
      → i + r ≡ hi
      → ((j : ℕ) (t : S) → i ≤ j → j < hi → P j t → P (suc j) (body j t))
      → P i s
      → P hi (for i r s)
  unfolding for
  for_inv P i zero hi s e keep h = subst (λ k. P k s) (omega arith) h
  for_inv P i (suc r) hi s e keep h =
      for_inv P (suc i) r hi (body i s) (omega arith) (λ j t a b. keep j t (omega arith) b)
        (keep i s (omega arith) (omega arith) h)
