-- ===== src/Aplaylist/Remove/Order.antt =====
-- What `pls_remove` does to `pidx` and `iidx`.
use mafw.Common.{
  ℕ, suc, ◌+◌, ◌-◌, ◌≤◌, ◌<◌, ◌≡◌, ◌≢◌, refl, ◌∙◌, sym, ap, arith, ltb, if◌then◌else◌, memmove,
  memmove_in, memmove_below, memmove_above, if_true, lt→ltb, for, for_inv,
}
use mafw.Aplaylist.Edit.{renumber, relate, close_order}
use mafw.Aplaylist.Valid.{IsInverse, pidx_inj}

-- The index of a clip after the clip `idx` is gone.
abbrev pub lower : ℕ → ℕ → ℕ
lower idx x = if ltb idx x then x - 1 else x

module _ (idx len : ℕ) (p : ℕ → ℕ) where
  record Renumbered (j : ℕ) (r : ℕ → ℕ) : Type 0 where
    done : (i : ℕ) → i < j → r i ≡ lower idx (p i)
    to_do : (i : ℕ) → j ≤ i → i < len → r i ≡ p i

  renumber_step :
      (j : ℕ) (r : ℕ → ℕ) → j < len → Renumbered j r → Renumbered (suc j) (renumber idx j r)
  unfolding renumber
  renumber_step j r lt h =
      let at = h.to_do j (omega arith) lt in
      record {
        done = λ i a. ground (arith, h.done i, at);
        to_do = λ i a b. ground (arith, h.to_do i (omega arith) b, at);
      }

  pub renumber_lem : (i : ℕ) → i < len → for (renumber idx) 0 len p i ≡ lower idx (p i)
  renumber_lem i lt =
      let r : Renumbered len (for (renumber idx) 0 len p) =
        for_inv (renumber idx) Renumbered 0 len len p (omega arith)
          (λ j r _ lt h. renumber_step j r lt h)
          (record { done = λ i a. absurd (omega arith); to_do = λ i a b. refl }) in
      r.done i lt

-- The last loop makes `iidx` a left inverse of an order without repetitions.
pub relate_lem :
    (m : ℕ) (o q : ℕ → ℕ)
    → ((i j : ℕ) → i < m → j < m → o i ≡ o j → i ≡ j)
    → (i : ℕ) → i < m
    → for (relate o) 0 m q (o i) ≡ i
unfolding relate
relate_lem m o q inj =
    for_inv (relate o) (λ j (f : ℕ → ℕ). (i : ℕ) → i < j → f (o i) ≡ i) 0 m m q (omega arith)
      (λ j f _ lt h i a. ground (arith, h i, inj j i lt (omega arith))) λ i a. absurd (omega arith)

-- A new order that takes each old place but the one of `idx`, renumbered, is a permutation again.
-- `from i` is the old place of what stands at `i`, and `to` its inverse.
pub record Takes (idx len : ℕ) (p q o : ℕ → ℕ) : Type 0 where
  pub from : ℕ → ℕ
  pub to : ℕ → ℕ
  pub from_lt : (i : ℕ) → i < len - 1 → from i < len
  pub from_ne : (i : ℕ) → i < len - 1 → from i ≢ q idx
  pub to_from : (i : ℕ) → i < len - 1 → to (from i) ≡ i
  pub to_lt : (j : ℕ) → j < len → j ≢ q idx → to j < len - 1
  pub from_to : (j : ℕ) → j < len → j ≢ q idx → from (to j) ≡ j
  pub taken : (i : ℕ) → i < len - 1 → o i ≡ lower idx (p (from i))

module _ (idx len : ℕ) (p q o : ℕ → ℕ) (v : IsInverse len p q) (idx_lt : idx < len)
    (t : Takes idx len p q o) where
  ne_idx : (i : ℕ) → i < len - 1 → p (t.from i) ≢ idx
  ne_idx i a e = t.from_ne i a (sym (v.iidx_pidx (t.from i) (t.from_lt i a)) ∙ ap q e)

  o_inj : (i j : ℕ) → i < len - 1 → j < len - 1 → o i ≡ o j → i ≡ j
  o_inj i j a b e =
      let same : p (t.from i) ≡ p (t.from j) =
        ground (arith, t.taken i a, t.taken j b, ne_idx i a, ne_idx j b) in
      let place = pidx_inj len p q v (t.from i) (t.from j) (t.from_lt i a) (t.from_lt j b) same in
      sym (t.to_from i a) ∙ ap t.to place ∙ t.to_from j b

  -- The old index of a clip, and its new place.
  raise : ℕ → ℕ
  raise x = if ltb x idx then x else x + 1

  place : ℕ → ℕ
  place x = t.to (q (raise x))

  raise_ne : (x : ℕ) → x < len - 1 → q (raise x) ≢ q idx
  unfolding raise
  raise_ne x a e =
      let back = v.pidx_iidx (raise x) (ground arith) in
      let other : raise x ≢ idx = ground arith in other (sym back ∙ ap p e ∙ v.pidx_iidx idx idx_lt)

  raise_lt : (x : ℕ) → x < len - 1 → q (raise x) < len
  unfolding raise
  raise_lt x a = v.iidx_lt (raise x) (ground arith)

  place_lt : (x : ℕ) → x < len - 1 → place x < len - 1
  unfolding place
  place_lt x a = t.to_lt (q (raise x)) (raise_lt x a) (raise_ne x a)

  o_place : (x : ℕ) → x < len - 1 → o (place x) ≡ x
  unfolding place raise
  o_place x a =
      t.taken (place x) (place_lt x a)
      ∙ ap (λ j. lower idx (p j)) (t.from_to (q (raise x)) (raise_lt x a) (raise_ne x a))
      ∙ ap (lower idx) (v.pidx_iidx (raise x) (ground arith))
      ∙ ground arith

  pub Takes-IsInverse : IsInverse (len - 1) o (for (relate o) 0 (len - 1) q)
  Takes-IsInverse =
      let back = relate_lem (len - 1) o q o_inj in
      record {
        pidx_lt =
            λ i a. ground (arith, t.taken i a, ne_idx i a, v.pidx_lt (t.from i) (t.from_lt i a));
        iidx_lt = λ x a. omega (
          arith,
          place_lt x a,
          ap (for (relate o) 0 (len - 1) q) (sym (o_place x a)),
          back (place x) (place_lt x a),
        );
        iidx_pidx = back;
        pidx_iidx = λ x a.
            ap o (
              ap (for (relate o) 0 (len - 1) q) (sym (o_place x a)) ∙ back (place x) (place_lt x a))
            ∙ o_place x a;
      }

-- `pidx` after a clip that is drawn was taken out of it: what is drawn behind it moves down by
-- one, all else stays.
module _ (opx poolst len : ℕ) (r : ℕ → ℕ) (drawn : opx < poolst) where
  shut : (i : ℕ) → close_order opx poolst len r i ≡ memmove r opx (opx + 1) (poolst - opx - 1) i
  unfolding close_order
  shut i = ap (λ (f : ℕ → ℕ). f i) (if_true _ _ _ (lt→ltb opx poolst drawn))

  pub close_below : (i : ℕ) → i < opx → close_order opx poolst len r i ≡ r i
  close_below i h = shut i ∙ memmove_below r opx (opx + 1) (poolst - opx - 1) i h

  pub close_moved : (i : ℕ) → opx ≤ i → i + 1 < poolst → close_order opx poolst len r i ≡ r (i + 1)
  close_moved i a b =
      let here : opx + (i - opx) ≡ i = omega arith in
      ap (close_order opx poolst len r) (sym here)
      ∙ shut (opx + (i - opx))
      ∙ memmove_in r opx (opx + 1) (poolst - opx - 1) (i - opx) (omega arith)
      ∙ ap r (omega arith)

  pub close_above : (i : ℕ) → poolst ≤ i + 1 → close_order opx poolst len r i ≡ r i
  close_above i h = shut i ∙ memmove_above r opx (opx + 1) (poolst - opx - 1) i (omega arith)
