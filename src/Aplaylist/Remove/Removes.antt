-- ===== src/Aplaylist/Remove/Removes.antt =====
-- `pls_remove` on a playlist whose pool is empty or holds the clip, and in visual order.
use mafw.Common.{
  ℕ, suc, ◌+◌, ◌-◌, ◌≤◌, ◌<◌, ◌≡◌, refl, ◌∙◌, sym, ap, ap₂, inl, inr, ◌⊎◌, true, false, ◌++◌, arith,
  ltb, ◌==◌, if◌then◌else◌, for, lt-cases, Bool-cases, if_true, if_false, ge→ltb, lt→leb_ne, le→leb,
  memmove_in, memmove_below, memmove, slice, slice-ext, slice-add, take-slice, drop-slice,
}
use mafw.Aplaylist.Types.{Text, Pls}
use mafw.Aplaylist.Edit.{renumber, close_order, remove_refs, close_items, drop_last, pls_remove}
use mafw.Aplaylist.Valid.{IsInverse, IsValid, items, remove_at}
use mafw.Aplaylist.Remove.Order.{renumber_lem, Takes, Takes-IsInverse, close_below, close_moved}

abbrev pub new_order : ℕ → ℕ → ℕ → (ℕ → ℕ) → (ℕ → ℕ) → ℕ → ℕ
new_order idx poolst len p q = close_order (q idx) poolst len (for (renumber idx) 0 len p)

module _ (idx poolst len : ℕ) (p q : ℕ → ℕ) (v : IsInverse len p q) (idx_lt : idx < len) where
  -- The clip is in the pool: the last one takes its place.
  pool_Takes : poolst ≤ q idx → Takes idx len p q (new_order idx poolst len p q)
  unfolding close_order
  pool_Takes pool =
      let opx = v.iidx_lt idx idx_lt in
      let r = for (renumber idx) 0 len p in
      let branch = ge→ltb (q idx) poolst pool in
      record {
        from = λ i. if i == q idx then len - 1 else i;
        to = λ j. if j == len - 1 then q idx else j;
        from_lt = λ i a. ground arith;
        from_ne = λ i a. ground arith;
        to_from = λ i a. ground arith;
        to_lt = λ j a b. ground arith;
        from_to = λ j a b. ground arith;
        taken = λ i a. ground (
          arith,
          branch,
          renumber_lem idx len p i (omega arith),
          renumber_lem idx len p (len - 1) (omega arith),
        );
      }

  -- All clips are drawn: those behind it move down.
  drawn_Takes : poolst ≡ len → Takes idx len p q (new_order idx poolst len p q)
  drawn_Takes all =
      let opx = v.iidx_lt idx idx_lt in
      let r = for (renumber idx) 0 len p in
      let drawn : q idx < poolst = omega arith in
      record {
        from = λ i. if ltb i (q idx) then i else i + 1;
        to = λ j. if ltb j (q idx) then j else j - 1;
        from_lt = λ i a. ground arith;
        from_ne = λ i a. ground arith;
        to_from = λ i a. ground arith;
        to_lt = λ j a b. ground arith;
        from_to = λ j a b. ground arith;
        taken = λ i a. elim (lt-cases i (q idx)) [
          | inl b ↦ ground (
            arith,
            close_below (q idx) poolst len r drawn i b,
            renumber_lem idx len p i (omega arith),
          )
          | inr b ↦ ground (
            arith,
            close_moved (q idx) poolst len r drawn i b (omega arith),
            renumber_lem idx len p (i + 1) (omega arith),
          )
        ];
      }

-- `q` is `p` without the clip `idx`.
pub record Removes (p : Pls) (idx : ℕ) (q : Pls) : Type 0 where
  pub valid : IsValid q
  pub contents : items q ≡ remove_at idx (items p)
  pub is_dirty : q.dirty ≡ true
  pub shuffled_eq : q.shuffled ≡ p.shuffled
  pub repeat_eq : q.repeat ≡ p.repeat

pub remove_items :
    (a : ℕ → Text) (idx len : ℕ)
    → idx < len
    → slice (memmove a idx (idx + 1) (len - idx - 1)) 0 (len - 1) ≡ remove_at idx (slice a 0 len)
remove_items a idx len lt =
    let b = memmove a idx (idx + 1) (len - idx - 1) in
    let rest = len - idx - 1 in
    ap (slice b 0) (omega arith)
    ∙ slice-add b 0 idx rest
    ∙ ap₂ (◌++◌)
        (slice-ext b a 0 0 idx (λ k h. memmove_below a idx (idx + 1) rest (0 + k) (omega arith))
          ∙ sym (take-slice a 0 idx len (omega arith)))
        (slice-ext b a (0 + idx) (0 + suc idx) rest
            (λ k h. ap b (omega arith) ∙ memmove_in a idx (idx + 1) rest k h ∙ ap a (omega arith))
          ∙ ap (slice a (0 + suc idx)) (omega arith)
          ∙ sym (drop-slice a 0 (suc idx) len (omega arith)))

module _ (timer : ℕ) (p : Pls) (idx : ℕ) (lt : idx < p.len) where
  pub pls_remove_shuffled :
      p.shuffled ≡ true
      → pls_remove timer p idx ≡ (drop_last timer (remove_refs (close_items p idx) idx), true)
  unfolding pls_remove
  pls_remove_shuffled s =
      if_false _ _ _ (lt→leb_ne idx p.len lt)
      ∙ ap (λ r. (drop_last timer r, true)) (if_true p.shuffled _ _ s)

  pls_remove_in_order :
      p.shuffled ≡ false → pls_remove timer p idx ≡ (drop_last timer (close_items p idx), true)
  unfolding pls_remove
  pls_remove_in_order s =
      if_false _ _ _ (lt→leb_ne idx p.len lt)
      ∙ ap (λ r. (drop_last timer r, true)) (if_false p.shuffled _ _ s)

  -- Any order of what is left makes the playlist valid.
  shuffled-Removes :
      IsValid p
      → p.shuffled ≡ true
      → Takes idx p.len p.pidx p.iidx (new_order idx p.poolst p.len p.pidx p.iidx)
      → Removes p idx (drop_last timer (remove_refs (close_items p idx) idx))
  unfolding drop_last remove_refs close_items
  shuffled-Removes v s t = record {
    valid = record {
      room = omega (arith, v.room);
      small = omega (arith, v.small);
      pool = λ _. ground (arith, v.pool s, (v.order s).iidx_lt idx lt);
      order = λ _. Takes-IsInverse idx p.len p.pidx p.iidx _ (v.order s) lt t;
    };
    contents = remove_items p.vidx idx p.len lt;
    is_dirty = refl;
    shuffled_eq = refl;
    repeat_eq = refl;
  }

  in_order-Removes :
      IsValid p → p.shuffled ≡ false → Removes p idx (drop_last timer (close_items p idx))
  unfolding drop_last close_items
  in_order-Removes v s = record {
    valid = record {
      room = omega (arith, v.room);
      small = omega (arith, v.small);
      pool = λ e. cc;
      order = λ e. cc;
    };
    contents = remove_items p.vidx idx p.len lt;
    is_dirty = refl;
    shuffled_eq = refl;
    repeat_eq = refl;
  }

-- If a valid playlist is not shuffled, or the clip at `idx` is still in the pool, or the pool is empty,
-- then `pls_remove` of that clip returns TRUE: the object id at `idx` is gone, those behind it move
-- down, the playlist is dirty and valid again, and whether it is shuffled and repeats stays.
pub pls_remove-Removes :
    (timer : ℕ) (p : Pls) (idx : ℕ)
    → IsValid p
    → idx < p.len
    → (p.shuffled ≡ false) ⊎ ((p.poolst ≤ p.iidx idx) ⊎ (p.poolst ≡ p.len))
    → (q : Pls) × (pls_remove timer p idx ≡ (q, true)) × Removes p idx q
pls_remove-Removes timer p idx v lt safe = elim (Bool-cases p.shuffled) [
  | inr s ↦ (_, pls_remove_in_order timer p idx lt s, in_order-Removes timer p idx lt v s)
  | inl s ↦
      let o = v.order s in
      (
        _,
        pls_remove_shuffled timer p idx lt s,
        shuffled-Removes timer p idx lt v s (elim safe [
          | inl plain ↦ absurd (ground arith)
          | inr (inl pool) ↦ pool_Takes idx p.poolst p.len p.pidx p.iidx o lt pool
          | inr (inr all) ↦ drawn_Takes idx p.poolst p.len p.pidx p.iidx o lt all
        ]),
      )
]

-- Outside the playlist nothing is removed, and the answer is FALSE.
pub pls_remove_refused :
    (timer : ℕ) (p : Pls) (idx : ℕ) → p.len ≤ idx → pls_remove timer p idx ≡ (p, false)
unfolding pls_remove
pls_remove_refused timer p idx out = if_true _ _ _ (le→leb p.len idx out)
