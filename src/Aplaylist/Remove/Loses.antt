-- ===== src/Aplaylist/Remove/Loses.antt =====
-- `pls_remove` of a clip that is drawn, while the pool holds others: the pool is not moved.
use mafw.Common.{
  ok, ℕ, suc, ◌+◌, ◌-◌, ◌<◌, ◌≡◌, ◌≢◌, ◌∙◌, sym, ap, inl, inr, ◌⊎◌, true, arith, ltb, if◌then◌else◌,
  for, lt-cases, count, count_absent, slice,
}
use mafw.Aplaylist.Types.{Pls}
use mafw.Aplaylist.Edit.{renumber, close_items, remove_refs, drop_last, pls_remove}
use mafw.Aplaylist.Valid.{IsValid, pidx_inj}
use mafw.Aplaylist.Check.{pls_check, pls_check_missing}
use mafw.Aplaylist.Remove.Order.{lower, renumber_lem, close_below, close_moved, close_above}
use mafw.Aplaylist.Remove.Removes.{new_order, pls_remove_shuffled}

-- The clip that was last in the order, by its index after the removal.
abbrev pub last_clip : Pls → ℕ → ℕ
last_clip p idx = lower idx (p.pidx (p.len - 1))

module _ (p : Pls) (idx : ℕ) (v : IsValid p) (lt : idx < p.len) (s : p.shuffled ≡ true)
    (drawn : p.iidx idx < p.poolst) (pool : p.poolst < p.len)
    (apart : (suc (p.iidx idx) < p.poolst) ⊎ (p.pidx (p.len - 1) ≢ suc idx)) where
  -- The old place of what stands at `i` after the removal.
  source : ℕ → ℕ
  source i = if ltb i (p.iidx idx) then i else if ltb (i + 1) p.poolst then i + 1 else i

  order_source :
      (i : ℕ)
      → i < p.len - 1
      → new_order idx p.poolst p.len p.pidx p.iidx i ≡ lower idx (p.pidx (source i))
  unfolding source
  order_source i a =
      let r = for (renumber idx) 0 p.len p.pidx in
      elim (lt-cases i (p.iidx idx)) [
        | inl b ↦ ground (
          arith,
          close_below (p.iidx idx) p.poolst p.len r drawn i b,
          renumber_lem idx p.len p.pidx i (omega arith),
        )
        | inr b ↦ elim (lt-cases (i + 1) p.poolst) [
          | inl c ↦ ground (
            arith,
            close_moved (p.iidx idx) p.poolst p.len r drawn i b c,
            renumber_lem idx p.len p.pidx (i + 1) (omega arith),
          )
          | inr c ↦ ground (
            arith,
            close_above (p.iidx idx) p.poolst p.len r drawn i c,
            renumber_lem idx p.len p.pidx i (omega arith),
          )
        ]
      ]

  source_lt : (i : ℕ) → i < p.len - 1 → source i < p.len - 1
  unfolding source
  source_lt i a = ground arith

  -- The place of the removed clip is only read if it was the last one drawn.
  source_idx : (i : ℕ) → source i ≡ p.iidx idx → suc (p.iidx idx) ≡ p.poolst
  unfolding source
  source_idx i e = ground arith

  last_ne : p.pidx (p.len - 1) ≢ idx
  last_ne h =
      let place = sym ((v.order s).iidx_pidx (p.len - 1) (omega arith)) ∙ ap p.iidx h in
      absurd (omega arith)

  last_clip_lt : last_clip p idx < p.len - 1
  last_clip_lt = ground (arith, last_ne, (v.order s).pidx_lt (p.len - 1) (omega arith))

  -- No place holds the clip that was last.
  order_misses :
      (i : ℕ) → i < p.len - 1 → new_order idx p.poolst p.len p.pidx p.iidx i ≢ last_clip p idx
  order_misses i a e =
      let o = v.order s in
      let x = p.pidx (source i) in
      let y = p.pidx (p.len - 1) in
      let same : lower idx x ≡ lower idx y = sym (order_source i a) ∙ e in
      let differ : x ≢ y = λ h. absurd (
        omega (
          arith,
          source_lt i a,
          pidx_inj p.len p.pidx p.iidx o (source i) (p.len - 1) (omega (arith, source_lt i a))
              (omega arith) h,
        )) in
      let y_ne = last_ne in
      let x_eq : x ≡ idx = ground arith in
      let place : source i ≡ p.iidx idx =
        sym (o.iidx_pidx (source i) (omega (arith, source_lt i a))) ∙ ap p.iidx x_eq in
      ground (arith, source_idx i place)

  -- If a clip that is drawn is removed while the pool holds others, `pls_remove` returns TRUE, but
  -- the clip that was last in the order has no place in it any more, so that it is never played,
  -- and the playlist does not pass `pls_check`. It must not be the clip drawn last, or the last clip of
  -- the order must not be the next one in the playlist.
  pub pls_remove_loses :
      (timer : ℕ)
      → (q : Pls) × (pls_remove timer p idx ≡ (q, true))
        × (last_clip p idx < q.len)
        × (count (last_clip p idx) (slice q.pidx 0 q.len) ≡ 0)
        × (pls_check q ≢ ok true)
  unfolding drop_last remove_refs close_items
  pls_remove_loses timer =
      let q = drop_last timer (remove_refs (close_items p idx) idx) in
      (
        q,
        pls_remove_shuffled timer p idx lt s,
        last_clip_lt,
        count_absent (last_clip p idx) q.pidx 0 q.len (λ i _ b. order_misses i (omega arith)),
        pls_check_missing q (last_clip p idx) s last_clip_lt order_misses,
      )
