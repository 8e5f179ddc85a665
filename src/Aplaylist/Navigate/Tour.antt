-- ===== src/Aplaylist/Navigate/Tour.antt =====
-- Playing a playlist to its end: every clip comes once.
use mafw.Common.{
  ℕ, suc, ◌-◌, ◌<◌, ◌≡◌, refl, ◌∙◌, subst, sym, ap, ap₂, true, false, List, some, inl, inr, arith,
  ◌==◌, if◌then◌else◌, slice, length, length-slice, count, count_once, if_true, if_false, if_elim,
  Bool-cases, ne→==,
}
use mafw.Aplaylist.Types.{Pls}
use mafw.Aplaylist.Play.{Random, InRange, clip_at, shuffle_elements, pls_get_starting}
use mafw.Aplaylist.Valid.{IsInverse, IsValid}
use mafw.Aplaylist.Draw.{Drawn, Drawn-refl, Drawn-trans, shuffle_elements_some}
use mafw.Aplaylist.Navigate.Visit.{
  At, VisitsAll, Played, play_all, start, visit, visit_shuffled, visit_in_order,
}

module _ (rands : ℕ → Random) (range : (k : ℕ) → InRange (rands k)) where
  -- The first clip is drawn, at position 0.
  start_At :
      (n : ℕ) (p : Pls)
      → IsValid p
      → p.shuffled ≡ true
      → p.repeat ≡ false
      → p.len ≡ suc n
      → let q = if p.poolst == 0 then shuffle_elements (rands p.len) p 1 else p in
        At n q (q.pidx 0) × Drawn p q × (q.iidx (q.pidx 0) ≡ 0)
  start_At n p v s nr size =
      if_elim (λ q. At n q (q.pidx 0) × Drawn p q × (q.iidx (q.pidx 0) ≡ 0)) (p.poolst == 0)
        (λ z.
          let (d, e) = shuffle_elements_some (rands p.len) (range p.len) p v s 1 (ground arith) in
          first (shuffle_elements (rands p.len) p 1) d (omega arith))
        λ nz. first p (Drawn-refl p v s) (ground arith)
    where
      first :
          (q : Pls)
          → Drawn p q
          → 0 < q.poolst
          → At n q (q.pidx 0) × Drawn p q × (q.iidx (q.pidx 0) ≡ 0)
      first q d more =
          let o = d.valid.order d.shuffled_eq in
          let back = o.iidx_pidx 0 (omega (arith, d.len_eq)) in
          (
            record {
              valid = d.valid;
              shuffled = d.shuffled_eq;
              no_repeat = d.repeat_eq ∙ nr;
              lt = o.pidx_lt 0 (omega (arith, d.len_eq));
              pos = omega arith;
              size = omega (arith, d.len_eq);
            },
            d,
            back,
          )

  Complete : Pls → ℕ → Played → Type 0
  Complete p v r =
      (t : Pls) × (xs : List ℕ) × (r ≡ some (t, xs)) × (length xs ≡ p.len) × (count v xs ≡ 1)

  -- The first `p.len` entries of the order hold `v` once.
  slice-Complete :
      (p t : Pls) (f g : ℕ → ℕ) (v : ℕ)
      → IsInverse p.len f g
      → v < p.len
      → (r : Played) → r ≡ some (t, slice f 0 p.len)
      → Complete p v r
  unfolding Complete
  slice-Complete p t f g v o lt r e = (
    t,
    slice f 0 p.len,
    e,
    length-slice f 0 p.len,
    count_once v (g v) f 0 p.len (omega arith) (omega (arith, o.iidx_lt v lt)) (o.pidx_iidx v lt)
        (λ i _ b same. sym (o.iidx_pidx i (omega arith)) ∙ ap g same),
  )

  identity_IsInverse : (n : ℕ) → IsInverse n (λ k. k) (λ k. k)
  identity_IsInverse n = record {
    pidx_lt = λ _ h. h;
    iidx_lt = λ _ h. h;
    iidx_pidx = λ _ _. refl;
    pidx_iidx = λ _ _. refl;
  }

  module _ (p : Pls) (valid : IsValid p) (no_repeat : p.repeat ≡ false) (n : ℕ)
      (size : p.len ≡ suc n) where
    nonempty : (p.len == 0) ≡ false
    nonempty = ne→== p.len 0 (omega arith)

    play_all_shuffled :
        p.shuffled ≡ true
        → (t : Pls) × Drawn p t × (play_all rands p ≡ some (t, slice t.pidx 0 p.len))
    unfolding play_all pls_get_starting clip_at VisitsAll
    play_all_shuffled s =
        let q = if p.poolst == 0 then shuffle_elements (rands p.len) p 1 else p in
        let (a, d, first) = start_At n p valid s no_repeat size in
        let (t, d', run) = visit_shuffled rands range n q (q.pidx 0) a in
        (
          t,
          Drawn-trans d d',
          ap (start (visit rands p.len)) (if_false _ _ _ nonempty ∙ if_true _ _ _ s)
              ∙ ap (λ k. visit rands k q (q.pidx 0)) size
              ∙ run
              ∙ ap₂ (λ from k. some (t, slice t.pidx from k)) first (sym size),
        )

    play_all_in_order : p.shuffled ≡ false → play_all rands p ≡ some (p, slice (λ k. k) 0 p.len)
    unfolding play_all pls_get_starting clip_at
    play_all_in_order s =
        ap (start (visit rands p.len)) (if_false _ _ _ nonempty ∙ if_false _ _ _ s)
        ∙ ap (λ k. visit rands k p 0) size
        ∙ visit_in_order rands range n p 0 s no_repeat (omega arith)
        ∙ ap (λ k. some (p, slice (λ k. k) 0 k)) (sym size)

    play_all-Complete : (v : ℕ) → v < p.len → Complete p v (play_all rands p)
    play_all-Complete v lt = elim (Bool-cases p.shuffled) [
      | inl s ↦
          let (t, d, e) = play_all_shuffled s in
          let o = subst (λ k. IsInverse k t.pidx t.iidx) d.len_eq (d.valid.order d.shuffled_eq) in
          slice-Complete p t t.pidx t.iidx v o lt _ e
      | inr s ↦
          slice-Complete p p (λ k. k) (λ k. k) v (identity_IsInverse p.len) lt _
            (play_all_in_order s)
    ]

  -- Without the repeat mode, a client that starts with `pls_get_starting` and goes on with
  -- `pls_get_next` comes to an end after `len` clips, and each clip of the playlist has been played
  -- exactly once, in a shuffled playlist too and whatever the random numbers are.
  pub play_all_once :
      (p : Pls) (v : ℕ)
      → IsValid p
      → p.repeat ≡ false
      → v < p.len
      → (t : Pls) × (xs : List ℕ) × (play_all rands p ≡ some (t, xs))
        × (length xs ≡ p.len)
        × (count v xs ≡ 1)
  unfolding Complete
  play_all_once p v valid no_repeat lt =
      play_all-Complete p valid no_repeat (p.len - 1) (omega arith) v lt
