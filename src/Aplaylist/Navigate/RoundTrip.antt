-- ===== src/Aplaylist/Navigate/RoundTrip.antt =====
-- Each of `pls_get_next` and `pls_get_prev` undoes the other.
use mafw.Common.{
  ℕ, ◌+◌, ◌-◌, ◌<◌, ◌≡◌, ◌∙◌, subst, sym, true, false, List, some, inl, inr, arith, ap,
  if◌then◌else◌, ltb, if_true, if_false, lt→ltb, ge→ltb, lt→leb_ne, ne→==, for, sub_u32, Bool-cases,
}
use mafw.Aplaylist.Types.{Pls}
use mafw.Aplaylist.Play.{
  Random, InRange, shuffle_one, clip_at, shuffle_elements, shuffle_current, pls_get_last,
  next_in_order, next_from_pool, next_shuffled, pls_get_next, prev_in_order, prev_drawn,
  pls_get_prev,
}
use mafw.Aplaylist.Valid.{IsValid}
use mafw.Aplaylist.Draw.{shuffle_current_drawn}
use mafw.Aplaylist.Navigate.Relations.{Follows, NextShuffled, PrevShuffled}
use mafw.Aplaylist.Navigate.Next.{next_shuffled-NextShuffled}
use mafw.Aplaylist.Navigate.Prev.{prev-PrevShuffled}

-- With an empty pool there is nothing to draw.
shuffle_elements_full :
    (rand : Random) (p : Pls) (amount : ℕ) → p.poolst ≡ p.len → shuffle_elements rand p amount ≡ p
unfolding shuffle_elements for
shuffle_elements_full rand p amount e =
    let none_left : sub_u32 p.len p.poolst ≡ 0 = omega arith in
    let rounds : (if ltb (sub_u32 p.len p.poolst) amount then sub_u32 p.len p.poolst else amount)
        ≡ 0 =
      ground (arith, none_left) in
    ap (λ n. for (shuffle_one rand) 0 n p) rounds

-- Two clips that follow one another in `q` are found from each other, and `q` stays as it is.
module _ (rand : Random) (p : Pls) (a : ℕ) (q : Pls) (b : ℕ) (f : Follows p a q b) where
  next_of_Follows : next_shuffled rand q a ≡ (q, some (b, q.vidx b))
  unfolding next_shuffled next_from_pool clip_at
  next_of_Follows =
      let d = f.drawn in
      let o = d.valid.order d.shuffled_eq in
      let b_back = o.pidx_iidx b (omega (arith, f.j_lt, d.len_eq)) in
      elim f.after [
        | inl e ↦
            let here : q.pidx (q.iidx a + 1) ≡ b = ap q.pidx (omega arith) ∙ b_back in
            if_true _ _ _ (lt→ltb (q.iidx a + 1) q.poolst (omega (arith, f.j_pos)))
            ∙ ap (λ k. (q, some (k, q.vidx k))) here
        | inr (r, first, last, all) ↦
            let here : q.pidx 0 ≡ b = ap q.pidx (sym first) ∙ b_back in
            if_false _ _ _ (ge→ltb (q.iidx a + 1) q.poolst (omega arith))
            ∙ ap (next_from_pool rand) (shuffle_current_drawn q a f.index_pos)
            ∙ if_false _ _ _ (ge→ltb q.poolst q.len (omega (arith, d.len_eq)))
            ∙ if_true _ _ _ (d.repeat_eq ∙ r)
            ∙ ap (λ k. (q, some (k, q.vidx k))) here
      ]

  prev_of_Follows : prev_drawn rand (shuffle_current q b) b ≡ (q, some (a, q.vidx a))
  unfolding prev_drawn clip_at pls_get_last
  prev_of_Follows =
      let d = f.drawn in
      let o = d.valid.order d.shuffled_eq in
      let a_back = o.pidx_iidx a (omega (arith, f.index_lt, d.len_eq)) in
      ap (λ t. prev_drawn rand t b) (shuffle_current_drawn q b f.j_pos) ∙ elim f.after [
        | inl e ↦
            let here : q.pidx (q.iidx b - 1) ≡ a = ap q.pidx (omega arith) ∙ a_back in
            if_true _ _ _ (lt→ltb 0 (q.iidx b) (omega arith))
            ∙ ap (λ k. (q, some (k, q.vidx k))) here
        | inr (r, first, last, all) ↦
            let here : q.pidx (q.len - 1) ≡ a = ap q.pidx (omega (arith, d.len_eq)) ∙ a_back in
            let same = shuffle_elements_full rand q q.len (all ∙ sym d.len_eq) in
            if_false _ _ _ (ge→ltb 0 (q.iidx b) (omega arith))
            ∙ if_true _ _ _ (d.repeat_eq ∙ r)
            ∙ if_false _ _ _ (ne→== q.len 0 (omega (arith, d.len_eq)))
            ∙ if_true _ _ _ d.shuffled_eq
            ∙ ap (λ t. (t, some (t.pidx (t.len - 1), t.vidx (t.pidx (t.len - 1))))) same
            ∙ ap (λ k. (q, some (k, q.vidx k))) here
      ]

  Follows_q_lt : (a < q.len) × (b < q.len)
  Follows_q_lt = omega (arith, f.index_lt, f.j_lt, f.drawn.len_eq)

-- In visual order `pls_get_next` and `pls_get_prev` leave the playlist alone.
prev-next_in_order :
    (rand : Random) (p : Pls) (index : ℕ) {q : Pls} {j : ℕ} {oid : List ℕ}
    → p.shuffled ≡ false
    → index < p.len
    → next_in_order p index ≡ (q, some (j, oid))
    → pls_get_prev rand q j ≡ (q, some (index, p.vidx index))
unfolding next_in_order pls_get_prev prev_in_order clip_at
prev-next_in_order rand p index s lt e = ground arith

next-prev_in_order :
    (rand : Random) (p : Pls) (index : ℕ) {q : Pls} {j : ℕ} {oid : List ℕ}
    → p.shuffled ≡ false
    → index < p.len
    → prev_in_order p index ≡ (q, some (j, oid))
    → pls_get_next rand q j ≡ (q, some (index, p.vidx index))
unfolding prev_in_order pls_get_next next_in_order clip_at
next-prev_in_order rand p index s lt e = ground arith

module _ (rand : Random) (p : Pls) (index : ℕ) (lt : index < p.len) where
  pub pls_get_next_shuffled :
      p.shuffled ≡ true → pls_get_next rand p index ≡ next_shuffled rand p index
  unfolding pls_get_next
  pls_get_next_shuffled s = if_false _ _ _ (lt→leb_ne index p.len lt) ∙ if_true _ _ _ s

  pub pls_get_next_in_order : p.shuffled ≡ false → pls_get_next rand p index ≡ next_in_order p index
  unfolding pls_get_next
  pls_get_next_in_order s = if_false _ _ _ (lt→leb_ne index p.len lt) ∙ if_false _ _ _ s

  pub pls_get_prev_shuffled :
      p.shuffled ≡ true
      → pls_get_prev rand p index ≡ prev_drawn rand (shuffle_current p index) index
  unfolding pls_get_prev
  pls_get_prev_shuffled s = if_false _ _ _ (lt→leb_ne index p.len lt) ∙ if_true _ _ _ s

  pub pls_get_prev_in_order : p.shuffled ≡ false → pls_get_prev rand p index ≡ prev_in_order p index
  unfolding pls_get_prev
  pls_get_prev_in_order s = if_false _ _ _ (lt→leb_ne index p.len lt) ∙ if_false _ _ _ s

module _ (rand : Random) (range : InRange rand) (rand' : Random) where
  -- Whenever `pls_get_next` finds a clip after `index`, in a shuffled playlist or not and also when
  -- it starts over by the repeat mode, `pls_get_prev` from that clip gives `index` and its object
  -- id back, whatever random numbers it gets, and leaves the playlist as `pls_get_next` left it.
  pub pls_get_prev-pls_get_next :
      (p : Pls) (index : ℕ) {q : Pls} {j : ℕ} {oid : List ℕ}
      → IsValid p
      → index < p.len
      → pls_get_next rand p index ≡ (q, some (j, oid))
      → pls_get_prev rand' q j ≡ (q, some (index, p.vidx index))
  pls_get_prev-pls_get_next p index {q} {j} {oid} v lt e = elim (Bool-cases p.shuffled) [
    | inl s ↦
        let found =
          subst (NextShuffled p index) (sym (pls_get_next_shuffled rand p index lt s) ∙ e)
            (next_shuffled-NextShuffled rand range p index v s lt) in
        let d = found.0.drawn in
        pls_get_prev_shuffled rand' q j (Follows_q_lt rand' p index q j found.0).1 d.shuffled_eq
        ∙ prev_of_Follows rand' p index q j found.0
        ∙ ap (λ f. (q, some (index, f index))) d.vidx_eq
    | inr s ↦
        prev-next_in_order rand' p index s lt (sym (pls_get_next_in_order rand p index lt s) ∙ e)
  ]

  -- Whenever `pls_get_prev` finds a clip before `index`, `pls_get_next` from that clip gives
  -- `index` and its object id back, in every mode and whatever random numbers it gets, and leaves
  -- the playlist as `pls_get_prev` left it.
  pub pls_get_next-pls_get_prev :
      (p : Pls) (index : ℕ) {q : Pls} {j : ℕ} {oid : List ℕ}
      → IsValid p
      → index < p.len
      → pls_get_prev rand p index ≡ (q, some (j, oid))
      → pls_get_next rand' q j ≡ (q, some (index, p.vidx index))
  pls_get_next-pls_get_prev p index {q} {j} {oid} v lt e = elim (Bool-cases p.shuffled) [
    | inl s ↦
        let found =
          subst (PrevShuffled p index) (sym (pls_get_prev_shuffled rand p index lt s) ∙ e)
            (prev-PrevShuffled rand range p index v s lt) in
        let d = found.0.drawn in
        pls_get_next_shuffled rand' q j (Follows_q_lt rand' p j q index found.0).0 d.shuffled_eq
        ∙ next_of_Follows rand' p j q index found.0
        ∙ ap (λ f. (q, some (index, f index))) d.vidx_eq
    | inr s ↦
        next-prev_in_order rand' p index s lt (sym (pls_get_prev_in_order rand p index lt s) ∙ e)
  ]
