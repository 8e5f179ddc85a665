-- ===== src/Aplaylist/Navigate/Prev.antt =====
-- `pls_get_prev` on a shuffled playlist.
use mafw.Common.{
  ℕ, ◌-◌, ◌<◌, ◌≡◌, refl, ◌∙◌, true, Option, none, some, inl, inr, arith, ltb, ap, ◌==◌, ltb→lt,
  ltb→ge, if_elim,
}
use mafw.Aplaylist.Types.{Pls}
use mafw.Aplaylist.Play.{
  Random, InRange, Clip, clip_at, shuffle_elements, shuffle_current, pls_get_last, prev_drawn,
}
use mafw.Aplaylist.Valid.{IsValid}
use mafw.Aplaylist.Draw.{
  Drawn, Drawn-refl, Drawn-trans, Drawn-position, shuffle_elements_all, shuffle_current_lem,
}
use mafw.Aplaylist.Navigate.Relations.{Follows, PrevShuffled}

module _ (rand : Random) (range : InRange rand) where
  -- From a playlist in which `index` is drawn.
  module _ (p : Pls) (index : ℕ) (v : IsValid p) (s : p.shuffled ≡ true) (lt : index < p.len) where
    last_wrap :
        p.iidx index < p.poolst
        → p.iidx index ≡ 0
        → p.repeat ≡ true
        → let q = shuffle_elements rand p p.len in Follows p (q.pidx (q.len - 1)) q index
    last_wrap pos first r =
        let (d, e) = shuffle_elements_all rand range p v s p.len (omega arith) in
        let q = shuffle_elements rand p p.len in
        let o = d.valid.order d.shuffled_eq in
        let same = Drawn-position index v s d lt pos in
        let back = o.iidx_pidx (q.len - 1) (omega (arith, d.len_eq)) in
        record {
          drawn = d;
          index_lt = omega (arith, o.pidx_lt (q.len - 1) (omega (arith, d.len_eq)), d.len_eq);
          j_lt = lt;
          index_pos = omega (arith, d.len_eq);
          j_pos = omega arith;
          after = inr (r, omega arith, omega (arith, d.len_eq), e);
        }

    prev_drawn-PrevShuffled :
        p.iidx index < p.poolst → PrevShuffled p index (prev_drawn rand p index)
    unfolding prev_drawn clip_at pls_get_last
    prev_drawn-PrevShuffled pos =
        let o = v.order s in
        let back = o.iidx_pidx (p.iidx index - 1) in
        if_elim (PrevShuffled p index) (ltb 0 (p.iidx index))
          (λ h.
            let more = ltb→lt _ _ h in
            (
              record {
                drawn = Drawn-refl p v s;
                index_lt = o.pidx_lt (p.iidx index - 1) (omega (arith, o.iidx_lt index lt));
                j_lt = lt;
                index_pos = omega (arith, back (omega (arith, o.iidx_lt index lt)));
                j_pos = pos;
                after = inl (omega (arith, back (omega (arith, o.iidx_lt index lt))));
              },
              refl,
            ))
          λ h.
            let first = ltb→ge _ _ h in
            if_elim (PrevShuffled p index) p.repeat
              (λ r.
                if_elim (PrevShuffled p index) (p.len == 0) (λ z. absurd (ground arith))
                  λ _.
                    if_elim (PrevShuffled p index) p.shuffled
                      (λ _. let f = last_wrap pos (omega arith) r in (f, cc f.drawn.vidx_eq))
                      λ n. cc)
              λ r. record {
                drawn = Drawn-refl p v s;
                index_pos = pos;
                first = omega arith;
                no_repeat = r;
              }

    PrevShuffled-after :
        {q : Pls} (r : Pls × Option Clip)
        → Drawn p q
        → PrevShuffled q index r
        → PrevShuffled p index r
    PrevShuffled-after (t, some (j, oid)) d (f, e) = (
      record {
        drawn = Drawn-trans d f.drawn;
        index_lt = omega (arith, f.index_lt, d.len_eq);
        j_lt = lt;
        index_pos = f.index_pos;
        j_pos = f.j_pos;
        after = ground (arith, f.after, d.repeat_eq, d.len_eq);
      },
      e ∙ ap (λ f. f j) d.vidx_eq,
    )
    PrevShuffled-after (t, none) d f = record {
      drawn = Drawn-trans d f.drawn;
      index_pos = f.index_pos;
      first = f.first;
      no_repeat = ground (arith, f.no_repeat, d.repeat_eq);
    }

  pub prev-PrevShuffled :
      (p : Pls) (index : ℕ)
      → IsValid p
      → p.shuffled ≡ true
      → index < p.len
      → PrevShuffled p index (prev_drawn rand (shuffle_current p index) index)
  prev-PrevShuffled p index v s lt =
      let (d, pos, _) = shuffle_current_lem p index v s lt in
      PrevShuffled-after p index v s lt _ d (
        prev_drawn-PrevShuffled (shuffle_current p index) index d.valid d.shuffled_eq
          (omega (arith, d.len_eq)) pos)
