-- ===== src/Aplaylist/Navigate/Next.antt =====
-- `pls_get_next` on a shuffled playlist.
use mafw.Common.{
  ℕ, suc, ◌+◌, ◌-◌, ◌≤◌, ◌<◌, ◌≡◌, refl, ◌∙◌, true, Option, none, some, inl, inr, arith, ltb, ap,
  ltb→lt, ltb→ge, if_elim,
}
use mafw.Aplaylist.Types.{Pls}
use mafw.Aplaylist.Play.{
  Random, InRange, Clip, clip_at, shuffle_elements, shuffle_current, next_from_pool, next_shuffled,
}
use mafw.Aplaylist.Valid.{IsValid}
use mafw.Aplaylist.Draw.{
  Drawn, Drawn-refl, Drawn-trans, Drawn-position, shuffle_elements_some, shuffle_current_lem,
}
use mafw.Aplaylist.Navigate.Relations.{Follows, NextShuffled}

module _ (rand : Random) (range : InRange rand) where
  module _ (p : Pls) (index : ℕ) (v : IsValid p) (s : p.shuffled ≡ true) (lt : index < p.len) where
    -- From a playlist in which `index` is the last clip drawn.
    pool_more :
        suc (p.iidx index) ≡ p.poolst
        → p.poolst < p.len
        → let q = shuffle_elements rand p 1 in Follows p index q (q.pidx (q.poolst - 1))
    pool_more last more =
        let (d, e) = shuffle_elements_some rand range p v s 1 (omega arith) in
        let q = shuffle_elements rand p 1 in
        let o = d.valid.order d.shuffled_eq in
        let same = Drawn-position index v s d lt (omega arith) in
        let back = o.iidx_pidx (q.poolst - 1) (omega (arith, d.len_eq)) in
        record {
          drawn = d;
          index_lt = lt;
          j_lt = omega (arith, o.pidx_lt (q.poolst - 1) (omega (arith, d.len_eq)), d.len_eq);
          index_pos = omega arith;
          j_pos = omega arith;
          after = inl (omega arith);
        }

    pool_wrap :
        suc (p.iidx index) ≡ p.poolst
        → p.len ≤ p.poolst
        → p.repeat ≡ true
        → Follows p index p (p.pidx 0)
    pool_wrap last all r =
        let o = v.order s in
        let back = o.iidx_pidx 0 (omega arith) in
        record {
          drawn = Drawn-refl p v s;
          index_lt = lt;
          j_lt = o.pidx_lt 0 (omega arith);
          index_pos = omega arith;
          j_pos = omega arith;
          after = inr (r, back, omega (arith, v.pool s), omega (arith, v.pool s));
        }

    next_from_pool-NextShuffled :
        suc (p.iidx index) ≡ p.poolst → NextShuffled p index (next_from_pool rand p)
    unfolding next_from_pool clip_at
    next_from_pool-NextShuffled last =
        if_elim (NextShuffled p index) (ltb p.poolst p.len)
          (λ more. let f = pool_more last (ltb→lt _ _ more) in (f, cc f.drawn.vidx_eq))
          λ full.
            let all = ltb→ge _ _ full in
            if_elim (NextShuffled p index) p.repeat (λ r. (pool_wrap last all r, refl))
              λ r. record {
                drawn = Drawn-refl p v s;
                last = omega (arith, v.pool s);
                all = omega (arith, v.pool s);
                no_repeat = r;
              }

    NextShuffled-after :
        {q : Pls} (r : Pls × Option Clip)
        → Drawn p q
        → NextShuffled q index r
        → NextShuffled p index r
    NextShuffled-after (t, some (j, oid)) d (f, e) = (
      record {
        drawn = Drawn-trans d f.drawn;
        index_lt = lt;
        j_lt = omega (arith, f.j_lt, d.len_eq);
        index_pos = f.index_pos;
        j_pos = f.j_pos;
        after = ground (arith, f.after, d.repeat_eq, d.len_eq);
      },
      e ∙ ap (λ f. f j) d.vidx_eq,
    )
    NextShuffled-after (t, none) d f = record {
      drawn = Drawn-trans d f.drawn;
      last = omega (arith, f.last, d.len_eq);
      all = omega (arith, f.all, d.len_eq);
      no_repeat = ground (arith, f.no_repeat, d.repeat_eq);
    }

  pub next_shuffled-NextShuffled :
      (p : Pls) (index : ℕ)
      → IsValid p
      → p.shuffled ≡ true
      → index < p.len
      → NextShuffled p index (next_shuffled rand p index)
  unfolding next_shuffled clip_at
  next_shuffled-NextShuffled p index v s lt =
      let o = v.order s in
      if_elim (NextShuffled p index) (ltb (p.iidx index + 1) p.poolst)
        (λ h.
          let more = ltb→lt _ _ h in
          let back = o.iidx_pidx (p.iidx index + 1) (omega (arith, v.pool s)) in
          (
            record {
              drawn = Drawn-refl p v s;
              index_lt = lt;
              j_lt = o.pidx_lt (p.iidx index + 1) (omega (arith, v.pool s));
              index_pos = omega arith;
              j_pos = omega arith;
              after = inl (omega arith);
            },
            refl,
          ))
        λ h.
          let (d, pos, last) = shuffle_current_lem p index v s lt in
          NextShuffled-after p index v s lt _ d (
            next_from_pool-NextShuffled (shuffle_current p index) index d.valid d.shuffled_eq
              (omega (arith, d.len_eq)) (last (omega (arith, ltb→ge _ _ h))))
