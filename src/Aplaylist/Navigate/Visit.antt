-- ===== src/Aplaylist/Navigate/Visit.antt =====
-- A client plays a playlist from `pls_get_starting` by `pls_get_next` until that finds no clip.
use mathlib.Core.Option
use mafw.Common.{
  ℕ, zero, suc, ◌+◌, ◌-◌, ◌<◌, ◌≡◌, refl, ◌∙◌, subst, sym, ap, ap₂, true, false, List, [], ◌∷◌,
  Option, none, some, inl, inr, arith, slice, if_true, if_false, lt→ltb, ge→ltb,
}
use mafw.Aplaylist.Types.{Pls}
use mafw.Aplaylist.Play.{
  Random, InRange, Clip, clip_at, pls_get_starting, next_in_order, pls_get_next,
}
use mafw.Aplaylist.Valid.{IsValid}
use mafw.Aplaylist.Draw.{Drawn, Drawn-trans, Drawn-position}
use mafw.Aplaylist.Navigate.Relations.{Follows, NextShuffled}
use mafw.Aplaylist.Navigate.Next.{next_shuffled-NextShuffled}
use mafw.Aplaylist.Navigate.RoundTrip.{pls_get_next_shuffled, pls_get_next_in_order}

-- The playlist at the end and the indices of the clips played; `none` if the fuel runs out.
abbrev pub Played : Type 0
Played = Option (Pls × List ℕ)

unfoldable pub resume : (Pls → ℕ → Played) → ℕ → Pls × Option Clip → Played
resume go index (q, none) = some (q, index ∷ [])
resume go index (q, some (j, oid)) = Option.map (λ r. (r.0, index ∷ r.1)) (go q j)

unfoldable pub visit : (ℕ → Random) → ℕ → Pls → ℕ → Played
unfolding resume
visit rands zero p index = none
visit rands (suc fuel) p index = resume (visit rands fuel) index (pls_get_next (rands fuel) p index)

unfoldable pub start : (Pls → ℕ → Played) → Pls × Option Clip → Played
start go (q, none) = some (q, [])
start go (q, some (j, oid)) = go q j

-- Each call has random numbers of its own.
unfoldable pub play_all : (ℕ → Random) → Pls → Played
unfolding visit start
play_all rands p = start (visit rands p.len) (pls_get_starting (rands p.len) p)

-- A shuffled playlist and a clip that is drawn, with `n` clips to come.
pub record At (n : ℕ) (q : Pls) (i : ℕ) : Type 0 where
  pub valid : IsValid q
  pub shuffled : q.shuffled ≡ true
  pub no_repeat : q.repeat ≡ false
  pub lt : i < q.len
  pub pos : q.iidx i < q.poolst
  pub size : q.iidx i + suc n ≡ q.len

module _ (rands : ℕ → Random) (range : (k : ℕ) → InRange (rands k)) where
  unfoldable pub VisitsAll : ℕ → Pls → ℕ → Type 0
  VisitsAll n q i =
      (t : Pls) × Drawn q t × (visit rands (suc n) q i ≡ some (t, slice t.pidx (q.iidx i) (suc n)))

  module _ (q : Pls) (i : ℕ) where
    prefix-At : {n : ℕ} {t : Pls} → At n q i → Drawn q t → t.pidx (q.iidx i) ≡ i
    prefix-At a d = d.prefix (q.iidx i) a.pos ∙ (a.valid.order a.shuffled).pidx_iidx i a.lt

    same_place : {n : ℕ} {t : Pls} → At n q i → Drawn q t → t.iidx i ≡ q.iidx i
    same_place a d = Drawn-position i a.valid a.shuffled d a.lt a.pos

    -- The clip that follows has one clip less to come.
    next_At :
        {n : ℕ} {t : Pls} {j : ℕ}
        → At (suc n) q i
        → Follows q i t j
        → At n t j × (t.iidx j ≡ suc (q.iidx i))
    next_At {n} {t} {j} a f =
        let d = f.drawn in
        let same = same_place a d in
        let place : t.iidx j ≡ suc (q.iidx i) = elim f.after [
          | inl e ↦ omega arith
          | inr (r, _, _, _) ↦ cc a.no_repeat
        ] in
        (
          record {
            valid = d.valid;
            shuffled = d.shuffled_eq;
            no_repeat = d.repeat_eq ∙ a.no_repeat;
            lt = omega (arith, f.j_lt, d.len_eq);
            pos = f.j_pos;
            size = omega (arith, a.size, d.len_eq);
          },
          place,
        )

    outcome_last :
        (r : Pls × Option Clip)
        → pls_get_next (rands 0) q i ≡ r
        → NextShuffled q i r
        → At 0 q i
        → VisitsAll 0 q i
    unfolding visit VisitsAll slice
    outcome_last (t, some (j, oid)) e (f, _) a =
        let o = f.drawn.valid.order f.drawn.shuffled_eq in
        elim f.after [
          | inl place ↦ absurd (
              omega (
                arith,
                same_place a f.drawn,
                a.size,
                o.iidx_lt j (omega (arith, f.j_lt, f.drawn.len_eq)),
                f.drawn.len_eq,
              ))
          | inr (r, _, _, _) ↦ cc a.no_repeat
        ]
    outcome_last (t, none) e f a = (
      t,
      f.drawn,
      ap (resume (visit rands 0) i) e ∙ ap (λ k. some (t, k ∷ [])) (sym (prefix-At a f.drawn)),
    )

    outcome_more :
        (n : ℕ) (r : Pls × Option Clip)
        → pls_get_next (rands (suc n)) q i ≡ r
        → NextShuffled q i r
        → At (suc n) q i
        → ((t : Pls) (j : ℕ) → At n t j → VisitsAll n t j)
        → VisitsAll (suc n) q i
    unfolding visit VisitsAll slice
    outcome_more n (t, some (j, oid)) e (f, _) a ih =
        let (b, place) = next_At a f in
        let (u, d, run) = ih t j b in
        (
          u,
          Drawn-trans f.drawn d,
          ap (resume (visit rands (suc n)) i) e
              ∙ ap (Option.map (λ r. (r.0, i ∷ r.1))) run
              ∙ ap₂ (λ k from. some (u, k ∷ slice u.pidx from (suc n)))
                  (sym (prefix-At a (Drawn-trans f.drawn d))) place,
        )
    outcome_more n (t, none) e f a ih = absurd (omega (arith, same_place a f.drawn, a.size, f.last))

  answer :
      (k : ℕ) (q : Pls) (i : ℕ) {n : ℕ} → At n q i → NextShuffled q i (pls_get_next (rands k) q i)
  answer k q i a =
      subst (NextShuffled q i) (sym (pls_get_next_shuffled (rands k) q i a.lt a.shuffled))
        (next_shuffled-NextShuffled (rands k) (range k) q i a.valid a.shuffled a.lt)

  -- The clips from position `q.iidx i` on are played in the order of `pidx`.
  pub visit_shuffled : (n : ℕ) (q : Pls) (i : ℕ) → At n q i → VisitsAll n q i
  visit_shuffled zero q i a = outcome_last q i _ refl (answer 0 q i a) a
  visit_shuffled (suc n) q i a =
      outcome_more q i n _ refl (answer (suc n) q i a) a (λ t j b. visit_shuffled n t j b)

  -- In visual order the clips are played by their index.
  pub visit_in_order :
      (n : ℕ) (q : Pls) (i : ℕ)
      → q.shuffled ≡ false
      → q.repeat ≡ false
      → i + suc n ≡ q.len
      → visit rands (suc n) q i ≡ some (q, slice (λ k. k) i (suc n))
  unfolding visit slice next_in_order clip_at
  visit_in_order zero q i s nr size = ap (resume (visit rands 0) i) (
      pls_get_next_in_order (rands 0) q i (omega arith) s
      ∙ if_false _ _ _ (ge→ltb i (q.len - 1) (omega arith))
      ∙ if_false _ _ _ nr)
  visit_in_order (suc n) q i s nr size =
      ap (resume (visit rands (suc n)) i) (
        pls_get_next_in_order (rands (suc n)) q i (omega arith) s
        ∙ if_true _ _ _ (lt→ltb i (q.len - 1) (omega arith))
        ∙ ap (λ k. (q, some (clip_at q k))) (omega arith))
      ∙ ap (Option.map (λ r. (r.0, i ∷ r.1))) (visit_in_order n q (suc i) s nr (omega arith))
