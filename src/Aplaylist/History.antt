-- ===== src/Aplaylist/History.antt =====
-- Sequences of operations on a playlist, as its clients make them.
use mathlib.Core.Option.{some-injective}
use mafw.Common.{
  ok, ℕ, ◌+◌, ◌≤◌, ◌<◌, ◌≡◌, refl, ◌∙◌, sym, subst, inl, inr, ◌⊎◌, Bool, true, false, List, [],
  Option, none, some, arith, ltb, leb, ◌==◌, ◌||◌, length, if_elim, lt-cases, leb→lt, ◌∷◌, ◌-◌,
  int_limit,
}
use mafw.Aplaylist.Types.{Text, Pls, i_am_dirty}
use mafw.Aplaylist.Edit.{
  pls_set_name, pls_new, pls_clear, pls_inserts, pls_remove, pls_shuffle, pls_unshuffle,
  pls_set_repeat, pls_set_use_count, pls_move,
}
use mafw.Aplaylist.Play.{
  Random, InRange, Clip, pls_get_starting, pls_get_last, pls_get_next, pls_get_prev, next_in_order,
  prev_in_order,
}
use mafw.Aplaylist.Valid.{IsValid}
use mafw.Aplaylist.Check.{pls_check, IsValid-pls_check}
use mafw.Aplaylist.Draw.{shuffle_elements_all, shuffle_elements_some}
use mafw.Aplaylist.Navigate.Relations.{NextShuffled, PrevShuffled}
use mafw.Aplaylist.Navigate.Next.{next_shuffled-NextShuffled}
use mafw.Aplaylist.Navigate.Prev.{prev-PrevShuffled}
use mafw.Aplaylist.Insert.Inserts.{pls_inserts-Inserts, pls_inserts_refused}
use mafw.Aplaylist.Remove.Removes.{pls_remove-Removes, pls_remove_refused}
use mafw.Aplaylist.Settings.{
  pls_set_name-IsValid, pls_clear-IsValid, pls_shuffle-IsValid, pls_unshuffle-IsValid,
  pls_set_repeat-IsValid, pls_set_use_count-IsValid, pls_new_lem,
}

-- One call. The new length of an insertion fits a `gint`, and a clip that is drawn is removed from a
-- shuffled playlist only when the pool is empty.
pub data Step (p : Pls) : Pls → Type 0 where
  sets_name :
      (initialize : Bool) (timer : ℕ) (name : Option Text)
      → Step p (pls_set_name initialize timer p name).0
  clears : (timer : ℕ) → Step p (pls_clear timer p)
  inserts :
      (timer idx : ℕ) (oids : List Text) (r : Pls × Bool)
      → p.len + length oids < int_limit
      → pls_inserts timer p idx oids ≡ some r
      → Step p r.0
  removes :
      (timer idx : ℕ)
      → (p.shuffled ≡ false) ⊎ ((p.poolst ≤ p.iidx idx) ⊎ (p.poolst ≡ p.len))
      → Step p (pls_remove timer p idx).0
  moves : (timer from to : ℕ) → Step p (pls_move timer p from to).0
  shuffles : (timer : ℕ) → Step p (pls_shuffle timer p)
  unshuffles : (timer : ℕ) → Step p (pls_unshuffle timer p)
  sets_repeat : (timer : ℕ) (repeat : Bool) → Step p (pls_set_repeat timer p repeat)
  sets_use_count : (timer use_count : ℕ) → Step p (pls_set_use_count timer p use_count)
  starts : (rand : Random) → InRange rand → Step p (pls_get_starting rand p).0
  ends : (rand : Random) → InRange rand → Step p (pls_get_last rand p).0
  goes_on : (rand : Random) (index : ℕ) → InRange rand → Step p (pls_get_next rand p index).0
  goes_back : (rand : Random) (index : ℕ) → InRange rand → Step p (pls_get_prev rand p index).0

pub data Reach (p : Pls) : Pls → Type 0 where
  here : Reach p p
  next : {q r : Pls} → Reach p q → Step q r → Reach p r

drawn_clip : (p : Pls) (index : ℕ) (r : Pls × Option Clip) → NextShuffled p index r → IsValid r.0
drawn_clip p index (q, some c) f = f.0.drawn.valid
drawn_clip p index (q, none) f = f.drawn.valid

drawn_back : (p : Pls) (index : ℕ) (r : Pls × Option Clip) → PrevShuffled p index r → IsValid r.0
drawn_back p index (q, some c) f = f.0.drawn.valid
drawn_back p index (q, none) f = f.drawn.valid

abbrev Kept : Pls × Option Clip → Type 0
Kept r = IsValid r.0

module _ (p : Pls) (v : IsValid p) where
  next-IsValid : (rand : Random) (index : ℕ) → InRange rand → Kept (pls_get_next rand p index)
  unfolding pls_get_next next_in_order
  next-IsValid rand index range =
      if_elim Kept (leb p.len index) (λ _. v)
        λ inside.
          if_elim Kept p.shuffled
            (λ s.
              drawn_clip p index _
                (next_shuffled-NextShuffled rand range p index v s (leb→lt p.len index inside)))
            λ _.
              if_elim Kept (ltb index (p.len - 1)) (λ _. v)
                λ _. if_elim Kept p.repeat (λ _. v) λ _. v

  prev-IsValid : (rand : Random) (index : ℕ) → InRange rand → Kept (pls_get_prev rand p index)
  unfolding pls_get_prev prev_in_order
  prev-IsValid rand index range =
      if_elim Kept (leb p.len index) (λ _. v)
        λ inside.
          if_elim Kept p.shuffled
            (λ s.
              drawn_back p index _
                (prev-PrevShuffled rand range p index v s (leb→lt p.len index inside)))
            λ _. if_elim Kept (ltb 0 index) (λ _. v) λ _. if_elim Kept p.repeat (λ _. v) λ _. v

  last-IsValid : (rand : Random) → InRange rand → Kept (pls_get_last rand p)
  unfolding pls_get_last
  last-IsValid rand range =
      if_elim Kept (p.len == 0) (λ _. v)
        λ _.
          if_elim Kept p.shuffled
            (λ s. (shuffle_elements_all rand range p v s p.len (omega arith)).0.valid) λ _. v

  starting-IsValid : (rand : Random) → InRange rand → Kept (pls_get_starting rand p)
  unfolding pls_get_starting
  starting-IsValid rand range =
      if_elim Kept (p.len == 0) (λ _. v)
        λ some_clip.
          if_elim Kept p.shuffled
            (λ s.
              if_elim IsValid (p.poolst == 0)
                (λ none_drawn. (shuffle_elements_some rand range p v s 1 (ground arith)).0.valid)
                λ _. v)
            λ _. v

  inserts-IsValid :
      (timer idx : ℕ) (oids : List Text) (r : Pls × Bool)
      → p.len + length oids < int_limit
      → pls_inserts timer p idx oids ≡ some r
      → IsValid r.0
  inserts-IsValid timer idx [] r small e =
      subst (λ (t : Pls × Bool). IsValid t.0)
        (some-injective _ _ (sym (pls_inserts_refused timer p idx [] (inl refl)) ∙ e)) v
  inserts-IsValid timer idx (x ∷ xs) r small e = elim (lt-cases p.len idx) [
    | inl out ↦
        subst (λ (t : Pls × Bool). IsValid t.0)
          (some-injective _ _ (sym (pls_inserts_refused timer p idx (x ∷ xs) (inr out)) ∙ e)) v
    | inr le ↦
        let (q, run, ins) = pls_inserts-Inserts timer p idx (x ∷ xs) v le small (λ h. cc) in
        subst (λ (t : Pls × Bool). IsValid t.0) (some-injective _ _ (sym run ∙ e)) ins.valid
  ]

  removes-IsValid :
      (timer idx : ℕ)
      → (p.shuffled ≡ false) ⊎ ((p.poolst ≤ p.iidx idx) ⊎ (p.poolst ≡ p.len))
      → IsValid (pls_remove timer p idx).0
  removes-IsValid timer idx safe = elim (lt-cases idx p.len) [
    | inl lt ↦
        let (q, run, rem) = pls_remove-Removes timer p idx v lt safe in
        subst (λ (t : Pls × Bool). IsValid t.0) (sym run) rem.valid
    | inr out ↦ subst (λ (t : Pls × Bool). IsValid t.0) (sym (pls_remove_refused timer p idx out)) v
  ]

  moves-IsValid : (timer from to : ℕ) → IsValid (pls_move timer p from to).0
  unfolding pls_move i_am_dirty
  moves-IsValid timer from to =
      if_elim (λ (t : Pls × Bool). IsValid t.0) (from == to) (λ _. v)
        λ _.
          if_elim (λ (t : Pls × Bool). IsValid t.0) (leb p.len from || leb p.len to) (λ _. v)
            λ _. record { room = v.room; small = v.small; pool = v.pool; order = v.order }

-- Every call keeps a playlist valid.
Step-IsValid : {p q : Pls} → Step p q → IsValid p → IsValid q
Step-IsValid {p} (sets_name initialize timer name) v =
    pls_set_name-IsValid initialize timer p name v
Step-IsValid {p} (clears timer) v = pls_clear-IsValid timer p
Step-IsValid {p} (inserts timer idx oids r small e) v = inserts-IsValid p v timer idx oids r small e
Step-IsValid {p} (removes timer idx safe) v = removes-IsValid p v timer idx safe
Step-IsValid {p} (moves timer from to) v = moves-IsValid p v timer from to
Step-IsValid {p} (shuffles timer) v = pls_shuffle-IsValid timer p v
Step-IsValid {p} (unshuffles timer) v = pls_unshuffle-IsValid timer p v
Step-IsValid {p} (sets_repeat timer repeat) v = pls_set_repeat-IsValid timer p repeat v
Step-IsValid {p} (sets_use_count timer n) v = pls_set_use_count-IsValid timer p n v
Step-IsValid {p} (starts rand range) v = starting-IsValid p v rand range
Step-IsValid {p} (ends rand range) v = last-IsValid p v rand range
Step-IsValid {p} (goes_on rand index range) v = next-IsValid p v rand index range
Step-IsValid {p} (goes_back rand index range) v = prev-IsValid p v rand index range

Reach-IsValid : {p q : Pls} → Reach p q → IsValid p → IsValid q
Reach-IsValid here v = v
Reach-IsValid (next r s) v = Step-IsValid s (Reach-IsValid r v)

-- Whatever calls follow `pls_new`, the playlist stays valid and passes `pls_check`, as long as its
-- length stays below 2^31 and no clip that is drawn is removed while the pool holds others.
pub Reach-pls_check :
    (initialize : Bool) (timer id c : ℕ) (cs : Text) {p q : Pls}
    → pls_new initialize timer id (some (c ∷ cs)) ≡ some p
    → Reach p q
    → IsValid q × (pls_check q ≡ ok true)
Reach-pls_check initialize timer id c cs e r =
    let fresh = (pls_new_lem initialize timer id c cs).0 in
    let same = some-injective _ _ (sym fresh.1 ∙ e) in
    let valid = Reach-IsValid r (subst IsValid same fresh.2) in (valid, IsValid-pls_check _ valid)
