-- ===== src/Aplaylist/Settings.antt =====
-- The operations that make a playlist, empty it, and set its name and its modes.
use mafw.Common.{
  ℕ, ◌+◌, ◌-◌, ◌≤◌, ◌<◌, ◌≡◌, refl, ◌∙◌, sym, ap, ap₂, inl, inr, Bool, true, false, [], ◌∷◌, Option,
  none, some, arith, ltb, if◌then◌else◌, if_true, if_false, if_elim, for, for_inv, slice, take,
  drop, take-slice, take-slice_all, drop-slice, Bool-cases, lt→leb_ne, ge→ltb, lt-cases,
}
use mafw.Aplaylist.Types.{Text, Pls, i_am_dirty}
use mafw.Aplaylist.Edit.{
  Refs, no_name, set_identity, pls_set_name, pls_new, pls_clear, pls_shuffle, pls_unshuffle,
  pls_set_repeat, pls_set_use_count,
}
use mafw.Aplaylist.Play.{pls_get_items}
use mafw.Aplaylist.Valid.{IsInverse, IsInverse-cong, IsValid, items}

empty-IsValid : (p : Pls) → p.len ≡ 0 → p.poolst ≡ 0 → IsValid p
empty-IsValid p e f = record {
  room = omega arith;
  small = omega arith;
  pool = λ _. omega arith;
  order = λ _. record {
    pidx_lt = λ i h. absurd (omega arith);
    iidx_lt = λ i h. absurd (omega arith);
    iidx_pidx = λ i h. absurd (omega arith);
    pidx_iidx = λ i h. absurd (omega arith);
  };
}

-- `pls_new` with a name gives a valid, empty playlist of that id and name that is not shuffled and
-- is dirty; without one, or with an empty one, it gives none.
pub pls_new_lem :
    (initialize : Bool) (timer id : ℕ) (c : ℕ) (cs : Text)
    → ((p : Pls) × (pls_new initialize timer id (some (c ∷ cs)) ≡ some p)
        × IsValid p
        × (items p ≡ [])
        × (p.id ≡ id)
        × (p.name ≡ some (c ∷ cs))
        × (p.shuffled ≡ false)
        × (p.dirty ≡ true))
      × (pls_new initialize timer id none ≡ none)
      × (pls_new initialize timer id (some []) ≡ none)
unfolding pls_new pls_set_name i_am_dirty slice
pls_new_lem true timer id c cs =
    ((_, refl, empty-IsValid _ refl refl, refl, refl, refl, refl, refl), refl, refl)
pls_new_lem false timer id c cs =
    ((_, refl, empty-IsValid _ refl refl, refl, refl, refl, refl, refl), refl, refl)

pub pls_set_name-IsValid :
    (initialize : Bool) (timer : ℕ) (p : Pls) (name : Option Text)
    → IsValid p
    → IsValid (pls_set_name initialize timer p name).0
unfolding pls_set_name i_am_dirty
pls_set_name-IsValid initialize timer p name v =
    if_elim (λ (r : Pls × Bool). IsValid r.0) (no_name name) (λ _. v)
      λ _.
        if_elim IsValid initialize
          (λ _. record { room = v.room; small = v.small; pool = v.pool; order = v.order })
          λ _. record { room = v.room; small = v.small; pool = v.pool; order = v.order }

pub pls_clear-IsValid : (timer : ℕ) (p : Pls) → IsValid (pls_clear timer p)
unfolding pls_clear i_am_dirty
pls_clear-IsValid timer p = empty-IsValid _ refl refl

-- The identity on the first `n` places.
module _ (p q : ℕ → ℕ) (n : ℕ) where
  Identity : ℕ → Refs → Type 0
  Identity j r = (i : ℕ) → i < j → (r.0 i ≡ i) × (r.1 i ≡ i)

  set_identity_lem : Identity n (for set_identity 0 n (p, q))
  unfolding Identity set_identity
  set_identity_lem =
      for_inv set_identity Identity 0 n n (p, q) (omega arith)
        (λ j r _ _ h i a. ground (arith, h i)) λ i a. absurd (omega arith)

  set_identity-IsInverse :
      IsInverse n (for set_identity 0 n (p, q)).0 (for set_identity 0 n (p, q)).1
  unfolding Identity
  set_identity-IsInverse =
      let e = set_identity_lem in
      record {
        pidx_lt = λ i h. omega (arith, (e i h).0);
        iidx_lt = λ i h. omega (arith, (e i h).1);
        iidx_pidx = λ i h. ap (for set_identity 0 n (p, q)).1 (e i h).0 ∙ (e i h).1;
        pidx_iidx = λ i h. ap (for set_identity 0 n (p, q)).0 (e i h).1 ∙ (e i h).0;
      }

pub pls_shuffle-IsValid : (timer : ℕ) (p : Pls) → IsValid p → IsValid (pls_shuffle timer p)
unfolding pls_shuffle i_am_dirty
pls_shuffle-IsValid timer p v = record {
  room = v.room;
  small = v.small;
  pool = λ _. omega arith;
  order = λ _. elim (Bool-cases p.shuffled) [
    | inl s ↦ IsInverse-cong refl (if_true p.shuffled _ _ s) (if_true p.shuffled _ _ s) (v.order s)
    | inr s ↦
        IsInverse-cong refl (if_false p.shuffled _ _ s) (if_false p.shuffled _ _ s)
          (set_identity-IsInverse p.pidx p.iidx p.len)
  ];
}

pub pls_unshuffle-IsValid : (timer : ℕ) (p : Pls) → IsValid p → IsValid (pls_unshuffle timer p)
unfolding pls_unshuffle i_am_dirty
pls_unshuffle-IsValid timer p v =
    if_elim IsValid p.shuffled
      (λ _. record { room = v.room; small = v.small; pool = λ s. cc; order = λ s. cc }) λ _. v

pub pls_set_repeat-IsValid :
    (timer : ℕ) (p : Pls) (repeat : Bool) → IsValid p → IsValid (pls_set_repeat timer p repeat)
unfolding pls_set_repeat i_am_dirty
pls_set_repeat-IsValid timer p repeat v = record {
  room = v.room;
  small = v.small;
  pool = v.pool;
  order = v.order;
}

pub pls_set_use_count-IsValid :
    (timer : ℕ) (p : Pls) (use_count : ℕ)
    → IsValid p
    → IsValid (pls_set_use_count timer p use_count)
unfolding pls_set_use_count i_am_dirty
pls_set_use_count-IsValid timer p use_count v = record {
  room = v.room;
  small = v.small;
  pool = v.pool;
  order = v.order;
}

-- `pls_get_items` gives the object ids from `fidx` to `lidx`, or to the last one if the playlist
-- ends before.
pub pls_get_items_lem :
    (p : Pls) (fidx lidx : ℕ)
    → fidx < p.len
    → fidx ≤ lidx
    → pls_get_items p fidx lidx ≡ some (take (lidx + 1 - fidx) (drop fidx (items p)))
unfolding pls_get_items
pls_get_items_lem p fidx lidx a b =
    let dropped = drop-slice p.vidx 0 fidx p.len (omega arith) in
    let last = if ltb (p.len - 1) lidx then p.len - 1 else lidx in
    let clamped : take (lidx + 1 - fidx) (slice p.vidx (0 + fidx) (p.len - fidx))
        ≡ slice p.vidx fidx (last + 1 - fidx) =
      elim (lt-cases (p.len - 1) lidx) [
        | inl over ↦
            let n : last + 1 - fidx ≡ p.len - fidx = ground arith in
            take-slice_all p.vidx (0 + fidx) (lidx + 1 - fidx) (p.len - fidx) (omega arith)
            ∙ ap₂ (slice p.vidx) (omega arith) (sym n)
        | inr inside ↦
            let n : last + 1 - fidx ≡ lidx + 1 - fidx = ground arith in
            take-slice p.vidx (0 + fidx) (lidx + 1 - fidx) (p.len - fidx) (omega arith)
            ∙ ap₂ (slice p.vidx) (omega arith) (sym n)
      ] in
    if_false _ _ _ (lt→leb_ne fidx p.len a)
    ∙ if_false _ _ _ (ge→ltb lidx fidx b)
    ∙ ap some (sym (ap (take (lidx + 1 - fidx)) dropped ∙ clamped))
