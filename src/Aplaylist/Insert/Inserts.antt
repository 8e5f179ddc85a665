-- ===== src/Aplaylist/Insert/Inserts.antt =====
-- The operations that insert: `pls_inserts`, `pls_insert`, `pls_appends` and `pls_append`.
use mathlib.Core.Option
use mafw.Common.{
  ℕ, ◌+◌, ◌≤◌, ◌<◌, ◌≡◌, ◌≢◌, refl, ◌∙◌, ap, List, [], ◌∷◌, true, false, some, inl, inr, ◌⊎◌, arith,
  length, slice, u32, ◌==◌, if_false, if_true, if_elim, int_limit, ne→==, ge→ltb, lt→ltb,
}
use mafw.Aplaylist.Types.{Text, Pls, i_am_dirty}
use mafw.Aplaylist.Edit.{insert_items, pls_inserts}
use mafw.Aplaylist.Valid.{IsInverse-cong, IsValid, items, insert_at}
use mafw.Aplaylist.Insert.Room.{maybe_realloc_total}
use mafw.Aplaylist.Insert.Order.{insert_refs-IsInverse}
use mafw.Aplaylist.Insert.Items.{insert_items_lem}

-- `q` is `p` with `oids` put in at `idx`.
pub record Inserts (p : Pls) (idx : ℕ) (oids : List Text) (q : Pls) : Type 0 where
  pub valid : IsValid q
  pub contents : items q ≡ insert_at idx oids (items p)
  pub is_dirty : q.dirty ≡ true
  pub poolst_eq : q.poolst ≡ p.poolst
  pub shuffled_eq : q.shuffled ≡ p.shuffled
  pub repeat_eq : q.repeat ≡ p.repeat

nonempty : (oids : List Text) → oids ≢ [] → length oids ≢ 0
nonempty [] h = absurd (h refl)
nonempty (x ∷ xs) h = omega arith

module _ (timer : ℕ) (p : Pls) (idx : ℕ) (oids : List Text) (v : IsValid p) (idx_le : idx ≤ p.len)
    (small : p.len + length oids < int_limit) where
  grown : ℕ → Pls
  unfolding i_am_dirty insert_items
  grown a = i_am_dirty timer (insert_items (record p { alloc = a }) idx oids)

  grown-IsValid : (a : ℕ) → p.len + length oids ≤ a → IsValid (grown a)
  unfolding grown
  grown-IsValid a room =
      let wrap : u32 (p.len + length oids) ≡ p.len + length oids = omega arith in
      record {
        room = omega arith;
        small = omega arith;
        pool = λ s. omega (arith, v.pool s);
        order = λ s.
            IsInverse-cong wrap (if_true p.shuffled _ p.pidx s) (if_true p.shuffled _ p.iidx s) (
              insert_refs-IsInverse idx (length oids) p.len p.pidx p.iidx (v.order s) idx_le small);
      }

  grown-Inserts : (a : ℕ) → p.len + length oids ≤ a → Inserts p idx oids (grown a)
  unfolding grown
  grown-Inserts a room =
      let wrap : u32 (p.len + length oids) ≡ p.len + length oids = omega arith in
      record {
        valid = grown-IsValid a room;
        contents =
            ap (slice (grown a).vidx 0) wrap ∙ insert_items_lem p.vidx idx p.len oids idx_le small;
        is_dirty = refl;
        poolst_eq = refl;
        shuffled_eq = refl;
        repeat_eq = refl;
      }

  -- On a valid playlist, with at least one object id, an `idx` of at most its length and a new length
  -- below 2^31, `pls_inserts` returns TRUE: the new object ids stand at `idx`, those from there on behind them; the playlist is valid again and
  -- dirty, and how much of it is drawn, whether it is shuffled and whether it repeats stay.
  pub pls_inserts-Inserts :
      oids ≢ [] → (q : Pls) × (pls_inserts timer p idx oids ≡ some (q, true)) × Inserts p idx oids q
  unfolding pls_inserts grown
  pls_inserts-Inserts some_oids =
      let (a, e, room) = maybe_realloc_total p (length oids) v.room (omega arith) in
      (
        grown a,
        if_false _ _ _ (ne→== (length oids) 0 (nonempty oids some_oids))
            ∙ if_false _ _ _ (ge→ltb p.len idx idx_le)
            ∙ ap (Option.map (λ q. (i_am_dirty timer (insert_items q idx oids), true))) e,
        grown-Inserts a room,
      )

-- Without items, or behind the end, nothing is inserted and the playlist stays as it is.
pub pls_inserts_refused :
    (timer : ℕ) (p : Pls) (idx : ℕ) (oids : List Text)
    → (oids ≡ []) ⊎ (p.len < idx)
    → pls_inserts timer p idx oids ≡ some (p, false)
unfolding pls_inserts
pls_inserts_refused timer p idx oids (inl e) = rw e
pls_inserts_refused timer p idx oids (inr h) =
    let refused = if_true _ _ _ (lt→ltb p.len idx h) in
    if_elim (λ r. r ≡ some (p, false)) (length oids == 0) (λ _. refl) λ _. refused
