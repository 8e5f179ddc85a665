-- ===== src/Aplaylist/LoadBounds.antt =====
-- What `pls_load` checks of a file, whatever stands in it.
use mafw.Common.{
  ℕ, zero, suc, ◌+◌, ◌≤◌, ◌<◌, ◌≡◌, sym, subst, Bool, true, some, [], ◌∷◌, arith, ◌==◌,
  if◌then◌else◌, int_limit, update, if_elim, ltb→lt, ok, Ensures, Ensures-ok, Ensures-bind,
  Ensures-after, Ensures-if,
}
use mafw.Aplaylist.Types.{Text, Pls}
use mafw.Aplaylist.Edit.{pls_new}
use mafw.Aplaylist.Restore.{Opened, opened-Opened}
use mafw.Aplaylist.Stdio.{scan_int}
use mafw.Aplaylist.Load.{
  fgetsnl, buf_size, matched, read_int, read_bool, read_version, read_pool, scan_entry, store_entry,
  read_entries, opened, pls_load,
}

-- The size is a `gint`, there is room, and no entry of `pidx` is past the end.
pub record InBounds (p : Pls) : Type 0 where
  pub small : p.len < int_limit
  pub room : p.len ≤ p.alloc
  pub inside : p.shuffled ≡ true → (i : ℕ) → i < p.len → p.pidx i < p.len

read_int_small : (f : Text) → Ensures (read_int f) (λ (r : ℕ × Text). r.0 < int_limit)
unfolding read_int
read_int_small f = Ensures-after (fgetsnl buf_size f) _ _ λ b.
    Ensures-after (matched (scan_int b.0)) _ _ λ k. Ensures-if _ _ _ λ h. ltb→lt k.0 int_limit h

opened_room :
    (initialize : Bool) (timer id : ℕ) (name : Text) (repeat shuffled : Bool) (len poolst : ℕ)
    → len < int_limit
    → Ensures (opened initialize timer id name repeat shuffled len poolst) (λ p. len ≤ p.alloc)
unfolding opened pls_new Opened
opened_room initialize timer id [] repeat shuffled len poolst h = omega arith
opened_room initialize timer id (c ∷ cs) repeat shuffled len poolst h =
    let (q, e, _, room) = opened-Opened initialize timer id c cs repeat shuffled len poolst h in
    subst (λ o. Ensures o (λ p. len ≤ p.alloc)) (sym e) room

-- The entries below `i` are in bounds.
abbrev Bounded : ℕ → ℕ → Pls → Type 0
Bounded len i p = (len ≤ p.alloc) × (p.shuffled ≡ true → (j : ℕ) → j < i → p.pidx j < len)

store-Bounded :
    (len i k : ℕ) (oid : Text) (p : Pls)
    → k < len
    → Bounded len i p
    → Bounded len (suc i) (store_entry i k oid p)
unfolding store_entry
store-Bounded len i k oid p h (room, inside) = (
  room,
  λ s j lt.
      subst (λ b. (if b then update p.pidx i k else p.pidx) j < len) (sym s)
        (if_elim (λ n. n < len) (i == j) (λ _. h) λ ne. inside s j (ground arith)),
)

read_entries-Bounded :
    (n i len : ℕ) (f : Text) (p : Pls)
    → i + n ≡ len
    → Bounded len i p
    → Ensures (read_entries n i len f p) (Bounded len len)
unfolding read_entries
read_entries-Bounded zero i len f p e b = subst (λ k. Bounded len k p) (omega arith) b
read_entries-Bounded (suc n) i len f p e b = Ensures-after (fgetsnl buf_size f) _ _ λ line.
    Ensures-after (matched (scan_entry line.0)) _ _ λ entry. Ensures-if _ _ _ λ h.
      read_entries-Bounded n (suc i) len line.1 (store_entry i entry.0 entry.1 p) (omega arith)
        (store-Bounded len i entry.0 entry.1 p (ltb→lt entry.0 len h) b)

load-InBounds :
    (initialize : Bool) (timer : ℕ) (f : Text)
    → Ensures (pls_load initialize timer (some f)) InBounds
unfolding pls_load
load-InBounds initialize timer f = Ensures-after (read_version f) _ _ λ version.
    Ensures-after (read_int version.1) _ _ λ id. Ensures-after (fgetsnl buf_size id.1) _ _ λ name.
      Ensures-after (read_bool name.1) _ _ λ repeat.
        Ensures-after (read_bool repeat.1) _ _ λ shuffled.
          Ensures-bind (read_int shuffled.1) _ _ _ (read_int_small shuffled.1) λ len small.
            Ensures-after (read_pool version.0 len.0 len.1) _ _ λ poolst.
              Ensures-bind (opened initialize timer id.0 name.0 repeat.0 shuffled.0 len.0 poolst.0)
                _ _ _
                (opened_room initialize timer id.0 name.0 repeat.0 shuffled.0 len.0 poolst.0 small)
                λ p room.
                  Ensures-bind (read_entries len.0 0 len.0 poolst.1 p) _ _ _
                    (read_entries-Bounded len.0 0 len.0 poolst.1 p (omega arith)
                      (room, λ s j lt. absurd (omega arith)))
                    λ q b. record { small = small; room = b.0; inside = b.1 }

-- Whatever stands in a file, a playlist that `pls_load` gives has a size that is a `gint`, room for its
-- items, and in `pidx` indices of items only, if it is shuffled.
pub pls_load-InBounds :
    (initialize : Bool) (timer : ℕ) (f : Text) (p : Pls)
    → pls_load initialize timer (some f) ≡ ok p
    → InBounds p
pls_load-InBounds initialize timer f p e = Ensures-ok InBounds (load-InBounds initialize timer f) e
