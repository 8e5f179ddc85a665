-- ===== src/Aplaylist/Reload.antt =====
-- `pls_load` reads what `pls_save` wrote.
use mafw.Common.{
  ℕ, zero, suc, ◌+◌, ◌≤◌, ◌<◌, ◌≡◌, ◌≢◌, refl, ◌∙◌, sym, ap, ap₂, subst, inl, inr, true, none, some,
  [], ◌∷◌, ◌++◌, arith, ltb, if◌then◌else◌, length, length-append, if_true, if_false, eq-cases,
  eq→==, ne→==, lt→ltb, int_limit, all, all-append, update, slice-ext, ok, null, ◌>>=◌, bind_eq,
}
use mafw.Aplaylist.Types.{Text, Pls}
use mafw.Aplaylist.Valid.{IsInverse, IsValid, items, pidx_inj}
use mafw.Aplaylist.Stdio.{print_u, scan_byte}
use mafw.Aplaylist.Save.{line_of, entry_text, entry_texts, concat}
use mafw.Aplaylist.Load.{matched, scan_entry, store_entry, read_entries}
use mafw.Aplaylist.Scan.{scan_int-print_u, ends_number}
use mafw.Aplaylist.Lines.{
  is_text, fits_line, fgetsnl-line_of, print_u_text, length-print_u, fits_line_lem,
}

-- The text format holds the playlist: the name is not empty, neither it nor an id has a newline or a
-- NUL, and the lines fit in the buffer.
pub record Saveable (p : Pls) (name : Text) : Type 0 where
  pub valid : IsValid p
  pub named : p.name ≡ some name
  pub name_some : 1 ≤ length name
  pub name_fits : fits_line name ≡ true
  pub id_small : p.id < int_limit
  pub pool_small : p.poolst < int_limit
  pub oid_text : (i : ℕ) → i < p.len → all is_text (p.vidx i) ≡ true
  pub oid_size : (i : ℕ) → i < p.len → length (p.vidx i) < 2037

abbrev pub NoEmptyId : Pls → Type 0
NoEmptyId p = (i : ℕ) → i < p.len → 1 ≤ length (p.vidx i)

-- The index that is written with the element `i`.
abbrev pub key : Pls → ℕ → ℕ
key p i = if p.shuffled then p.pidx i else i

abbrev entry : Pls → ℕ → Text
entry p i = print_u (key p i) ++ b',' ∷ p.vidx i

entry_fits :
    (k : ℕ) (oid : Text)
    → all is_text oid ≡ true
    → length oid < 2037
    → fits_line (print_u k ++ b',' ∷ oid) ≡ true
unfolding all is_text
entry_fits k oid h lt =
    fits_line_lem (print_u k ++ b',' ∷ oid)
      (all-append is_text (print_u k) (b',' ∷ oid) (print_u_text k) h)
      (omega (arith, length-append (print_u k) (b',' ∷ oid), length-print_u k))

scan_entry_lem :
    (k c : ℕ) (cs : Text)
    → k < int_limit
    → scan_entry (print_u k ++ b',' ∷ (c ∷ cs)) ≡ some (k, c ∷ cs)
unfolding scan_entry scan_byte ends_number
scan_entry_lem k c cs h =
    rw (scan_int-print_u k (b',' ∷ (c ∷ cs)) (omega arith) refl, scan_entry) refl

-- The entries are stored one by one.
unfoldable pub fill : Pls → ℕ → ℕ → Pls → Pls
unfolding store_entry
fill p zero i q = q
fill p (suc n) i q = fill p n (suc i) (store_entry i (key p i) (p.vidx i) q)

key-lt : (p : Pls) → IsValid p → (i : ℕ) → i < p.len → key p i < p.len
key-lt p v i h = ground (arith, v.order, λ (o : IsInverse p.len p.pidx p.iidx). o.pidx_lt i h)

read_entry :
    (k len i n : ℕ) (oid rest : Text) (q : Pls)
    → k < len
    → len < int_limit
    → all is_text oid ≡ true
    → 1 ≤ length oid
    → length oid < 2037
    → read_entries (suc n) i len (line_of (print_u k ++ b',' ∷ oid) ++ rest) q
      ≡ read_entries n (suc i) len rest (store_entry i k oid q)
unfolding read_entries matched
read_entry k len i n [] rest q h small t e lt = absurd (omega arith)
read_entry k len i n (c ∷ cs) rest q h small t e lt =
    bind_eq _ (fgetsnl-line_of (print_u k ++ b',' ∷ (c ∷ cs)) rest (entry_fits k (c ∷ cs) t lt)) (
      bind_eq _ (ap matched (scan_entry_lem k c cs (omega arith))) (if_true _ _ _ (lt→ltb k len h)))

pub entries_read :
    (p : Pls) (name : Text) (n i : ℕ) (q : Pls)
    → Saveable p name
    → NoEmptyId p
    → i + n ≡ p.len
    → read_entries n i p.len (concat (entry_texts p i n)) q ≡ ok (fill p n i q)
unfolding read_entries entry_texts entry_text concat fill
entries_read p name zero i q s some_id e = refl
entries_read p name (suc n) i q s some_id e =
    let lt : i < p.len = omega arith in
    read_entry (key p i) p.len i n (p.vidx i) (concat (entry_texts p (suc i) n)) q
      (key-lt p s.valid i lt) s.valid.small (s.oid_text i lt) (some_id i lt) (s.oid_size i lt)
    ∙ entries_read p name n (suc i) (store_entry i (key p i) (p.vidx i) q) s some_id (omega arith)

-- An empty id is no match for "%a[^\n]", whatever follows.
scan_entry_empty : (k : ℕ) → k < int_limit → scan_entry (print_u k ++ b',' ∷ []) ≡ none
unfolding scan_entry scan_byte ends_number
scan_entry_empty k h = rw (scan_int-print_u k (b',' ∷ []) (omega arith) refl, scan_entry) refl

read_empty :
    (k len i n : ℕ) (rest : Text) (q : Pls)
    → k < int_limit
    → read_entries (suc n) i len (line_of (print_u k ++ b',' ∷ []) ++ rest) q ≡ null
unfolding read_entries matched all
read_empty k len i n rest q small =
    bind_eq _ (fgetsnl-line_of (print_u k ++ b',' ∷ []) rest (entry_fits k [] refl (omega arith))) (
      ap
        (λ o. matched o >>= λ (e : ℕ × Text).
          if ltb e.0 len then read_entries n (suc i) len rest (store_entry i e.0 e.1 q) else null)
        (scan_entry_empty k small))

pub entries_refused :
    (p : Pls) (name : Text) (k n i : ℕ) (q : Pls)
    → Saveable p name
    → p.vidx k ≡ []
    → k < p.len
    → i ≤ k
    → i + n ≡ p.len
    → read_entries n i p.len (concat (entry_texts p i n)) q ≡ null
unfolding read_entries entry_texts entry_text concat
entries_refused p name k zero i q s none_there lt below e = absurd (omega arith)
entries_refused p name k (suc n) i q s none_there lt below e =
    at_id
      (λ q' ne.
        entries_refused p name k n (suc i) q' s none_there lt (omega (arith, ne)) (omega arith))
      (p.vidx i) refl
  where
    rest : Text
    rest = concat (entry_texts p (suc i) n)

    lt' : i < p.len
    lt' = omega arith

    at_id :
        ((q' : Pls) → i ≢ k → read_entries n (suc i) p.len rest q' ≡ null)
        → (oid : Text) → p.vidx i ≡ oid
        → read_entries (suc n) i p.len (line_of (print_u (key p i) ++ b',' ∷ oid) ++ rest) q ≡ null
    at_id next [] h =
        read_empty (key p i) p.len i n rest q (omega (arith, key-lt p s.valid i lt', s.valid.small))
    at_id next (c ∷ cs) h =
        read_entry (key p i) p.len i n (c ∷ cs) rest q (key-lt p s.valid i lt') s.valid.small
          (subst (λ t. all is_text t ≡ true) h (s.oid_text i lt')) (omega arith)
          (subst (λ t. length t < 2037) h (s.oid_size i lt'))
        ∙ next (store_entry i (key p i) (c ∷ cs) q) other
      where
        other : i ≢ k
        other e = cc (sym h ∙ ap p.vidx e ∙ none_there)

-- What is filled so far is as in `p`.
record Filled (p : Pls) (i : ℕ) (q : Pls) : Type 0 where
  mode : q.shuffled ≡ p.shuffled
  ids : (j : ℕ) → j < i → q.vidx j ≡ p.vidx j
  order : p.shuffled ≡ true → (j : ℕ) → j < i → (q.pidx j ≡ p.pidx j) × (q.iidx (p.pidx j) ≡ j)

store-Filled :
    (p : Pls) (i : ℕ) (q : Pls)
    → IsValid p
    → i < p.len
    → Filled p i q
    → Filled p (suc i) (store_entry i (key p i) (p.vidx i) q)
unfolding store_entry
store-Filled p i q v lt f = record {
  mode = f.mode;
  ids = λ j h. ground (arith, f.ids j);
  order = λ s j h.
      let m : q.shuffled ≡ true = f.mode ∙ s in
      let k : key p i ≡ p.pidx i = if_true _ _ _ s in
      let apart = λ (e : p.pidx i ≡ p.pidx j).
        pidx_inj p.len p.pidx p.iidx (v.order s) i j lt (omega arith) e in
      let stored = ap₂ (λ b (n : ℕ). (if b then update q.pidx i n else q.pidx) j) m k in
      let stored' = ap₂ (λ b (n : ℕ). (if b then update q.iidx n i else q.iidx) (p.pidx j)) m k in
      elim (eq-cases i j) [
        | inl e ↦ (
          stored ∙ if_true _ _ _ (eq→== i j e) ∙ ap p.pidx e,
          stored' ∙ if_true _ _ _ (eq→== (p.pidx i) (p.pidx j) (ap p.pidx e)) ∙ e,
        )
        | inr ne ↦ (
          stored ∙ if_false _ _ _ (ne→== i j ne) ∙ (f.order s j (omega arith)).0,
          stored'
              ∙ if_false _ _ _ (ne→== (p.pidx i) (p.pidx j) (λ e. ne (apart e)))
              ∙ (f.order s j (omega arith)).1,
        )
      ];
}

fill-Filled :
    (p : Pls) (n i : ℕ) (q : Pls)
    → IsValid p
    → i + n ≡ p.len
    → Filled p i q
    → Filled p p.len (fill p n i q)
unfolding fill
fill-Filled p zero i q v e f = subst (λ k. Filled p k q) (omega arith) f
fill-Filled p (suc n) i q v e f =
    fill-Filled p n (suc i) (store_entry i (key p i) (p.vidx i) q) v (omega arith)
      (store-Filled p i q v (omega arith) f)

-- What the entries do not change.
pub Kept : Pls → Pls → Type 0
Kept p q =
    (q.id ≡ p.id)
    × (q.name ≡ p.name)
    × (q.repeat ≡ p.repeat)
    × (q.shuffled ≡ p.shuffled)
    × (q.poolst ≡ p.poolst)
    × (q.alloc ≡ p.alloc)

fill-Kept : (p : Pls) (n i : ℕ) (q : Pls) → Kept q (fill p n i q)
unfolding fill Kept store_entry
fill-Kept p zero i q = (refl, refl, refl, refl, refl, refl)
fill-Kept p (suc n) i q = fill-Kept p n (suc i) (store_entry i (key p i) (p.vidx i) q)

-- A playlist that was read back: all that `pls_save` writes is as before, and it is valid.
pub record Reloaded (p q : Pls) : Type 0 where
  pub valid : IsValid q
  pub same_id : q.id ≡ p.id
  pub same_name : q.name ≡ p.name
  pub same_repeat : q.repeat ≡ p.repeat
  pub same_shuffled : q.shuffled ≡ p.shuffled
  pub same_poolst : q.poolst ≡ p.poolst
  pub same_items : items q ≡ items p
  pub same_order :
      p.shuffled ≡ true → (j : ℕ) → j < p.len → (q.pidx j ≡ p.pidx j) × (q.iidx j ≡ p.iidx j)

IsInverse-ext :
    (n : ℕ) (f f' g g' : ℕ → ℕ)
    → IsInverse n f g
    → ((j : ℕ) → j < n → (f' j ≡ f j) × (g' j ≡ g j))
    → IsInverse n f' g'
IsInverse-ext n f f' g g' o same = record {
  pidx_lt = λ i h. omega (arith, o.pidx_lt i h, (same i h).0);
  iidx_lt = λ i h. omega (arith, o.iidx_lt i h, (same i h).1);
  iidx_pidx = λ i h. ap g' (same i h).0 ∙ (same (f i) (o.pidx_lt i h)).1 ∙ o.iidx_pidx i h;
  pidx_iidx = λ i h. ap f' (same i h).1 ∙ (same (g i) (o.iidx_lt i h)).0 ∙ o.pidx_iidx i h;
}

-- `q` is the playlist before its entries are read.
pub filled-Reloaded :
    (p q : Pls)
    → IsValid p
    → (q.id ≡ p.id)
      × (q.name ≡ p.name)
      × (q.repeat ≡ p.repeat)
      × (q.shuffled ≡ p.shuffled)
      × (q.poolst ≡ p.poolst)
    → p.len ≤ q.alloc
    → Reloaded p (record (fill p p.len 0 q) { len = p.len })
unfolding Kept
filled-Reloaded p q v (a, b, c, d, e) room =
    let r = fill p p.len 0 q in
    let (a', b', c', d', e', f') = fill-Kept p p.len 0 q in
    let empty : Filled p 0 q = record {
      mode = d;
      ids = λ j h. absurd (omega arith);
      order = λ s j h. absurd (omega arith);
    } in
    let full = fill-Filled p p.len 0 q v (omega arith) empty in
    let same : p.shuffled ≡ true
        → (j : ℕ) → j < p.len
        → (r.pidx j ≡ p.pidx j) × (r.iidx j ≡ p.iidx j) =
      λ s j h. (
        (full.order s j h).0,
        ap r.iidx (sym ((v.order s).pidx_iidx j h))
            ∙ (full.order s (p.iidx j) ((v.order s).iidx_lt j h)).1,
      ) in
    record {
      valid = record {
        room = omega (arith, f');
        small = v.small;
        pool = λ s. omega (arith, e' ∙ e, v.pool (sym (d' ∙ d) ∙ s));
        order = λ s.
            let s' = sym (d' ∙ d) ∙ s in
            IsInverse-ext p.len p.pidx r.pidx p.iidx r.iidx (v.order s') (same s');
      };
      same_id = a' ∙ a;
      same_name = b' ∙ b;
      same_repeat = c' ∙ c;
      same_shuffled = d' ∙ d;
      same_poolst = e' ∙ e;
      same_items = slice-ext r.vidx p.vidx 0 0 p.len (λ k h. full.ids (0 + k) (omega arith));
      same_order = same;
    }
