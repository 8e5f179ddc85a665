-- ===== src/Aplaylist/Restore.antt =====
-- The round trip of `pls_save` and `pls_load`.
use mathlib.Core.List.{append_assoc}
use mafw.Common.{
  ℕ, ◌≤◌, ◌<◌, ◌≡◌, refl, ◌∙◌, sym, ap, Bool, true, false, some, [], ◌∷◌, ◌++◌, arith, int_limit,
  all, Outcome, ok, null, ◌>>=◌, bind_eq,
}
use mafw.Aplaylist.Types.{Text, Pls}
use mafw.Aplaylist.Stdio.{print_u, scan_int, scan_byte}
use mafw.Aplaylist.Atomic.{pls_save_whole}
use mafw.Aplaylist.Save.{
  Files, System, pls_save, line_of, print_bool, name_text, header_text, entry_texts, concat, saved,
}
use mafw.Aplaylist.Edit.{cleared, pls_new, pls_set_name, maybe_realloc}
use mafw.Aplaylist.Insert.Room.{maybe_realloc_total}
use mafw.Aplaylist.Load.{read_version, read_pool, read_entries, grown, opened, finished, pls_load}
use mafw.Aplaylist.Lines.{fits_line, fgetsnl-line_of, read_int-print_u, read_bool-print_bool}
use mafw.Aplaylist.Reload.{
  Saveable, NoEmptyId, entries_read, entries_refused, fill, Reloaded, filled-Reloaded,
}

-- A playlist before its entries are read, with room for them.
unfoldable pub Opened : ℕ → Text → Bool → Bool → ℕ → ℕ → Outcome Pls → Type 0
Opened id name repeat shuffled len poolst o =
    (q : Pls) × (o ≡ ok q)
    × ((q.id ≡ id)
        × (q.name ≡ some name)
        × (q.repeat ≡ repeat)
        × (q.shuffled ≡ shuffled)
        × (q.poolst ≡ poolst))
    × (len ≤ q.alloc)

grown-maybe_realloc :
    (b : Pls) (len : ℕ)
    → b.len ≡ 0
    → len < int_limit
    → (a : ℕ) × (grown (maybe_realloc b len) ≡ ok (record b { alloc = a })) × (len ≤ a)
unfolding grown
grown-maybe_realloc b len e h =
    let (a, q, room) = maybe_realloc_total b len (omega arith) (omega arith) in
    (a, ap grown q, omega arith)

pub opened-Opened :
    (initialize : Bool) (timer id c : ℕ) (cs : Text) (repeat shuffled : Bool) (len poolst : ℕ)
    → len < int_limit
    → Opened id
        (c ∷ cs)
        repeat
        shuffled
        len
        poolst
        (opened initialize timer id (c ∷ cs) repeat shuffled len poolst)
unfolding Opened opened pls_new pls_set_name
opened-Opened true timer id c cs repeat shuffled len poolst h =
    let b = record (cleared id) {
      name = some (c ∷ cs);
      repeat = repeat;
      shuffled = shuffled;
      poolst = poolst;
    } in
    let (a, q, room) = grown-maybe_realloc b len refl h in
    (record b { alloc = a }, q, (refl, refl, refl, refl, refl), room)
opened-Opened false timer id c cs repeat shuffled len poolst h =
    let b = record (cleared id) {
      name = some (c ∷ cs);
      repeat = repeat;
      shuffled = shuffled;
      poolst = poolst;
      dirty = true;
      dirty_timer = timer;
    } in
    let (a, q, room) = grown-maybe_realloc b len refl h in
    (record b { alloc = a }, q, (refl, refl, refl, refl, refl), room)

read_version_lem : (rest : Text) → read_version (line_of (b'V' ∷ b'2' ∷ []) ++ rest) ≡ ok (2, rest)
unfolding read_version fits_line all scan_byte scan_int
read_version_lem rest = rw (fgetsnl-line_of (b'V' ∷ b'2' ∷ []) rest refl) refl

header_assoc :
    (a b c d e f g r : Text)
    → (a ++ (b ++ (c ++ (d ++ (e ++ (f ++ g)))))) ++ r
      ≡ a ++ (b ++ (c ++ (d ++ (e ++ (f ++ (g ++ r))))))
header_assoc a b c d e f g r = simp (append_assoc)

saved_text :
    (p : Pls) (name : Text)
    → p.name ≡ some name
    → saved p
      ≡ line_of (b'V' ∷ b'2' ∷ [])
        ++ (line_of (print_u p.id)
            ++ (line_of name
                ++ (line_of (print_bool p.repeat)
                    ++ (line_of (print_bool p.shuffled)
                        ++ (line_of (print_u p.len)
                            ++ (line_of (print_u p.poolst) ++ concat (entry_texts p 0 p.len)))))))
unfolding saved header_text name_text
saved_text p name e =
    header_assoc (line_of (b'V' ∷ b'2' ∷ [])) (line_of (print_u p.id)) (line_of (name_text p.name))
      (line_of (print_bool p.repeat)) (line_of (print_bool p.shuffled)) (line_of (print_u p.len))
      (line_of (print_u p.poolst)) (concat (entry_texts p 0 p.len))
    ∙ ap
        (λ n.
          line_of (b'V' ∷ b'2' ∷ [])
          ++ (line_of (print_u p.id)
              ++ (line_of (name_text n)
                  ++ (line_of (print_bool p.repeat)
                      ++ (line_of (print_bool p.shuffled)
                          ++ (line_of (print_u p.len)
                              ++ (line_of (print_u p.poolst)
                                  ++ concat (entry_texts p 0 p.len))))))))
        e

-- The header is read, and the entries are still to come.
load_header :
    (initialize : Bool) (timer : ℕ) (p : Pls) (name : Text) (q : Pls)
    → Saveable p name
    → opened initialize timer p.id name p.repeat p.shuffled p.len p.poolst ≡ ok q
    → pls_load initialize timer (some (saved p))
      ≡ (read_entries p.len 0 p.len (concat (entry_texts p 0 p.len)) q >>= finished p.len)
unfolding pls_load read_pool
load_header initialize timer p name q s e =
    ap (λ f. pls_load initialize timer (some f)) (saved_text p name s.named)
    ∙ bind_eq _ (read_version_lem _) (
        bind_eq _ (read_int-print_u p.id _ s.id_small) (
          bind_eq _ (fgetsnl-line_of name _ s.name_fits) (
            bind_eq _ (read_bool-print_bool p.repeat _) (
              bind_eq _ (read_bool-print_bool p.shuffled _) (
                bind_eq _ (read_int-print_u p.len _ s.valid.small)
                  (bind_eq _ (read_int-print_u p.poolst _ s.pool_small) (bind_eq _ e refl)))))))

-- What `pls_save` wrote is read back.
restored :
    (initialize : Bool) (timer : ℕ) (p : Pls) (name : Text)
    → Saveable p name
    → NoEmptyId p
    → (q : Pls) × (pls_load initialize timer (some (saved p)) ≡ ok q) × Reloaded p q
unfolding Opened
restored initialize timer p [] s some_id = absurd (omega (arith, s.name_some))
restored initialize timer p (c ∷ cs) s some_id =
    let (q, e, (a, b, r, d, f), room) =
      opened-Opened initialize timer p.id c cs p.repeat p.shuffled p.len p.poolst s.valid.small in
    (
      record (fill p p.len 0 q) { len = p.len },
      load_header initialize timer p (c ∷ cs) q s e
          ∙ bind_eq _ (entries_read p (c ∷ cs) p.len 0 q s some_id (omega arith)) refl,
      filled-Reloaded p q s.valid (a, b ∙ sym s.named, r, d, f) room,
    )

-- If `fflush` and `fsync` do not fail and `pls_save` returns TRUE for a playlist that is valid and that the
-- format can hold (a name that is not empty and fits its line, the id and poolst below 2^31, object
-- ids that fit theirs), with no empty object id, then `pls_load` of that file gives a valid playlist
-- with the same id, name, modes, items and order.
pub pls_load-pls_save :
    (sys : System) (fn : Text) (fs : Files) (initialize : Bool) (timer : ℕ) (p : Pls) (name : Text)
    → sys.fflush_ok ≡ true
    → sys.fsync_ok ≡ true
    → Saveable p name
    → NoEmptyId p
    → (pls_save sys p fn fs).0 ≡ true
    → (q : Pls) × (pls_load initialize timer ((pls_save sys p fn fs).1 fn) ≡ ok q) × Reloaded p q
pls_load-pls_save sys fn fs initialize timer p name flush sync s some_id h =
    let there = pls_save_whole sys p fn fs flush sync h in
    let (q, e, same) = restored initialize timer p name s some_id in
    (q, ap (pls_load initialize timer) there ∙ e, same)

saved_empty_id :
    (initialize : Bool) (timer : ℕ) (p : Pls) (name : Text) (k : ℕ)
    → Saveable p name
    → k < p.len
    → p.vidx k ≡ []
    → pls_load initialize timer (some (saved p)) ≡ null
unfolding Opened
saved_empty_id initialize timer p [] k s lt h = absurd (omega (arith, s.name_some))
saved_empty_id initialize timer p (c ∷ cs) k s lt h =
    let (q, e, _, _) =
      opened-Opened initialize timer p.id c cs p.repeat p.shuffled p.len p.poolst s.valid.small in
    load_header initialize timer p (c ∷ cs) q s e
    ∙ ap (λ (o : Outcome Pls). o >>= finished p.len)
        (entries_refused p (c ∷ cs) k p.len 0 q s h lt (omega arith) (omega arith))

-- If `fflush` and `fsync` do not fail and `pls_save` returns TRUE for a playlist that is valid and that the
-- format can hold but for an empty object id, then `pls_load` of that file gives NULL.
pub pls_load_empty_id :
    (sys : System) (fn : Text) (fs : Files) (initialize : Bool) (timer : ℕ) (p : Pls) (name : Text)
    (k : ℕ)
    → sys.fflush_ok ≡ true
    → sys.fsync_ok ≡ true
    → Saveable p name
    → k < p.len
    → p.vidx k ≡ []
    → (pls_save sys p fn fs).0 ≡ true
    → pls_load initialize timer ((pls_save sys p fn fs).1 fn) ≡ null
pls_load_empty_id sys fn fs initialize timer p name k flush sync s lt empty h =
    ap (pls_load initialize timer) (pls_save_whole sys p fn fs flush sync h)
    ∙ saved_empty_id initialize timer p name k s lt empty
