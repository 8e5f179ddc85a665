-- ===== src/Aplaylist/Atomic.antt =====
-- What `pls_save` leaves in the file system.
use mathlib.Core.List.{append_assoc, append-nil}
use mafw.Common.{
  ℕ, suc, ◌≡◌, refl, ◌∙◌, sym, ap, inl, inr, Bool, true, false, Option, none, some, List, [], ◌∷◌,
  ◌++◌, if◌then◌else◌, if_elim, Bool-cases, if_true, if_false, text_eq, text_eq_refl,
  text_eq-append,
}
use mafw.Aplaylist.Types.{Text, Pls}
use mafw.Aplaylist.Save.{
  header_text, entry_texts, concat, saved, Files, System, write_file, write_pieces, unlink, rename,
  flushed, settled_text, finish_save, tmp_name, pls_save,
}

write_file_self : (fn : Text) (c : Option Text) (fs : Files) → write_file fn c fs fn ≡ c
unfolding write_file
write_file_self fn c fs = if_true _ _ _ (text_eq_refl fn)

write_file_other :
    (fn : Text) (c : Option Text) (fs : Files) (name : Text)
    → text_eq fn name ≡ false
    → write_file fn c fs name ≡ fs name
unfolding write_file
write_file_other fn c fs name h = if_false _ _ _ h

-- `fn` holds what the flush and the sync left of the saved playlist if the call returns TRUE, and what it
-- held before if not.
abbrev pub Safe : System → Pls → Text → Files → Bool × Files → Type 0
Safe sys p fn fs (isok, fs') =
    (fs' fn ≡ (if isok then some (flushed sys (saved p)) else fs fn))
    × ((name : Text)
        → text_eq fn name ≡ false
        → text_eq (tmp_name fn) name ≡ false
        → fs' name ≡ fs name)

module _ (sys : System) (p : Pls) (fn : Text) (fs : Files) where
  abbrev tmpf : Text
  tmpf = tmp_name fn

  tmpf_other : text_eq tmpf fn ≡ false
  tmpf_other = text_eq-append fn _ _

  write_pieces_all :
      (n : ℕ) (ts : List Text) (written : Text)
      → (write_pieces sys n ts written).0 ≡ true
      → (write_pieces sys n ts written).1 ≡ written ++ concat ts
  unfolding write_pieces concat
  write_pieces_all n [] written h = sym (append-nil written)
  write_pieces_all n (t ∷ ts) written h = elim (Bool-cases (sys.fprintf_ok n)) [
    | inl e ↦
        ap (λ (r : Bool × Text). r.1) (if_true _ _ _ e)
        ∙ write_pieces_all (suc n) ts (written ++ t)
            (sym (ap (λ (r : Bool × Text). r.0) (if_true _ _ _ e)) ∙ h)
        ∙ append_assoc written t (concat ts)
    | inr e ↦ cc (sym (ap (λ (r : Bool × Text). r.0) (if_false _ _ _ e)) ∙ h)
  ]

  -- The temporary file was written.
  abbrev wrote : Text → Files
  wrote out = write_file tmpf (some out) fs

  kept : (out : Text) → Safe sys p fn fs (false, wrote out)
  kept out = (
    write_file_other tmpf (some out) fs fn tmpf_other,
    λ name a b. write_file_other tmpf (some out) fs name b,
  )

  unlink-Safe : (out : Text) → Safe sys p fn fs (false, unlink sys tmpf (wrote out))
  unfolding unlink
  unlink-Safe out =
      if_elim (λ k. Safe sys p fn fs (false, k)) sys.unlink_ok
        (λ _. (
          write_file_other tmpf none (wrote out) fn tmpf_other ∙ (kept out).0,
          λ name a b. write_file_other tmpf none (wrote out) name b ∙ (kept out).1 name a b,
        ))
        λ _. kept out

  rename-Safe :
      (out : Text) → out ≡ flushed sys (saved p) → Safe sys p fn fs (rename sys tmpf fn (wrote out))
  unfolding rename
  rename-Safe out q =
      let moved = write_file fn (wrote out tmpf) (wrote out) in
      if_elim (Safe sys p fn fs) sys.rename_ok
        (λ _. (
          write_file_other tmpf none moved fn tmpf_other
              ∙ write_file_self fn (wrote out tmpf) (wrote out)
              ∙ write_file_self tmpf (some out) fs
              ∙ ap (λ k. some k) q,
          λ name a b.
              write_file_other tmpf none moved name b
              ∙ write_file_other fn (wrote out tmpf) (wrote out) name a
              ∙ (kept out).1 name a b,
        ))
        λ _. kept out

  finish-Safe :
      (b : Bool) (out : Text)
      → (b ≡ true → out ≡ flushed sys (saved p))
      → Safe sys p fn fs (finish_save sys fn tmpf b (wrote out))
  unfolding finish_save
  finish-Safe false out q = unlink-Safe out
  finish-Safe true out q =
      if_elim (Safe sys p fn fs) sys.fclose_ok (λ _. rename-Safe out (q refl)) λ _. unlink-Safe out

  settled_all :
      (r : Bool × Text)
      → (r.0 ≡ true → r.1 ≡ saved p)
      → r.0 ≡ true
      → settled_text sys r ≡ flushed sys (saved p)
  unfolding settled_text
  settled_all (true, text) all h = ap (flushed sys) (all refl)
  settled_all (false, text) all h = cc h

  -- If `pls_save` returns TRUE the file holds what `fflush` and `fsync` left of the saved playlist, which
  -- is all of it if neither failed; if it returns FALSE the file is what it was before. Of the other
  -- files no call changes any but the temporary one.
  pub pls_save-Safe : Safe sys p fn fs (pls_save sys p fn fs)
  unfolding pls_save saved
  pls_save-Safe =
      let pieces = header_text p ∷ entry_texts p 0 p.len in
      let out = write_pieces sys 0 pieces [] in
      if_elim (Safe sys p fn fs) sys.fopen_ok
        (λ _.
          finish-Safe out.0 (settled_text sys out) (settled_all out (write_pieces_all 0 pieces [])))
        λ _. (refl, λ name a b. refl)

  pub pls_save_whole :
      sys.fflush_ok ≡ true
      → sys.fsync_ok ≡ true
      → (pls_save sys p fn fs).0 ≡ true
      → (pls_save sys p fn fs).1 fn ≡ some (saved p)
  unfolding flushed
  pls_save_whole flush sync h =
      pls_save-Safe.0
      ∙ if_true _ _ _ h
      ∙ ap (λ t. some t) (if_true _ _ _ sync ∙ if_true _ _ _ flush)

module _ (sys : System) (printed : (n : ℕ) → sys.fprintf_ok n ≡ true) where
  write_pieces_ok :
      (n : ℕ) (ts : List Text) (written : Text) → (write_pieces sys n ts written).0 ≡ true
  unfolding write_pieces
  write_pieces_ok n [] written = refl
  write_pieces_ok n (t ∷ ts) written =
      ap (λ (r : Bool × Text). r.0) (if_true _ _ _ (printed n))
      ∙ write_pieces_ok (suc n) ts (written ++ t)

  finish_save_ok :
      (fn tmpf : Text) (all_written : Bool) (fs : Files)
      → all_written ≡ true
      → sys.fclose_ok ≡ true
      → sys.rename_ok ≡ true
      → (finish_save sys fn tmpf all_written fs).0 ≡ true
  unfolding finish_save rename
  finish_save_ok fn tmpf false fs w close move = cc w
  finish_save_ok fn tmpf true fs w close move =
      ap (λ (r : Bool × Files). r.0)
        (if_true sys.fclose_ok (rename sys tmpf fn fs) (false, unlink sys tmpf fs) close
          ∙ if_true sys.rename_ok (true, write_file tmpf none (write_file fn (fs tmpf) fs))
              (false, fs) move)

  -- If `fflush` fails and all other calls go well, `pls_save` returns TRUE, and what the failed flush
  -- left of the playlist has taken the place of the old file.
  pub pls_save_truncates :
      (p : Pls) (fn : Text) (fs : Files)
      → sys.fopen_ok ≡ true
      → sys.fflush_ok ≡ false
      → sys.fsync_ok ≡ true
      → sys.fclose_ok ≡ true
      → sys.rename_ok ≡ true
      → ((pls_save sys p fn fs).0 ≡ true)
        × ((pls_save sys p fn fs).1 fn ≡ some (sys.left (saved p)))
  unfolding pls_save flushed
  pls_save_truncates p fn fs opens flush sync close move =
      let out = write_pieces sys 0 (header_text p ∷ entry_texts p 0 p.len) [] in
      let written = write_file (tmp_name fn) (some (settled_text sys out)) fs in
      let done : (pls_save sys p fn fs).0 ≡ true =
        ap (λ (r : Bool × Files). r.0)
          (if_true sys.fopen_ok (finish_save sys fn (tmp_name fn) out.0 written) (false, fs) opens)
        ∙ finish_save_ok fn (tmp_name fn) out.0 written
            (write_pieces_ok 0 (header_text p ∷ entry_texts p 0 p.len) []) close move in
      (
        done,
        (pls_save-Safe sys p fn fs).0
            ∙ if_true _ _ _ done
            ∙ ap (λ t. some t) (if_true _ _ _ sync ∙ if_false _ _ _ flush),
      )
