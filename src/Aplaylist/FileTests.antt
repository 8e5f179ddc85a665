-- ===== src/Aplaylist/FileTests.antt =====
-- Playlists that are saved and loaded.
use mafw.Common.{
  ℕ, ◌+◌, ◌≤◌, ◌<◌, ◌≡◌, refl, ◌∙◌, sym, ap, Bool, true, false, Option, none, some, [], ◌∷◌, ◌++◌,
  arith, length, all, if◌then◌else◌, Outcome, ok, ◌>>=◌, null, bad_access, text_eq, ◌&&◌, not, ◌==◌,
  ltb, Ensures-ok, if_true,
}
use mafw.Aplaylist.Types.{Text, Pls}
use mafw.Aplaylist.Check.{pls_check}
use mafw.Aplaylist.Tests.{three, three-IsValid}
use mafw.Aplaylist.Save.{Files, System, saved, pls_save}
use mafw.Aplaylist.Load.{pls_load}
use mafw.Aplaylist.Lines.{is_text}
use mafw.Aplaylist.Reload.{Saveable, Reloaded}
use mafw.Aplaylist.Atomic.{Safe, pls_save-Safe, pls_save_truncates}
use mafw.Aplaylist.Restore.{pls_load-pls_save, pls_load_empty_id}
use mafw.Aplaylist.LoadBounds.{InBounds, pls_load-InBounds}

-- All calls succeed.
abbrev fine : System
fine = record {
  fopen_ok = true;
  fprintf_ok = λ _. true;
  fflush_ok = true;
  fsync_ok = true;
  left = λ text. [];
  fclose_ok = true;
  rename_ok = true;
  unlink_ok = true;
}

-- The disk is full at the third call of `fprintf`.
abbrev full : System
full = record {
  fopen_ok = true;
  fprintf_ok = λ n. ltb n 2;
  fflush_ok = true;
  fsync_ok = true;
  left = λ text. [];
  fclose_ok = true;
  rename_ok = true;
  unlink_ok = true;
}

-- The disk is full only when the text is flushed.
abbrev lossy : System
lossy = record fine { fflush_ok = false }

abbrev no_files : Files
no_files _ = none

abbrev file : Text
file = b'1' ∷ []

-- The text of three clips of which two were drawn.
saved-three :
    saved (three 2)
    ≡ b'V' ∷ b'2' ∷ b'\n' ∷ b'1' ∷ b'\n' ∷ b'p' ∷ b'\n' ∷ b'0' ∷ b'\n' ∷ b'1' ∷ b'\n' ∷ b'3' ∷ b'\n'
      ∷ b'2' ∷ b'\n' ∷ b'0' ∷ b',' ∷ b'a' ∷ b'\n' ∷ b'1' ∷ b',' ∷ b'b' ∷ b'\n' ∷ b'2' ∷ b',' ∷ b'c'
      ∷ b'\n' ∷ []
unfolding saved
saved-three = refl

letter_text : (i : ℕ) → i < 3 → all is_text ((97 + i) ∷ []) ≡ true
unfolding all is_text
letter_text i h = ground arith

three-Saveable : Saveable (three 2) (b'p' ∷ [])
unfolding mafw.Aplaylist.Lines.fits_line all
three-Saveable = record {
  valid = three-IsValid 2 (omega arith);
  named = refl;
  name_some = omega arith;
  name_fits = refl;
  id_small = omega arith;
  pool_small = omega arith;
  oid_text = letter_text;
  oid_size = λ i h. omega arith;
}

three_done : (pls_save fine (three 2) file no_files).0 ≡ true
unfolding pls_save
three_done = refl

pls_load-pls_save_example :
    (q : Pls) × (pls_load true 0 ((pls_save fine (three 2) file no_files).1 file) ≡ ok q)
    × Reloaded (three 2) q
pls_load-pls_save_example =
    pls_load-pls_save fine file no_files true 0 (three 2) (b'p' ∷ []) refl refl three-Saveable
      (λ i h. omega arith) three_done

pls_save-Safe_example : Safe full (three 2) file no_files (pls_save full (three 2) file no_files)
pls_save-Safe_example = pls_save-Safe full (three 2) file no_files

full_fails : (pls_save full (three 2) file no_files).0 ≡ false
unfolding pls_save
full_fails = refl

-- The second id is empty.
abbrev gap : Pls
gap = record (three 2) { vidx = λ i. if i == 1 then [] else b'a' ∷ [] }

gap_text : (i : ℕ) → i < 3 → (all is_text (gap.vidx i) ≡ true) × (length (gap.vidx i) < 2037)
unfolding all is_text
gap_text i h = ground arith

gap-Saveable : Saveable gap (b'p' ∷ [])
unfolding mafw.Aplaylist.Lines.fits_line all
gap-Saveable = record {
  valid =
      let v = three-IsValid 2 (omega arith) in
      record { room = v.room; small = v.small; pool = v.pool; order = v.order };
  named = refl;
  name_some = omega arith;
  name_fits = refl;
  id_small = omega arith;
  pool_small = omega arith;
  oid_text = λ i h. (gap_text i h).0;
  oid_size = λ i h. (gap_text i h).1;
}

gap_done : (pls_save fine gap file no_files).0 ≡ true
unfolding pls_save
gap_done = refl

pls_load_empty_id_example : pls_load true 0 ((pls_save fine gap file no_files).1 file) ≡ null
pls_load_empty_id_example =
    pls_load_empty_id fine file no_files true 0 gap (b'p' ∷ []) 1 refl refl gap-Saveable
      (omega arith) refl gap_done

pls_save_truncates_example :
    ((pls_save lossy (three 2) file no_files).0 ≡ true)
    × ((pls_save lossy (three 2) file no_files).1 file ≡ some [])
pls_save_truncates_example =
    pls_save_truncates lossy (λ n. refl) (three 2) file no_files refl refl refl refl refl

-- "V1", with one clip that is shuffled.
abbrev old_file : Text
old_file =
    b'V' ∷ b'1' ∷ b'\n' ∷ b'7' ∷ b'\n' ∷ b'p' ∷ b'\n' ∷ b'0' ∷ b'\n' ∷ b'1' ∷ b'\n' ∷ b'1' ∷ b'\n'
    ∷ b'0' ∷ b',' ∷ b'a' ∷ b'\n' ∷ []

abbrev old_loaded : Pls
old_loaded = record {
  id = 7;
  name = some (b'p' ∷ []);
  repeat = false;
  shuffled = true;
  use_count = 0;
  len = 1;
  alloc = 16;
  poolst = 1;
  vidx = λ j. if 0 == j then b'a' ∷ [] else [];
  pidx = λ j. if 0 == j then 0 else 0;
  iidx = λ j. if 0 == j then 0 else 0;
  dirty = true;
  dirty_timer = 0;
}

old_loads : pls_load true 0 (some old_file) ≡ ok old_loaded
unfolding pls_load mafw.Aplaylist.Stdio.fgets mafw.Aplaylist.Stdio.c_string
    mafw.Aplaylist.Stdio.scan_byte mafw.Aplaylist.Stdio.scan_int mafw.Aplaylist.Edit.pls_new
    mafw.Aplaylist.Edit.maybe_realloc mafw.Aplaylist.Edit.grow
old_loads = refl

pls_load-InBounds_example : InBounds old_loaded
pls_load-InBounds_example = pls_load-InBounds true 0 old_file old_loaded old_loads

-- An empty name is read, and then written through the null pointer that `pls_new` gives.
nameless :
    pls_load true 0 (
      some (
        b'V' ∷ b'1' ∷ b'\n' ∷ b'7' ∷ b'\n' ∷ b'\n' ∷ b'0' ∷ b'\n' ∷ b'0' ∷ b'\n' ∷ b'0' ∷ b'\n'
        ∷ []))
    ≡ bad_access
unfolding pls_load mafw.Aplaylist.Stdio.fgets mafw.Aplaylist.Stdio.c_string
    mafw.Aplaylist.Stdio.scan_byte mafw.Aplaylist.Stdio.scan_int mafw.Aplaylist.Edit.pls_new
nameless = refl

-- Two entries with the same index are loaded, and the playlist fails `pls_check`.
same_index_twice :
    (pls_load true 0 (
        some (
          b'V' ∷ b'1' ∷ b'\n' ∷ b'7' ∷ b'\n' ∷ b'p' ∷ b'\n' ∷ b'0' ∷ b'\n' ∷ b'1' ∷ b'\n' ∷ b'2'
          ∷ b'\n' ∷ b'0' ∷ b',' ∷ b'a' ∷ b'\n' ∷ b'0' ∷ b',' ∷ b'b' ∷ b'\n' ∷ []))
      >>= pls_check)
    ≡ ok false
unfolding pls_load mafw.Aplaylist.Stdio.fgets mafw.Aplaylist.Stdio.c_string
    mafw.Aplaylist.Stdio.scan_byte mafw.Aplaylist.Stdio.scan_int mafw.Aplaylist.Edit.pls_new
    mafw.Aplaylist.Edit.maybe_realloc mafw.Aplaylist.Edit.grow pls_check mafw.Common.for
    mafw.Aplaylist.Check.check_entry mafw.Aplaylist.Check.tally
same_index_twice = refl
