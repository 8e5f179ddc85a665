-- ===== src/Aplaylist/Save.antt =====
-- `pls_save`, which writes a playlist to a file, and `save_me` of playlist-manager-wrapper.c.
use mafw.Common.{
  ℕ, zero, suc, Bool, true, false, ◌&&◌, Option, none, some, List, [], ◌∷◌, ◌++◌, if◌then◌else◌,
  text_eq,
}
use mafw.Aplaylist.Types.{Text, Pls}
use mafw.Aplaylist.Stdio.{print_u}

-- A line of the file.
abbrev pub line_of : Text → Text
line_of s = s ++ b'\n' ∷ []

abbrev pub print_bool : Bool → Text
print_bool true = b'1' ∷ []
print_bool false = b'0' ∷ []

-- glibc prints a null pointer so.
unfoldable pub name_text : Option Text → Text
name_text none = b'(' ∷ b'n' ∷ b'u' ∷ b'l' ∷ b'l' ∷ b')' ∷ []
name_text (some s) = s

-- What the first call of `fprintf` writes.
unfoldable pub header_text : Pls → Text
unfolding name_text print_u
header_text p =
    line_of (b'V' ∷ b'2' ∷ [])
    ++ (line_of (print_u p.id)
        ++ (line_of (name_text p.name)
            ++ (line_of (print_bool p.repeat)
                ++ (line_of (print_bool p.shuffled)
                    ++ (line_of (print_u p.len) ++ line_of (print_u p.poolst))))))

-- "%u,%s\n" for the element `i`.
unfoldable pub entry_text : Pls → ℕ → Text
unfolding print_u
entry_text p i = line_of (print_u (if p.shuffled then p.pidx i else i) ++ b',' ∷ p.vidx i)

-- One piece of text for each call of `fprintf`, from the element `i` on.
unfoldable pub entry_texts : Pls → ℕ → ℕ → List Text
unfolding entry_text
entry_texts p i zero = []
entry_texts p i (suc n) = entry_text p i ∷ entry_texts p (suc i) n

unfoldable pub concat : List Text → Text
concat [] = []
concat (t ∷ ts) = t ++ concat ts

-- The whole file.
unfoldable pub saved : Pls → Text
unfolding header_text entry_texts concat
saved p = header_text p ++ concat (entry_texts p 0 p.len)

-- A file system: the bytes of the files there are, by name.
abbrev pub Files : Type 0
Files = Text → Option Text

-- What the system calls answer: `fprintf_ok` by the number of the call. `left` is what the file holds
-- after a flush or a sync that failed, of the text that was written.
pub record System : Type 0 where
  pub fopen_ok : Bool
  pub fprintf_ok : ℕ → Bool
  pub fflush_ok : Bool
  pub fsync_ok : Bool
  pub left : Text → Text
  pub fclose_ok : Bool
  pub rename_ok : Bool
  pub unlink_ok : Bool

unfoldable pub write_file : Text → Option Text → Files → Files
unfolding text_eq
write_file fn content fs name = if text_eq fn name then content else fs name

abbrev pub tmp_name : Text → Text
tmp_name fn = fn ++ b'.' ∷ b't' ∷ b'm' ∷ b'p' ∷ []

module _ (sys : System) where
  -- A call that fails ends the writing; how much of its text is in the file by then is not told.
  unfoldable pub write_pieces : ℕ → List Text → Text → Bool × Text
  write_pieces n [] written = (true, written)
  write_pieces n (t ∷ ts) written =
      let more = write_pieces (suc n) ts (written ++ t) in
      if sys.fprintf_ok n then more else (false, written)

  -- `fflush(f)` and `fsync(fileno(f))`, whose answers are not looked at.
  unfoldable pub flushed : Text → Text
  flushed text =
      let flush = if sys.fflush_ok then text else sys.left text in
      if sys.fsync_ok then flush else sys.left flush

  -- What the temporary file holds before it is closed: a writing that failed is not flushed.
  unfoldable pub settled_text : Bool × Text → Text
  unfolding flushed
  settled_text (all_written, text) = if all_written then flushed text else text

  unfoldable pub unlink : Text → Files → Files
  unfolding write_file
  unlink fn fs = if sys.unlink_ok then write_file fn none fs else fs

  -- The file `from` takes the place of `to`.
  unfoldable pub rename : Text → Text → Files → Bool × Files
  unfolding write_file
  rename from to fs =
      if sys.rename_ok
      then (true, write_file from none (write_file to (fs from) fs))
      else (false, fs)

  -- After the writing: `fclose`, and `rename` if all went well. Else the temporary file goes.
  unfoldable pub finish_save : Text → Text → Bool → Files → Bool × Files
  unfolding unlink rename
  finish_save fn tmpf all_written fs =
      if all_written && sys.fclose_ok then rename tmpf fn fs else (false, unlink tmpf fs)

  unfoldable pub pls_save : Pls → Text → Files → Bool × Files
  unfolding write_pieces settled_text write_file finish_save header_text entry_texts
  pls_save p fn fs =
      let out = write_pieces 0 (header_text p ∷ entry_texts p 0 p.len) [] in
      if sys.fopen_ok
      then finish_save fn (tmp_name fn) out.0
          (write_file (tmp_name fn) (some (settled_text out)) fs)
      else (false, fs)

  -- `ensured` is the answer of `ensure_playlist_dir`, `fn` the file of the playlist in that directory.
  unfoldable pub save_me : Bool → Text → Pls → Files → Pls × Files
  unfolding pls_save
  save_me ensured fn p fs =
      let (isok, fs') = pls_save p fn fs in
      if ensured then (if isok then record p { dirty = false } else p, fs') else (p, fs)
