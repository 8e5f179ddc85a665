-- ===== src/Aplaylist/Lines.antt =====
-- `fgetsnl` reads back the lines that `pls_save` writes.
use mathlib.Core.List.{append_assoc, append-nil}
use mafw.Common.{
  ℕ, zero, suc, ◌+◌, ◌-◌, ◌^◌, ◌≤◌, ◌<◌, ◌≡◌, refl, ◌∙◌, sym, ap, Bool, true, false, not, ◌&&◌,
  some, [], ◌∷◌, ◌++◌, arith, ltb, ◌==◌, if◌then◌else◌, length, if_true, if_false, lt→ltb,
  int_limit, all, all_head, all_tail, ok, null, ◌>>=◌,
}
use mafw.Aplaylist.Types.{Text}
use mafw.Aplaylist.Stdio.{decimal, print_u, is_digit, scan_int, take_line, fgets, c_string}
use mafw.Aplaylist.Save.{line_of, print_bool}
use mafw.Aplaylist.Load.{chop, fgetsnl, buf_size, matched, read_int, read_bool}
use mafw.Aplaylist.Scan.{scan_int-print_u, decimal_digits, length-decimal, ends_number}

-- Neither the newline nor the NUL.
unfoldable pub is_text : ℕ → Bool
is_text c = not (c == b'\n') && not (c == 0)

-- A line that fits in the buffer.
unfoldable pub fits_line : Text → Bool
unfolding is_text
fits_line s = all is_text s && ltb (length s) 2048

no_newline : (c : ℕ) → is_text c ≡ true → (c == b'\n') ≡ false
unfolding is_text
no_newline c h = ground arith

no_nul : (c : ℕ) → is_text c ≡ true → (c == 0) ≡ false
unfolding is_text
no_nul c h = ground arith

take_line_lem :
    (size : ℕ) (s rest : Text)
    → all is_text s ≡ true
    → length s < size
    → take_line size (s ++ b'\n' ∷ rest) ≡ (s ++ b'\n' ∷ [], rest)
unfolding take_line
take_line_lem zero s rest h lt = absurd (omega arith)
take_line_lem (suc size) [] rest h lt = refl
take_line_lem (suc size) (c ∷ cs) rest h lt =
    if_false _ _ _ (no_newline c (all_head is_text c cs h))
    ∙ ap (λ (r : Text × Text). (c ∷ r.0, r.1))
        (take_line_lem size cs rest (all_tail is_text c cs h) (omega arith))

c_string_lem : (s : Text) → all is_text s ≡ true → c_string (s ++ b'\n' ∷ []) ≡ s ++ b'\n' ∷ []
unfolding c_string
c_string_lem [] h = refl
c_string_lem (c ∷ cs) h =
    if_false _ _ _ (no_nul c (all_head is_text c cs h))
    ∙ ap (◌∷◌ c) (c_string_lem cs (all_tail is_text c cs h))

chop_lem : (s : Text) → chop (s ++ b'\n' ∷ []) ≡ ok s
unfolding chop
chop_lem [] = refl
chop_lem (c ∷ []) = refl
chop_lem (c ∷ d ∷ cs) = ap (λ o. o >>= λ rest. ok (c ∷ rest)) (chop_lem (d ∷ cs))

fgets_lem :
    (size : ℕ) (s rest : Text)
    → all is_text s ≡ true
    → length s + 1 < size
    → fgets size (s ++ b'\n' ∷ rest) ≡ some (s ++ b'\n' ∷ [], rest)
unfolding fgets
fgets_lem size [] rest h lt = ap (λ k. some k) (take_line_lem (size - 1) [] rest h (omega arith))
fgets_lem size (c ∷ cs) rest h lt =
    ap (λ k. some k) (take_line_lem (size - 1) (c ∷ cs) rest h (omega arith))

fits_text : (s : Text) → fits_line s ≡ true → all is_text s ≡ true
unfolding fits_line
fits_text s h = ground arith

fits_size : (s : Text) → fits_line s ≡ true → length s < 2048
unfolding fits_line
fits_size s h = ground arith

-- A line is read without its newline.
pub fgetsnl-line_of :
    (s rest : Text) → fits_line s ≡ true → fgetsnl buf_size (line_of s ++ rest) ≡ ok (s, rest)
unfolding fgetsnl
fgetsnl-line_of s rest h =
    let t = fits_text s h in
    let got = fgets_lem buf_size s rest t (omega (arith, fits_size s h)) in
    ap (fgetsnl buf_size) (append_assoc s (b'\n' ∷ []) rest)
    ∙ rw (got, fgetsnl) (rw (c_string_lem s t) (rw (chop_lem s)))

digit_text : (c : ℕ) → is_digit c ≡ true → is_text c ≡ true
unfolding is_digit is_text
digit_text c h = ground arith

digits_text : (s : Text) → all is_digit s ≡ true → all is_text s ≡ true
unfolding all
digits_text [] h = refl
digits_text (c ∷ cs) h =
    if_true _ _ _ (digit_text c (all_head is_digit c cs h))
    ∙ digits_text cs (all_tail is_digit c cs h)

pub print_u_text : (n : ℕ) → all is_text (print_u n) ≡ true
unfolding print_u
print_u_text n = digits_text (decimal 10 n) (decimal_digits 10 n)

pub length-print_u : (n : ℕ) → length (print_u n) ≤ 10
unfolding print_u
length-print_u n = length-decimal 10 n

pub fits_line_lem : (s : Text) → all is_text s ≡ true → length s < 2048 → fits_line s ≡ true
unfolding fits_line
fits_line_lem s h k = ground arith

print_u_fits : (n : ℕ) → fits_line (print_u n) ≡ true
print_u_fits n = fits_line_lem (print_u n) (print_u_text n) (omega (arith, length-print_u n))

scan_whole : (n : ℕ) → n < 2 ^ 32 → scan_int (print_u n) ≡ some (n, [])
unfolding ends_number
scan_whole n h = ap scan_int (sym (append-nil (print_u n))) ∙ scan_int-print_u n [] h refl

pub read_int-print_u :
    (n : ℕ) (rest : Text) → n < int_limit → read_int (line_of (print_u n) ++ rest) ≡ ok (n, rest)
unfolding read_int matched
read_int-print_u n rest h =
    ap
      (λ o. o >>= λ (r : Text × Text). matched (scan_int r.0) >>= λ (k : ℕ × Text).
        if ltb k.0 int_limit then ok (k.0, r.1) else null)
      (fgetsnl-line_of (print_u n) rest (print_u_fits n))
    ∙ ap (λ o. matched o >>= λ (k : ℕ × Text). if ltb k.0 int_limit then ok (k.0, rest) else null)
        (scan_whole n (omega arith))
    ∙ if_true _ _ _ (lt→ltb n int_limit h)

pub read_bool-print_bool :
    (b : Bool) (rest : Text) → read_bool (line_of (print_bool b) ++ rest) ≡ ok (b, rest)
unfolding read_bool fits_line all scan_int
read_bool-print_bool true rest = rw (fgetsnl-line_of (print_bool true) rest refl) refl
read_bool-print_bool false rest = rw (fgetsnl-line_of (print_bool false) rest refl) refl
