-- ===== src/Aplaylist/Stdio.antt =====
-- What aplaylist.c uses of stdio: the numbers that `fprintf` and `sscanf` convert, and `fgets`. A file
-- that is read is what is left of its bytes; errors of reading count as its end.
use mafw.Common.{
  ℕ, zero, suc, ◌+◌, ◌-◌, ◌*◌, ◌/◌, ◌%◌, ◌^◌, Bool, true, false, ◌&&◌, ◌||◌, Option, none, some, [],
  ◌∷◌, ◌++◌, leb, ltb, ◌==◌, if◌then◌else◌, u32,
}
use mafw.Aplaylist.Types.{Text}

-- At most `fuel` decimal digits; `print_u` gives "%u", and "%d" of what is not negative.
unfoldable pub decimal : ℕ → ℕ → Text
decimal zero n = []
decimal (suc fuel) n =
    let front = decimal fuel (n / 10) in
    if ltb n 10 then (b'0' + n) ∷ [] else front ++ (b'0' + n % 10) ∷ []

-- A `guint` has ten digits at most.
unfoldable pub print_u : ℕ → Text
unfolding decimal
print_u n = decimal 10 n

unfoldable pub is_digit : ℕ → Bool
is_digit c = leb b'0' c && leb c b'9'

-- As in the C locale.
unfoldable pub is_space : ℕ → Bool
is_space c = c == b' ' || (leb 9 c && leb c 13)

unfoldable pub skip_space : Text → Text
unfolding is_space
skip_space [] = []
skip_space (c ∷ cs) = let rest = skip_space cs in if is_space c then rest else c ∷ cs

-- The number that digits spell behind `acc`, and what follows them.
unfoldable pub digits : ℕ → Text → ℕ × Text
unfolding is_digit
digits acc [] = (acc, [])
digits acc (c ∷ cs) =
    let more = digits (acc * 10 + (c - b'0')) cs in if is_digit c then more else (acc, c ∷ cs)

-- The 32 bits that are stored. A number out of range, which the C standard leaves open, keeps its low
-- 32 bits.
unfoldable pub stored : Bool → ℕ → ℕ
stored negative n = if negative then u32 (2 ^ 32 - n % 2 ^ 32) else u32 n

unfoldable pub unsigned : Bool → Text → Option (ℕ × Text)
unfolding digits stored is_digit
unsigned negative [] = none
unsigned negative (c ∷ cs) =
    if is_digit c then some (stored negative (digits 0 (c ∷ cs)).0, (digits 0 (c ∷ cs)).1) else none

unfoldable pub signed : Text → Option (ℕ × Text)
unfolding unsigned
signed [] = none
signed (c ∷ cs) =
    if c == b'-'
    then unsigned true cs
    else if c == b'+'
    then unsigned false cs
    else unsigned false (c ∷ cs)

-- "%d" and "%u": `none` is a matching failure.
unfoldable pub scan_int : Text → Option (ℕ × Text)
unfolding signed skip_space
scan_int s = signed (skip_space s)

-- A byte that the format spells.
unfoldable pub scan_byte : ℕ → Text → Option Text
scan_byte b [] = none
scan_byte b (c ∷ cs) = if c == b then some cs else none

-- At most `size` bytes, to the newline, which is the last one.
unfoldable pub take_line : ℕ → Text → Text × Text
take_line zero s = ([], s)
take_line (suc size) [] = ([], [])
take_line (suc size) (c ∷ cs) =
    let more = take_line size cs in if c == b'\n' then (c ∷ [], cs) else (c ∷ more.0, more.1)

-- `fgets` leaves room for the NUL; `none` is the end of the file.
unfoldable pub fgets : ℕ → Text → Option (Text × Text)
unfolding take_line
fgets size [] = none
fgets size (c ∷ cs) = some (take_line (size - 1) (c ∷ cs))

-- The string that a buffer holds.
unfoldable pub c_string : Text → Text
c_string [] = []
c_string (c ∷ cs) = let rest = c_string cs in if c == 0 then [] else c ∷ rest
