-- ===== src/Filter/Quote.antt =====
-- `mafw_filter_quote` and `mafw_filter_unquote`. A `char` is a number below 256, a string the list of
-- its bytes before the terminating NUL.
use mafw.Common.{
  ℕ, zero, suc, ◌+◌, ◌-◌, ◌*◌, ◌/◌, ◌%◌, Bool, ◌&&◌, ◌||◌, Option, none, some, [], ◌∷◌, ◌++◌, leb,
  ◌==◌, if◌then◌else◌, length,
}
use mafw.Aplaylist.Types.{Text}
use mafw.Common.{Outcome, ok, null, bad_access, out_of_fuel}
use Prim.Native.Nat.{bit_or}

-- '*', '(', ')' and '\'.
unfoldable pub is_special : ℕ → Bool
is_special c = c == b'*' || c == b'(' || c == b')' || c == b'\\'

unfoldable pub hexchars : ℕ → ℕ
hexchars n = if leb n 9 then b'0' + n else b'A' + (n - 10)

unfoldable pub quote_char : ℕ → Text
unfolding is_special hexchars
quote_char c = if is_special c then b'\\' ∷ hexchars (c / 16) ∷ hexchars (c % 16) ∷ [] else c ∷ []

-- The first loop counts the room for the second.
unfoldable pub quoted_size : Text → ℕ
unfolding is_special
quoted_size [] = 0
quoted_size (c ∷ cs) = quoted_size cs + (if is_special c then 3 else 1)

unfoldable pub mafw_filter_quote : Text → Text
unfolding quote_char
mafw_filter_quote [] = []
mafw_filter_quote (c ∷ cs) = quote_char c ++ mafw_filter_quote cs

unfoldable pub hex2char : ℕ → ℕ → Option ℕ
hex2char outc inc =
    if leb b'0' inc && leb inc b'9'
    then some (bit_or outc (inc - b'0'))
    else if leb b'A' inc && leb inc b'F'
    then some (bit_or outc (inc - b'A' + 10))
    else none

-- Two digits; the first one is shifted within the eight bits of a `char`.
unfoldable pub unquote_hex : ℕ → ℕ → Option ℕ
unfolding hex2char
unquote_hex high low = elim (hex2char 0 high) [ none ↦ none | some c ↦ hex2char (c * 16 % 256) low ]

unfoldable pub unquote_escape : Text → Option (ℕ × Text)
unfolding unquote_hex
unquote_escape [] = none
unquote_escape (high ∷ []) = none
unquote_escape (high ∷ low ∷ rest) = elim (unquote_hex high low) [
  | none ↦ none
  | some c ↦ some (c, rest)
]

-- One token; a caller has seen that the string does not end here.
unfoldable pub mafw_filter_unquote_char : ℕ → Text → Option (ℕ × Text)
unfolding unquote_escape
mafw_filter_unquote_char c rest = if c == b'\\' then unquote_escape rest else some (c, rest)

-- The loop that counts: after a backslash it skips two bytes without a look at them. `none`: it has
-- gone past the end of the string.
unfoldable pub unquoted_size : ℕ → Text → Option ℕ
unquoted_size zero [] = some 0
unquoted_size (suc skip) [] = none
unquoted_size zero (c ∷ cs) = elim (unquoted_size (if c == b'\\' then 2 else 0) cs) [
  | none ↦ none
  | some n ↦ some (suc n)
]
unquoted_size (suc skip) (c ∷ cs) = unquoted_size skip cs

abbrev pub put_front : ℕ → Outcome Text → Outcome Text
put_front b (ok t) = ok (b ∷ t)
put_front b null = null
put_front b bad_access = bad_access
put_front b out_of_fuel = out_of_fuel

-- Each round takes a byte at least.
unfoldable pub unquote_loop : ℕ → Text → Outcome Text
unfolding mafw_filter_unquote_char
unquote_loop fuel [] = ok []
unquote_loop zero (c ∷ cs) = out_of_fuel
unquote_loop (suc fuel) (c ∷ cs) = elim (mafw_filter_unquote_char c cs) [
  | none ↦ null
  | some (b, rest) ↦ put_front b (unquote_loop fuel rest)
]

unfoldable pub mafw_filter_unquote : Text → Outcome Text
unfolding unquote_loop unquoted_size
mafw_filter_unquote s = elim (unquoted_size 0 s) [
  | none ↦ bad_access
  | some n ↦ unquote_loop (length s) s
]
