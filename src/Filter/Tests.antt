-- ===== src/Filter/Tests.antt =====
-- Runs of mafw-filter.c.
use mafw.Common.{◌≡◌, ◌≢◌, true, refl, none, some, [], ◌∷◌, ◌++◌, arith}
use mafw.Aplaylist.Types.{Text}
use mafw.Common.{ok, null, bad_access, out_of_fuel}
use mafw.Filter.Quote.{mafw_filter_quote, unquoted_size, mafw_filter_unquote}
use mafw.Filter.Types.{
  Filter, simple, complex, Parts, no_parts, part, mafw_f_and, mafw_f_not, mafw_f_eq, mafw_f_gt,
  complex_to_char,
}
use mafw.Filter.Parse.{is_attr, mafw_filter_parse}
use mafw.Filter.Print.{to_string, parts_to_string, mafw_filter_copy, mafw_filter_add_children_n}
use mafw.Filter.Quoting.{unquote-quote, unquote_short}
use mafw.Filter.Bounds.{unquote_fits}
use mafw.Filter.Total.{parse-Returns}
use mafw.Filter.RoundTrip.{plain_keys, plain_parts, normal, parse-to_string, parse_unclosed}
use mafw.Common.{all}

-- A value that needs quotes.
abbrev starred : Filter
starred = simple mafw_f_eq (some (b'y' ∷ b'-' ∷ b'1' ∷ [])) (some (b'a' ∷ b'*' ∷ []))

abbrev negated : Filter
negated = complex mafw_f_not (part (simple mafw_f_gt (some (b'k' ∷ [])) none) no_parts)

abbrev both : Parts
both = part starred (part negated no_parts)

abbrev both_text : Text
both_text =
    b'(' ∷ b'y' ∷ b'-' ∷ b'1' ∷ b'=' ∷ b'a' ∷ b'\\' ∷ b'2' ∷ b'A' ∷ b')' ∷ b'(' ∷ b'!' ∷ b'(' ∷ b'k'
    ∷ b'>' ∷ b')' ∷ b')' ∷ []

both_printed : parts_to_string mafw_f_and both ≡ ok both_text
unfolding to_string mafw.Filter.Print.simple_to_string mafw_filter_quote complex_to_char
both_printed = refl

both_plain : plain_parts both ≡ true
unfolding plain_keys all is_attr
both_plain = refl

parse-to_string_example :
    mafw_filter_parse (b'(' ∷ b'&' ∷ both_text ++ b')' ∷ []) ≡ ok (normal (complex mafw_f_and both))
unfolding plain_keys to_string all is_attr mafw.Filter.Print.simple_to_string complex_to_char
    mafw_filter_quote
parse-to_string_example =
    parse-to_string (complex mafw_f_and both) (b'(' ∷ b'&' ∷ both_text ++ b')' ∷ []) refl refl

parse_unclosed_example :
    mafw_filter_parse (b'(' ∷ complex_to_char mafw_f_and ∷ both_text)
    ≡ ok (normal (complex mafw_f_and both))
unfolding normal
parse_unclosed_example = parse_unclosed mafw_f_and both both_text both_plain both_printed

unquote-quote_example :
    mafw_filter_unquote (mafw_filter_quote (b'(' ∷ b'\\' ∷ b'x' ∷ []))
    ≡ ok (b'(' ∷ b'\\' ∷ b'x' ∷ [])
unquote-quote_example = unquote-quote (b'(' ∷ b'\\' ∷ b'x' ∷ [])

unquote_fits_example : unquoted_size 0 (b'a' ∷ b'\\' ∷ b'2' ∷ b'A' ∷ []) ≡ some 2
unfolding mafw_filter_unquote
unquote_fits_example = unquote_fits (b'a' ∷ b'\\' ∷ b'2' ∷ b'A' ∷ []) (b'a' ∷ b'*' ∷ []) refl

unquote_short_example :
    mafw_filter_unquote (mafw_filter_quote (b'(' ∷ []) ++ b'\\' ∷ b'2' ∷ []) ≡ bad_access
unquote_short_example = unquote_short (b'(' ∷ []) (b'2' ∷ []) (omega arith)

parse-Returns_example : mafw_filter_parse (b'(' ∷ b'&' ∷ b'(' ∷ []) ≢ out_of_fuel
parse-Returns_example = parse-Returns (b'(' ∷ b'&' ∷ b'(' ∷ [])

-- Two operands of NOT have no text and no copy.
two_operands : to_string (complex mafw_f_not both) ≡ null
unfolding to_string mafw.Filter.Print.simple_to_string
two_operands = refl

no_copy : mafw_filter_copy (complex mafw_f_not both) ≡ null
unfolding mafw_filter_copy mafw.Filter.Print.refused_size
no_copy = refl

children :
    mafw_filter_add_children_n (complex mafw_f_and (part starred no_parts)) (part negated no_parts)
    ≡ complex mafw_f_and both
unfolding mafw_filter_add_children_n
children = refl
