-- ===== src/Metadata/Tests.antt =====
-- Metadata of two keys, as on a machine with a `glong` of four bytes.
use mafw.Common.{
  text_eq, ℕ, ◌<◌, ◌≡◌, ◌≢◌, refl, sym, ap, ◌∙◌, ◌==◌, if◌then◌else◌, all, ◌>>=◌, none, some, [],
  ◌∷◌, ◌++◌, arith, ok, null, bad_access, out_of_fuel,
}
use mafw.Aplaylist.Types.{Text}
use mafw.Metadata.Types.{
  Kind, g_boolean, g_int, g_uint, g_long, g_ulong, g_int64, g_uint64, g_float, g_double, g_string,
  number, string, other, Platform, IsPlatform, Table,
}
use mafw.Metadata.Freeze.{
  str2bary, mafw_metadata_freeze_bary, mafw_metadata_freeze, mafw_metadata_val_freeze,
}
use mafw.Metadata.Thaw.{mafw_metadata_thaw_bary}
use mafw.Metadata.RoundTrip.{is_char, IsArray, AllValues}
use mafw.Metadata.Tables.{IsTable, thawed, thaw-freeze}
use mafw.Metadata.Total.{thaw-Returns, thaw_short}

-- The numbers of GLib's fundamental types.
abbrev glib : Kind → ℕ
glib g_boolean = 20
glib g_int = 24
glib g_uint = 28
glib g_long = 32
glib g_ulong = 36
glib g_int64 = 40
glib g_uint64 = 44
glib g_float = 56
glib g_double = 60
glib g_string = 64

abbrev kind_of : ℕ → Kind
kind_of n =
    if n == 20
    then g_boolean
    else if n == 24
    then g_int
    else if n == 28
    then g_uint
    else if n == 32
    then g_long
    else if n == 36
    then g_ulong
    else if n == 40
    then g_int64
    else if n == 44
    then g_uint64
    else if n == 56
    then g_float
    else if n == 60
    then g_double
    else g_string

kind_of-glib : (k : Kind) → kind_of (glib k) ≡ k
kind_of-glib g_boolean = refl
kind_of-glib g_int = refl
kind_of-glib g_uint = refl
kind_of-glib g_long = refl
kind_of-glib g_ulong = refl
kind_of-glib g_int64 = refl
kind_of-glib g_uint64 = refl
kind_of-glib g_float = refl
kind_of-glib g_double = refl
kind_of-glib g_string = refl

abbrev arm : Platform
arm = record { gtype = glib; sizeof_long = 4 }

glib_small : (k : Kind) → glib k < 4294967296
glib_small g_boolean = omega arith
glib_small g_int = omega arith
glib_small g_uint = omega arith
glib_small g_long = omega arith
glib_small g_ulong = omega arith
glib_small g_int64 = omega arith
glib_small g_uint64 = omega arith
glib_small g_float = omega arith
glib_small g_double = omega arith
glib_small g_string = omega arith

arm-IsPlatform : IsPlatform arm
arm-IsPlatform = record {
  gtype_lt = glib_small;
  gtype_inj = λ k l e. sym (kind_of-glib k) ∙ ap kind_of e ∙ kind_of-glib l;
  long_some = omega arith;
}

-- "t" is "hi" or "", "n" is 258, TRUE.
abbrev song : Table
song =
    (b't' ∷ [], string (some (b'h' ∷ b'i' ∷ [])) ∷ string (some []) ∷ [])
    ∷ (b'n' ∷ [], number g_int 258 ∷ number g_boolean 1 ∷ [])
    ∷ []

abbrev stream : Text
stream =
    b't' ∷ 0 ∷ 2 ∷ 0 ∷ 0 ∷ 0 ∷ 64 ∷ 0 ∷ 0 ∷ 0 ∷ b'h' ∷ b'i' ∷ 0 ∷ 64 ∷ 0 ∷ 0 ∷ 0 ∷ 0 ∷ b'n' ∷ 0 ∷ 2
    ∷ 0 ∷ 0 ∷ 0 ∷ 24 ∷ 0 ∷ 0 ∷ 0 ∷ 2 ∷ 1 ∷ 0 ∷ 0 ∷ 20 ∷ 0 ∷ 0 ∷ 0 ∷ 1 ∷ 0 ∷ 0 ∷ 0 ∷ []

song_frozen : mafw_metadata_freeze_bary arm (some song) ≡ ok stream
unfolding mafw_metadata_freeze_bary
song_frozen = refl

song-IsTable : IsTable arm [] song
unfolding IsTable all is_char AllValues text_eq
song-IsTable = (
  omega arith,
  refl,
  record { some_value = omega arith; few = omega arith; values = (refl, (refl, omega arith)) },
  (
    (refl, omega arith),
    refl,
    record {
      some_value = omega arith;
      few = omega arith;
      values = (omega arith, (omega arith, omega arith));
    },
    omega arith,
  ),
)

thaw-freeze_example : mafw_metadata_thaw_bary arm stream ≡ ok (thawed none song)
thaw-freeze_example = thaw-freeze arm arm-IsPlatform song stream song-IsTable song_frozen

thaw-Returns_example : mafw_metadata_thaw_bary arm (b't' ∷ 0 ∷ 9 ∷ []) ≢ out_of_fuel
thaw-Returns_example = thaw-Returns arm (b't' ∷ 0 ∷ 9 ∷ [])

thaw_short_example : mafw_metadata_thaw_bary arm (str2bary (b't' ∷ []) ++ 9 ∷ 9 ∷ []) ≡ bad_access
unfolding all mafw.Metadata.RoundTrip.is_char
thaw_short_example = thaw_short arm (b't' ∷ []) 9 (9 ∷ []) refl (omega arith)

-- A null pointer among the strings is read through, and a value of another type stops the program.
null_string : mafw_metadata_freeze arm (some ((b't' ∷ [], string none ∷ []) ∷ [])) ≡ bad_access
unfolding mafw_metadata_freeze
null_string = refl

other_type : mafw_metadata_val_freeze arm (other 12 ∷ []) ≡ null
unfolding mafw_metadata_val_freeze
other_type = refl

-- A key without values is frozen, and stops the program that thaws it.
no_values :
    (mafw_metadata_freeze_bary arm (some ((b't' ∷ [], []) ∷ [])) >>= mafw_metadata_thaw_bary arm)
    ≡ null
unfolding mafw_metadata_freeze_bary mafw_metadata_thaw_bary
no_values = refl

-- The end of the stream in place of a string is a null pointer.
cut_string :
    mafw_metadata_thaw_bary arm (b't' ∷ 0 ∷ 1 ∷ 0 ∷ 0 ∷ 0 ∷ 64 ∷ 0 ∷ 0 ∷ 0 ∷ [])
    ≡ ok (some ((b't' ∷ [], string none ∷ []) ∷ []))
unfolding mafw_metadata_thaw_bary
cut_string = refl
