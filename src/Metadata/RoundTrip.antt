-- ===== src/Metadata/RoundTrip.antt =====
-- What was frozen is thawed.
use mathlib.Core.List.{append_assoc}
use native.Mathlib.Nat.{pow-suc}
use mafw.Common.{
  ℕ, zero, suc, ◌/◌, ◌^◌, ◌<◌, ◌≡◌, ◌≢◌, refl, ◌∙◌, sym, ap, inl, inr, Bool, true, false, not, none,
  some, List, [], ◌∷◌, ◌++◌, arith, ◌==◌, if◌then◌else◌, u32, length, take, drop, eq-cases, eq→==,
  ne→==, if_true, if_false, all, all_head, all_tail, ok, null, ◌>>=◌, bind_eq, bind_ok, ok_inj,
}
use mafw.Aplaylist.Types.{Text}
use mafw.Metadata.Types.{
  Kind, g_boolean, g_int, g_uint, g_long, g_ulong, g_int64, g_uint64, g_float, g_double, g_string,
  GValue, number, string, other, Platform, IsPlatform,
}
use mafw.Metadata.Freeze.{
  bytes_of, sizeof_kind, int2bary, str2bary, gval2bary, values2bary, mafw_metadata_val_freeze_bary,
}
use mafw.Metadata.Thaw.{
  memcpy, bary2x, c_str, bary2str, find_kind, kinds, set_number, read_number, read_value, bary2gval,
  read_values, mafw_metadata_val_thaw_bary,
}

memcpy-bytes_of :
    (size val : ℕ) (rest : Text)
    → val < 256 ^ size
    → memcpy size (bytes_of size val ++ rest) ≡ ok (val, rest)
unfolding memcpy bytes_of
memcpy-bytes_of zero val rest h = ap (λ k. ok (k, rest)) (omega arith)
memcpy-bytes_of (suc size) val rest h =
    bind_eq _ (memcpy-bytes_of size (val / 256) rest (omega (arith, pow-suc 256 size)))
      (ap (λ k. ok (k, rest)) (omega arith))

bary2x-bytes_of :
    (size val : ℕ) (rest : Text)
    → 0 < size
    → val < 256 ^ size
    → bary2x size (bytes_of size val ++ rest) ≡ ok (val, rest)
unfolding bary2x bytes_of
bary2x-bytes_of zero val rest pos h = absurd (omega arith)
bary2x-bytes_of (suc size) val rest pos h = memcpy-bytes_of (suc size) val rest h

bary2x-int2bary :
    (val : ℕ) (rest : Text) → val < 2 ^ 32 → bary2x 4 (int2bary val ++ rest) ≡ ok (val, rest)
unfolding int2bary
bary2x-int2bary val rest h = bary2x-bytes_of 4 val rest (omega arith) (omega arith)

-- A byte of a C string.
unfoldable pub is_char : ℕ → Bool
is_char c = not (c == 0)

char_some : (c : ℕ) → is_char c ≡ true → (c == 0) ≡ false
unfolding is_char
char_some c h = ground arith

pub c_str-str2bary :
    (s rest : Text) → all is_char s ≡ true → c_str (str2bary s ++ rest) ≡ ok (s, rest)
unfolding c_str str2bary
c_str-str2bary [] rest h = refl
c_str-str2bary (c ∷ s) rest h =
    if_false _ _ _ (char_some c (all_head is_char c s h))
    ∙ bind_eq _ (c_str-str2bary s rest (all_tail is_char c s h)) refl

bary2str-str2bary :
    (s rest : Text) → all is_char s ≡ true → bary2str (str2bary s ++ rest) ≡ ok (some s, rest)
unfolding bary2str str2bary c_str
bary2str-str2bary [] rest h = refl
bary2str-str2bary (c ∷ s) rest h = bind_eq _ (c_str-str2bary (c ∷ s) rest h) refl

-- A value that its type can hold: TRUE is 1, and the bytes of a string are before its NUL.
unfoldable pub IsGValue : Platform → GValue → Type 0
unfolding sizeof_kind
IsGValue m (number g_boolean val) = val < 2
IsGValue m (number g_string val) = 1 < 0
IsGValue m (number k val) = val < 256 ^ sizeof_kind m k
IsGValue m (string none) = 1 < 0
IsGValue m (string (some s)) = all is_char s ≡ true
IsGValue m (other type) = 1 < 0

unfoldable pub AllValues : Platform → List GValue → Type 0
unfolding IsGValue
AllValues m [] = 0 < 1
AllValues m (v ∷ vs) = IsGValue m v × AllValues m vs

-- An array that a `guint` counts and that is not empty.
pub record IsArray (m : Platform) (vs : List GValue) : Type 0 where
  pub some_value : 0 < length vs
  pub few : length vs < 2 ^ 32
  pub values : AllValues m vs

module _ (m : Platform) (p : IsPlatform m) where
  -- The first kind with the number of the type is the one.
  find_at : (k : Kind) (ls ks : List Kind) → find_kind m (m.gtype k) (ls ++ k ∷ ks) ≡ some k
  unfolding find_kind
  find_at k [] ks =
      if_true (m.gtype k == m.gtype k) (some k) (find_kind m (m.gtype k) ks) (eq→== _ _ refl)
  find_at k (l ∷ ls) ks = elim (eq-cases (m.gtype l) (m.gtype k)) [
    | inl e ↦ if_true _ _ _ (eq→== _ _ e) ∙ ap (λ x. some x) (p.gtype_inj l k e)
    | inr ne ↦ if_false _ _ _ (ne→== _ _ ne) ∙ find_at k ls ks
  ]

  find_kind-kinds : (k : Kind) → find_kind m (m.gtype k) kinds ≡ some k
  find_kind-kinds g_boolean = find_at g_boolean [] (drop 1 kinds)
  find_kind-kinds g_int = find_at g_int (take 1 kinds) (drop 2 kinds)
  find_kind-kinds g_uint = find_at g_uint (take 2 kinds) (drop 3 kinds)
  find_kind-kinds g_long = find_at g_long (take 3 kinds) (drop 4 kinds)
  find_kind-kinds g_ulong = find_at g_ulong (take 4 kinds) (drop 5 kinds)
  find_kind-kinds g_int64 = find_at g_int64 (take 5 kinds) (drop 6 kinds)
  find_kind-kinds g_uint64 = find_at g_uint64 (take 6 kinds) (drop 7 kinds)
  find_kind-kinds g_float = find_at g_float (take 7 kinds) (drop 8 kinds)
  find_kind-kinds g_double = find_at g_double (take 8 kinds) (drop 9 kinds)
  find_kind-kinds g_string = find_at g_string (take 9 kinds) []

  sizeof_some : (k : Kind) → k ≢ g_string → 0 < sizeof_kind m k
  unfolding sizeof_kind
  sizeof_some g_long h = p.long_some
  sizeof_some g_ulong h = p.long_some
  sizeof_some g_string h = absurd (h refl)
  sizeof_some _ h = omega arith

  read_number-bytes_of :
      (k : Kind) (val : ℕ) (rest : Text)
      → 0 < sizeof_kind m k
      → val < 256 ^ sizeof_kind m k
      → read_number m k (bytes_of (sizeof_kind m k) val ++ rest) ≡ ok (set_number k val, rest)
  unfolding read_number
  read_number-bytes_of k val rest pos h =
      bind_eq _ (bary2x-bytes_of (sizeof_kind m k) val rest pos h) refl

  -- The type and then the value are read.
  gval_read :
      (k : Kind) (held rest : Text) (v : GValue)
      → read_value m (some k) (held ++ rest) ≡ ok (v, rest)
      → bary2gval m ((int2bary (m.gtype k) ++ held) ++ rest) ≡ ok (v, rest)
  unfolding bary2gval
  gval_read k held rest v h =
      ap (bary2gval m) (append_assoc (int2bary (m.gtype k)) held rest)
      ∙ bind_eq _ (bary2x-int2bary (m.gtype k) (held ++ rest) (omega (arith, p.gtype_lt k)))
          (ap (λ o. read_value m o (held ++ rest)) (find_kind-kinds k) ∙ h)

  bool_number : (val : ℕ) → val < 2 → (if val == 0 then 0 else 1) ≡ val
  bool_number val h = ground arith

  number_read :
      (k : Kind) (val : ℕ) (rest : Text)
      → IsGValue m (number k val)
      → read_value m (some k) (bytes_of (sizeof_kind m k) val ++ rest) ≡ ok (number k val, rest)
  unfolding read_value IsGValue sizeof_kind
  number_read g_boolean val rest h =
      read_number-bytes_of g_boolean val rest (omega arith) (omega arith)
      ∙ ap (λ n. ok (number g_boolean n, rest)) (bool_number val h)
  number_read g_string val rest h = absurd (omega arith)
  number_read g_int val rest h = read_number-bytes_of g_int val rest (omega arith) h
  number_read g_uint val rest h = read_number-bytes_of g_uint val rest (omega arith) h
  number_read g_long val rest h = read_number-bytes_of g_long val rest p.long_some h
  number_read g_ulong val rest h = read_number-bytes_of g_ulong val rest p.long_some h
  number_read g_int64 val rest h = read_number-bytes_of g_int64 val rest (omega arith) h
  number_read g_uint64 val rest h = read_number-bytes_of g_uint64 val rest (omega arith) h
  number_read g_float val rest h = read_number-bytes_of g_float val rest (omega arith) h
  number_read g_double val rest h = read_number-bytes_of g_double val rest (omega arith) h

  string_read :
      (s rest : Text)
      → all is_char s ≡ true
      → read_value m (some g_string) (str2bary s ++ rest) ≡ ok (string (some s), rest)
  unfolding read_value
  string_read s rest h = bind_eq _ (bary2str-str2bary s rest h) refl

  bary2gval-gval2bary :
      (v : GValue) (s rest : Text)
      → IsGValue m v
      → gval2bary m v ≡ ok s
      → bary2gval m (s ++ rest) ≡ ok (v, rest)
  unfolding gval2bary IsGValue
  bary2gval-gval2bary (number k val) s rest h e =
      ap (λ t. bary2gval m (t ++ rest)) (sym (ok_inj e))
      ∙ gval_read k (bytes_of (sizeof_kind m k) val) rest (number k val) (number_read k val rest h)
  bary2gval-gval2bary (string none) s rest h e = absurd (omega arith)
  bary2gval-gval2bary (string (some t)) s rest h e =
      ap (λ t. bary2gval m (t ++ rest)) (sym (ok_inj e))
      ∙ gval_read g_string (str2bary t) rest (string (some t)) (string_read t rest h)
  bary2gval-gval2bary (other type) s rest h e = absurd (omega arith)

  read_values-values2bary :
      (vs : List GValue) (s rest : Text)
      → AllValues m vs
      → values2bary m vs ≡ ok s
      → read_values m (length vs) (s ++ rest) ≡ ok (vs, rest)
  unfolding values2bary read_values AllValues
  read_values-values2bary [] s rest h e = ap (λ t. ok ([], t ++ rest)) (sym (ok_inj e))
  read_values-values2bary (v ∷ vs) s rest (h, hs) e =
      let (t, p', q) = bind_ok (gval2bary m v) (λ t. values2bary m vs >>= λ u. ok (t ++ u)) e in
      let (u, p'', q') = bind_ok (values2bary m vs) (λ u. ok (t ++ u)) q in
      ap (λ k. read_values m (suc (length vs)) (k ++ rest)) (sym (ok_inj q'))
      ∙ ap (read_values m (suc (length vs))) (append_assoc t u rest)
      ∙ bind_eq _ (bary2gval-gval2bary v t (u ++ rest) h p')
          (bind_eq _ (read_values-values2bary vs u rest hs p'') refl)

  pub val_thaw-val_freeze :
      (vs : List GValue) (s rest : Text)
      → IsArray m vs
      → mafw_metadata_val_freeze_bary m vs ≡ ok s
      → mafw_metadata_val_thaw_bary m (s ++ rest) ≡ ok (vs, rest)
  unfolding mafw_metadata_val_freeze_bary mafw_metadata_val_thaw_bary
  val_thaw-val_freeze vs s rest h e =
      let n = u32 (length vs) in
      let (t, p', q) = bind_ok (values2bary m vs) (λ t. ok (int2bary n ++ t)) e in
      let exact : n ≡ length vs = omega (arith, h.few) in
      ap (λ k. mafw_metadata_val_thaw_bary m (k ++ rest)) (sym (ok_inj q))
      ∙ ap (mafw_metadata_val_thaw_bary m) (append_assoc (int2bary n) t rest)
      ∙ bind_eq (λ (x : ℕ × Text). if x.0 == 0 then null else read_values m x.0 x.1)
          (bary2x-int2bary n (t ++ rest) (omega arith))
          (if_false (n == 0) null (read_values m n (t ++ rest))
              (ne→== n 0 (λ z. omega (arith, h.some_value)))
            ∙ ap (λ k. read_values m k (t ++ rest)) exact
            ∙ read_values-values2bary vs t rest h.values p')
