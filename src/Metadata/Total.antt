-- ===== src/Metadata/Total.antt =====
-- Thawing ends, and where it reads past the end of the stream.
use mafw.Common.{
  ℕ, zero, suc, ◌+◌, ◌*◌, ◌≤◌, ◌<◌, ◌≡◌, ◌≢◌, refl, ap, true, Option, none, some, [], ◌∷◌, ◌++◌,
  arith, ◌==◌, if◌then◌else◌, length, all, Outcome, ok, null, bad_access, out_of_fuel, ◌>>=◌,
  bind_eq, bind_bad, Shrinks, Shrinks-le, Shrinks-bind, Shrinks-if,
}
use mafw.Aplaylist.Types.{Text}
use mafw.Metadata.Types.{
  Kind, g_boolean, g_int, g_uint, g_long, g_ulong, g_int64, g_uint64, g_float, g_double, g_string,
  Platform, Table, hash_table_insert,
}
use mafw.Metadata.Freeze.{sizeof_kind, str2bary}
use mafw.Metadata.Thaw.{
  memcpy, bary2x, c_str, bary2str, find_kind, kinds, read_number, read_value, bary2gval,
  read_values, mafw_metadata_val_thaw_bary, table_of, thaw_loop, mafw_metadata_thaw_bary,
}
use mafw.Metadata.RoundTrip.{is_char, c_str-str2bary}

memcpy-Shrinks : (size : ℕ) (s : Text) → Shrinks (memcpy size s) (suc (length s))
unfolding memcpy
memcpy-Shrinks zero s = omega arith
memcpy-Shrinks (suc size) [] = omega arith
memcpy-Shrinks (suc size) (b ∷ s) =
    Shrinks-bind (memcpy size s) _ (suc (length s)) (suc (suc (length s))) (memcpy-Shrinks size s)
      λ val rest less. omega arith

bary2x-Shrinks : (size : ℕ) (s : Text) → Shrinks (bary2x size s) (suc (length s))
unfolding bary2x
bary2x-Shrinks size [] = omega arith
bary2x-Shrinks size (b ∷ s) = memcpy-Shrinks size (b ∷ s)

c_str-Shrinks : (s : Text) → Shrinks (c_str s) (length s)
unfolding c_str
c_str-Shrinks [] = omega arith
c_str-Shrinks (c ∷ s) = Shrinks-if (c == 0) (ok ([], s)) _ (suc (length s)) (omega arith) (
    Shrinks-bind (c_str s) _ (length s) (suc (length s)) (c_str-Shrinks s)
      λ str rest less. omega arith)

bary2str-Shrinks : (s : Text) → Shrinks (bary2str s) (suc (length s))
unfolding bary2str
bary2str-Shrinks [] = omega arith
bary2str-Shrinks (c ∷ s) =
    Shrinks-bind (c_str (c ∷ s)) _ (suc (length s)) (suc (suc (length s))) (c_str-Shrinks (c ∷ s))
      λ str rest less. omega arith

read_number-Shrinks :
    (m : Platform) (k : Kind) (s : Text) → Shrinks (read_number m k s) (suc (length s))
unfolding read_number
read_number-Shrinks m k s =
    Shrinks-bind (bary2x (sizeof_kind m k) s) _ (suc (length s)) (suc (length s))
      (bary2x-Shrinks (sizeof_kind m k) s) λ val rest less. less

read_value-Shrinks :
    (m : Platform) (k : Option Kind) (s : Text) → Shrinks (read_value m k s) (suc (length s))
unfolding read_value
read_value-Shrinks m none s = omega arith
read_value-Shrinks m (some g_string) s =
    Shrinks-bind (bary2str s) _ (suc (length s)) (suc (length s)) (bary2str-Shrinks s)
      λ str rest less. less
read_value-Shrinks m (some g_boolean) s = read_number-Shrinks m g_boolean s
read_value-Shrinks m (some g_int) s = read_number-Shrinks m g_int s
read_value-Shrinks m (some g_uint) s = read_number-Shrinks m g_uint s
read_value-Shrinks m (some g_long) s = read_number-Shrinks m g_long s
read_value-Shrinks m (some g_ulong) s = read_number-Shrinks m g_ulong s
read_value-Shrinks m (some g_int64) s = read_number-Shrinks m g_int64 s
read_value-Shrinks m (some g_uint64) s = read_number-Shrinks m g_uint64 s
read_value-Shrinks m (some g_float) s = read_number-Shrinks m g_float s
read_value-Shrinks m (some g_double) s = read_number-Shrinks m g_double s

bary2gval-Shrinks : (m : Platform) (s : Text) → Shrinks (bary2gval m s) (suc (length s))
unfolding bary2gval
bary2gval-Shrinks m s =
    Shrinks-bind (bary2x 4 s) _ (suc (length s)) (suc (length s)) (bary2x-Shrinks 4 s)
      λ type rest less.
        Shrinks-le (read_value m (find_kind m type kinds) rest) (suc (length rest)) (suc (length s))
          (omega arith) (read_value-Shrinks m (find_kind m type kinds) rest)

read_values-Shrinks :
    (m : Platform) (n : ℕ) (s : Text) → Shrinks (read_values m n s) (suc (length s))
unfolding read_values
read_values-Shrinks m zero s = omega arith
read_values-Shrinks m (suc n) s =
    Shrinks-bind (bary2gval m s) _ (suc (length s)) (suc (length s)) (bary2gval-Shrinks m s)
      λ value rest less.
        Shrinks-bind (read_values m n rest) _ (suc (length rest)) (suc (length s))
          (read_values-Shrinks m n rest) λ values rest' less'. omega arith

val_thaw-Shrinks :
    (m : Platform) (s : Text) → Shrinks (mafw_metadata_val_thaw_bary m s) (suc (length s))
unfolding mafw_metadata_val_thaw_bary
val_thaw-Shrinks m s =
    Shrinks-bind (bary2x 4 s) _ (suc (length s)) (suc (length s)) (bary2x-Shrinks 4 s)
      λ n rest less.
        Shrinks-if (n == 0) null (read_values m n rest) (suc (length s)) (omega arith) (
          Shrinks-le (read_values m n rest) (suc (length rest)) (suc (length s)) (omega arith)
            (read_values-Shrinks m n rest))

-- What the loop goes on with after a reader.
bind_fuel {ℓ κ} :
    {A : Type ℓ} {B : Type κ} (o : Outcome (A × Text)) (f : A × Text → Outcome B) (n : ℕ)
    → Shrinks o n
    → ((a : A) (rest : Text) → length rest < n → f (a, rest) ≢ out_of_fuel)
    → (o >>= f) ≢ out_of_fuel
bind_fuel (ok (a, rest)) f n s k e = k a rest s e
bind_fuel null f n s k e = cc e
bind_fuel bad_access f n s k e = cc e
bind_fuel out_of_fuel f n s k e = absurd (omega arith)

thaw_loop_fuel :
    (m : Platform) (fuel : ℕ) (md : Option Table) (s : Text)
    → length s ≤ fuel
    → thaw_loop m fuel md s ≢ out_of_fuel
unfolding thaw_loop
thaw_loop_fuel m fuel md [] h e = cc e
thaw_loop_fuel m zero md (c ∷ s) h e = omega arith
thaw_loop_fuel m (suc fuel) md (c ∷ s) h e =
    bind_fuel (c_str (c ∷ s)) _ (suc (length s)) (c_str-Shrinks (c ∷ s))
      (λ key rest less.
        bind_fuel (mafw_metadata_val_thaw_bary m rest) _ (suc (length rest))
          (val_thaw-Shrinks m rest)
          λ val rest' less'.
            thaw_loop_fuel m fuel (some (hash_table_insert (table_of md) key val)) rest'
              (omega arith))
      e

-- `mafw_metadata_thaw_bary` comes to an end on every stream.
pub thaw-Returns : (m : Platform) (s : Text) → mafw_metadata_thaw_bary m s ≢ out_of_fuel
unfolding mafw_metadata_thaw_bary
thaw-Returns m s = thaw_loop_fuel m (length s) none s (omega arith)

memcpy_short : (size : ℕ) (s : Text) → length s < size → memcpy size s ≡ bad_access
unfolding memcpy
memcpy_short zero s h = absurd (omega arith)
memcpy_short (suc size) [] h = refl
memcpy_short (suc size) (b ∷ s) h =
    ap (λ o. o >>= λ (r : ℕ × Text). ok (b + 256 * r.0, r.1)) (memcpy_short size s (omega arith))

thaw_loop_short :
    (m : Platform) (fuel : ℕ) (md : Option Table) (c : ℕ) (s key t : Text)
    → c_str (c ∷ s) ≡ ok (key, t)
    → mafw_metadata_val_thaw_bary m t ≡ bad_access
    → thaw_loop m (suc fuel) md (c ∷ s) ≡ bad_access
unfolding thaw_loop
thaw_loop_short m fuel md c s key t h e = bind_eq _ h (bind_bad _ e)

val_thaw_short :
    (m : Platform) (b : ℕ) (x : Text)
    → length x < 3
    → mafw_metadata_val_thaw_bary m (b ∷ x) ≡ bad_access
unfolding mafw_metadata_val_thaw_bary bary2x
val_thaw_short m b x h =
    ap (λ (o : Outcome (ℕ × Text)). o >>= λ r. if r.0 == 0 then null else read_values m r.0 r.1)
      (memcpy_short 4 (b ∷ x) (omega arith))

-- A stream that ends inside the number of the values of a key is read past its end.
pub thaw_short :
    (m : Platform) (key : Text) (b : ℕ) (x : Text)
    → all is_char key ≡ true
    → length x < 3
    → mafw_metadata_thaw_bary m (str2bary key ++ b ∷ x) ≡ bad_access
unfolding mafw_metadata_thaw_bary str2bary
thaw_short m [] b x h lt =
    thaw_loop_short m (length (b ∷ x)) none 0 (b ∷ x) [] (b ∷ x) (c_str-str2bary [] (b ∷ x) h)
      (val_thaw_short m b x lt)
thaw_short m (c ∷ cs) b x h lt =
    thaw_loop_short m (length ((cs ++ 0 ∷ []) ++ b ∷ x)) none c ((cs ++ 0 ∷ []) ++ b ∷ x) (c ∷ cs)
      (b ∷ x) (c_str-str2bary (c ∷ cs) (b ∷ x) h) (val_thaw_short m b x lt)
