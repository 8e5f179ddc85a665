-- ===== src/Aplaylist/Edit.antt =====
-- The operations of aplaylist.c that edit a playlist.
--
-- `timer` is the id of the source that `i_am_dirty` sets up in the call. `none` as the result of a
-- whole call means that it does not return: an assertion fails or the loop of `maybe_realloc`
-- never ends.
use mathlib.Core.Option
use mafw.Common.{
  ℕ, zero, suc, ◌+◌, ◌*◌, ◌-◌, Bool, true, false, ◌||◌, Option, none, some, List, [], ◌∷◌, ltb, leb,
  ◌==◌, if◌then◌else◌, u32, update, memmove, length, for,
}
use mafw.Aplaylist.Types.{Text, Pls, i_am_dirty}

-- `!name || !*name`.
abbrev pub no_name : Option Text → Bool
no_name none = true
no_name (some []) = true
no_name (some (c ∷ cs)) = false

unfoldable pub pls_set_name : Bool → ℕ → Pls → Option Text → Pls × Bool
unfolding i_am_dirty
pls_set_name initialize timer p name =
    let q = record p { name = name } in
    if no_name name then (p, false) else (if initialize then q else i_am_dirty timer q, true)

-- `g_new0` clears the whole record.
abbrev pub cleared : ℕ → Pls
cleared id = record {
  id = id;
  name = none;
  repeat = false;
  shuffled = false;
  use_count = 0;
  len = 0;
  alloc = 0;
  poolst = 0;
  vidx = λ _. [];
  pidx = λ _. 0;
  iidx = λ _. 0;
  dirty = true;
  dirty_timer = 0;
}

unfoldable pub pls_new : Bool → ℕ → ℕ → Option Text → Option Pls
unfolding pls_set_name
pls_new initialize timer id name =
    if no_name name then none else some (pls_set_name initialize timer (cleared id) name).0

-- The arrays are freed: with `alloc` 0 nothing of them counts.
unfoldable pub pls_clear : ℕ → Pls → Pls
unfolding i_am_dirty
pls_clear timer p = i_am_dirty timer (record p { len = 0; poolst = 0; alloc = 0 })

-- `for (s = 16; s < wantsize; s <<= 1);` on fuel.
unfoldable pub grow : ℕ → ℕ → ℕ → Option ℕ
grow zero wantsize s = none
grow (suc fuel) wantsize s =
    let rest = grow fuel wantsize (u32 (s * 2)) in if ltb s wantsize then rest else some s

-- Enough for every size that the loop reaches (`grow_total`).
abbrev pub grow_fuel : ℕ
grow_fuel = 32

unfoldable pub maybe_realloc : Pls → ℕ → Option Pls
maybe_realloc p want_to_add =
    let wantsize = u32 (p.len + want_to_add) in
    if ltb p.alloc p.len
    then none
    else if leb wantsize p.alloc
    then some p
    else Option.map (λ s. record p { alloc = s }) (grow grow_fuel wantsize 16)

-- The array holds a copy of each new item from `at` on.
unfoldable pub write_items : (ℕ → Text) → ℕ → List Text → ℕ → Text
write_items vidx at [] = vidx
write_items vidx at (oid ∷ oids) = write_items (update vidx (u32 at) oid) (suc at) oids

-- `pidx` and `iidx`.
abbrev pub Refs : Type 0
Refs = (ℕ → ℕ) × (ℕ → ℕ)

unfoldable pub shift_ref : ℕ → ℕ → ℕ → Refs → Refs
shift_ref idx n i (pidx, iidx) =
    let moved = u32 (pidx i + n) in
    if leb idx (pidx i) then (update pidx i moved, update iidx moved i) else (pidx, iidx)

unfoldable pub new_ref : ℕ → ℕ → ℕ → Refs → Refs
new_ref idx len i (pidx, iidx) =
    (update pidx (u32 (len + i)) (u32 (idx + i)), update iidx (u32 (idx + i)) (u32 (len + i)))

-- The references of a shuffled playlist after `n` items came in at `idx`.
unfoldable pub insert_refs : ℕ → ℕ → ℕ → Refs → Refs
insert_refs idx n len refs = for (new_ref idx len) 0 n (for (shift_ref idx n) 0 len refs)

unfoldable pub insert_items : Pls → ℕ → List Text → Pls
insert_items p idx oids = record p {
  vidx = write_items (memmove p.vidx (u32 (idx + n)) idx (p.len - idx)) idx oids;
  pidx = if p.shuffled then refs.0 else p.pidx;
  iidx = if p.shuffled then refs.1 else p.iidx;
  len = u32 (p.len + n);
}
  where
    n : ℕ
    n = length oids

    refs : Refs
    refs = insert_refs idx n p.len (p.pidx, p.iidx)

-- `oids` is empty for a null pointer or a `len` of 0.
unfoldable pub pls_inserts : ℕ → Pls → ℕ → List Text → Option (Pls × Bool)
unfolding insert_items i_am_dirty
pls_inserts timer p idx oids =
    if length oids == 0
    then some (p, false)
    else if ltb p.len idx
    then some (p, false)
    else Option.map (λ q. (i_am_dirty timer (insert_items q idx oids), true))
        (maybe_realloc p (length oids))

unfoldable pub pls_insert : ℕ → Pls → ℕ → Text → Option (Pls × Bool)
pls_insert timer p idx oid = pls_inserts timer p idx (oid ∷ [])

unfoldable pub pls_appends : ℕ → Pls → List Text → Option (Pls × Bool)
pls_appends timer p oids = pls_inserts timer p p.len oids

unfoldable pub pls_append : ℕ → Pls → Text → Option (Pls × Bool)
pls_append timer p oid = pls_inserts timer p p.len (oid ∷ [])

-- `if (pidx[i] > idx) pidx[i]--;`
unfoldable pub renumber : ℕ → ℕ → (ℕ → ℕ) → ℕ → ℕ
renumber idx i pidx = if ltb idx (pidx i) then update pidx i (pidx i - 1) else pidx

-- `iidx[pidx[i]] = i;`
unfoldable pub relate : (ℕ → ℕ) → ℕ → (ℕ → ℕ) → ℕ → ℕ
relate pidx i iidx = update iidx (pidx i) i

-- What the removal does to `pidx`, before `iidx` is built anew.
unfoldable pub close_order : ℕ → ℕ → ℕ → (ℕ → ℕ) → ℕ → ℕ
close_order opx poolst len pidx =
    if ltb opx poolst
    then memmove pidx opx (opx + 1) (poolst - opx - 1)
    else update pidx opx (pidx (len - 1))

unfoldable pub remove_refs : Pls → ℕ → Pls
remove_refs p idx = record p {
  pidx = order;
  iidx = for (relate order) 0 (p.len - 1) p.iidx;
  poolst = if ltb opx p.poolst then p.poolst - 1 else p.poolst;
}
  where
    opx : ℕ
    opx = p.iidx idx

    order : ℕ → ℕ
    order = close_order opx p.poolst p.len (for (renumber idx) 0 p.len p.pidx)

-- The items behind `idx` move down. The subtractions here and in `remove_refs` run only where
-- `idx < len`, so they do not wrap.
unfoldable pub close_items : Pls → ℕ → Pls
close_items p idx = record p { vidx = memmove p.vidx idx (idx + 1) (p.len - idx - 1) }

-- `len--`, and what follows it.
unfoldable pub drop_last : ℕ → Pls → Pls
unfolding i_am_dirty
drop_last timer p = i_am_dirty timer (record p { len = p.len - 1 })

unfoldable pub pls_remove : ℕ → Pls → ℕ → Pls × Bool
unfolding close_items drop_last
pls_remove timer p idx =
    let q = close_items p idx in
    if leb p.len idx
    then (p, false)
    else (drop_last timer (if p.shuffled then remove_refs q idx else q), true)

-- `pidx[i] = iidx[i] = i;`
unfoldable pub set_identity : ℕ → Refs → Refs
set_identity i (pidx, iidx) = (update pidx i i, update iidx i i)

unfoldable pub pls_shuffle : ℕ → Pls → Pls
unfolding i_am_dirty
pls_shuffle timer p = i_am_dirty timer (record p {
  pidx = if p.shuffled then p.pidx else refs.0;
  iidx = if p.shuffled then p.iidx else refs.1;
  shuffled = true;
  poolst = 0;
})
  where
    refs : Refs
    refs = for set_identity 0 p.len (p.pidx, p.iidx)

unfoldable pub pls_unshuffle : ℕ → Pls → Pls
unfolding i_am_dirty
pls_unshuffle timer p = if p.shuffled then i_am_dirty timer (record p { shuffled = false }) else p

unfoldable pub pls_set_repeat : ℕ → Pls → Bool → Pls
unfolding i_am_dirty
pls_set_repeat timer p repeat = i_am_dirty timer (record p { repeat = repeat })

unfoldable pub pls_set_use_count : ℕ → Pls → ℕ → Pls
unfolding i_am_dirty
pls_set_use_count timer p use_count = i_am_dirty timer (record p { use_count = use_count })

-- Only the object ids move: `aoid` is the one at `from`.
unfoldable pub move_item : (ℕ → Text) → ℕ → ℕ → ℕ → Text
move_item vidx from to =
    if ltb from to
    then update (memmove vidx from (from + 1) (to - from)) to (vidx from)
    else update (memmove vidx (to + 1) to (from - to)) to (vidx from)

unfoldable pub pls_move : ℕ → Pls → ℕ → ℕ → Pls × Bool
unfolding move_item i_am_dirty
pls_move timer p from to =
    if from == to
    then (p, true)
    else if leb p.len from || leb p.len to
    then (p, false)
    else (i_am_dirty timer (record p { vidx = move_item p.vidx from to }), true)
