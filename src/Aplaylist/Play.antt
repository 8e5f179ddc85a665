-- ===== src/Aplaylist/Play.antt =====
-- The operations of aplaylist.c that read a playlist and choose the clip to play.
--
-- `rand k lo hi` is the answer of the k-th call of `g_random_int_range (lo, hi)` in an operation.
-- What goes out through `index` and `oid` is an option: `none` leaves both as they were, and is the
-- result FALSE where the function has one.
use mafw.Common.{
  ℕ, ◌+◌, ◌*◌, ◌-◌, ◌≤◌, ◌<◌, Bool, Option, none, some, List, ltb, leb, ◌==◌, if◌then◌else◌, u32,
  sub_u32, slice, for,
}
use mafw.Aplaylist.Types.{Text, Pls, swap_elements}

abbrev pub Random : Type 0
Random = ℕ → ℕ → ℕ → ℕ

-- What GLib documents: the answer lies in [lo, hi).
abbrev pub InRange : Random → Type 0
InRange rand = (k lo hi : ℕ) → lo < hi → (lo ≤ rand k lo hi) × (rand k lo hi < hi)

-- The index and the object id that go out.
abbrev pub Clip : Type 0
Clip = ℕ × Text

-- One round takes two numbers; the first, `sidx`, is not used.
unfoldable pub shuffle_one : Random → ℕ → Pls → Pls
unfolding swap_elements
shuffle_one rand i p =
    let q = swap_elements p p.poolst (rand (2 * i + 1) p.poolst p.len) in
    record q { poolst = u32 (q.poolst + 1) }

unfoldable pub shuffle_elements : Random → Pls → ℕ → Pls
shuffle_elements rand p amount =
    let left = sub_u32 p.len p.poolst in
    for (shuffle_one rand) 0 (if ltb left amount then left else amount) p

unfoldable pub pls_get_item : Pls → ℕ → Option Text
pls_get_item p idx = if leb p.len idx then none else some (p.vidx idx)

unfoldable pub pls_get_items : Pls → ℕ → ℕ → Option (List Text)
pls_get_items p fidx lidx =
    let last = if ltb (p.len - 1) lidx then p.len - 1 else lidx in
    if leb p.len fidx
    then none
    else if ltb lidx fidx
    then none
    else some (slice p.vidx fidx (last + 1 - fidx))

unfoldable pub clip_at : Pls → ℕ → Clip
clip_at p index = (index, p.vidx index)

unfoldable pub pls_get_starting : Random → Pls → Pls × Option Clip
unfolding clip_at
pls_get_starting rand p =
    let q = if p.poolst == 0 then shuffle_elements rand p 1 else p in
    if p.len == 0
    then (p, none)
    else if p.shuffled
    then (q, some (clip_at q (q.pidx 0)))
    else (p, some (clip_at p 0))

unfoldable pub pls_get_last : Random → Pls → Pls × Option Clip
unfolding clip_at
pls_get_last rand p =
    let q = shuffle_elements rand p p.len in
    if p.len == 0
    then (p, none)
    else if p.shuffled
    then (q, some (clip_at q (q.pidx (q.len - 1))))
    else (p, some (clip_at p (p.len - 1)))

-- "Is the element unshuffled? If so, shuffle it, and continue."
unfoldable pub shuffle_current : Pls → ℕ → Pls
shuffle_current p index =
    let q = swap_elements p p.poolst (p.iidx index) in
    if leb p.poolst (p.iidx index) then record q { poolst = u32 (q.poolst + 1) } else p

unfoldable pub next_in_order : Pls → ℕ → Pls × Option Clip
unfolding clip_at
next_in_order p index =
    if ltb index (p.len - 1)
    then (p, some (clip_at p (index + 1)))
    else if p.repeat
    then (p, some (clip_at p 0))
    else (p, none)

-- A new element, or the first one again.
unfoldable pub next_from_pool : Random → Pls → Pls × Option Clip
unfolding clip_at
next_from_pool rand p =
    let q = shuffle_elements rand p 1 in
    if ltb p.poolst p.len
    then (q, some (clip_at q (q.pidx (q.poolst - 1))))
    else if p.repeat
    then (p, some (clip_at p (p.pidx 0)))
    else (p, none)

unfoldable pub next_shuffled : Random → Pls → ℕ → Pls × Option Clip
unfolding clip_at next_from_pool shuffle_current
next_shuffled rand p index =
    if ltb (p.iidx index + 1) p.poolst
    then (p, some (clip_at p (p.pidx (p.iidx index + 1))))
    else next_from_pool rand (shuffle_current p index)

unfoldable pub pls_get_next : Random → Pls → ℕ → Pls × Option Clip
unfolding next_in_order next_shuffled
pls_get_next rand p index =
    if leb p.len index
    then (p, none)
    else if p.shuffled
    then next_shuffled rand p index
    else next_in_order p index

unfoldable pub prev_in_order : Pls → ℕ → Pls × Option Clip
unfolding clip_at
prev_in_order p index =
    if ltb 0 index
    then (p, some (clip_at p (index - 1)))
    else if p.repeat
    then (p, some (clip_at p (p.len - 1)))
    else (p, none)

-- The previous element in the order that is drawn already; the code returns TRUE after
-- `pls_get_last`, which finds a clip because the playlist is not empty here.
unfoldable pub prev_drawn : Random → Pls → ℕ → Pls × Option Clip
unfolding clip_at
prev_drawn rand p index =
    if ltb 0 (p.iidx index)
    then (p, some (clip_at p (p.pidx (p.iidx index - 1))))
    else if p.repeat
    then pls_get_last rand p
    else (p, none)

unfoldable pub pls_get_prev : Random → Pls → ℕ → Pls × Option Clip
unfolding prev_in_order prev_drawn shuffle_current
pls_get_prev rand p index =
    if leb p.len index
    then (p, none)
    else if p.shuffled
    then prev_drawn rand (shuffle_current p index) index
    else prev_in_order p index

unfoldable pub pls_is_shuffled : Pls → Bool
pls_is_shuffled p = p.shuffled
