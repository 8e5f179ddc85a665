-- ===== src/Aplaylist/Types.antt =====
-- The playlist of mpd-internal.h, and the helpers at the top of aplaylist.c.
use mafw.Common.{ℕ, Bool, true, Option, List, update}

-- The bytes of a C string.
abbrev pub Text : Type 0
Text = List ℕ

-- An array is a function: `alloc` is the number of its elements that are allocated, `len` of those
-- that count. `name` is `none` for the null pointer.
pub record Pls : Type 0 where
  pub id : ℕ
  pub name : Option Text
  pub repeat : Bool
  pub shuffled : Bool
  pub use_count : ℕ
  pub len : ℕ
  pub alloc : ℕ
  pub poolst : ℕ
  pub vidx : ℕ → Text
  pub pidx : ℕ → ℕ
  pub iidx : ℕ → ℕ
  pub dirty : Bool
  pub dirty_timer : ℕ

-- The timer that runs is removed and a new one is set up: `timer` is the id that GLib gives it.
unfoldable pub i_am_dirty : ℕ → Pls → Pls
i_am_dirty timer p = record p { dirty = true; dirty_timer = timer }

-- `tmp` is read before the writes; `iidx` is written through the new `pidx`.
unfoldable pub swap_elements : Pls → ℕ → ℕ → Pls
swap_elements p index1 index2 = record p { pidx = pidx'; iidx = iidx' }
  where
    pidx' : ℕ → ℕ
    pidx' = update (update p.pidx index1 (p.pidx index2)) index2 (p.pidx index1)

    iidx' : ℕ → ℕ
    iidx' = update (update p.iidx (pidx' index1) index1) (pidx' index2) index2
