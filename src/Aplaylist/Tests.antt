-- ===== src/Aplaylist/Tests.antt =====
-- Runs of aplaylist.c's functions, and its theorems at concrete playlists.
use mathlib.Core.Option
use mafw.Common.{
  ok, ◌≢◌, ℕ, ◌+◌, ◌-◌, ◌*◌, ◌↔◌, ◌⊎◌, ◌^◌, ◌≤◌, ◌<◌, ◌≡◌, refl, inl, inr, true, false, List, [],
  ◌∷◌, none, some, arith, slice, length, count, for,
}
use mafw.Aplaylist.Types.{Text, Pls}
use mafw.Aplaylist.Edit.{
  grow, grow_fuel, pls_new, pls_set_repeat, pls_inserts, pls_remove, remove_refs, close_order,
  renumber, pls_shuffle, pls_move, cleared,
}
use mafw.Aplaylist.Play.{
  Random, InRange, pls_get_next, pls_get_prev, pls_get_starting, shuffle_elements, shuffle_one,
}
use mafw.Aplaylist.Valid.{IsInverse, IsValid, items, insert_at, remove_at}
use mafw.Aplaylist.Check.{
  pls_check, pls_check_iff, check_entry, check_entries, histograms, tally, count_entries, Once,
}
use mafw.Aplaylist.Navigate.RoundTrip.{pls_get_prev-pls_get_next, pls_get_next-pls_get_prev}
use mafw.Aplaylist.Navigate.Visit.{play_all, visit}
use mafw.Aplaylist.Navigate.Tour.{play_all_once}
use mafw.Aplaylist.Insert.Room.{grow_total, grow_diverges}
use mafw.Aplaylist.Insert.Inserts.{Inserts, pls_inserts-Inserts}
use mafw.Aplaylist.Remove.Removes.{Removes, pls_remove-Removes}
use mafw.Aplaylist.Remove.Loses.{pls_remove_loses}
use mafw.Aplaylist.Move.{pls_move_lem}
use mafw.Aplaylist.History.{Step, Reach, Reach-pls_check}

-- Three clips, "a", "b" and "c", shuffled, with as many drawn as is said.
abbrev text : ℕ → Text
text i = (97 + i) ∷ []

abbrev pub three : ℕ → Pls
three poolst = record {
  id = 1;
  name = some (b'p' ∷ []);
  repeat = false;
  shuffled = true;
  use_count = 0;
  len = 3;
  alloc = 16;
  poolst = poolst;
  vidx = text;
  pidx = λ i. i;
  iidx = λ i. i;
  dirty = false;
  dirty_timer = 0;
}

identity_IsInverse : IsInverse 3 (λ i. i) (λ i. i)
identity_IsInverse = record {
  pidx_lt = λ _ h. h;
  iidx_lt = λ _ h. h;
  iidx_pidx = λ _ _. refl;
  pidx_iidx = λ _ _. refl;
}

pub three-IsValid : (poolst : ℕ) → poolst ≤ 3 → IsValid (three poolst)
three-IsValid poolst h = record {
  room = omega arith;
  small = omega arith;
  pool = λ _. h;
  order = λ _. identity_IsInverse;
}

-- The generator that always answers the lower bound, and the one that answers the upper one.
abbrev pub lowest : Random
lowest k lo hi = lo

abbrev highest : Random
highest k lo hi = hi - 1

lowest-InRange : InRange lowest
lowest-InRange k lo hi h = omega arith

highest-InRange : InRange highest
highest-InRange k lo hi h = omega arith

-- From "a", with one clip drawn and the generator at its upper end, "c" comes next.
next_run : (pls_get_next highest (three 1) 0).1 ≡ some (2, text 2)
unfolding pls_get_next shuffle_elements shuffle_one for
next_run = refl

play_run : Option.map (λ r. r.1) (play_all (λ _. highest) (three 0)) ≡ some (2 ∷ 0 ∷ 1 ∷ [])
unfolding play_all visit pls_get_starting pls_get_next shuffle_elements shuffle_one for
play_run = refl

-- Removing "a", drawn first, while "b" and "c" are in the pool: "c" is lost.
remove_run : slice (pls_remove 7 (three 1) 0).0.pidx 0 2 ≡ 0 ∷ 0 ∷ []
unfolding pls_remove remove_refs close_order renumber for slice
remove_run = refl

check_run : (pls_check (three 1) ≡ ok true) × (pls_check (pls_remove 7 (three 1) 0).0 ≡ ok false)
unfolding pls_check check_entry check_entries histograms tally count_entries pls_remove remove_refs
    close_order renumber for mafw.Aplaylist.Edit.relate
check_run = (refl, refl)

play_all_once_example :
    (t : Pls) × (xs : List ℕ) × (play_all (λ _. highest) (three 0) ≡ some (t, xs))
    × (length xs ≡ 3)
    × (count 1 xs ≡ 1)
play_all_once_example =
    play_all_once (λ _. highest) (λ _. highest-InRange) (three 0) 1 (three-IsValid 0 (omega arith))
      refl (omega arith)

-- "c" was found after "a".
pls_get_prev-pls_get_next_example :
    pls_get_prev lowest (pls_get_next highest (three 1) 0).0 2
    ≡ ((pls_get_next highest (three 1) 0).0, some (0, text 0))
unfolding pls_get_next shuffle_elements shuffle_one for
pls_get_prev-pls_get_next_example =
    pls_get_prev-pls_get_next highest highest-InRange lowest (three 1) 0
      (three-IsValid 1 (omega arith)) (omega arith) refl

-- "a" is found before "b".
pls_get_next-pls_get_prev_example :
    pls_get_next lowest (pls_get_prev highest (three 1) 1).0 0
    ≡ ((pls_get_prev highest (three 1) 1).0, some (1, text 1))
unfolding pls_get_prev shuffle_elements shuffle_one for
pls_get_next-pls_get_prev_example =
    pls_get_next-pls_get_prev highest highest-InRange lowest (three 1) 1
      (three-IsValid 1 (omega arith)) (omega arith) refl

pls_remove_loses_example :
    (q : Pls) × (pls_remove 7 (three 1) 0 ≡ (q, true))
    × (1 < q.len)
    × (count 1 (slice q.pidx 0 q.len) ≡ 0)
    × (pls_check q ≢ ok true)
pls_remove_loses_example =
    pls_remove_loses (three 1) 0 (three-IsValid 1 (omega arith)) (omega arith) refl (omega arith)
      (omega arith) (inr (λ e. absurd (omega arith))) 7

pls_remove-Removes_example :
    (q : Pls) × (pls_remove 7 (three 1) 1 ≡ (q, true)) × Removes (three 1) 1 q
pls_remove-Removes_example =
    pls_remove-Removes 7 (three 1) 1 (three-IsValid 1 (omega arith)) (omega arith)
      (inr (inl (omega arith)))

pls_inserts-Inserts_example :
    (q : Pls) × (pls_inserts 7 (three 1) 1 (text 3 ∷ text 4 ∷ []) ≡ some (q, true))
    × Inserts (three 1) 1 (text 3 ∷ text 4 ∷ []) q
pls_inserts-Inserts_example =
    pls_inserts-Inserts 7 (three 1) 1 (text 3 ∷ text 4 ∷ []) (three-IsValid 1 (omega arith))
      (omega arith) (omega arith) (λ e. cc)

pls_move_lem_example :
    (q : Pls) × (pls_move 7 (three 1) 0 2 ≡ (q, true))
    × IsValid q
    × (items q ≡ insert_at 2 (text 0 ∷ []) (remove_at 0 (items (three 1))))
    × (q.pidx ≡ (three 1).pidx)
    × (q.poolst ≡ 1)
    × (q.dirty ≡ true)
pls_move_lem_example =
    pls_move_lem 7 (three 1) 0 2 (three-IsValid 1 (omega arith)) (omega arith) (omega arith)
      (omega arith)

grow_total_example :
    (e : ℕ) × (grow grow_fuel 100 16 ≡ some (16 * 2 ^ e))
    × (100 ≤ 16 * 2 ^ e)
    × ((e ≡ 0) ⊎ (16 * 2 ^ e < 200))
grow_total_example = grow_total 100 (omega arith)

grow_diverges_example : grow 1000 (2 ^ 31 + 1) 16 ≡ none
grow_diverges_example = grow_diverges 1000 (2 ^ 31 + 1) (omega arith)

pls_check_iff_example :
    (pls_check (three 1) ≡ ok true)
    ↔ ((three 1).shuffled ≡ true → (v : ℕ) → v < (three 1).len → Once (three 1) v)
pls_check_iff_example = pls_check_iff (three 1)

-- What `pls_new` gives.
abbrev new_playlist : Pls
new_playlist = record (cleared 1) { name = some (b'p' ∷ []); dirty_timer = 7 }

Reach-pls_check_example :
    IsValid (pls_shuffle 8 (pls_set_repeat 7 new_playlist true))
    × (pls_check (pls_shuffle 8 (pls_set_repeat 7 new_playlist true)) ≡ ok true)
unfolding pls_new
Reach-pls_check_example =
    Reach-pls_check false 7 1 b'p' [] refl
      (Reach.next (Reach.next Reach.here (Step.sets_repeat 7 true)) (Step.shuffles 8))
