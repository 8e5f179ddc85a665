-- ===== src/Manager/Tests.antt =====
-- Runs of the playlist manager's requests.
use mafw.Common.{
  ℕ, ◌+◌, ◌≡◌, refl, Option, none, some, [], ◌∷◌, arith, ◌==◌, if◌then◌else◌, text_eq, true, false,
}
use mafw.Aplaylist.Types.{Pls}
use mafw.Manager.Requests.{
  Daemon, reply_id, playlist_destroyed, destruction_failed, invalid_name, no_reply,
  playlist_not_found, not_handled, create, destroy, set_name, dup, handle_request,
}
use mafw.Manager.Invariant.{IsManager}
use mafw.Manager.Handled.{handle_request-IsManager}
use mafw.Manager.Copies.{IsCopy, dup_lem}

abbrev empty : Daemon
empty = record { playlists = λ _. none; by_name = λ _. none; last_id = 1; log = [] }

empty-IsManager : IsManager empty
empty-IsManager = record { owned = λ i p e. cc e; aliased = λ n i e. cc e }

abbrev song : Pls
song = record {
  id = 1;
  name = some (b'a' ∷ []);
  repeat = true;
  shuffled = true;
  use_count = 2;
  len = 1;
  alloc = 16;
  poolst = 1;
  vidx = λ _. b'x' ∷ [];
  pidx = λ _. 0;
  iidx = λ _. 0;
  dirty = false;
  dirty_timer = 0;
}

abbrev one_playlist : Daemon
one_playlist = record {
  playlists = λ i. if i == 1 then some song else none;
  by_name = λ n. if text_eq n (b'a' ∷ []) then some 1 else none;
  last_id = 2;
  log = [];
}

abbrev created : Daemon
created = (handle_request 7 (create (b'a' ∷ [])) empty).0

created_reply : (handle_request 7 (create (b'a' ∷ [])) empty).1 ≡ reply_id 1
unfolding handle_request mafw.Aplaylist.Edit.pls_new
created_reply = refl

no_name : (handle_request 7 (create []) empty).1 ≡ invalid_name
unfolding handle_request
no_name = refl

destroyed : (handle_request 7 (destroy 1) created).1 ≡ playlist_destroyed 1
unfolding handle_request mafw.Aplaylist.Edit.pls_new
destroyed = refl

destroyed_twice :
    (handle_request 7 (destroy 1) (handle_request 7 (destroy 1) created).0).1 ≡ no_reply
unfolding handle_request mafw.Aplaylist.Edit.pls_new
destroyed_twice = refl

in_use : (handle_request 7 (destroy 1) one_playlist).1 ≡ destruction_failed 1
unfolding handle_request
in_use = refl

name_taken : (handle_request 7 (dup 1 (b'a' ∷ [])) created).1 ≡ invalid_name
unfolding handle_request mafw.Aplaylist.Edit.pls_new mafw.Common.text_eq
name_taken = refl

nothing_to_copy : (handle_request 7 (dup 4 (b'b' ∷ [])) created).1 ≡ invalid_name
unfolding handle_request mafw.Aplaylist.Edit.pls_new mafw.Common.text_eq
nothing_to_copy = refl

abbrev renamed : Daemon
renamed = (handle_request 8 (set_name 1 (b'b' ∷ [])) created).0

new_name : renamed.by_name (b'b' ∷ []) ≡ some 1
unfolding handle_request mafw.Aplaylist.Edit.pls_new text_eq
new_name = refl

old_name : renamed.by_name (b'a' ∷ []) ≡ none
unfolding handle_request mafw.Aplaylist.Edit.pls_new text_eq
old_name = refl

not_there : (handle_request 8 (set_name 4 (b'b' ∷ [])) created).1 ≡ playlist_not_found
unfolding handle_request mafw.Aplaylist.Edit.pls_new
not_there = refl

no_playlist : (handle_request 8 (set_name 0 (b'b' ∷ [])) created).1 ≡ not_handled
unfolding handle_request
no_playlist = refl

handle_request-IsManager_example : IsManager (handle_request 7 (create (b'a' ∷ [])) empty).0
handle_request-IsManager_example =
    handle_request-IsManager 7 (create (b'a' ∷ [])) empty empty-IsManager (omega arith)

dup_lem_example : (q : Pls) × IsCopy (handle_request 7 (dup 1 (b'b' ∷ [])) one_playlist) 2 song q
unfolding text_eq
dup_lem_example = dup_lem 7 1 b'b' [] song one_playlist refl refl
