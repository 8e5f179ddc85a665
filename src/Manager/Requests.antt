-- ===== src/Manager/Requests.antt =====
-- What the requests of the playlist manager do to the trees of playlists. `timer` is the id of the timer
-- that GLib starts for an edit.
use mafw.Common.{
  ℕ, ◌+◌, List, false, Option, none, some, [], ◌∷◌, ◌==◌, if◌then◌else◌, u32, update, text_eq,
}
use mafw.Aplaylist.Types.{Text, Pls}
use mafw.Aplaylist.Edit.{pls_new, pls_set_name, pls_set_repeat}

-- What a request does outside: the file of a playlist is removed, a signal is sent.
pub data Event : Type 0 where
  unlink signal_playlist_created name_changed : ℕ → Event

-- The two trees, the events so far, the latest first, and the id that is given out next. A value of `Playlists_by_name` is an alias of the
-- playlist in `Playlists`, which stands here as its id.
pub record Daemon : Type 0 where
  pub playlists : ℕ → Option Pls
  pub by_name : Text → Option ℕ
  pub last_id : ℕ
  pub log : List Event

pub data Reply : Type 0 where
  reply_id playlist_destroyed destruction_failed : ℕ → Reply
  invalid_name playlist_not_found not_handled null_access no_reply : Reply

abbrev pub put_name : (Text → Option ℕ) → Text → Option ℕ → Text → Option ℕ
put_name by_name name v other = if text_eq name other then v else by_name other

abbrev pub remove_name : (Text → Option ℕ) → Option Text → Text → Option ℕ
remove_name by_name none = by_name
remove_name by_name (some name) = put_name by_name name none

-- A playlist goes into both trees.
unfoldable pub add_playlist : Text → Option Pls → Daemon → Daemon × Reply
add_playlist name none d = (d, null_access)
add_playlist name (some p) d = (
  record {
    playlists = update d.playlists p.id (some p);
    by_name = put_name d.by_name name (some p.id);
    last_id = u32 (d.last_id + 1);
    log = signal_playlist_created p.id ∷ d.log;
  },
  reply_id p.id,
)

unfoldable pub create_named : ℕ → Text → Option ℕ → Daemon → Daemon × Reply
unfolding add_playlist
create_named timer name (some id) d = (d, reply_id id)
create_named timer name none d = add_playlist name (pls_new false timer d.last_id (some name)) d

unfoldable pub create_playlist : ℕ → Text → Daemon → Daemon × Reply
unfolding create_named
create_playlist timer [] d = (d, invalid_name)
create_playlist timer (c ∷ cs) d = create_named timer (c ∷ cs) (d.by_name (c ∷ cs)) d

-- Only a playlist that is not used is destroyed; its file goes too.
unfoldable pub destroy_found : ℕ → Option Pls → Daemon → Daemon × Reply
destroy_found id none d = (d, no_reply)
destroy_found id (some p) d =
    if p.use_count == 0
    then (
      record d {
        playlists = update d.playlists id none;
        by_name = remove_name d.by_name p.name;
        log = unlink p.id ∷ d.log;
      },
      playlist_destroyed id,
    )
    else (d, destruction_failed id)

unfoldable pub destroy_playlist : ℕ → Daemon → Daemon × Reply
unfolding destroy_found
destroy_playlist id d = destroy_found id (d.playlists id) d

-- `new_pls->poolst = new_pls->poolst`.
unfoldable pub copy_pls : ℕ → Pls → Pls → Pls
copy_pls timer p new_pls = pls_set_repeat timer copy p.repeat
  where
    copy : Pls
    copy = record new_pls {
      shuffled = p.shuffled;
      alloc = p.alloc;
      len = p.len;
      poolst = new_pls.poolst;
      vidx = p.vidx;
      pidx = if p.shuffled then p.pidx else new_pls.pidx;
      iidx = if p.shuffled then p.iidx else new_pls.iidx;
    }

unfoldable pub dup_new : ℕ → Text → Pls → Option Pls → Daemon → Daemon × Reply
unfolding add_playlist copy_pls
dup_new timer name p none d = (d, null_access)
dup_new timer name p (some new_pls) d = add_playlist name (some (copy_pls timer p new_pls)) d

unfoldable pub dup_found : ℕ → Text → Option Pls → Option ℕ → Daemon → Daemon × Reply
unfolding dup_new
dup_found timer name p (some id) d = (d, invalid_name)
dup_found timer name none none d = (d, invalid_name)
dup_found timer name (some p) none d =
    dup_new timer name p (pls_new false timer d.last_id (some name)) d

unfoldable pub dup_playlist : ℕ → ℕ → Text → Daemon → Daemon × Reply
unfolding dup_found
dup_playlist timer src_id [] d = (d, invalid_name)
dup_playlist timer src_id (c ∷ cs) d =
    dup_found timer (c ∷ cs) (d.playlists src_id) (d.by_name (c ∷ cs)) d

-- `pls_set_name` changes the playlist in place, and its old name goes out of the tree of names.
unfoldable pub rename : ℕ → ℕ → Text → Pls → Daemon → Daemon × Reply
unfolding pls_set_name
rename timer plid name p d =
    let r = pls_set_name false timer p (some name) in
    if r.1
    then (
      record d {
        playlists = update d.playlists plid (some r.0);
        by_name = put_name (remove_name d.by_name p.name) name (some plid);
        log = name_changed plid ∷ d.log;
      },
      no_reply,
    )
    else (d, no_reply)

unfoldable pub set_name_found : ℕ → ℕ → Text → Option Pls → Option ℕ → Daemon → Daemon × Reply
unfolding rename
set_name_found timer plid name none found d = (d, playlist_not_found)
set_name_found timer plid name (some p) (some id) d = (d, no_reply)
set_name_found timer plid name (some p) none d = rename timer plid name p d

-- The id 0 is `MAFW_PROXY_PLAYLIST_INVALID_ID`.
unfoldable pub set_playlist_name : ℕ → ℕ → Text → Daemon → Daemon × Reply
unfolding set_name_found
set_playlist_name timer plid name d =
    if plid == 0
    then (d, not_handled)
    else set_name_found timer plid name (d.playlists plid) (d.by_name name) d

-- The requests that make, destroy and name playlists; `timer` is the id that an edit gets.
pub data Request : Type 0 where
  create : Text → Request
  destroy : ℕ → Request
  dup set_name : ℕ → Text → Request

unfoldable pub handle_request : ℕ → Request → Daemon → Daemon × Reply
unfolding create_playlist destroy_playlist dup_playlist set_playlist_name
handle_request timer (create name) d = create_playlist timer name d
handle_request timer (destroy id) d = destroy_playlist id d
handle_request timer (dup src_id new_name) d = dup_playlist timer src_id new_name d
handle_request timer (set_name plid name) d = set_playlist_name timer plid name d
