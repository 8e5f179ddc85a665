-- ===== src/Renderer/Assigned.antt =====
-- What the assignment of a playlist leaves.
use mafw.Common.{
  ℕ, not, Outcome, ok, bad_access, ◌++◌, false, ◌||◌, ◌==◌, ◌≡◌, refl, ◌∙◌, ap, Option, none, some,
  List, [], ◌∷◌, if_elim,
}
use mafw.Iterator.Types.{Error, Iterator, minus_one, is_negative, mafw_playlist_iterator_new}
use mafw.Iterator.Operations.{mafw_playlist_iterator_initialize, mafw_playlist_iterator_get_size}
use mafw.Renderer.Types.{
  PlayState, stopped, playing, paused, transitioning, PlaybackMode, mode_playlist, mode_standalone,
  raised, worker_stop, Effect, increment_use_count, decrement_use_count, unref_playlist,
  unref_iterator, playlist_changed_signal, Renderer, Host, Answer, call,
}
use mafw.Renderer.Media.{set_state, playlist_media, set_media_playlist, signal_media_changed}
use mafw.Renderer.Playback.{to_playlist_mode, do_stop, cancel_update, state_stop}
use mafw.Renderer.Policy.{mafw_gst_renderer_stop}
use mafw.Renderer.Settled.{IsSettled, Keeps-IsSettled, set_media_playlist-Keeps}
use mafw.Renderer.Clients.{same}
use mafw.Renderer.Stops.{mafw_gst_renderer_stop_lem}
use mafw.Renderer.Assign.{
  release_playlist, take_playlist, finish_assign, has_some, mafw_gst_renderer_assign_playlist,
}

-- What a log says of use counts and references, the latest first.
unfoldable pub uses : List Effect → List Effect
uses [] = []
uses (increment_use_count id ∷ es) = increment_use_count id ∷ uses es
uses (decrement_use_count id ∷ es) = decrement_use_count id ∷ uses es
uses (unref_playlist id ∷ es) = unref_playlist id ∷ uses es
uses (unref_iterator ∷ es) = unref_iterator ∷ uses es
uses (e ∷ es) = uses es

-- The clip at which an iterator stands; what it knows of the size may differ.
abbrev pub SameClip : Iterator → Iterator → Type 0
SameClip it q =
    (q.has_playlist ≡ it.has_playlist)
    × (q.current_index ≡ it.current_index)
    × (q.current_objectid ≡ it.current_objectid)

module _ {S : Type 0} (h : Host S) where
  -- Neither the playlist, nor use counts and references, nor the iterator's clip.
  pub KeepsList : Renderer S → Renderer S → Type 0
  KeepsList r q =
      (q.playlist ≡ r.playlist) × (uses q.log ≡ uses r.log) × SameClip r.iterator q.iterator

  KeepsList-trans : (r q k : Renderer S) → KeepsList r q → KeepsList q k → KeepsList r k
  unfolding KeepsList
  KeepsList-trans r q k (a, b, (c, d, e)) (a', b', (c', d', e')) =
      (a' ∙ a, b' ∙ b, (c' ∙ c, d' ∙ d, e' ∙ e))

  get_size-SameClip :
      (it : Iterator) (s : S) → SameClip it (mafw_playlist_iterator_get_size h.ops it s).0
  unfolding mafw_playlist_iterator_get_size
  get_size-SameClip it s =
      if_elim (λ (k : Iterator × ℕ × Option Error). SameClip it k.0) (not it.has_playlist)
        (λ _. (refl, refl, refl))
        λ _.
          if_elim (λ (k : Iterator × ℕ × Option Error). SameClip it k.0) (it.size == minus_one)
            (λ _. (refl, refl, refl)) λ _. (refl, refl, refl)

  media-SameClip : (it : Iterator) (p : Option S) → SameClip it (playlist_media h it p).0
  unfolding playlist_media
  media-SameClip it none = (refl, refl, refl)
  media-SameClip it (some s) = get_size-SameClip it s

  cancel-KeepsList : (r : Renderer S) → KeepsList r (cancel_update h r)
  unfolding cancel_update uses KeepsList
  cancel-KeepsList r = (
    refl,
    if_elim (λ log. uses log ≡ uses r.log)
        (r.update_playcount_id == 0 || is_negative r.update_playcount_id) (λ _. refl) λ _. refl,
    (refl, refl, refl),
  )

  mode-KeepsList : (mode : PlaybackMode) (r : Renderer S) → KeepsList r (to_playlist_mode h r mode)
  unfolding to_playlist_mode set_media_playlist signal_media_changed uses KeepsList call
  mode-KeepsList mode_playlist r = (refl, refl, (refl, refl, refl))
  mode-KeepsList mode_standalone r = (refl, refl, media-SameClip r.iterator r.playlist)

  do_stop-KeepsList : (r : Renderer S) → KeepsList r (do_stop h r)
  unfolding do_stop set_state uses KeepsList call
  do_stop-KeepsList r =
      let c = call worker_stop r in
      let s = set_state h stopped (cancel_update h c) in
      KeepsList-trans r s (to_playlist_mode h s s.playback_mode) (cancel-KeepsList c)
        (mode-KeepsList s.playback_mode s)

  stop-KeepsList : (self : PlayState) (r : Renderer S) → KeepsList r (state_stop h self r)
  unfolding state_stop KeepsList
  stop-KeepsList stopped r = (refl, refl, (refl, refl, refl))
  stop-KeepsList playing r = do_stop-KeepsList r
  stop-KeepsList transitioning r = do_stop-KeepsList r
  stop-KeepsList paused r = do_stop-KeepsList (record r { stay_paused = false })

  -- After the signal, the media and the stop.
  ended : Renderer S → Renderer S
  ended r =
      mafw_gst_renderer_stop h
        (set_media_playlist h (call (playlist_changed_signal (has_some r.playlist)) r))

  ended-KeepsList : (r : Renderer S) → KeepsList r (ended r)
  unfolding ended mafw_gst_renderer_stop set_media_playlist signal_media_changed KeepsList uses call
  ended-KeepsList r =
      let m = set_media_playlist h (call (playlist_changed_signal (has_some r.playlist)) r) in
      KeepsList-trans r m (ended r) (refl, refl, media-SameClip r.iterator r.playlist)
        (stop-KeepsList m.current_state (record m { play_failed_count = 0 }))

  ended-IsSettled :
      (r : Renderer S)
      → IsSettled r
      → ((ended r).current_state ≡ stopped)
        × ((ended r).playback_mode ≡ mode_playlist)
        × IsSettled (ended r)
  unfolding ended call
  ended-IsSettled r s =
      let told = call (playlist_changed_signal (has_some r.playlist)) r in
      mafw_gst_renderer_stop_lem h (set_media_playlist h told)
        (Keeps-IsSettled (set_media_playlist-Keeps h told) (same refl refl refl refl s))

  abbrev initialized : S → Iterator × S × Option Error
  initialized s = mafw_playlist_iterator_initialize h.ops mafw_playlist_iterator_new s

  -- What the release of a playlist does to counts and references.
  abbrev pub dropped : Option S → List Effect
  dropped none = []
  dropped (some s) =
      unref_playlist (h.playlist_id s) ∷ unref_iterator ∷ decrement_use_count (h.playlist_id s) ∷ []

  released :
      (p : Option S) (r : Renderer S)
      → uses (release_playlist h p r).0.log ≡ dropped p ++ uses r.log
  unfolding release_playlist uses call
  released none r = refl
  released (some s) r = refl

  release-IsSettled :
      (p : Option S) (r : Renderer S) → IsSettled r → IsSettled (release_playlist h p r).0
  unfolding release_playlist call
  release-IsSettled none r s = s
  release-IsSettled (some p) r s = same refl refl refl refl s

  -- What a renderer `r` that takes the playlist `s'` with the iterator `it` is then.
  pub record Assigned (r : Renderer S) (s' : S) (it : Iterator) (a : Answer S) : Type 0 where
    pub takes_list : a.0.playlist ≡ some s'
    pub takes_iterator : SameClip it a.0.iterator
    pub no_error : a.1 ≡ none
    pub counts :
        uses a.0.log ≡ increment_use_count (h.playlist_id s') ∷ (dropped r.playlist ++ uses r.log)
    pub is_stopped : a.0.current_state ≡ stopped
    pub in_playlist : a.0.playback_mode ≡ mode_playlist
    pub settled : IsSettled a.0

  -- If the iterator of the new playlist can be initialised, a settled renderer has that playlist and, up
  -- to what it knows of the size, that iterator; the use count of the new playlist is one up, that of
  -- the old one is one down and the references of the old playlist and iterator are dropped; the renderer
  -- is stopped in playlist mode, settled, and no error is set.
  pub assign_lem :
      (r : Renderer S) (s : S) (it : Iterator) (s' : S)
      → IsSettled r
      → initialized s ≡ (it, s', none)
      → (a : Answer S) × (mafw_gst_renderer_assign_playlist h (some s) r ≡ ok a)
        × Assigned r s' it a
  unfolding mafw_gst_renderer_assign_playlist take_playlist finish_assign ended uses call KeepsList
  assign_lem r s it s' settled e =
      let q = release_playlist h r.playlist r in
      let taken =
        call (increment_use_count (h.playlist_id s'))
          (record q.0 { playlist = some s'; iterator = it }) in
      let (list, log, clip) = ended-KeepsList taken in
      let (state, mode, good) =
        ended-IsSettled taken (same refl refl refl refl (release-IsSettled r.playlist r settled)) in
      (
        (ended taken, none),
        ap (λ i. finish_assign h (take_playlist h i q)) e,
        record {
          takes_list = list;
          takes_iterator = clip;
          no_error = refl;
          counts = log ∙ ap (◌∷◌ (increment_use_count (h.playlist_id s'))) (released r.playlist r);
          is_stopped = state;
          in_playlist = mode;
          settled = good;
        },
      )

  -- What an assignment that fails with `err` gives, by the playlist that the renderer had.
  abbrev pub Refused : Error → Renderer S → Option S → Outcome (Answer S) → Type 0
  Refused err r (some old) o = o ≡ bad_access
  Refused err r none o =
      (a : Answer S) × (o ≡ ok a)
      × (a.0.playlist ≡ none)
      × (a.1 ≡ some (raised err))
      × (uses a.0.log ≡ uses r.log)
