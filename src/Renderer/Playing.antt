-- ===== src/Renderer/Playing.antt =====
-- The helpers of mafw-gst-renderer-state.c keep the renderer settled.
use mafw.Common.{Bool, true, false, ◌≡◌, refl, ◌∙◌, Option, none, some, ℕ}
use mafw.Aplaylist.Types.{Text}
use mafw.Renderer.Types.{
  PlayState, stopped, playing, paused, transitioning, PlaybackMode, mode_playlist, mode_standalone,
  MovementType, move_index, move_prev, move_next, Movement, movement_ok, movement_no_playlist,
  movement_playlist_limit, movement_error, GError, g_error, renderer_error, index_out_of_bounds,
  Renderer, Host, Answer, call, worker_stop,
}
use mafw.Renderer.Media.{
  set_state, set_media_playlist, set_object, get_metadata, mafw_gst_renderer_move,
}
use mafw.Renderer.Playback.{
  to_playlist_mode, play_media, do_play, do_play_object, cancel_update, do_stop, state_play,
  state_stop, play_or_stop, after_move, rewind, wind, do_next, do_prev, do_goto_index,
}
use mafw.Renderer.Settled.{
  IsCalm, IsSettled, playlist-IsSettled, Keeps, Keeps-IsCalm, Keeps-IsSettled, Keeps-refl,
  set_media_playlist-Keeps, move-Keeps,
}

module _ {S : Type 0} where
  -- In playlist mode, and calm.
  pub record InPlaylist (r : Renderer S) : Type 0 where
    pub calm : IsCalm r
    pub mode : r.playback_mode ≡ mode_playlist

  pub InPlaylist-IsSettled : {r : Renderer S} → InPlaylist r → IsSettled r
  InPlaylist-IsSettled {r} p = playlist-IsSettled r p.calm p.mode

  pub Keeps-InPlaylist : {r q : Renderer S} → Keeps r q → InPlaylist r → InPlaylist q
  Keeps-InPlaylist k p = record { calm = Keeps-IsCalm k p.calm; mode = k.mode_eq ∙ p.mode }

module _ {S : Type 0} (h : Host S) where
  pub get_metadata-Keeps : (oid : Text) (r : Renderer S) → Keeps r (get_metadata h oid r)
  unfolding get_metadata call
  get_metadata-Keeps oid r = record {
    pending_eq = refl;
    target_eq = refl;
    state_eq = refl;
    mode_eq = refl;
  }

  pub cancel_update-Keeps : (r : Renderer S) → Keeps r (cancel_update h r)
  unfolding cancel_update
  cancel_update-Keeps r = record {
    pending_eq = refl;
    target_eq = refl;
    state_eq = refl;
    mode_eq = refl;
  }

  pub to_playlist_mode-InPlaylist :
      (r : Renderer S) (mode : PlaybackMode)
      → r.playback_mode ≡ mode
      → IsCalm r
      → InPlaylist (to_playlist_mode h r mode)
  unfolding to_playlist_mode set_media_playlist
  to_playlist_mode-InPlaylist r mode_playlist e c = record { calm = c; mode = e }
  to_playlist_mode-InPlaylist r mode_standalone e c = record {
    calm = record { pending = c.pending; target = c.target };
    mode = refl;
  }

  pub do_play-InPlaylist : (r : Renderer S) → IsCalm r → InPlaylist (do_play h r).0
  unfolding do_play play_media set_state call
  do_play-InPlaylist r c =
      let r' = call worker_stop r in
      let r'' = to_playlist_mode h r' r'.playback_mode in
      let p =
        to_playlist_mode-InPlaylist r' r'.playback_mode refl
          (record { pending = c.pending; target = c.target }) in
      media r'' p r''.media.object_id
    where
      media :
          (q : Renderer S) → InPlaylist q → (oid : Option Text) → InPlaylist (play_media h q oid).0
      media q p none = record {
        calm = record { pending = p.calm.pending; target = p.calm.target };
        mode = p.mode;
      }
      media q p (some oid) =
          let k = Keeps-InPlaylist (get_metadata-Keeps oid q) p in
          record {
            calm = record { pending = k.calm.pending; target = k.calm.target };
            mode = k.mode;
          }

  pub do_play_object-IsSettled :
      (oid : Text) (r : Renderer S) → IsCalm r → IsSettled (do_play_object h oid r).0
  unfolding do_play_object set_object set_state call
  do_play_object-IsSettled oid r c =
      let r' = set_object h oid (record (call worker_stop r) { playback_mode = mode_standalone }) in
      let k =
        Keeps-IsCalm (get_metadata-Keeps oid r')
          (record { pending = c.pending; target = c.target }) in
      record { calm = record { pending = k.pending; target = k.target }; stands = refl }

  pub do_stop-InPlaylist : (r : Renderer S) → IsCalm r → InPlaylist (do_stop h r)
  unfolding do_stop set_state call
  do_stop-InPlaylist r c =
      let r' = call worker_stop r in
      let k =
        Keeps-IsCalm (cancel_update-Keeps r') (record { pending = c.pending; target = c.target }) in
      let q = set_state h stopped (cancel_update h r') in
      to_playlist_mode-InPlaylist q q.playback_mode refl
        (record { pending = k.pending; target = k.target })

  pub state_stop-IsSettled :
      (self : PlayState) (r : Renderer S) → IsSettled r → IsSettled (state_stop h self r)
  unfolding state_stop
  state_stop-IsSettled stopped r s = s
  state_stop-IsSettled transitioning r s = InPlaylist-IsSettled (do_stop-InPlaylist r s.calm)
  state_stop-IsSettled playing r s = InPlaylist-IsSettled (do_stop-InPlaylist r s.calm)
  state_stop-IsSettled paused r s = InPlaylist-IsSettled (
      do_stop-InPlaylist (record r { stay_paused = false })
        (record { pending = s.calm.pending; target = s.calm.target }))

  pub state_play-IsSettled :
      (self : PlayState) (r : Renderer S) → IsCalm r → IsSettled (state_play h self r).0
  unfolding state_play
  state_play-IsSettled self r c = InPlaylist-IsSettled (do_play-InPlaylist r c)

  pub after_move-IsSettled :
      (on_limit : Renderer S → Answer S) (self : PlayState) (mode : PlaybackMode)
      (moved : Renderer S × Movement × Option GError)
      → ((q : Renderer S) → IsSettled q → IsSettled (on_limit q).0)
      → IsSettled moved.0
      → IsSettled (after_move h on_limit self mode moved).0
  unfolding after_move play_or_stop
  after_move-IsSettled on_limit self mode (r, movement_ok, e) f s = go mode r.resume_playlist
    where
      go : (m : PlaybackMode) (resume : Bool) → IsSettled (play_or_stop h self m resume r).0
      go mode_playlist resume = state_play-IsSettled self r s.calm
      go mode_standalone true = state_play-IsSettled self r s.calm
      go mode_standalone false = state_stop-IsSettled self r s
  after_move-IsSettled on_limit self mode (r, movement_no_playlist, e) f s =
      state_stop-IsSettled self r s
  after_move-IsSettled on_limit self mode (r, movement_playlist_limit, e) f s = f r s
  after_move-IsSettled on_limit self mode (r, movement_error, e) f s = s

  pub rewind-Keeps : (r : Renderer S) (s : Option S) → Keeps r (rewind h r s)
  unfolding rewind
  rewind-Keeps r none = Keeps-refl r
  rewind-Keeps r (some s) = record {
    pending_eq = refl;
    target_eq = refl;
    state_eq = refl;
    mode_eq = refl;
  }

  pub wind-Keeps : (r : Renderer S) (s : Option S) → Keeps r (wind h r s)
  unfolding wind
  wind-Keeps r none = Keeps-refl r
  wind-Keeps r (some s) = record {
    pending_eq = refl;
    target_eq = refl;
    state_eq = refl;
    mode_eq = refl;
  }

  -- The move, in playlist mode.
  moved :
      (type : MovementType) (r : Renderer S)
      → IsSettled r
      → IsSettled (mafw_gst_renderer_move h type (to_playlist_mode h r r.playback_mode)).0
  moved type r s =
      let q = to_playlist_mode h r r.playback_mode in
      Keeps-IsSettled (move-Keeps h type q)
        (InPlaylist-IsSettled (to_playlist_mode-InPlaylist r r.playback_mode refl s.calm))

  pub do_next-IsSettled :
      (self : PlayState) (r : Renderer S) → IsSettled r → IsSettled (do_next h self r).0
  unfolding do_next
  do_next-IsSettled self r s =
      after_move-IsSettled (λ q. state_play h self (set_media_playlist h (rewind h q q.playlist)))
        self r.playback_mode
        (mafw_gst_renderer_move h move_next (to_playlist_mode h r r.playback_mode))
        (λ q t. state_play-IsSettled self (set_media_playlist h (rewind h q q.playlist)) (
          Keeps-IsCalm (set_media_playlist-Keeps h (rewind h q q.playlist))
            (Keeps-IsCalm (rewind-Keeps q q.playlist) t.calm)))
        (moved move_next r s)

  pub do_prev-IsSettled :
      (self : PlayState) (r : Renderer S) → IsSettled r → IsSettled (do_prev h self r).0
  unfolding do_prev
  do_prev-IsSettled self r s =
      after_move-IsSettled (λ q. state_play h self (set_media_playlist h (wind h q q.playlist)))
        self r.playback_mode
        (mafw_gst_renderer_move h move_prev (to_playlist_mode h r r.playback_mode))
        (λ q t. state_play-IsSettled self (set_media_playlist h (wind h q q.playlist)) (
          Keeps-IsCalm (set_media_playlist-Keeps h (wind h q q.playlist))
            (Keeps-IsCalm (wind-Keeps q q.playlist) t.calm)))
        (moved move_prev r s)

  pub do_goto_index-IsSettled :
      (self : PlayState) (index : ℕ) (r : Renderer S)
      → IsSettled r
      → IsSettled (do_goto_index h self index r).0
  unfolding do_goto_index
  do_goto_index-IsSettled self index r s =
      after_move-IsSettled
        (λ q. (state_stop h self q, some (g_error renderer_error index_out_of_bounds))) self
        r.playback_mode
        (mafw_gst_renderer_move h (move_index index) (to_playlist_mode h r r.playback_mode))
        (λ q t. state_stop-IsSettled self q t) (moved (move_index index) r s)
