-- ===== src/Renderer/Notified.antt =====
-- The notifications, the error policy and the changes of the playlist keep the renderer settled.
use mafw.Common.{ℕ, ◌&&◌, ◌≡◌, refl, Option, none, some, if_elim}
use mafw.Aplaylist.Types.{Text}
use mafw.Renderer.Types.{
  PlayState, stopped, playing, paused, transitioning, PlaybackMode, mode_playlist, mode_standalone,
  move_next, Movement, movement_ok, movement_no_playlist, movement_playlist_limit, movement_error,
  GError, Renderer, Host, Answer, call,
}
use mafw.Renderer.Media.{set_state, mafw_gst_renderer_move}
use mafw.Renderer.Playback.{to_playlist_mode, do_notify_buffer_status}
use mafw.Renderer.States.{
  start_timer, state_notify_play, state_notify_pause, state_notify_buffer_status, finish_update,
  end_stopped, eos_move, policy_is_stop, eos_in, state_notify_eos,
}
use mafw.Renderer.Policy.{
  Metadata, is_object, emit_error, play_uris, worker_plays, transitioning_notify_metadata,
  state_notify_metadata,
}
use mafw.Renderer.Settled.{IsCalm, IsSettled, move-Keeps}
use mafw.Renderer.Playing.{
  InPlaylist, InPlaylist-IsSettled, Keeps-InPlaylist, to_playlist_mode-InPlaylist,
  state_play-IsSettled,
}
use mafw.Renderer.Clients.{same}

module _ {S : Type 0} (h : Host S) where
  -- Nothing but the log, the timer, the media and the count change.
  pub emit_error-IsSettled : (a : Answer S) → IsSettled a.0 → IsSettled (emit_error a)
  unfolding emit_error call
  emit_error-IsSettled (r, none) s = s
  emit_error-IsSettled (r, some e) s = same refl refl refl refl s

  pub notify_play-IsSettled :
      (self : PlayState) (r : Renderer S) → IsSettled r → IsSettled (state_notify_play h self r)
  unfolding state_notify_play start_timer set_state call
  notify_play-IsSettled stopped r s = s
  notify_play-IsSettled playing r s = s
  notify_play-IsSettled paused r s = record {
    calm = record { pending = s.calm.pending; target = s.calm.target };
    stands = refl;
  }
  notify_play-IsSettled transitioning r s = timed r.media.object_id
    where
      timed : (oid : Option Text) → IsSettled (set_state h playing (start_timer h r oid))
      timed none = record {
        calm = record { pending = s.calm.pending; target = s.calm.target };
        stands = refl;
      }
      timed (some oid) = record {
        calm = record { pending = s.calm.pending; target = s.calm.target };
        stands = refl;
      }

  pub notify_pause-IsSettled :
      (self : PlayState) (r : Renderer S) → IsSettled r → IsSettled (state_notify_pause h self r)
  unfolding state_notify_pause set_state call
  notify_pause-IsSettled stopped r s = s
  notify_pause-IsSettled paused r s = s
  notify_pause-IsSettled playing r s = record {
    calm = record { pending = s.calm.pending; target = s.calm.target };
    stands = refl;
  }
  notify_pause-IsSettled transitioning r s = record {
    calm = record { pending = s.calm.pending; target = s.calm.target };
    stands = refl;
  }

  pub buffer_status-IsSettled :
      (self : PlayState) (percent : ℕ) (r : Renderer S)
      → IsSettled r
      → IsSettled (state_notify_buffer_status h self percent r)
  unfolding state_notify_buffer_status do_notify_buffer_status call
  buffer_status-IsSettled stopped percent r s = s
  buffer_status-IsSettled transitioning percent r s = same refl refl refl refl s
  buffer_status-IsSettled playing percent r s = same refl refl refl refl s
  buffer_status-IsSettled paused percent r s = same refl refl refl refl s

  pub metadata-IsSettled :
      (self : PlayState) (oid : Text) (m : Metadata) (r : Renderer S)
      → IsSettled r
      → IsSettled (state_notify_metadata h self oid m r)
  unfolding state_notify_metadata transitioning_notify_metadata worker_plays play_uris call
  metadata-IsSettled stopped oid m r s = s
  metadata-IsSettled playing oid m r s = s
  metadata-IsSettled paused oid m r s = s
  metadata-IsSettled transitioning oid m r s =
      if_elim IsSettled (is_object oid r.media.object_id) (λ _. same refl refl refl refl s) λ _. s

  -- `end_stopped` is called in playlist mode or just before the switch to it.
  pub end_stopped-InPlaylist : (r : Renderer S) → InPlaylist r → InPlaylist (end_stopped h r)
  unfolding end_stopped set_state call
  end_stopped-InPlaylist r p = record {
    calm = record { pending = p.calm.pending; target = p.calm.target };
    mode = p.mode;
  }

  eos_move-IsSettled :
      (a : Renderer S × Movement × Option GError) → InPlaylist a.0 → IsSettled (eos_move h a).0
  unfolding eos_move
  eos_move-IsSettled (r, movement_ok, e) p = state_play-IsSettled h playing r p.calm
  eos_move-IsSettled (r, movement_playlist_limit, e) p =
      InPlaylist-IsSettled (end_stopped-InPlaylist r p)
  eos_move-IsSettled (r, movement_no_playlist, e) p =
      InPlaylist-IsSettled (end_stopped-InPlaylist r p)
  eos_move-IsSettled (r, movement_error, e) p = InPlaylist-IsSettled p

  pub eos-IsSettled :
      (self : PlayState) (r : Renderer S) → IsSettled r → IsSettled (state_notify_eos h self r).0
  unfolding state_notify_eos eos_in finish_update end_stopped set_state call
  eos-IsSettled stopped r s = s
  eos-IsSettled transitioning r s = s
  eos-IsSettled paused r s = s
  eos-IsSettled playing r s =
      ended (finish_update h r) finished (finish_update h r).playback_mode refl
    where
      finished : IsCalm (finish_update h r)
      finished = record { pending = s.calm.pending; target = s.calm.target }

      ended :
          (q : Renderer S)
          → IsCalm q
          → (mode : PlaybackMode) → q.playback_mode ≡ mode
          → IsSettled (eos_in h mode q).0
      ended q c mode_playlist e =
          if_elim (λ (a : Answer S). IsSettled a.0)
            (h.endless_stream q.log && policy_is_stop q.error_policy)
            (λ _.
              InPlaylist-IsSettled
                (record { calm = record { pending = c.pending; target = c.target }; mode = e }))
            λ _.
              eos_move-IsSettled (mafw_gst_renderer_move h move_next q)
                (Keeps-InPlaylist (move-Keeps h move_next q) (record { calm = c; mode = e }))
      ended q c mode_standalone e =
          let k = end_stopped h q in
          let p =
            to_playlist_mode-InPlaylist h k mode_standalone e
              (record { pending = c.pending; target = c.target }) in
          if_elim (λ (a : Answer S). IsSettled a.0)
            (to_playlist_mode h k mode_standalone).resume_playlist
            (λ _. state_play-IsSettled h playing (to_playlist_mode h k mode_standalone) p.calm)
            λ _. InPlaylist-IsSettled p
