-- ===== src/Renderer/Seek.antt =====
-- Seeking: `mafw_gst_renderer_worker_set_position` calls the notification of the renderer before it
-- returns, which may call it again.
use mafw.Common.{ℕ, zero, suc, true, false, Option, none, some, ◌==◌, if◌then◌else◌, sub_u32}
use mafw.Iterator.Types.{minus_one, is_negative}
use mafw.Renderer.Types.{
  PlayState, stopped, playing, paused, transitioning, SeekMode, seek_absolute, seek_relative,
  seek_unknown, SeekType, seek_type_cur, seek_type_set, seek_type_end, GError, g_error,
  extension_error, invalid_params, worker_seek, Renderer, Host, Answer, call,
}
use mafw.Renderer.Media.{raised_by}

unfoldable pub seek_done : {S : Type 0} → Option (Renderer S) → Option (Renderer S)
seek_done none = none
seek_done (some r) = some (record r { seeking_to = minus_one })

-- `set` is the worker's function.
unfoldable pub do_notify_seek :
    {S : Type 0}
    → (SeekType → ℕ → Renderer S → Option (Renderer S))
    → Renderer S
    → Option (Renderer S)
unfolding seek_done
do_notify_seek set r =
    if r.seeking_to == minus_one
    then some (record r { seek_pending = false; seeking_to = minus_one })
    else seek_done (set r.seek_type_pending r.seeking_to (record r { seek_pending = true }))

-- `notify_seek` of the class of each state.
unfoldable pub notify_seek :
    {S : Type 0}
    → (SeekType → ℕ → Renderer S → Option (Renderer S))
    → PlayState
    → Renderer S
    → Option (Renderer S)
unfolding do_notify_seek
notify_seek set stopped r = some r
notify_seek set transitioning r = some r
notify_seek set playing r = do_notify_seek set r
notify_seek set paused r = do_notify_seek set r

-- `fuel` bounds the depth of the calls.
unfoldable pub worker_set_position :
    {S : Type 0} → ℕ → SeekType → ℕ → Renderer S → Option (Renderer S)
unfolding notify_seek call
worker_set_position zero type position r = none
worker_set_position (suc fuel) type position r =
    notify_seek (λ t p q. worker_set_position fuel t p q) r.current_state
      (call (worker_seek type position) r)

unfoldable pub with_error : {S : Type 0} → Option GError → Option (Renderer S) → Option (Answer S)
with_error e none = none
with_error e (some r) = some (r, e)

module _ {S : Type 0} (h : Host S) where
  unfoldable pub seek_to : ℕ → SeekType → ℕ → Renderer S → Option (Answer S)
  unfolding with_error call
  seek_to fuel type seconds r =
      if r.seek_pending
      then some (record r { seek_type_pending = type; seeking_to = seconds }, none)
      else with_error (raised_by (h.seek_error (call (worker_seek type seconds) r).log))
          (worker_set_position fuel type seconds (record r { seek_pending = true }))

  unfoldable pub do_set_position : ℕ → SeekMode → ℕ → Renderer S → Option (Answer S)
  unfolding seek_to
  do_set_position fuel seek_absolute seconds r =
      if is_negative seconds
      then seek_to fuel seek_type_end (sub_u32 0 seconds) r
      else seek_to fuel seek_type_set seconds r
  do_set_position fuel seek_relative seconds r = seek_to fuel seek_type_cur seconds r
  do_set_position fuel seek_unknown seconds r =
      some (r, some (g_error extension_error invalid_params))
