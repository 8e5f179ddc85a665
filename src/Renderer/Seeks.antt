-- ===== src/Renderer/Seeks.antt =====
-- What a seek does: the worker is asked once, and the notification that it sends is answered.
use mafw.Common.{
  ℕ, suc, Bool, true, false, ◌≡◌, refl, ap, ◌∙◌, Option, none, some, ◌∷◌, ◌==◌, if◌then◌else◌,
  if_true, if_false, eq→==, sub_u32,
}
use mafw.Iterator.Types.{minus_one, is_negative}
use mafw.Renderer.Types.{
  PlayState, stopped, playing, paused, transitioning, SeekMode, seek_absolute, seek_relative,
  seek_unknown, SeekType, seek_type_end, seek_type_set, seek_type_cur, worker_seek, g_error,
  extension_error, invalid_params, Renderer, Host, Answer, call,
}
use mafw.Renderer.Media.{raised_by}
use mafw.Renderer.Seek.{
  seek_done, do_notify_seek, notify_seek, worker_set_position, with_error, seek_to, do_set_position,
}
use mafw.Renderer.Settled.{IsCalm}

-- Playing or paused: the states that take the notification.
abbrev pub takes_seeks : PlayState → Bool
takes_seeks playing = true
takes_seeks paused = true
takes_seeks stopped = false
takes_seeks transitioning = false

module _ {S : Type 0} where
  notified :
      (set : SeekType → ℕ → Renderer S → Option (Renderer S)) (state : PlayState) (r : Renderer S)
      → takes_seeks state ≡ true
      → notify_seek set state r ≡ do_notify_seek set r
  unfolding notify_seek
  notified set playing r e = refl
  notified set paused r e = refl
  notified set stopped r e = absurd (cc e)
  notified set transitioning r e = absurd (cc e)

  -- The notification finds nothing queued, and the worker's function returns.
  worker_set_position_lem :
      (fuel : ℕ) (type : SeekType) (seconds : ℕ) (r : Renderer S)
      → IsCalm r
      → takes_seeks r.current_state ≡ true
      → worker_set_position (suc fuel) type seconds (record r { seek_pending = true })
        ≡ some (record r {
          log = worker_seek type seconds ∷ r.log;
          seek_pending = false;
          seeking_to = minus_one;
        })
  unfolding worker_set_position call do_notify_seek seek_done
  worker_set_position_lem fuel type seconds r c t =
      let q = call (worker_seek type seconds) (record r { seek_pending = true }) in
      notified (λ t p k. worker_set_position fuel t p k) r.current_state q t
      ∙ if_true (r.seeking_to == minus_one)
          (some (record q { seek_pending = false; seeking_to = minus_one }))
          (seek_done (
            worker_set_position fuel q.seek_type_pending q.seeking_to
              (record q { seek_pending = true })))
          (eq→== r.seeking_to minus_one c.target)

module _ {S : Type 0} (h : Host S) where
  -- The type and the seconds that the worker is asked for.
  abbrev pub seek_args : SeekMode → ℕ → Option (SeekType × ℕ)
  seek_args seek_absolute seconds =
      if is_negative seconds
      then some (seek_type_end, sub_u32 0 seconds)
      else some (seek_type_set, seconds)
  seek_args seek_relative seconds = some (seek_type_cur, seconds)
  seek_args seek_unknown seconds = none

  seek_to_lem :
      (fuel : ℕ) (type : SeekType) (seconds : ℕ) (r : Renderer S)
      → IsCalm r
      → takes_seeks r.current_state ≡ true
      → seek_to h (suc fuel) type seconds r
        ≡ some (
          record r {
            log = worker_seek type seconds ∷ r.log;
            seek_pending = false;
            seeking_to = minus_one;
          },
          raised_by (h.seek_error (worker_seek type seconds ∷ r.log)),
        )
  unfolding seek_to with_error call
  seek_to_lem fuel type seconds r c t =
      if_false r.seek_pending
        (some (record r { seek_type_pending = type; seeking_to = seconds }, none))
        (with_error (raised_by (h.seek_error (worker_seek type seconds ∷ r.log)))
          (worker_set_position (suc fuel) type seconds (record r { seek_pending = true })))
        c.pending
      ∙ ap (with_error (raised_by (h.seek_error (worker_seek type seconds ∷ r.log))))
          (worker_set_position_lem fuel type seconds r c t)

  -- One call of the worker, and no seek pending after it.
  abbrev pub sought : Renderer S → Option (SeekType × ℕ) → Answer S
  sought r none = (r, some (g_error extension_error invalid_params))
  sought r (some (type, seconds)) = (
    record r {
      log = worker_seek type seconds ∷ r.log;
      seek_pending = false;
      seeking_to = minus_one;
    },
    raised_by (h.seek_error (worker_seek type seconds ∷ r.log)),
  )

  -- If no seek is pending and the renderer is playing or paused, `do_set_position` returns, has
  -- called the worker once, with the type and the seconds of the mode and from the end for
  -- a negative absolute position, and leaves no seek pending; an unknown mode is an error and calls
  -- no one.
  pub do_set_position_lem :
      (fuel : ℕ) (mode : SeekMode) (seconds : ℕ) (r : Renderer S)
      → IsCalm r
      → takes_seeks r.current_state ≡ true
      → do_set_position h (suc fuel) mode seconds r ≡ some (sought r (seek_args mode seconds))
  unfolding do_set_position
  do_set_position_lem fuel seek_unknown seconds r c t = refl
  do_set_position_lem fuel seek_relative seconds r c t =
      seek_to_lem fuel seek_type_cur seconds r c t
  do_set_position_lem fuel seek_absolute seconds r c t = signed (is_negative seconds)
    where
      signed :
          (b : Bool)
          → (if b
              then seek_to h (suc fuel) seek_type_end (sub_u32 0 seconds) r
              else seek_to h (suc fuel) seek_type_set seconds r)
            ≡ some (
                sought r (
                  if b
                  then some (seek_type_end, sub_u32 0 seconds)
                  else some (seek_type_set, seconds)))
      signed true = seek_to_lem fuel seek_type_end (sub_u32 0 seconds) r c t
      signed false = seek_to_lem fuel seek_type_set seconds r c t
