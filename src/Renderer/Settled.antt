-- ===== src/Renderer/Settled.antt =====
-- No seek is ever left pending, and a stopped renderer is in playlist mode.
use mafw.Common.{Bool, true, false, ◌≡◌, refl, ap, ◌∙◌, Option, none, some}
use mafw.Iterator.Types.{minus_one, MovementResult, move_ok, move_limit, move_invalid, move_error}
use mafw.Renderer.Types.{
  PlayState, stopped, playing, paused, transitioning, PlaybackMode, mode_playlist, MovementType,
  Renderer, Host,
}
use mafw.Renderer.Media.{
  set_media_playlist, iterator_move, settle, move_from, mafw_gst_renderer_move,
}
use mafw.Renderer.States.{mode_eq}

-- Whether the renderer may be in the state in the mode.
abbrev pub can_stand : PlayState → PlaybackMode → Bool
can_stand stopped mode = mode_eq mode mode_playlist
can_stand playing mode = true
can_stand paused mode = true
can_stand transitioning mode = true

-- No seek is pending or queued.
pub record IsCalm {S : Type 0} (r : Renderer S) : Type 0 where
  pub pending : r.seek_pending ≡ false
  pub target : r.seeking_to ≡ minus_one

pub record IsSettled {S : Type 0} (r : Renderer S) : Type 0 where
  pub calm : IsCalm r
  pub stands : can_stand r.current_state r.playback_mode ≡ true

-- In playlist mode each state will do.
pub playlist-IsSettled :
    {S : Type 0} (r : Renderer S) → IsCalm r → r.playback_mode ≡ mode_playlist → IsSettled r
unfolding mode_eq
playlist-IsSettled r c m = record { calm = c; stands = any_state r.current_state _ m }
  where
    any_state :
        (s : PlayState) (mode : PlaybackMode) → mode ≡ mode_playlist → can_stand s mode ≡ true
    any_state stopped mode m = ap (λ k. mode_eq k mode_playlist) m
    any_state playing mode m = refl
    any_state paused mode m = refl
    any_state transitioning mode m = refl

module _ {S : Type 0} where
  -- What a helper leaves as it was: the seeks, the state and the mode.
  pub record Keeps (r q : Renderer S) : Type 0 where
    pub pending_eq : q.seek_pending ≡ r.seek_pending
    pub target_eq : q.seeking_to ≡ r.seeking_to
    pub state_eq : q.current_state ≡ r.current_state
    pub mode_eq : q.playback_mode ≡ r.playback_mode

  pub Keeps-IsCalm : {r q : Renderer S} → Keeps r q → IsCalm r → IsCalm q
  Keeps-IsCalm k c = record { pending = k.pending_eq ∙ c.pending; target = k.target_eq ∙ c.target }

  pub Keeps-IsSettled : {r q : Renderer S} → Keeps r q → IsSettled r → IsSettled q
  Keeps-IsSettled {r} {q} k c = record {
    calm = Keeps-IsCalm k c.calm;
    stands =
        ap (λ s. can_stand s q.playback_mode) k.state_eq
        ∙ ap (can_stand r.current_state) k.mode_eq
        ∙ c.stands;
  }

  pub Keeps-refl : (r : Renderer S) → Keeps r r
  Keeps-refl r = record { pending_eq = refl; target_eq = refl; state_eq = refl; mode_eq = refl }

module _ {S : Type 0} (h : Host S) where
  pub set_media_playlist-Keeps : (r : Renderer S) → Keeps r (set_media_playlist h r)
  unfolding set_media_playlist
  set_media_playlist-Keeps r = record {
    pending_eq = refl;
    target_eq = refl;
    state_eq = refl;
    mode_eq = refl;
  }

  pub move-Keeps :
      (type : MovementType) (r : Renderer S) → Keeps r (mafw_gst_renderer_move h type r).0
  unfolding mafw_gst_renderer_move move_from settle
  move-Keeps type r = from r.playlist
    where
      settled : (m : MovementResult) (q : Renderer S) → Keeps q (settle h m q)
      settled move_ok q = set_media_playlist-Keeps q
      settled move_limit q = Keeps-refl q
      settled move_invalid q = Keeps-refl q
      settled move_error q = Keeps-refl q

      from : (s : Option S) → Keeps r (move_from h type r s).0
      from none = Keeps-refl r
      from (some s) =
          let m = iterator_move h type r.iterator s in
          let k =
            settled m.result (record r { playlist = some m.playlist; iterator = m.iterator }) in
          record {
            pending_eq = k.pending_eq;
            target_eq = k.target_eq;
            state_eq = k.state_eq;
            mode_eq = k.mode_eq;
          }
