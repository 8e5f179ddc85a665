-- ===== src/Renderer/Invariant.antt =====
-- Every call of the renderer returns and keeps it settled.
use mafw.Common.{◌≡◌, Option, some}
use mafw.Renderer.Types.{Renderer, Host, Answer}
use mafw.Renderer.Settled.{IsSettled}

module _ {S : Type 0} (h : Host S) where
  -- The call returned, and the renderer is settled.
  abbrev pub Returns : Option (Answer S) → Type 0
  Returns a = (q : Answer S) × (a ≡ some q) × IsSettled q.0
