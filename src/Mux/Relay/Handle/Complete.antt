-- ===== src/Mux/Relay/Handle/Complete.antt =====
-- When all calls of a relay succeed, every frame is handled, and its data written.
use v2ray.Prelude.{◌≢◌, Option, none, List, [], ◌∷◌}
use v2ray.Common.Result.{Result}
use v2ray.Common.Address.{Address, SocketAddr}
use v2ray.Mux.Metadata.{FrameMetadata, SessionStatus, new, TargetNetwork}
use v2ray.Mux.Relay.{Calls}
use v2ray.Mux.Relay.Handle.{Frame}
use v2ray.Mux.Relay.Handle.Success.{all_succeed}

abbrev pub HasTarget : SessionStatus → Option (TargetNetwork × Address) → Type 0
HasTarget new target = target ≢ none
HasTarget status target = Unit {0}

-- The frames with calls that all succeed.
abbrev pub served : SocketAddr → List SocketAddr → List Frame → List (Calls × Frame)
served a rest [] = []
served a rest (f ∷ frames) = (all_succeed a rest, f) ∷ served a rest frames

abbrev pub AllHaveTarget : List Frame → Type 0
AllHaveTarget [] = Unit {0}
AllHaveTarget (f ∷ frames) =
    HasTarget (FrameMetadata.status f.0) (FrameMetadata.target f.0) × AllHaveTarget frames
