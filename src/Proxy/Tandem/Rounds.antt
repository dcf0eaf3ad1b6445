-- ===== src/Proxy/Tandem/Rounds.antt =====
-- When the pipes toward the server of two relays in a row are done.
use sccache_dist_action.Common.{ℕ, ◌+◌, ◌≡◌, refl, Bool, true, false, List, [], ◌∷◌, arith}
use sccache_dist_action.Proxy.Session.{Side, at_client, at_backend}
use sccache_dist_action.Proxy.Session.Ending.{turns, Ends, Ends-le, run-Ends}
use sccache_dist_action.Proxy.Tandem.{
  Tandem, Hop, near_hop, far_hop, Event, caller, server, works, returns, carry_up, carry_down, cut,
  arriving, near_events, far_events, step, run,
}

-- The rounds that a relay's pipe toward the server gets.
abbrev pub round_of : Hop → Event → ℕ
round_of near_hop (works near_hop at_client) = 1
round_of far_hop (works far_hop at_client) = 1
round_of hop e = 0

abbrev pub rounds : Hop → List Event → ℕ
rounds hop [] = 0
rounds hop (e ∷ es) = round_of hop e + rounds hop es

turns-arriving : (at side : Side) (fl : List ℕ) (shut : Bool) → turns at (arriving side fl shut) ≡ 0
turns-arriving at_client side (b ∷ fl) shut = refl
turns-arriving at_client side [] true = refl
turns-arriving at_client side [] false = refl
turns-arriving at_backend side (b ∷ fl) shut = refl
turns-arriving at_backend side [] true = refl
turns-arriving at_backend side [] false = refl

turns-near : (p : Tandem) (e : Event) → turns at_client (near_events p e) ≡ round_of near_hop e
turns-near p (caller m) = refl
turns-near p (server m) = refl
turns-near p (works near_hop at_client) = refl
turns-near p (works near_hop at_backend) = refl
turns-near p (works far_hop side) = refl
turns-near p (returns near_hop) = refl
turns-near p (returns far_hop) = refl
turns-near p carry_up = refl
turns-near p carry_down = turns-arriving at_client at_backend _ _
turns-near p cut = refl

turns-far : (p : Tandem) (e : Event) → turns at_client (far_events p e) ≡ round_of far_hop e
turns-far p (caller m) = refl
turns-far p (server m) = refl
turns-far p (works near_hop side) = refl
turns-far p (works far_hop at_client) = refl
turns-far p (works far_hop at_backend) = refl
turns-far p (returns near_hop) = refl
turns-far p (returns far_hop) = refl
turns-far p carry_up = turns-arriving at_client at_client _ _
turns-far p carry_down = refl
turns-far p cut = refl

pub near-Ends :
    (es : List Event) (p : Tandem) (n : ℕ)
    → Ends at_client p.near (rounds near_hop es + n)
    → Ends at_client (run p es).near n
unfolding run step
near-Ends [] p n h = Ends-le at_client p.near (0 + n) n (omega arith) h
near-Ends (e ∷ es) p n h = near-Ends es (step p e) n (
    run-Ends at_client (near_events p e) p.near (rounds near_hop es + n) (
      Ends-le at_client p.near (rounds near_hop (e ∷ es) + n)
        (turns at_client (near_events p e) + (rounds near_hop es + n))
        (omega (arith, turns-near p e)) h))

pub far-Ends :
    (es : List Event) (p : Tandem) (n : ℕ)
    → Ends at_client p.far (rounds far_hop es + n)
    → Ends at_client (run p es).far n
unfolding run step
far-Ends [] p n h = Ends-le at_client p.far (0 + n) n (omega arith) h
far-Ends (e ∷ es) p n h = far-Ends es (step p e) n (
    run-Ends at_client (far_events p e) p.far (rounds far_hop es + n) (
      Ends-le at_client p.far (rounds far_hop (e ∷ es) + n)
        (turns at_client (far_events p e) + (rounds far_hop es + n)) (omega (arith, turns-far p e))
        h))
