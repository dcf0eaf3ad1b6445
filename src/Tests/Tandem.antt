-- ===== src/Tests/Tandem.antt =====
-- Two relays in a row.
use sccache_dist_action.Common.{length, ◌<◌, ◌≡◌, refl, true, List, [], ◌∷◌, ◌++◌, arith}
use sccache_dist_action.Proxy.Session.{at_client, at_backend, send, finish}
use sccache_dist_action.Proxy.Session as Session
use sccache_dist_action.Proxy.Session.Round.{IsShut}
use sccache_dist_action.Proxy.Session.Ending.{HasEnded}
use sccache_dist_action.Proxy.Tandem.{
  near_hop, far_hop, Event, caller, server, works, carry_up, carry_down, step, run, new_tandem,
}
use sccache_dist_action.Proxy.Tandem.Delivery.{IsPassedOn, has_failed, tandem_delivers}
use sccache_dist_action.Proxy.Tandem.GivesUp.{pending, giving_up_reaches_server}

-- The caller sends two bytes and ends; one of them has passed the first relay.
abbrev begun : List Event
begun =
    caller (send 7)
    ∷ server (send 9)
    ∷ works near_hop at_client
    ∷ caller (send 8)
    ∷ caller finish
    ∷ []

abbrev pushed : List Event
pushed = works near_hop at_client ∷ works near_hop at_client ∷ []

abbrev carried_over : List Event
carried_over = carry_up ∷ carry_up ∷ works far_hop at_client ∷ carry_up ∷ []

abbrev passed_over : List Event
passed_over = works far_hop at_client ∷ works far_hop at_client ∷ []

-- The other way: the server's byte.
abbrev answered : List Event
answered = works far_hop at_backend ∷ carry_down ∷ works near_hop at_backend ∷ []

abbrev all_events : List Event
all_events = begun ++ (pushed ++ (carried_over ++ (passed_over ++ answered)))

both_arrive :
    ((run new_tandem all_events).far.backend.written ≡ 7 ∷ 8 ∷ [])
    × ((run new_tandem all_events).near.client.written ≡ 9 ∷ [])
    × ((run new_tandem all_events).far.up_done ≡ true)
unfolding run step Session.run Session.step
both_arrive = (refl, refl, refl)

tandem_delivers_example :
    let p = run new_tandem all_events in
    IsPassedOn p.near.client p.far.backend p.far.up_done (has_failed p)
    × IsPassedOn p.far.backend p.near.client p.near.down_done (has_failed p)
tandem_delivers_example = tandem_delivers all_events

it_ended : HasEnded (run new_tandem begun).near.client
unfolding run step Session.run Session.step
it_ended = refl

one_to_read : length (run new_tandem begun).near.client.unread < 2
unfolding run step Session.run Session.step
one_to_read = omega arith

two_in_flight : length (pending (run (run new_tandem begun) pushed)) < 3
unfolding run step Session.run Session.step
two_in_flight = omega arith

one_left : length (run (run (run new_tandem begun) pushed) carried_over).far.client.unread < 2
unfolding run step Session.run Session.step
one_left = omega arith

giving_up_reaches_server_example :
    IsShut (run (run (run (run new_tandem begun) pushed) carried_over) passed_over).far.backend
giving_up_reaches_server_example =
    giving_up_reaches_server begun pushed carried_over passed_over it_ended one_to_read
      two_in_flight one_left
