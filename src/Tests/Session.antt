-- ===== src/Tests/Session.antt =====
-- Relays, and the bridge of the experiment.
use sccache_dist_action.Common.{
  length, ℕ, ◌≤◌, ◌<◌, ◌≡◌, refl, inl, true, false, List, [], ◌∷◌, ◌++◌, arith,
}
use sccache_dist_action.Proxy.Session.{
  new_conn, Session, at_client, at_backend, send, finish, Event, peer, pump, leave, step, run,
  pump_up, pumped, pipe_round, new_session,
}
use sccache_dist_action.Proxy.Session.Refines.{Does, pipe_of, relay_refines_pipes}
use sccache_dist_action.Proxy.Session.Closing.{opened, closed_behind_both}
use sccache_dist_action.Proxy.Session.Ending.{HasEnded, turns}
use sccache_dist_action.Proxy.Session.Gone.{relay_ends}
use sccache_dist_action.Proxy.Counters.{
  Place, counted, redialing, Relay, fresh, go, advance, System, new_forwarder, note, report, accept,
  move, Reach, here, next,
}
use sccache_dist_action.Proxy.Status.{Reads, Taken}
use sccache_dist_action.Proxy.Status.Window.{status_window}

-- The client sends two bytes and half-closes.
abbrev request : List Event
request =
    peer at_client (send 71)
    ∷ peer at_client (send 10)
    ∷ pump at_client
    ∷ peer at_client finish
    ∷ []

abbrev rounds : List Event
rounds = pump at_client ∷ pump at_backend ∷ pump at_client ∷ []

abbrev answer : List Event
answer =
    peer at_backend (send 79)
    ∷ pump at_backend
    ∷ peer at_backend finish
    ∷ pump at_backend
    ∷ leave
    ∷ []

abbrev start : Session
start = new_session (new_conn true) (new_conn true)

it_closes : (opened (request ++ rounds ++ answer)).client.closed ≡ true
unfolding run step pump_up pumped pipe_round
it_closes = refl

closed_behind_both_example :
    ((opened (request ++ rounds ++ answer)).up_done ≡ true)
    × ((opened (request ++ rounds ++ answer)).down_done ≡ true)
closed_behind_both_example = closed_behind_both (request ++ rounds ++ answer) (inl it_closes)

-- Both peers have half-closed, and one byte each is still to read.
abbrev both_ended : List Event
both_ended = request ++ peer at_backend (send 79) ∷ peer at_backend finish ∷ []

client-HasEnded : HasEnded (run start both_ended).client
unfolding run step pump_up pumped pipe_round
client-HasEnded = refl

backend-HasEnded : HasEnded (run start both_ended).backend
unfolding run step pump_up pumped pipe_round
backend-HasEnded = refl

abbrev last_rounds : List Event
last_rounds = pump at_client ∷ pump at_backend ∷ pump at_backend ∷ pump at_client ∷ []

client_turns : length (run start both_ended).client.unread < turns at_client last_rounds
unfolding run step pump_up pumped pipe_round
client_turns = ground arith

backend_turns : length (run start both_ended).backend.unread < turns at_backend last_rounds
unfolding run step pump_up pumped pipe_round
backend_turns = ground arith

relay_ends_example :
    ((step (run (run start both_ended) last_rounds) leave).left ≡ true)
    × ((step (run (run start both_ended) last_rounds) leave).client.closed ≡ true)
    × ((step (run (run start both_ended) last_rounds) leave).backend.closed ≡ true)
relay_ends_example =
    relay_ends (run start both_ended) last_rounds client-HasEnded backend-HasEnded client_turns
      backend_turns

-- A relay that has counted itself, and a second one that comes between the reads.
abbrev with_relays : ℕ → ℕ → List Relay → System
with_relays active total relays = record {
  counters = record {
    active = active;
    total = total;
    dial_retries = 0;
    dial_fails = 0;
    slowest_dial = 0;
  };
  relays = relays;
}

abbrev at : Place → Relay
at place = record fresh { place = place }

abbrev one : System
one = with_relays 1 1 (at (redialing 0) ∷ [])

abbrev two : System
two = with_relays 1 2 (at counted ∷ at (redialing 0) ∷ [])

one_reached : Reach new_forwarder one
unfolding advance
one_reached =
    next {t = with_relays 0 1 (at counted ∷ [])}
      (next {t = with_relays 0 0 (fresh ∷ [])} (next here (accept refl))
        (move [] [] fresh go refl refl))
      (move [] [] (at counted) go refl refl)

two_reached : Reach (report one) two
unfolding report advance note
two_reached =
    next {t = with_relays 1 1 (fresh ∷ at (redialing 0) ∷ [])} (next here (accept refl))
      (move [] (at (redialing 0) ∷ []) fresh go refl refl)

abbrev reads : Reads
reads = record { slowest_dial = 0; active = 1; total = 2; dial_retries = 0; dial_fails = 0 }

taken : Taken one two reads
unfolding report
taken = record {
  at_active = report one;
  at_total = two;
  at_retries = two;
  swapped = refl;
  to_active = here;
  active_read = refl;
  to_total = two_reached;
  total_read = refl;
  to_retries = here;
  retries_read = refl;
  to_fails = here;
  fails_read = refl;
}

status_window_example : (1 ≤ 2) × (1 ≤ 2) × (2 ≤ 2) × (0 ≤ 0) × (0 ≤ 0) × (0 ≤ 0) × (0 ≤ 0)
status_window_example = status_window reads one_reached taken

not_failed : ((opened request).client.failed ≡ false) × ((opened request).backend.failed ≡ false)
unfolding run step pump_up pumped pipe_round
not_failed = (refl, refl)

relay_refines_pipes_example :
    let before = opened request in
    let later = step before (pump at_client) in
    Does (pipe_of before.client before.backend) (pipe_of later.client later.backend)
    × Does (pipe_of before.backend before.client) (pipe_of later.backend later.client)
relay_refines_pipes_example = relay_refines_pipes request (pump at_client) not_failed.0 not_failed.1
