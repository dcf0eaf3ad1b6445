-- ===== src/Proxy/Session/Gone.antt =====
-- internal/proxy/proxy.go: the end of a `relay`, and how a peer that ends reaches the other one.
use sccache_dist_action.Common.{length, ◌<◌, ◌≡◌, refl, subst, Bool, true, List, [], ◌∷◌, ◌++◌}
use sccache_dist_action.Proxy.Session.{
  new_conn, Session, at_client, at_backend, Event, leave, step, run, new_session,
}
use sccache_dist_action.Proxy.Session.Round.{IsShut, Way}
use sccache_dist_action.Proxy.Session.Invariant.{run-IsSound, new-IsSound}
use sccache_dist_action.Proxy.Session.Ending.{turns, HasEnded, up_over, down_over}

-- The relay ends: once both peers have half-closed, or their connections failed, and each pipe has
-- had a round for every byte still to read and one more, whatever happens in between, both pipes are
-- done, and `relay` closes both connections when it goes on.
pub relay_ends :
    (s : Session) (es : List Event)
    → HasEnded s.client
    → HasEnded s.backend
    → length s.client.unread < turns at_client es
    → length s.backend.unread < turns at_backend es
    → ((step (run s es) leave).left ≡ true)
      × ((step (run s es) leave).client.closed ≡ true)
      × ((step (run s es) leave).backend.closed ≡ true)
unfolding step
relay_ends s es c b h k =
    let up = up_over s es c h in
    let down = down_over s es b k in (rw (up, down) refl, rw (up, down) refl, rw (up, down) refl)

run-append : (s : Session) (es later : List Event) → run s (es ++ later) ≡ run (run s es) later
unfolding run
run-append s [] later = refl
run-append s (e ∷ es) later = run-append (step s e) es later

pub is_shut : (s : Session) → Way s.up_done s.client s.backend → s.up_done ≡ true → IsShut s.backend
is_shut s way over =
    let (rest, e, (why, shut)) = subst (λ d. Way d s.client s.backend) over way in shut

-- A client that gives up shows at the backend: if the client has half-closed or its connection has
-- failed, and its pipe then has a round for every byte still to read and one more, the backend's
-- connection is half-closed or closed, whatever the backend does, be it nothing.
pub giving_up_shows :
    (up down : Bool) (es later : List Event)
    → HasEnded (run (new_session (new_conn up) (new_conn down)) es).client
    → length (run (new_session (new_conn up) (new_conn down)) es).client.unread
      < turns at_client later
    → IsShut (run (new_session (new_conn up) (new_conn down)) (es ++ later)).backend
giving_up_shows up down es later e h =
    let start = new_session (new_conn up) (new_conn down) in
    let (way, _, _, _, _) = run-IsSound start (es ++ later) (new-IsSound up down) in
    is_shut (run start (es ++ later)) way
      (rw (run-append start es later) (up_over (run start es) later e h))
