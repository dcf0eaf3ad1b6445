-- ===== src/Worker/Probe.antt =====
-- internal/worker: `probeServer` and `probeCoordinator`, and a line of the worker's status log.
use sccache_dist_action.Common.{
  Result, Text, codes, ok, err, ℕ, ◌≡◌, refl, sym, ◌∙◌, ◌↔◌, Bool, true, false, Option, none, some,
  List, [], ◌∷◌, ◌++◌,
}
use sccache_dist_action.Effects.{Outcome}
use sccache_dist_action.Stdlib.Http.{
  Request, Call, dial, close_conn, World, with_body, with_body_lem, sent, opened, closed,
}
use sccache_dist_action.Stdlib.Decimal.{itoa_ℕ}
use sccache_dist_action.Tsmesh.Peers.{Peer, path_to}

unfoldable pub probe_request : Text → ℕ → Request
probe_request addr timeout = record {
  method = codes "POST";
  url = codes "https://" ++ addr ++ codes "/api/v1/distserver/assign_job/0";
  headers = [];
  timeout = timeout;
}

-- Whatever the answer's status and body are, it is an answer.
unfoldable pub probe_server : {E : Type 0} → World E → Text → ℕ → Outcome Call E (Unit {0})
probe_server w addr timeout = with_body w (probe_request addr timeout) (λ body. ok tt)

-- `probe` of the supervisor: the local server, with serverProbeTimeout.
abbrev pub probe_local_server : {E : Type 0} → World E → Outcome Call E (Unit {0})
probe_local_server w = probe_server w (codes "127.0.0.1:10501") 15000000000

abbrev pub liveness_addr : Text → Text
liveness_addr coord_host = coord_host ++ codes ":10599"

dialed : {E : Type 0} → Option E → Text → Bool × List Call
dialed (some e) addr = (false, dial addr 5000000000 ∷ [])
dialed none addr = (true, dial addr 5000000000 ∷ close_conn ∷ [])

-- Whether the coordinator answers, and the calls that were made.
unfoldable pub probe_coordinator : {E : Type 0} → World E → Text → Bool × List Call
unfolding dialed
probe_coordinator w coord_host =
    dialed (w.connects (liveness_addr coord_host)) (liveness_addr coord_host)

abbrev path_known : {E : Type 0} → Result E (List Peer) → Text → Text
path_known (ok ps) host = path_to ps host
path_known (err e) host = codes "unknown"

-- A line of the status log, with the texts of the two forwarders' Status.
unfoldable pub status_line : {E : Type 0} → Result E (List Peer) → Text → ℕ → Text → Text → Text
status_line peers coord_host restarts bridge exposure =
    codes "[worker] status: coordinator via "
    ++ path_known peers coord_host
    ++ codes "; server restarts="
    ++ itoa_ℕ restarts
    ++ codes "; "
    ++ bridge
    ++ codes "; "
    ++ exposure

sent_ok :
    {E : Type 0} (b : Option E) (r : Result E Text)
    → (sent b r (λ body. ok tt) ≡ ok tt) ↔ ((b ≡ none) × ((body : Text) × (r ≡ ok body)))
unfolding sent
sent_ok (some e) r = (λ h. cc, λ (h, _). cc)
sent_ok none (err e) = (λ h. cc, λ (_, (body, h)). cc)
sent_ok none (ok body) = ((λ h. (refl, (body, refl))), (λ h. refl))

dialed_lem :
    {E : Type 0} (w : World E) (o : Option E) (addr : Text)
    → w.connects addr ≡ o
    → (opened w (dialed o addr).1 ≡ closed (dialed o addr).1)
      × (((dialed o addr).0 ≡ true) ↔ (o ≡ none))
unfolding dialed
dialed_lem w (some e) addr h = (rw h refl, (λ k. cc, λ k. cc))
dialed_lem w none addr h = (rw h refl, (λ k. refl, λ k. refl))

-- A probe leaves nothing open: it closes as many bodies and connections as it gets. It succeeds
-- exactly when there is an answer of any kind: for the server, the request is built and answered; for
-- the coordinator, its liveness port takes the connection.
pub probes_leave_nothing :
    {E : Type 0} (w : World E) (addr coord_host : Text) (timeout : ℕ)
    → (opened w (probe_server w addr timeout).trace ≡ closed (probe_server w addr timeout).trace)
      × (opened w (probe_coordinator w coord_host).1 ≡ closed (probe_coordinator w coord_host).1)
      × (((probe_server w addr timeout).result ≡ ok tt) ↔ (
          (w.builds (probe_request addr timeout) ≡ none)
          × ((body : Text) × (w.answers (probe_request addr timeout) ≡ ok body))))
      × (((probe_coordinator w coord_host).0 ≡ true)
          ↔ (w.connects (liveness_addr coord_host) ≡ none))
unfolding probe_server probe_coordinator
probes_leave_nothing w addr coord_host timeout =
    let r = probe_request addr timeout in
    let (closes, result) = with_body_lem w r (λ body. ok tt) in
    let (closes', succeeds) =
      dialed_lem w (w.connects (liveness_addr coord_host)) (liveness_addr coord_host) refl in
    let (to, from) = sent_ok (w.builds r) (w.answers r) in
    (closes, closes', (λ h. to (sym result ∙ h), λ h. result ∙ from h), succeeds)
