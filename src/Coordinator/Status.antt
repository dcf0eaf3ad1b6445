-- ===== src/Coordinator/Status.antt =====
-- internal/coordinator/coordinator.go: `registeredServers`, and a round of `logStatus`.
use sccache_dist_action.Common.{
  length, ℤ, Result, Text, codes, pos, ok, err, ℕ, suc, ◌+◌, ◌≡◌, refl, ap, ◌∙◌, List, [], ◌∷◌,
  ◌++◌, arith,
}
use sccache_dist_action.Effects.{Outcome}
use sccache_dist_action.Stdlib.Http.{with_body, Request, Call, World}
use sccache_dist_action.Stdlib.Decimal.{itoa, itoa_ℕ}
use sccache_dist_action.Tsmesh.Peers.{Peer, path_to}
use sccache_dist_action.Coordinator.Forward.{forward_spec}

abbrev pub status_request : Request
status_request = record {
  method = codes "GET";
  url = codes "http://127.0.0.1:10600/api/v1/scheduler/status";
  headers = (codes "Accept", codes "application/json") ∷ [];
  timeout = 5000000000;
}

-- `decode` reads num_servers from the body; a body that is not the JSON of the struct is an error.
unfoldable pub registered_servers : {E : Type 0} → World E → (Text → Result E ℤ) → Outcome Call E ℤ
registered_servers w decode = with_body w status_request decode

abbrev pub status_interval : ℕ
status_interval = 30000000000

abbrev shown_count : {E : Type 0} → (E → Text) → Result E ℤ → Text
shown_count show (ok n) = itoa n
shown_count show (err e) = codes "? (" ++ show e ++ codes ")"

-- `peers, _ := mesh.Peers`: with an error there are none.
abbrev known : {E : Type 0} → Result E (List Peer) → List Peer
known (ok ps) = ps
known (err e) = []

-- The line of forward `i`, counted from 0, with the text of its Status.
abbrev pub worker_line : Text → List Peer → ℕ → Text → Text
worker_line worker_prefix ps i status =
    codes "[coord]   " ++ status ++ codes "; via " ++ path_to ps (worker_prefix ++ itoa_ℕ (i + 1))

unfoldable pub worker_lines : Text → List Peer → ℕ → List Text → List Text
worker_lines worker_prefix ps i [] = []
worker_lines worker_prefix ps i (status ∷ rest) =
    worker_line worker_prefix ps i status ∷ worker_lines worker_prefix ps (suc i) rest

-- A round behind the sleep of status_interval: the lines that are logged.
unfoldable pub log_status_round :
    {E : Type 0}
    → (E → Text)
    → Text
    → Result E ℤ
    → ℕ
    → Text
    → Result E (List Peer)
    → List Text
    → List Text
unfolding worker_lines
log_status_round show worker_prefix registered goroutines scheduler_status peers statuses =
    (codes "[coord] status: servers registered="
      ++ shown_count show registered
      ++ codes " goroutines="
      ++ itoa_ℕ goroutines
      ++ codes "; "
      ++ scheduler_status)
    ∷ worker_lines worker_prefix (known peers) 0 statuses

worker_lines-at :
    (worker_prefix status : Text) (ps : List Peer) (i k : ℕ) (before later : List Text)
    → i + length before ≡ k
    → worker_lines worker_prefix ps i (before ++ status ∷ later)
      ≡ worker_lines worker_prefix ps i before
        ++ worker_line worker_prefix ps k status ∷ worker_lines worker_prefix ps (suc k) later
unfolding worker_lines
worker_lines-at worker_prefix status ps i k [] later e =
    let same : i ≡ k = omega (arith, e) in rw same refl
worker_lines-at worker_prefix status ps i k (s ∷ before) later e =
    ap (λ t. worker_line worker_prefix ps i s ∷ t)
      (worker_lines-at worker_prefix status ps (suc i) k before later (omega (arith, e)))

-- The line of the forward of worker n says by which path the tailnet reaches the very host that this
-- forward dials, or that no peer has its name.
pub status_names_dialed :
    (worker_prefix status : Text) (ps : List Peer) (before later : List Text)
    → let n = length before + 1 in
      let host = worker_prefix ++ itoa (pos n) in
      ((forward_spec worker_prefix (pos n)).1 ≡ host ++ codes ":10501")
      × (worker_lines worker_prefix ps 0 (before ++ status ∷ later)
          ≡ worker_lines worker_prefix ps 0 before
            ++ (codes "[coord]   " ++ status ++ codes "; via " ++ path_to ps host)
              ∷ worker_lines worker_prefix ps n later)
unfolding forward_spec itoa
status_names_dialed worker_prefix status ps before later =
    let n = length before + 1 in
    let next : suc (length before) ≡ n = omega arith in
    (
      refl,
      worker_lines-at worker_prefix status ps 0 (length before) before later (omega arith)
          ∙ ap
              (λ k.
                worker_lines worker_prefix ps 0 before
                ++ worker_line worker_prefix ps (length before) status
                  ∷ worker_lines worker_prefix ps k later)
              next,
    )
