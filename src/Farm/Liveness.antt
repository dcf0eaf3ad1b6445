-- ===== src/Farm/Liveness.antt =====
-- What an answer of the coordinator's liveness port, which the workers of internal/worker/worker.go
-- probe, says of the coordinator's `Run` in internal/coordinator/coordinator.go.
use sccache_dist_action.Common.{
  All, none, ◌≢◌, Occurs, Text, codes, text_eq, ok, ℕ, ◌≡◌, refl, sym, ap, ◌∙◌, subst, inl, inr,
  Bool, List, [], ◌∷◌, ◌++◌, append_assoc,
}
use sccache_dist_action.Effects.{and_then, perform, emit}
use sccache_dist_action.Effects.Order.{and_then-cases}
use sccache_dist_action.Effects.Chain.{
  perform_then_past-accepts, perform_then_ok-accepts, perform_then-past, emit_then-past,
  perform_then-ok, emit_then-ok,
}
use sccache_dist_action.Config.{Config}
use sccache_dist_action.SccacheDist.Conf.{scheduler_conf}
use sccache_dist_action.Main.Phase.{node_hostname}
use sccache_dist_action.Coordinator.Run.{
  Action, World, Run, ◌&>◌, start, forwards, registration, export, run, prefix_of, rounds,
}
use sccache_dist_action.Worker.Probe.{liveness_addr}

module _ {E : Type 0} (table : ℕ → Bool) (c : Config) (hostname : Text) (w : World E) where
  abbrev conf : Text
  conf = w.conf_path (codes "sccache-scheduler.conf")

  -- The calls behind which the liveness port is served.
  abbrev pub before_liveness : List Action
  before_liveness =
      Action.join_mesh hostname
      ∷ Action.write_file conf (scheduler_conf table c.oauth_secret)
      ∷ Action.mesh_listen (codes ":10600")
      ∷ Action.serve_scheduler
      ∷ Action.start_scheduler conf c.server_log
      ∷ Action.mesh_listen (codes ":10599")
      ∷ []

  abbrev x : Action
  x = Action.serve_liveness

  -- The calls before it that can fail.
  abbrev pub fallible_calls : List Action
  fallible_calls =
      Action.join_mesh hostname
      ∷ Action.write_file conf (scheduler_conf table c.oauth_secret)
      ∷ Action.mesh_listen (codes ":10600")
      ∷ Action.start_scheduler conf c.server_log
      ∷ Action.mesh_listen (codes ":10599")
      ∷ []

  abbrev IsAccepted : Action → Type 0
  IsAccepted a = w.refuses a ≡ none

  past :
      (y : Action) (k : Unit {0} → Run E)
      → y ≢ x
      → Occurs x (and_then (perform w.refuses y) k).trace
      → ((and_then (perform w.refuses y) k).trace ≡ y ∷ (k tt).trace)
        × Occurs x (k tt).trace
        × IsAccepted y
  past y k ne there =
      let (trace, later) = perform_then-past y k x w.refuses ne there in
      (trace, later, perform_then_past-accepts y k x w.refuses ne there)

  done :
      (y : Action) (k : Unit {0} → Run E)
      → (and_then (perform w.refuses y) k).result ≡ ok tt
      → ((and_then (perform w.refuses y) k).trace ≡ y ∷ (k tt).trace)
        × ((k tt).result ≡ ok tt)
        × IsAccepted y
  done y k h =
      let (trace, later) = perform_then-ok y k w.refuses tt h in
      (trace, later, perform_then_ok-accepts y k w.refuses tt h)

  start_past :
      Occurs x (start table c hostname w).trace
      → ((start table c hostname w).trace ≡ before_liveness ++ x ∷ [])
        × All IsAccepted fallible_calls
  unfolding start
  start_past there =
      let (t1, o1, a1) = past (Action.join_mesh hostname) _ (λ e. cc) there in
      let (t2, o2, a2) =
        past (Action.write_file conf (scheduler_conf table c.oauth_secret)) _ (λ e. cc) o1 in
      let (t3, o3, a3) = past (Action.mesh_listen (codes ":10600")) _ (λ e. cc) o2 in
      let (t4, o4) = emit_then-past Action.serve_scheduler _ x (λ e. cc) o3 in
      let (t5, o5, a5) = past (Action.start_scheduler conf c.server_log) _ (λ e. cc) o4 in
      let (t6, _, a6) = past (Action.mesh_listen (codes ":10599")) _ (λ e. cc) o5 in
      (rw (t1, t2, t3, t4, t5, t6) refl, (a1, (a2, (a3, (a5, (a6, tt))))))

  start_ok :
      (start table c hostname w).result ≡ ok tt
      → ((start table c hostname w).trace ≡ before_liveness ++ x ∷ [])
        × All IsAccepted fallible_calls
  unfolding start
  start_ok h =
      let (t1, o1, a1) = done (Action.join_mesh hostname) _ h in
      let (t2, o2, a2) = done (Action.write_file conf (scheduler_conf table c.oauth_secret)) _ o1 in
      let (t3, o3, a3) = done (Action.mesh_listen (codes ":10600")) _ o2 in
      let (t4, o4) = emit_then-ok Action.serve_scheduler _ tt o3 in
      let (t5, o5, a5) = done (Action.start_scheduler conf c.server_log) _ o4 in
      let (t6, _, a6) = done (Action.mesh_listen (codes ":10599")) _ o5 in
      (rw (t1, t2, t3, t4, t5, t6) refl, (a1, (a2, (a3, (a5, (a6, tt))))))

  -- The port that a worker probes is served only when the scheduler runs: the probe's address is the
  -- liveness port of the coordinator's own name in the tailnet, and if the coordinator serves that
  -- port, then before that it has joined the mesh, written the scheduler's configuration, exposed the
  -- scheduler's port to the workers, started the scheduler with that configuration, and opened the
  -- port, in this order, and none of these calls has failed.
  pub liveness_behind_scheduler :
      (raw : Text)
      → c.mode ≡ codes "coordinator"
      → Occurs Action.serve_liveness (run table c hostname w).trace
      → (liveness_addr (c.run_prefix ++ codes "-coordinator")
          ≡ node_hostname c raw ++ codes ":10599")
        × ((later : List Action) × ((run table c hostname w).trace
              ≡ before_liveness ++ Action.serve_liveness ∷ later))
        × All (λ a. w.refuses a ≡ none) fallible_calls
  unfolding run node_hostname text_eq
  liveness_behind_scheduler raw mode there =
      let s = start table c hostname w in
      let rest : Run E =
        forwards (prefix_of c) w (rounds c.expected_workers) 1
        &> emit (Action.start_status ∷ [])
        &> registration c w
        &> export table c w in
      let served : ((later : List Action) × ((run table c hostname w).trace
              ≡ before_liveness ++ Action.serve_liveness ∷ later))
          × All IsAccepted fallible_calls =
        elim (and_then-cases s (λ _. rest)) [
          | inl alone ↦
              let (trace, accepted) = start_past (subst (Occurs x) alone there) in
              (([], alone ∙ trace), accepted)
          | inr (_, started, both) ↦
              let (trace, accepted) = start_ok started in
              ((rest.trace, both ∙ ap (λ t. t ++ rest.trace) trace), accepted)
        ] in
      (
        rw mode (
            ap (λ t. t ++ codes ":10599")
              (sym (append_assoc c.run_prefix (codes "-") (codes "coordinator")))),
        served.0,
        served.1,
      )
