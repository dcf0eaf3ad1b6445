-- ===== src/Worker/Run/Shutdown.antt =====
-- How the worker starts its server and leaves.
use sccache_dist_action.Common.{
  All, Occurs, Result, Text, ok, err, ℕ, ◌≡◌, refl, sym, ap, ◌∙◌, subst, ◌≢◌, inl, inr, Bool, true,
  none, List, [], ◌∷◌, ◌++◌, append_assoc,
}
use sccache_dist_action.Effects.{perform, emit, Makes}
use sccache_dist_action.Effects.Order.{
  and_then-past, Occurs-past, and_then-trace, perform-accepted, regroup, and_then-result,
}
use sccache_dist_action.Effects.Every.{and_then-Makes, perform-Makes}
use sccache_dist_action.Config.{Config}
use sccache_dist_action.Worker.Guard.{Round}
use sccache_dist_action.Worker.Run.{
  Action, RunError, World, Run, after_return, guard_supervised, write_conf, launch_server, ◌&>◌,
  defer, wait_for_coordinator, guard_coordinator, serve, bridge, run, refused, context_ended,
  unfinished,
}
use sccache_dist_action.Worker.Run.Waiting.{wait_for_coordinator-trace, wait_for_coordinator-ok}

-- A call before the server is started.
abbrev pub IsEarly : Action → Type 0
IsEarly (Action.launch _ _) = ⊥
IsEarly Action.supervise = ⊥
IsEarly Action.stop_supervisor = ⊥
IsEarly _ = Unit

-- A call that has nothing to do with the running supervisor.
abbrev IsUnsupervised : Action → Type 0
IsUnsupervised Action.supervise = ⊥
IsUnsupervised Action.stop_supervisor = ⊥
IsUnsupervised _ = Unit

after_return-IsFinished :
    {E : Type 0} (r : Result (RunError E) (Unit {0})) (calls : List Action) (x : Action)
    → r ≢ err unfinished
    → after_return r calls x ≡ calls ++ x ∷ []
unfolding after_return
after_return-IsFinished (ok _) calls x h = refl
after_return-IsFinished (err (refused e)) calls x h = refl
after_return-IsFinished (err context_ended) calls x h = refl
after_return-IsFinished (err unfinished) calls x h = absurd (h refl)

Occurs-before :
    (x y : Action) (calls : List Action) → x ≢ y → Occurs x (calls ++ y ∷ []) → Occurs x calls
Occurs-before x y [] ne (inl e) = absurd (ne e)
Occurs-before x y [] ne (inr there) = absurd there
Occurs-before x y (z ∷ calls) ne (inl e) = inl e
Occurs-before x y (z ∷ calls) ne (inr there) = inr (Occurs-before x y calls ne there)

after_return-Occurs :
    {E : Type 0} (x y : Action) (r : Result (RunError E) (Unit {0})) (calls : List Action)
    → x ≢ y
    → Occurs x (after_return r calls y)
    → Occurs x calls
unfolding after_return
after_return-Occurs x y (ok _) calls ne there = Occurs-before x y calls ne there
after_return-Occurs x y (err (refused e)) calls ne there = Occurs-before x y calls ne there
after_return-Occurs x y (err context_ended) calls ne there = Occurs-before x y calls ne there
after_return-Occurs x y (err unfinished) calls ne there = there

module _ {E : Type 0} (table : ℕ → Bool) (c : Config) (hostname : Text) (w : World E) where
  pub bridge-IsEarly : Makes IsEarly (bridge c w)
  unfolding bridge
  bridge-IsEarly = and_then-Makes IsEarly _ _ (perform-Makes IsEarly w.refuses _ tt) λ _ _.
      and_then-Makes IsEarly _ _ (tt, tt)
        λ _ _. and_then-Makes IsEarly _ _ (perform-Makes IsEarly w.refuses _ tt) λ _ _. (tt, tt)

  -- What `Run` does on the mesh.
  abbrev pub inside : Run E
  inside = bridge c w &> wait_for_coordinator w.first_rounds &> serve table c w

  -- A call that only `serve` makes is made behind a successful wait.
  pub inside-past :
      (x : Action)
      → ¬ IsEarly x
      → Occurs x inside.trace
      → ((wait_for_coordinator {E = E} w.first_rounds).result ≡ ok tt)
        × (inside.result ≡ (serve table c w).result)
        × (inside.trace ≡ (bridge c w).trace ++ (serve table c w).trace)
  inside-past x late there =
      let rounds : Run E = wait_for_coordinator w.first_rounds in
      let after_bridge = rounds &> serve table c w in
      let (_, bridged, trace) =
        and_then-past IsEarly x (bridge c w) (λ _. after_bridge) bridge-IsEarly late there in
      let there' =
        Occurs-past IsEarly x (bridge c w).trace after_bridge.trace bridge-IsEarly late
          (subst (Occurs x) trace there) in
      let none_yet : All IsEarly rounds.trace =
        rw (wait_for_coordinator-trace E w.first_rounds) tt in
      let (_, reached, trace') =
        and_then-past IsEarly x rounds (λ _. serve table c w) none_yet late there' in
      (
        reached,
        and_then-result (bridge c w) (λ _. after_bridge) tt bridged
            ∙ and_then-result rounds (λ _. serve table c w) tt reached,
        trace
            ∙ ap (λ t. (bridge c w).trace ++ t)
                (trace'
                  ∙ ap (λ t. t ++ (serve table c w).trace)
                      (wait_for_coordinator-trace E w.first_rounds)),
      )

  abbrev joined : Run E
  joined = perform w.refuses (Action.join_mesh hostname)

  joined-IsEarly : Makes IsEarly joined
  joined-IsEarly = perform-Makes IsEarly w.refuses (Action.join_mesh hostname) tt

  pub run-past :
      (x : Action) → ¬ IsEarly x → Occurs x (run table c hostname w).trace → Occurs x inside.trace
  unfolding run defer
  run-past x late there =
      let closed = defer Action.close_mesh inside in
      let (_, _, trace) = and_then-past IsEarly x joined (λ _. closed) joined-IsEarly late there in
      let there' =
        Occurs-past IsEarly x joined.trace closed.trace joined-IsEarly late
          (subst (Occurs x) trace there) in
      after_return-Occurs x Action.close_mesh inside.result inside.trace
        (λ e. late (subst IsEarly (sym e) tt)) there'

  -- The worker starts its server only behind a probe of the coordinator that was answered.
  pub launch-answered :
      (conf log_level : Text)
      → Occurs (Action.launch conf log_level) (run table c hostname w).trace
      → (r : Round) × Occurs r w.first_rounds × (r.present ≡ true)
  launch-answered conf log_level there =
      let x = Action.launch conf log_level in
      wait_for_coordinator-ok E w.first_rounds
        (inside-past x (λ e. e) (run-past x (λ e. e) there)).0

  guard_supervised-stops :
      (guard_supervised c w).result ≢ err unfinished
      → (before : List Action) × ((guard_supervised c w).trace
          ≡ before ++ Action.stop_supervisor ∷ [])
  unfolding guard_supervised defer
  guard_supervised-stops finished =
      let m : Run E = emit (Action.supervise ∷ Action.start_status ∷ []) &> guard_coordinator c w in
      (m.trace, after_return-IsFinished m.result m.trace Action.stop_supervisor finished)

  serve-stops :
      (serve table c w).result ≢ err unfinished
      → Occurs Action.supervise (serve table c w).trace
      → (before : List Action) × ((serve table c w).trace ≡ before ++ Action.stop_supervisor ∷ [])
  unfolding serve
  serve-stops finished there =
      let x = Action.supervise in
      let m : Run E = write_conf table c w in
      let n : Run E = launch_server c w in
      let last : Run E = guard_supervised c w in
      let quiet = perform-Makes IsUnsupervised w.refuses _ tt in
      let quiet' = perform-Makes IsUnsupervised w.refuses _ tt in
      let (_, done, trace) =
        and_then-past IsUnsupervised x m (λ _. n &> last) quiet (λ e. e) there in
      let there' =
        Occurs-past IsUnsupervised x m.trace (n &> last).trace quiet (λ e. e)
          (subst (Occurs x) trace there) in
      let (_, done', trace') =
        and_then-past IsUnsupervised x n (λ _. last) quiet' (λ e. e) there' in
      let same =
        and_then-result m (λ _. n &> last) tt done ∙ and_then-result n (λ _. last) tt done' in
      let (before, stops) = guard_supervised-stops (λ e. finished (same ∙ e)) in
      (
        m.trace ++ (n.trace ++ before),
        trace
            ∙ ap (λ t. m.trace ++ t) (trace' ∙ ap (λ t. n.trace ++ t) stops)
            ∙ regroup m.trace n.trace before (Action.stop_supervisor ∷ []),
      )

  inside-stops :
      inside.result ≢ err unfinished
      → Occurs Action.supervise inside.trace
      → (start : List Action) × (joined.trace ++ inside.trace
          ≡ start ++ Action.stop_supervisor ∷ [])
  inside-stops finished there =
      let x = Action.supervise in
      let (_, same, trace) = inside-past x (λ e. e) there in
      let there' =
        Occurs-past IsEarly x (bridge c w).trace (serve table c w).trace bridge-IsEarly (λ e. e)
          (subst (Occurs x) trace there) in
      let (before, stops) = serve-stops (λ e. finished (same ∙ e)) there' in
      (
        joined.trace ++ ((bridge c w).trace ++ before),
        ap (λ t. joined.trace ++ t) (trace ∙ ap (λ t. (bridge c w).trace ++ t) stops)
            ∙ regroup joined.trace (bridge c w).trace before (Action.stop_supervisor ∷ []),
      )

  -- If the worker has joined the mesh and `Run` has returned, with nil or an error, it has left the
  -- mesh as the last thing it did; and if the supervisor was started, it was stopped just before that.
  pub run-closes :
      w.refuses (Action.join_mesh hostname) ≡ none
      → (run table c hostname w).result ≢ err unfinished
      → (before : List Action) × ((run table c hostname w).trace ≡ before ++ Action.close_mesh ∷ [])
        × (Occurs Action.supervise before
            → (start : List Action) × (before ≡ start ++ Action.stop_supervisor ∷ []))
  unfolding run defer
  run-closes h finished =
      let closed = defer Action.close_mesh inside in
      let accepted = perform-accepted w.refuses (Action.join_mesh hostname) h in
      let same = and_then-result joined (λ _. closed) tt accepted in
      let ends =
        after_return-IsFinished inside.result inside.trace Action.close_mesh
          (λ e. finished (same ∙ e)) in
      (
        joined.trace ++ inside.trace,
        and_then-trace joined (λ _. closed) tt accepted
            ∙ ap (λ t. joined.trace ++ t) ends
            ∙ sym (append_assoc joined.trace inside.trace (Action.close_mesh ∷ [])),
        λ there.
            inside-stops (λ e. finished (same ∙ e))
              (Occurs-past IsEarly Action.supervise joined.trace inside.trace joined-IsEarly
                (λ e. e) there),
      )
