-- ===== src/Worker/Supervisor/Invariant.antt =====
-- What holds of the supervisor between any two events.
use sccache_dist_action.Common.{
  length, ℕ, ◌+◌, ◌≤◌, ◌<◌, ◌≡◌, Bool, true, false, Option, none, some, List, [], ◌∷◌, arith,
}
use sccache_dist_action.Worker.Supervisor.{
  Phase, selecting, probing, pacing, waiting, starting, finished, Supervisor, Event, step, run,
  launched_with,
}

-- Without a server: being restarted, or left.
abbrev pub IsServerless : Phase → Type 0
IsServerless selecting = ⊥
IsServerless probing = ⊥
IsServerless finished = Unit
IsServerless pacing = Unit
IsServerless (waiting due) = Unit
IsServerless starting = Unit

abbrev pub IsDue : ℕ → Phase → Type 0
IsDue t (waiting due) = due ≡ t
IsDue t phase = Unit

-- The servers that run: the one of `cmd`, unless it has exited, and no other.
abbrev pub HasOnlyServer : Option ℕ → Bool → List ℕ → Type 0
HasOnlyServer none exited alive = (alive ≡ []) × (exited ≡ false)
HasOnlyServer (some pid) true alive = alive ≡ []
HasOnlyServer (some pid) false alive = alive ≡ pid ∷ []

pub record Inv (s : Supervisor) : Type 0 where
  pub only_server : HasOnlyServer s.cmd s.exited s.alive
  pub serverless : IsServerless s.phase → s.cmd ≡ none
  pub misses_below : s.misses < s.threshold
  pub due : IsDue (s.launched + s.min_uptime) s.phase
  pub past : s.launched ≤ s.clock
  pub left_on_end : s.phase ≡ finished → s.ended ≡ true

pub launched_with-Inv :
    (threshold min_uptime clock pid : ℕ)
    → 0 < threshold
    → Inv (launched_with threshold min_uptime clock pid)
launched_with-Inv threshold min_uptime clock pid h = ground arith

pub step-Inv : (s : Supervisor) (e : Event) → Inv s → Inv (step s e)
unfolding step
step-Inv s e inv = ground arith

pub run-Inv : (s : Supervisor) (es : List Event) → Inv s → Inv (run s es)
unfolding run
run-Inv s [] inv = inv
run-Inv s (e ∷ es) inv = run-Inv (step s e) es (step-Inv s e inv)

-- With a positive threshold, whatever happens from the launch on, at most one server runs at a time.
pub run-one_server :
    (threshold min_uptime clock pid : ℕ) (es : List Event)
    → 0 < threshold
    → length (run (launched_with threshold min_uptime clock pid) es).alive ≤ 1
run-one_server threshold min_uptime clock pid es h =
    let inv =
      run-Inv (launched_with threshold min_uptime clock pid) es
        (launched_with-Inv threshold min_uptime clock pid h) in
    ground (arith, inv.only_server)

-- With a positive threshold, whatever happens from the launch on, the supervisor returns only after its context has ended, and
-- it leaves no server running.
pub run-finished :
    (threshold min_uptime clock pid : ℕ) (es : List Event)
    → 0 < threshold
    → let s = run (launched_with threshold min_uptime clock pid) es in
      s.phase ≡ finished → (s.ended ≡ true) × (s.alive ≡ [])
run-finished threshold min_uptime clock pid es h e =
    let inv =
      run-Inv (launched_with threshold min_uptime clock pid) es
        (launched_with-Inv threshold min_uptime clock pid h) in
    ground (arith, inv)
