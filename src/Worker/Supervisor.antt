-- ===== src/Worker/Supervisor.antt =====
-- internal/worker/supervise.go: `supervisor`, as a machine whose events are what the goroutine
-- meets at its blocking calls, and what the rest of the world does meanwhile. An event that cannot
-- happen in a phase changes nothing.
pub mod Invariant
pub mod Restart
pub mod Progress
pub mod Timing
pub mod Ending
use sccache_dist_action.Common.{
  ltb, leb, ◌==◌, if◌then◌else◌, ℕ, ◌+◌, Bool, true, false, Option, none, some, List, [], ◌∷◌,
}

-- Where the goroutine of `run` stands.
pub data Phase : Type 0 where
  selecting : Phase  -- at the `select` of `run`
  probing : Phase  -- in `s.probe(ctx)`
  pacing : Phase  -- at the head of the loop of `restart`, with no server
  waiting : ℕ → Phase  -- at the `select` of `restart`, whose timer fires at the given time
  starting : Phase  -- in `s.start()`, called by `launch`
  finished : Phase  -- `run` has returned

pub record Supervisor : Type 0 where
  pub threshold : ℕ
  pub min_uptime : ℕ
  pub cmd : Option ℕ  -- the process id of `s.cmd`
  pub exited : Bool  -- a value is in the channel `s.exited`
  pub launched : ℕ
  pub restarts : ℕ
  pub misses : ℕ
  pub phase : Phase
  -- The world: the clock, the context of `run`, and the servers that are running.
  pub clock : ℕ
  pub ended : Bool
  pub alive : List ℕ

pub data Event : Type 0 where
  -- The world's: time passes, the context ends, the current server exits by itself.
  pass : ℕ → Event
  end_context : Event
  server_exits : Event
  -- The case that `select` takes in `run`; one whose channel is not ready is not taken.
  take_done take_exit take_tick : Event
  -- `s.probe` returns: true for a nil error.
  probed : Bool → Event
  -- `restart` compares the time since the last launch with `minUptime`.
  pace : Event
  -- The case that `select` takes in `restart`.
  take_done_waiting take_timer : Event
  -- `s.start()` returns a process, or an error.
  started : Option ℕ → Event

unfoldable pub remove : ℕ → List ℕ → List ℕ
remove pid [] = []
remove pid (p ∷ ps) = if p == pid then remove pid ps else p ∷ remove pid ps

kill_cmd : Option ℕ → Supervisor → Supervisor
kill_cmd none s = s
kill_cmd (some pid) s = record s { alive = remove pid s.alive; cmd = none; exited = false }

-- Kill, wait for the exit, forget the process.
unfoldable pub kill : Supervisor → Supervisor
unfolding kill_cmd remove
kill s = kill_cmd s.cmd s

-- `run` returns, and its deferred `kill` runs.
unfoldable pub finish : Supervisor → Supervisor
unfolding kill
finish s = record (kill s) { phase = finished }

-- `misses = 0; s.restart(ctx)`, up to the head of the loop of `restart`.
unfoldable pub begin_restart : Supervisor → Supervisor
unfolding kill
begin_restart s = record (kill (record s { misses = 0 })) { phase = pacing }

-- `case err := <-s.exited`.
unfoldable pub on_exit : Supervisor → Supervisor
unfolding begin_restart
on_exit s = begin_restart (record s { cmd = none; exited = false })

-- What follows `err := s.probe(ctx)`.
unfoldable pub on_probe : Bool → Supervisor → Supervisor
unfolding finish begin_restart
on_probe answered s =
    if s.ended
    then finish s
    else if answered
    then record s { misses = 0; phase = selecting }
    else if ltb (s.misses + 1) s.threshold
    then record s { misses = s.misses + 1; phase = selecting }
    else begin_restart (record s { misses = s.misses + 1 })

-- `launch` notes the time and calls `start`.
unfoldable pub enter_launch : Supervisor → Supervisor
enter_launch s = record s { launched = s.clock; phase = starting }

-- `wait := s.minUptime - time.Since(s.launched)`; a positive wait goes to the `select`.
unfoldable pub on_pace : Supervisor → Supervisor
unfolding enter_launch
on_pace s =
    if ltb s.clock (s.launched + s.min_uptime)
    then record s { phase = waiting (s.launched + s.min_uptime) }
    else enter_launch s

-- The rest of `launch`, and of the round of `restart`.
unfoldable pub on_started : Option ℕ → Supervisor → Supervisor
on_started none s = record s { phase = pacing }
on_started (some pid) s = record s {
  cmd = some pid;
  exited = false;
  restarts = s.restarts + 1;
  phase = selecting;
  alive = pid ∷ s.alive;
}

server_exit : Option ℕ → Supervisor → Supervisor
server_exit none s = s
server_exit (some pid) s = record s { exited = true; alive = remove pid s.alive }

dispatch : Phase → Event → Supervisor → Supervisor
unfolding server_exit remove finish on_exit on_probe on_pace enter_launch on_started
dispatch phase (pass d) s = record s { clock = s.clock + d }
dispatch phase end_context s = record s { ended = true }
dispatch phase server_exits s = server_exit s.cmd s
dispatch selecting take_done s = if s.ended then finish s else s
dispatch selecting take_exit s = if s.exited then on_exit s else s
dispatch selecting take_tick s = record s { phase = probing }
dispatch probing (probed answered) s = on_probe answered s
dispatch pacing pace s = on_pace s
dispatch (waiting due) take_done_waiting s = if s.ended then record s { phase = selecting } else s
dispatch (waiting due) take_timer s = if leb due s.clock then enter_launch s else s
dispatch starting (started r) s = on_started r s
dispatch phase e s = s

unfoldable pub step : Supervisor → Event → Supervisor
unfolding dispatch
step s e = dispatch s.phase e s

unfoldable pub run : Supervisor → List Event → Supervisor
run s [] = s
run s (e ∷ es) = run (step s e) es

-- The supervisor as `run` finds it: `launch` has just started the process `pid`.
abbrev pub launched_with : ℕ → ℕ → ℕ → ℕ → Supervisor
launched_with threshold min_uptime clock pid = record {
  threshold = threshold;
  min_uptime = min_uptime;
  cmd = some pid;
  exited = false;
  launched = clock;
  restarts = 0;
  misses = 0;
  phase = selecting;
  clock = clock;
  ended = false;
  alive = pid ∷ [];
}
