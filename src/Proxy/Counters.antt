-- ===== src/Proxy/Counters.antt =====
-- internal/proxy/proxy.go: the atomic counters of a `Forwarder`, which any number of `relay`
-- goroutines change while `Status` reads them. A move is one atomic operation, or what happens
-- between two of them. Times are in nanoseconds.
pub mod Sums
pub mod Invariant
pub mod Slowest
use sccache_dist_action.Common.{
  ltb, leb, ◌==◌, if◌then◌else◌, ℕ, zero, suc, ◌+◌, ◌-◌, ◌≡◌, Bool, true, false, List, [], ◌∷◌,
  ◌++◌, map,
}
use sccache_dist_action.Proxy.Dial.{dial_attempts}

pub record Counters : Type 0 where
  pub active : ℕ
  pub total : ℕ
  pub dial_retries : ℕ
  pub dial_fails : ℕ
  pub slowest_dial : ℕ  -- since the last Status

-- Where a call of `relay` stands.
pub data Place : Type 0 where
  accepted : Place  -- before f.total.Add(1)
  counted : Place  -- before f.active.Add(1)
  redialing : ℕ → Place  -- at the head of a round of dialRetrying, after so many failures
  calling : ℕ → Place  -- in f.dial
  measured : Bool → Place  -- at the head of the loop on slowestDial: has the dial succeeded?
  loaded : Bool → ℕ → Place  -- behind f.slowestDial.Load(), with `old`
  settled : Bool → Place  -- behind that loop
  piping : Place  -- the two copies run
  leaving : Bool → Place  -- before f.active.Add(-1)
  closed : Bool → Place

-- A call of `relay`. Its `took` is 0 until it is measured. What the proofs keep of it besides: the
-- retries that it has counted, and the highest mark that Status reported since it was measured.
pub record Relay : Type 0 where
  pub place : Place
  pub took : ℕ
  pub retries : ℕ
  pub reported : ℕ

abbrev pub fresh : Relay
fresh = record { place = accepted; took = 0; retries = 0; reported = 0 }

pub data Move : Type 0 where
  go : Move  -- the next operation of the relay itself
  dial_succeeds dial_fails_after : ℕ → Move  -- `f.dial` returns, with the time since `start`
  pipes_done : Move

-- `if attempt > 1 { f.dialRetries.Add(1) }`
count_retry : ℕ → Counters → Relay → Counters × Relay
count_retry zero c r = (c, record r { place = calling 0 })
count_retry (suc n) c r = (
  record c { dial_retries = c.dial_retries + 1 },
  record r { place = calling (suc n); retries = r.retries + 1 },
)

-- `int64(took) <= old || f.slowestDial.CompareAndSwap(old, int64(took))`
compare_and_swap : Bool → ℕ → Counters → Relay → Counters × Relay
compare_and_swap done old c r =
    if leb r.took old
    then (c, record r { place = settled done })
    else if c.slowest_dial == old
    then (record c { slowest_dial = r.took }, record r { place = settled done })
    else (c, record r { place = measured done })

-- A failed attempt is followed by another, or is the last.
after_failure : ℕ → ℕ → Relay → Relay
after_failure n took r =
    if ltb (n + 1) dial_attempts
    then record r { place = redialing (n + 1) }
    else record r { place = measured false; took = took; reported = 0 }

dispatch : Place → Move → Counters → Relay → Counters × Relay
unfolding count_retry compare_and_swap after_failure
dispatch accepted go c r = (record c { total = c.total + 1 }, record r { place = counted })
dispatch counted go c r = (record c { active = c.active + 1 }, record r { place = redialing 0 })
dispatch (redialing n) go c r = count_retry n c r
dispatch (calling n) (dial_succeeds t) c r =
    (c, record r { place = measured true; took = t; reported = 0 })
dispatch (calling n) (dial_fails_after t) c r = (c, after_failure n t r)
dispatch (measured done) go c r = (c, record r { place = loaded done c.slowest_dial })
dispatch (loaded done old) go c r = compare_and_swap done old c r
dispatch (settled true) go c r = (c, record r { place = piping })
dispatch (settled false) go c r =
    (record c { dial_fails = c.dial_fails + 1 }, record r { place = leaving false })
dispatch piping pipes_done c r = (c, record r { place = leaving true })
dispatch (leaving done) go c r =
    (record c { active = c.active - 1 }, record r { place = closed done })
dispatch place move c r = (c, r)

unfoldable pub advance : Counters → Relay → Move → Counters × Relay
unfolding dispatch
advance c r move = dispatch r.place move c r

-- A forwarder and the calls of `relay` that its `Serve` has started.
pub record System : Type 0 where
  pub counters : Counters
  pub relays : List Relay

abbrev pub new_forwarder : System
new_forwarder = record {
  counters = record { active = 0; total = 0; dial_retries = 0; dial_fails = 0; slowest_dial = 0 };
  relays = [];
}

-- What a relay in the loop on slowestDial, or behind it, has been told of by a report.
unfoldable pub note : ℕ → Relay → Relay
note mark r = record r { reported = if leb r.reported mark then mark else r.reported }

-- `Status`: `f.slowestDial.Swap(0)`, then reads.
unfoldable pub report : System → System
unfolding note
report s = record {
  counters = record s.counters { slowest_dial = 0 };
  relays = map (note s.counters.slowest_dial) s.relays;
}

pub data Step (s : System) (t : System) : Type 0 where
  accept : t ≡ record s { relays = fresh ∷ s.relays } → Step s t
  move :
      (before later : List Relay) (r : Relay) (m : Move)
      → s.relays ≡ before ++ r ∷ later
      → t ≡ record {
        counters = (advance s.counters r m).0;
        relays = before ++ (advance s.counters r m).1 ∷ later;
      }
      → Step s t
  status : t ≡ report s → Step s t

pub data Reach (s : System) : System → Type 0 where
  here : Reach s s
  next : {t u : System} → Reach s t → Step t u → Reach s u
