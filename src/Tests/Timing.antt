-- ===== src/Tests/Timing.antt =====
-- Times.
use sccache_dist_action.Common.{
  leb, replicate, All, All-replicate, pos, ℕ, ◌+◌, ◌*◌, ◌≤◌, ◌≡◌, refl, Bool, true, false, some,
  List, [], ◌∷◌, ◌++◌, arith,
}
use sccache_dist_action.Worker.Guard.{observe, new_guard}
use sccache_dist_action.Worker.Guard.Timing.{
  guard_poll, Timed, leaves_at, answer_times, time_after, probe_timeout,
}
use sccache_dist_action.Worker.Guard.Timing.Noticed.{vanished_noticed}
use sccache_dist_action.Worker.Guard.Timing.Silence.{IsLongPast, silence_borne}
use sccache_dist_action.Config.{Config}
use sccache_dist_action.Main.Run.{deadline}
use sccache_dist_action.Tests.Farm.{coordinator_config}
use sccache_dist_action.Farm.Deadline.{
  Poll, IsPrompt, wait_until, second, Forwarder, export_time, ShowsFrom, parent_sees_export,
  late_setup_missed, wrapped_deadline_missed,
}

abbrev answered : Timed
answered = record { present = true; probe_took = 40000000; slept = 10000000000 }

abbrev missed : Timed
missed = record { present = false; probe_took = 5000000000; slept = 10000000000 }

abbrev seen : List Timed
seen = answered ∷ missed ∷ answered ∷ []

vanished_noticed_example :
    (T : ℕ) × (leaves_at (new_guard (pos 2)) 0 (seen ++ missed ∷ missed ∷ missed ∷ []) ≡ some T)
    × (T ≤ time_after 0 seen + 2 * probe_timeout + 1 * 10000000000)
vanished_noticed_example =
    vanished_noticed 1 10000000000 0 seen (missed ∷ missed ∷ missed ∷ []) (ground arith)
      (omega arith)

abbrev all_rounds : List Timed
all_rounds = seen ++ missed ∷ missed ∷ []

it_leaves : leaves_at (new_guard (pos 2)) 0 all_rounds ≡ some 55080000000
unfolding leaves_at observe
it_leaves = refl

its_poll : guard_poll (pos 1000000000) ≡ pos 10000000000
unfolding guard_poll
its_poll = refl

silence_borne_example : All (IsLongPast (2 * 10000000000) 55080000000) (answer_times 0 all_rounds)
silence_borne_example =
    silence_borne 1 10000000000 0 55080000000 (pos 1000000000) all_rounds its_poll (ground arith)
      it_leaves

abbrev shows_after : ℕ → ℕ → Bool
shows_after exported t = leb exported t

shows_after-ShowsFrom : (exported : ℕ) → ShowsFrom exported (shows_after exported)
shows_after-ShowsFrom exported = (λ t h. ground arith, λ t h. ground arith)

abbrev impatient : Config
impatient = record coordinator_config { wait_timeout = pos 0 }

-- The parent reads every second, with no WaitTimeout.
abbrev prompt : Poll
prompt = record { read_took = 1000000; slept = second }

abbrev polls : List Poll
polls = replicate 61 prompt

polls-IsPrompt : (n : ℕ) → All (IsPrompt second) (replicate n prompt)
polls-IsPrompt n = All-replicate (IsPrompt second) n prompt (ground arith)

-- A forwarder that takes 31 s for the rest, and one that takes over a minute.
abbrev quick : Forwarder
quick = record { setup = 30 * second; waited = 0; last_poll = 10000000; wrote = second }

abbrev slow : Forwarder
slow = record { setup = 62 * second; waited = 0; last_poll = 10000000; wrote = second }

parent_sees_export_example :
    wait_until (shows_after (export_time quick)) (deadline impatient) 0 polls ≡ some true
parent_sees_export_example =
    parent_sees_export impatient 0 refl (shows_after (export_time quick)) second quick polls
      (ground arith) (shows_after-ShowsFrom (export_time quick)) (ground arith) (polls-IsPrompt 61)
      (ground arith) (ground arith)

late_setup_missed_example :
    (wait_until
        (shows_after (export_time slow))
        (deadline impatient)
        0
        (prompt ∷ replicate 60 prompt)
      ≡ some false)
    × (shows_after (export_time slow) (export_time slow) ≡ true)
late_setup_missed_example =
    late_setup_missed impatient 0 refl (shows_after (export_time slow)) second slow prompt
      (replicate 60 prompt) (shows_after-ShowsFrom (export_time slow)) (polls-IsPrompt 61)
      (ground arith) (ground arith) (ground arith)

-- INPUT_WAIT_TIMEOUT=9223372036, in seconds.
abbrev patient : Config
patient = record coordinator_config { wait_timeout = pos 9223372036000000000 }

wrapped_deadline_missed_example :
    wait_until (λ t. true) (deadline patient) 0 (prompt ∷ []) ≡ some false
wrapped_deadline_missed_example =
    wrapped_deadline_missed patient 9223372036000000000 refl (λ t. true) prompt [] (omega arith)
      (omega arith)
