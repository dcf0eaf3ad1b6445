-- ===== src/Farm/Deadline.antt =====
-- cmd/sccache-dist-action: the parent's deadline in `main` and `waitForEnvExport`, against the time
-- that the forwarder takes. Times are in nanoseconds since the parent began to wait, right behind the
-- spawn.
use sccache_dist_action.Common.{
  ℤ, pos, ◌+ℤ◌, ◌≤ℤ◌, ltb_ℤ, ltb, if◌then◌else◌, Bool-cases, false_ne_true, length, All,
  product_suc, ℕ, ◌+◌, ◌*◌, ◌≤◌, ◌<◌, ◌≡◌, refl, sym, ◌∙◌, inl, inr, Bool, true, false, Option,
  none, some, List, [], ◌∷◌, arith,
}
use sccache_dist_action.Config.{Config}
use sccache_dist_action.Main.Run.{deadline}

-- A round of the loop of `waitForEnvExport`: how long the read takes, and the sleep of a second
-- behind it, which may be longer.
pub record Poll : Type 0 where
  pub read_took : ℕ
  pub slept : ℕ

-- The loop, from the time `now`, where `shows t` says whether the file shows the export to a read
-- that ends at `t`. The deadline is negative where the sum of WaitTimeout and a minute wraps around.
-- None: the rounds given are not enough for a return.
unfoldable pub wait_until : (ℕ → Bool) → ℤ → ℕ → List Poll → Option Bool
wait_until shows deadline now [] = none
wait_until shows deadline now (p ∷ ps) =
    let rest = wait_until shows deadline (now + p.read_took + p.slept) ps in
    if ltb_ℤ (pos now) deadline
    then (if shows (now + p.read_took) then some true else rest)
    else some false

abbrev pub second : ℕ
second = 1000000000

-- A read of at most `most`, and a sleep of a second at least, of at most two.
abbrev pub IsPrompt : ℕ → Poll → Type 0
IsPrompt most p = (p.read_took ≤ most) × (second ≤ p.slept) × (p.slept ≤ 2 * second)

-- The file shows the export from the time `exported` on, and not before.
abbrev pub ShowsFrom : ℕ → (ℕ → Bool) → Type 0
ShowsFrom exported shows =
    ((t : ℕ) → exported ≤ t → shows t ≡ true) × ((t : ℕ) → t < exported → shows t ≡ false)

-- How long the forwarder takes: until its wait begins, in the wait, in the poll of the scheduler
-- behind the end of the wait's context, and for the client's configuration and the outputs.
pub record Forwarder : Type 0 where
  pub setup : ℕ
  pub waited : ℕ
  pub last_poll : ℕ
  pub wrote : ℕ

abbrev pub export_time : Forwarder → ℕ
export_time f = f.setup + f.waited + f.last_poll + f.wrote

-- `waitCtx` ends after WaitTimeout, and a poll of the scheduler has a timeout of 5 s: the one under
-- way when the context ends, and the one behind it.
abbrev pub Keeps : ℕ → Forwarder → Type 0
Keeps wait_timeout f = (f.waited ≤ wait_timeout + 5 * second) × (f.last_poll ≤ 5 * second)

not_shown_early :
    (shows : ℕ → Bool) (exported t : ℕ)
    → ((t : ℕ) → exported ≤ t → shows t ≡ true)
    → shows t ≡ false
    → t < exported
not_shown_early shows exported t after e = elim (Bool-cases (ltb t exported)) [
  | inl early ↦ ground arith
  | inr late ↦ absurd (false_ne_true (sym e ∙ after t (ground arith)))
]

-- The parent is not yet past the time at which a read must show the export.
sees :
    (shows : ℕ → Bool) (due most now exported : ℕ) (ps : List Poll)
    → ShowsFrom exported shows
    → All (IsPrompt most) ps
    → exported + most + 2 * second ≤ due
    → now < exported + most + 2 * second
    → due < now + length ps * second
    → wait_until shows (pos due) now ps ≡ some true
unfolding wait_until
sees shows due most now exported [] s h e low k = absurd (omega arith)
sees shows due most now exported (p ∷ ps) (after, before) ((took, pause, nap), h) e low k =
    elim (Bool-cases (shows (now + p.read_took))) [
      | inl shown ↦ ground arith
      | inr not_yet ↦
          let early = not_shown_early shows exported (now + p.read_took) after not_yet in
          let later =
            sees shows due most (now + p.read_took + p.slept) exported ps (after, before) h e
              (omega (arith, early, took, nap))
              (omega (arith, pause, k, product_suc (length ps) second)) in
          rw not_yet (ground arith)
    ]

-- Reads that begin before the deadline end by `most` after it.
sees_no_more :
    (shows : ℕ → Bool) (deadline : ℤ) (due most now : ℕ) (p : Poll) (ps : List Poll)
    → deadline ≤ℤ pos due
    → ((t : ℕ) → t < due + most → shows t ≡ false)
    → All (IsPrompt most) (p ∷ ps)
    → due ≤ now + length ps * second
    → wait_until shows deadline now (p ∷ ps) ≡ some false
unfolding wait_until
sees_no_more shows deadline due most now p [] below late h k = ground (arith, below)
sees_no_more shows deadline due most now p (q ∷ ps) below late ((took, pause, nap), h) k =
    let later =
      sees_no_more shows deadline due most (now + p.read_took + p.slept) q ps below late h
        (omega (arith, pause, k, product_suc (length ps) second)) in
    elim (Bool-cases (ltb_ℤ (pos now) deadline)) [
      | inl soon ↦
          let before : now < due = ground (arith, soon, below) in
          rw soon (rw (late (now + p.read_took) (omega (arith, took, before))) later)
      | inr over ↦ rw over refl
    ]

module _ (c : Config) (wait_timeout : ℕ) (given : c.wait_timeout ≡ pos wait_timeout) where
  deadline-pos :
      wait_timeout + 60 * second ≤ 9223372036854775807
      → deadline c ≡ pos (wait_timeout + 60 * second)
  unfolding ◌+ℤ◌
  deadline-pos h = rw given (ground (arith, h))

  -- A sum that wraps around is less.
  deadline-le : deadline c ≤ℤ pos (wait_timeout + 60 * second)
  unfolding ◌+ℤ◌
  deadline-le = rw given (ground arith)

  -- The parent outlives the forwarder's wait: if WaitTimeout and a minute fit a time.Duration, the
  -- forwarder keeps its times, and all but its wait, with a read of the file, takes no more than 48 s,
  -- then the parent sees the export before its deadline of WaitTimeout and a minute, whatever its reads
  -- see before, given rounds up to it.
  pub parent_sees_export :
      (shows : ℕ → Bool) (most : ℕ) (f : Forwarder) (ps : List Poll)
      → wait_timeout + 60 * second ≤ 9223372036854775807
      → ShowsFrom (export_time f) shows
      → Keeps wait_timeout f
      → All (IsPrompt most) ps
      → f.setup + f.wrote + most ≤ 48 * second
      → wait_timeout + 60 * second < length ps * second
      → wait_until shows (deadline c) 0 ps ≡ some true
  parent_sees_export shows most f ps fits s (waited, polled) h e k = rw (deadline-pos fits) (
      sees shows (wait_timeout + 60 * second) most 0 (export_time f) ps s h
        (omega (arith, waited, polled, e)) (omega arith) (omega (arith, k)))

  -- The minute is for the forwarder's setup as well: if the setup takes over a minute and a read, and
  -- the wait its WaitTimeout, the parent ends with a failure, although the export is made in the end.
  pub late_setup_missed :
      (shows : ℕ → Bool) (most : ℕ) (f : Forwarder) (p : Poll) (ps : List Poll)
      → ShowsFrom (export_time f) shows
      → All (IsPrompt most) (p ∷ ps)
      → 60 * second + most ≤ f.setup
      → wait_timeout ≤ f.waited
      → wait_timeout + 60 * second ≤ length ps * second
      → (wait_until shows (deadline c) 0 (p ∷ ps) ≡ some false) × (shows (export_time f) ≡ true)
  late_setup_missed shows most f p ps (after, before) h e waited k = (
    sees_no_more shows (deadline c) (wait_timeout + 60 * second) most 0 p ps deadline-le
        (λ t early. before t (omega (arith, e, waited, early))) h (omega (arith, k)),
    after (export_time f) (omega arith),
  )

  -- Where the sum of WaitTimeout and a minute exceeds a time.Duration, the parent ends with a failure
  -- before its first read, whatever the file shows.
  pub wrapped_deadline_missed :
      (shows : ℕ → Bool) (p : Poll) (ps : List Poll)
      → wait_timeout ≤ 9223372036854775807
      → 9223372036854775807 < wait_timeout + 60 * second
      → wait_until shows (deadline c) 0 (p ∷ ps) ≡ some false
  unfolding wait_until ◌+ℤ◌
  wrapped_deadline_missed shows p ps low high = rw given (ground (arith, low, high))
