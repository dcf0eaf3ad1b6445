-- ===== src/Worker/Guard/Timing/Silence.antt =====
-- How long a silence of the coordinator the loop at the end of `Run` in internal/worker/worker.go
-- bears.
use sccache_dist_action.Common.{
  if◌then◌else◌, Bool-cases, All, All-weaken, ℤ, ◌≤ℤ◌, leb_ℤ, product_suc, product_mono, pos, ℕ,
  suc, ◌+◌, ◌-◌, ◌*◌, ◌≤◌, ◌<◌, ◌≡◌, refl, subst, ◌⊎◌, inl, inr, Option, some, List, [], ◌∷◌, arith,
}
use sccache_dist_action.Worker.Guard.{Guard, observe, new_guard}
use sccache_dist_action.Worker.Guard.Timing.{
  guard_poll, guard_poll-slow, Timed, leaves_at, answer_times, Sleeps,
}

answer_times_later :
    (start now : ℕ) (rs : List Timed) → start < now → All (λ a. start < a) (answer_times now rs)
answer_times_later start now [] h = tt
answer_times_later start now (r ∷ rs) h =
    let later = answer_times_later start (now + r.probe_took + r.slept) rs (omega arith) in
    elim (Bool-cases r.present) [
      | inl present ↦ rw present (omega arith, later)
      | inr missed ↦ rw missed later
    ]

-- No answer but long before: what leaving at `T` says of the answers.
abbrev pub IsLongPast : ℕ → ℕ → ℕ → Type 0
IsLongPast silence T a = (T < a) ⊎ (a + silence ≤ T)

some_eq : {a b : ℕ} → ◌≡◌ {A = Option ℕ} (some a) (some b) → a ≡ b
some_eq e = cc

left_now :
    (threshold : ℤ) (t misses now T : ℕ) (later : Option ℕ)
    → threshold ≡ pos t
    → (if leb_ℤ threshold (pos misses) then some now else later) ≡ some T
    → ((t ≤ misses) × (now ≡ T)) ⊎ ((misses < t) × (later ≡ some T))
left_now threshold t misses now T later f e = elim (Bool-cases (leb_ℤ threshold (pos misses))) [
  | inl up ↦ inl (ground arith, some_eq (rw up at e))
  | inr more ↦ inr (ground arith, rw more at e)
]

not_early_from :
    (left poll now T : ℕ) (g : Guard) (rs : List Timed)
    → 0 < poll
    → All (Sleeps poll) rs
    → leaves_at g now rs ≡ some T
    → (t : ℕ) → g.threshold ≡ pos (suc t)
    → g.misses + left ≡ t
    → (now + left * poll ≤ T) × All (IsLongPast (suc t * poll) T) (answer_times now rs)
unfolding leaves_at observe
not_early_from left poll now T g [] p h e t f k = cc
not_early_from left poll now T g (r ∷ rs) p (slept, h) e t f k = elim (Bool-cases r.present) [
  | inl present ↦
      let (reached, past) =
        not_early_from t poll (now + r.probe_took + r.slept) T (record g { misses = 0 }) rs p h
          (rw present at e) t f (omega arith) in
      rw present (
        omega (arith, reached, product_mono left t poll (omega arith)),
        (inr (omega (arith, reached, slept, product_suc t poll)), past),
      )
  | inr missed ↦
      let now' = now + r.probe_took + r.slept in
      elim (left_now g.threshold (suc t) (g.misses + 1) (now + r.probe_took) T
        (leaves_at (record g { misses = g.misses + 1 }) now' rs) f (rw missed at e)) [
          | inl (full, at_once) ↦ rw missed (
            omega (arith, at_once, product_mono left 0 poll (omega arith)),
            All-weaken (λ a. T < a) (IsLongPast (suc t * poll) T) (λ a h. inl h)
                (answer_times now' rs) (answer_times_later T now' rs (omega (arith, at_once))),
          )
          | inr (short, later) ↦
              let (reached, past) =
                not_early_from (left - 1) poll now' T (record g { misses = g.misses + 1 }) rs p h
                  later t f (omega arith) in
              rw missed (
                omega (
                  arith,
                  reached,
                  product_suc (left - 1) poll,
                  product_mono left (suc (left - 1)) poll (omega arith),
                ),
                past,
              )
        ]
]

silence_before_leaving :
    (t poll now T : ℕ) (rs : List Timed)
    → 0 < poll
    → All (Sleeps poll) rs
    → leaves_at (new_guard (pos (suc t))) now rs ≡ some T
    → All (IsLongPast (suc t * poll) T) (answer_times now rs)
silence_before_leaving t poll now T rs p h e =
    (not_early_from t poll now T (new_guard (pos (suc t))) rs p h e t refl (omega arith)).1

-- A coordinator that answers is not left: with a positive threshold t, whatever poll-interval is, and
-- with sleeps between the probes that are not shorter than the guard's, if the worker leaves at `T`,
-- every answer before it is at least t times 10 s old, so that a shorter silence never ends a worker.
pub silence_borne :
    (t poll now T : ℕ) (poll_interval : ℤ) (rs : List Timed)
    → guard_poll poll_interval ≡ pos poll
    → All (Sleeps poll) rs
    → leaves_at (new_guard (pos (suc t))) now rs ≡ some T
    → All (IsLongPast (suc t * 10000000000) T) (answer_times now rs)
silence_borne t poll now T poll_interval rs e h leaves =
    let slow = subst (λ p. pos 10000000000 ≤ℤ p) e (guard_poll-slow poll_interval) in
    silence_before_leaving t 10000000000 now T rs (omega arith)
      (All-weaken (Sleeps poll) (Sleeps 10000000000) (λ r k. omega (arith, slow, k)) rs h) leaves
