-- ===== src/Worker/Guard/Loop.antt =====
-- When the worker leaves.
use sccache_dist_action.Common.{
  Bool-cases, length, All, pos, ℕ, suc, ◌+◌, ◌≤◌, ◌≡◌, refl, inl, inr, Bool, List, [], ◌∷◌, ◌++◌,
  append_assoc, arith,
}
use sccache_dist_action.Worker.Guard.{Guard, observe, new_guard, elapsed, Round, gone, guard_loop}
use sccache_dist_action.Worker.Guard.Streak.{
  observe_all, EndsInMisses, streak, streak-EndsInMisses_iff, observe-gives_up_iff,
}

abbrev pub reads : List Round → List Bool
reads [] = []
reads (r ∷ rs) = r.present ∷ reads rs

abbrev pub AllElapsed : List Round → Type 0
AllElapsed = All (λ r. r.wake ≡ elapsed)

observe_all-snoc :
    (g : Guard) (ps : List Bool) (p : Bool)
    → observe_all g (ps ++ p ∷ []) ≡ (observe (observe_all g ps) p).0
observe_all-snoc g [] p = refl
observe_all-snoc g (q ∷ ps) p = observe_all-snoc (observe g q).0 ps p

-- What `gone` says of the rounds: they begin with `seen`, whose reads, behind those of `ps`, end in
-- a full run of misses.
abbrev LeftAfter : ℕ → List Bool → ℕ → List Round → ℕ → Type 0
LeftAfter t ps n rs k =
    (seen : List Round) × (rest : List Round) × (rs ≡ seen ++ rest)
    × (k ≡ n + length seen)
    × EndsInMisses (suc t) (ps ++ reads seen)

LeftAfter-cons :
    (t : ℕ) (ps : List Bool) (n : ℕ) (r : Round) (rs : List Round) (k : ℕ)
    → LeftAfter t (ps ++ r.present ∷ []) (suc n) rs k
    → LeftAfter t ps n (r ∷ rs) k
LeftAfter-cons t ps n r rs k (seen, rest, e, len, ends) = (
  r ∷ seen,
  rest,
  rw e refl,
  omega (arith, len),
  rw (append_assoc ps (r.present ∷ []) (reads seen)) at ends,
)

gone-LeftAfter :
    (t : ℕ) (ps : List Bool) (n k : ℕ) (rs : List Round)
    → guard_loop (observe_all (new_guard (pos (suc t))) ps) n rs ≡ gone k
    → LeftAfter t ps n rs k
unfolding guard_loop
gone-LeftAfter t ps n k [] h = cc
gone-LeftAfter t ps n k (r ∷ rs) h =
    elim (Bool-cases (observe (observe_all (new_guard (pos (suc t))) ps) r.present).1) [
      | inl up ↦ (r ∷ [], rs, refl, ground arith, (observe-gives_up_iff t ps r.present).0 up)
      | inr more ↦ LeftAfter-cons t ps n r rs k (
          gone-LeftAfter t (ps ++ r.present ∷ []) (suc n) k rs
            (rw (observe_all-snoc (new_guard (pos (suc t))) ps r.present) (ground arith)))
    ]

-- With a positive threshold t, the worker leaves at its k-th read only if the last t of those k
-- reads are misses: any answer of the coordinator among them keeps the worker.
pub gone-EndsInMisses :
    (t k : ℕ) (rs : List Round)
    → guard_loop (new_guard (pos (suc t))) 0 rs ≡ gone k
    → (seen : List Round) × (rest : List Round) × (rs ≡ seen ++ rest)
      × (k ≡ 0 + length seen)
      × EndsInMisses (suc t) (reads seen)
gone-EndsInMisses t k rs h = gone-LeftAfter t [] 0 k rs h

streak-nil : streak 0 [] ≡ 0
unfolding streak
streak-nil = refl

-- The first misses of a run that is not yet long enough, and the read that fills it.
leaves :
    (t : ℕ) (g : Guard) (n : ℕ) (r : Round) (rs : List Round)
    → g.threshold ≡ pos (suc t)
    → AllElapsed (r ∷ rs)
    → suc t ≤ streak g.misses (reads (r ∷ rs))
    → (k : ℕ) × (guard_loop g n (r ∷ rs) ≡ gone k) × (k ≤ n + length (r ∷ rs))
unfolding guard_loop streak observe
leaves t g n r [] e all h = (suc n, ground arith, omega arith)
leaves t g n r (q ∷ rs) e (woke, all) h = elim (Bool-cases (observe g r.present).1) [
  | inl up ↦ (suc n, ground arith, omega arith)
  | inr more ↦
      let (k, left, bound) =
        leaves t (observe g r.present).0 (suc n) q rs (ground arith) all (ground arith) in
      (k, ground arith, omega (arith, bound))
]

-- With a positive threshold t, if the context is not cancelled, reads that end in t misses in a row
-- make the worker leave, at the last of them or before: a vanished coordinator is noticed within t
-- reads of its last answer.
pub EndsInMisses-gone :
    (t : ℕ) (rs : List Round)
    → AllElapsed rs
    → EndsInMisses (suc t) (reads rs)
    → (k : ℕ) × (guard_loop (new_guard (pos (suc t))) 0 rs ≡ gone k) × (k ≤ 0 + length rs)
EndsInMisses-gone t [] all h =
    absurd (omega (arith, (streak-EndsInMisses_iff (suc t) []).1 h, streak-nil))
EndsInMisses-gone t (r ∷ rs) all h =
    leaves t (new_guard (pos (suc t))) 0 r rs refl all
      ((streak-EndsInMisses_iff (suc t) (reads (r ∷ rs))).1 h)
