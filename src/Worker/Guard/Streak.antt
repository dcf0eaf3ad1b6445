-- ===== src/Worker/Guard/Streak.antt =====
-- The guard's counter against the reads themselves.
use native.Mathlib.Numerals.{add-one}
use sccache_dist_action.Common.{
  replicate, replicate-append, replicate-snoc, pos, ℕ, zero, suc, ◌+◌, ◌-◌, ◌≤◌, ◌≡◌, refl, ap, ◌↔◌,
  Bool, true, false, List, [], ◌∷◌, ◌++◌, append-nil, append_assoc, arith,
}
use sccache_dist_action.Worker.Guard.{Guard, observe, new_guard}

-- The guard after a list of reads.
abbrev pub observe_all : Guard → List Bool → Guard
observe_all g [] = g
observe_all g (p ∷ ps) = observe_all (observe g p).0 ps

-- The last `n` of the reads are misses.
abbrev pub EndsInMisses : ℕ → List Bool → Type 0
EndsInMisses n ps = (before : List Bool) × (ps ≡ before ++ replicate n false)

-- How many misses in a row end the reads, of which `n` misses came before `ps`.
unfoldable pub streak : ℕ → List Bool → ℕ
streak n [] = n
streak n (true ∷ ps) = streak 0 ps
streak n (false ∷ ps) = streak (n + 1) ps

pub observe_all-streak :
    (g : Guard) (ps : List Bool)
    → ((observe_all g ps).misses ≡ streak g.misses ps)
      × ((observe_all g ps).threshold ≡ g.threshold)
unfolding observe streak
observe_all-streak g [] = (refl, refl)
observe_all-streak g (true ∷ ps) = observe_all-streak (record g { misses = 0 }) ps
observe_all-streak g (false ∷ ps) = observe_all-streak (record g { misses = g.misses + 1 }) ps

EndsInMisses-of_streak :
    (t n : ℕ) (ps : List Bool) → t ≤ streak n ps → EndsInMisses t (replicate n false ++ ps)
unfolding streak
EndsInMisses-of_streak t n [] h = (
  replicate (n - t) false,
  rw (append-nil, replicate-append) (ap (λ (m : ℕ). replicate m false) (omega arith)),
)
EndsInMisses-of_streak t n (true ∷ ps) h =
    let (before, e) = EndsInMisses-of_streak t 0 ps h in
    (replicate n false ++ true ∷ before, rw (e, append_assoc))
EndsInMisses-of_streak t n (false ∷ ps) h =
    let h' : t ≤ streak (suc n) ps = rw (add-one n) at h in
    rw (replicate-snoc n false ps) (EndsInMisses-of_streak t (suc n) ps h')

streak-replicate : (n t : ℕ) → streak n (replicate t false) ≡ n + t
unfolding streak
streak-replicate n zero = omega arith
streak-replicate n (suc t) = omega (arith, streak-replicate (n + 1) t)

le-streak : (n t : ℕ) (before : List Bool) → t ≤ streak n (before ++ replicate t false)
unfolding streak
le-streak n t [] = omega (arith, streak-replicate n t)
le-streak n t (true ∷ before) = le-streak 0 t before
le-streak n t (false ∷ before) = le-streak (n + 1) t before

pub streak-EndsInMisses_iff : (t : ℕ) (ps : List Bool) → (t ≤ streak 0 ps) ↔ EndsInMisses t ps
streak-EndsInMisses_iff t ps =
    (EndsInMisses-of_streak t 0 ps, λ (before, e). rw e (le-streak 0 t before))

streak-snoc : (n : ℕ) (ps : List Bool) → streak n (ps ++ false ∷ []) ≡ streak n ps + 1
unfolding streak
streak-snoc n [] = refl
streak-snoc n (true ∷ ps) = streak-snoc 0 ps
streak-snoc n (false ∷ ps) = streak-snoc (n + 1) ps

streak-snoc_present : (n : ℕ) (ps : List Bool) → streak n (ps ++ true ∷ []) ≡ 0
unfolding streak
streak-snoc_present n [] = refl
streak-snoc_present n (true ∷ ps) = streak-snoc_present 0 ps
streak-snoc_present n (false ∷ ps) = streak-snoc_present (n + 1) ps

verdict-streak :
    (t : ℕ) (ps : List Bool) (present : Bool)
    → ((observe (observe_all (new_guard (pos (suc t))) ps) present).1 ≡ true)
      ↔ (suc t ≤ streak 0 (ps ++ present ∷ []))
unfolding observe
verdict-streak t ps true = (λ e. cc, λ h. absurd (omega (arith, streak-snoc_present 0 ps)))
verdict-streak t ps false =
    rw
      (
        (observe_all-streak (new_guard (pos (suc t))) ps).0,
        (observe_all-streak (new_guard (pos (suc t))) ps).1,
        streak-snoc,
      )
      (λ h. ground arith, λ h. ground arith)

-- With a positive threshold t, after any reads, the next read makes the guard give the coordinator
-- up exactly when the last t reads, this one included, are misses.
pub observe-gives_up_iff :
    (t : ℕ) (ps : List Bool) (present : Bool)
    → ((observe (observe_all (new_guard (pos (suc t))) ps) present).1 ≡ true)
      ↔ EndsInMisses (suc t) (ps ++ present ∷ [])
observe-gives_up_iff t ps present =
    let (sound, complete) = verdict-streak t ps present in
    let (ends, long) = streak-EndsInMisses_iff (suc t) (ps ++ present ∷ []) in
    (λ e. ends (sound e), λ h. complete (long h))
