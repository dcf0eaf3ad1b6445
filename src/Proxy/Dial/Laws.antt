-- ===== src/Proxy/Dial/Laws.antt =====
-- Which attempt decides, what is counted, and how long a client can wait.
use native.Mathlib.Decide.{ℕ_discrete}
use sccache_dist_action.Common.{
  Result-cases, ok, err, ℕ, suc, ◌+◌, ◌-◌, ◌*◌, ◌≤◌, ◌<◌, ◌≡◌, ◌⊎◌, inl, inr, arith,
}
use sccache_dist_action.Proxy.Dial.{Attempt, dial_retrying, dial_attempts, min_spacing}

module _ {E C : Type 0} (dial : ℕ → Attempt E C) where
  abbrev pub Fails : ℕ → Type 0
  Fails n = (e : E) × ((dial n).outcome ≡ err e)

  -- The attempts before the n-th have failed.
  abbrev pub FailsBefore : ℕ → Type 0
  FailsBefore n = (m : ℕ) → 1 ≤ m → m < n → Fails m

  FailsBefore-1 : FailsBefore 1
  FailsBefore-1 m h k = absurd (omega arith)

  FailsBefore-suc : (n : ℕ) → FailsBefore n → Fails n → FailsBefore (suc n)
  FailsBefore-suc n before h m low high = elim (ℕ_discrete m n) [
    | yes same ↦ rw same h
    | no other ↦ before m low (omega arith)
  ]

module _ {E C : Type 0} (dial : ℕ → Attempt E C) (nil : E) where
  -- The first attempt that succeeds, of three at most, gives the connection, and the attempts before
  -- it, which all failed, are counted as retries but for the first; if all three fail, the last
  -- error is returned and two retries are counted.
  pub dial_retrying-decides :
      ((n : ℕ) × (c : C) × (1 ≤ n)
        × (n ≤ dial_attempts)
        × FailsBefore dial n
        × ((dial n).outcome ≡ ok c)
        × ((dial_retrying dial nil).outcome ≡ ok c)
        × ((dial_retrying dial nil).retries ≡ n - 1))
      ⊎ ((e : E) × FailsBefore dial (dial_attempts + 1)
          × ((dial dial_attempts).outcome ≡ err e)
          × ((dial_retrying dial nil).outcome ≡ err e)
          × ((dial_retrying dial nil).retries ≡ dial_attempts - 1))
  unfolding dial_retrying
  dial_retrying-decides =
      let b1 = FailsBefore-1 dial in
      elim (Result-cases (dial 1).outcome) [
        | inr (c, k1) ↦ inl (1, c, omega arith, omega arith, b1, k1, ground arith, ground arith)
        | inl f1 ↦
            let b2 = FailsBefore-suc dial 1 b1 f1 in
            elim (Result-cases (dial 2).outcome) [
              | inr (c, k2) ↦
                  inl
                    (2, c, omega arith, omega arith, b2, k2, ground (arith, f1), ground (arith, f1))
              | inl f2 ↦
                  let b3 = FailsBefore-suc dial 2 b2 f2 in
                  elim (Result-cases (dial 3).outcome) [
                    | inr (c, k3) ↦ inl (
                      3,
                      c,
                      omega arith,
                      omega arith,
                      b3,
                      k3,
                      ground (arith, f1, f2),
                      ground (arith, f1, f2),
                    )
                    | inl f3 ↦ inr (
                      f3.0,
                      FailsBefore-suc dial 3 b3 f3,
                      f3.1,
                      ground (arith, f1, f2),
                      ground (arith, f1, f2),
                    )
                  ]
            ]
      ]

  -- When each attempt keeps its timeout, and that is 100 ms or more, a client waits three timeouts
  -- at most for the dial, pauses included.
  pub dial_retrying-took :
      (timeout : ℕ)
      → min_spacing ≤ timeout
      → ((n : ℕ) → (dial n).elapsed ≤ timeout)
      → (dial_retrying dial nil).took ≤ dial_attempts * timeout
  unfolding dial_retrying
  dial_retrying-took timeout h keeps = ground (arith, keeps 1, keeps 2, keeps 3)
