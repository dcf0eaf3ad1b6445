-- ===== src/Tsmesh/Up.antt =====
-- internal/tsmesh/tsmesh.go: `Up` and `upOnce`, over what tsnet answers to each attempt. A node is
-- named by the attempt that made it.
use native.Mathlib.Nat.{add-zero}
use sccache_dist_action.Common.{
  ltb, ◌==◌, if◌then◌else◌, Result, Result-cases, ok, err, ℕ, zero, suc, ◌+◌, ◌-◌, ◌≤◌, ◌<◌, ◌≡◌,
  refl, ap, ◌∙◌, subst, inl, inr, Bool, true, false, ◌&&◌, Option, none, some, List, [], ◌∷◌, arith,
}

pub data UpError (E : Type 0) : Type 0 where
  start_failed up_failed client_failed : E → UpError E
  context_ended : UpError E

-- The errors, if any, of srv.Start, srv.Up and srv.LocalClient, and whether the context ends in the
-- wait of 10 s before the attempt.
pub record Answers (E : Type 0) : Type 0 where
  pub start : Option E
  pub up : Option E
  pub client : Option E
  pub ends_before : Bool

-- A result, and the nodes that are left running.
pub record Joined (E : Type 0) : Type 0 where
  pub result : Result (UpError E) ℕ
  pub live : List ℕ

-- srv.Close()
unfoldable pub close : ℕ → List ℕ → List ℕ
close n [] = []
close n (m ∷ ms) = if m == n then close n ms else m ∷ close n ms

after_up : {E : Type 0} → ℕ → Option E → List ℕ → Joined E
after_up n (some e) live = record { result = err (client_failed e); live = close n live }
after_up n none live = record { result = ok n; live = live }

after_start : {E : Type 0} → ℕ → Answers E → Option E → List ℕ → Joined E
unfolding after_up
after_start n a (some e) live = record { result = err (up_failed e); live = close n live }
after_start n a none live = after_up n a.client live

started : {E : Type 0} → ℕ → Answers E → Option E → List ℕ → Joined E
unfolding after_start
started n a (some e) live = record { result = err (start_failed e); live = live }
started n a none live = after_start n a a.up (n ∷ live)

unfoldable pub up_once : {E : Type 0} → ℕ → Answers E → List ℕ → Joined E
unfolding started close
up_once n a live = started n a a.start live

abbrev pub up_attempts : ℕ
up_attempts = 3

-- The result of an attempt ends the loop, or its error goes into the next round.
retry : {E : Type 0} → Result (UpError E) ℕ → Joined E → (UpError E → List ℕ → Joined E) → Joined E
retry (ok m) joined next = joined
retry (err e) joined next = next e joined.live

-- A round: `ended` if the `select` before the attempt finds the context ended.
round : {E : Type 0} → Bool → Joined E → List ℕ → (UpError E → List ℕ → Joined E) → Joined E
unfolding retry
round true joined live next = record { result = err context_ended; live = live }
round false joined live next = retry joined.result joined next

-- The loop of `Up`, with `left` attempts to make and the last error.
up_from : {E : Type 0} → (ℕ → Answers E) → ℕ → ℕ → UpError E → List ℕ → Joined E
unfolding round
up_from answers zero attempt last live = record { result = err last; live = live }
up_from answers (suc left) attempt last live =
    round (ltb 1 attempt && (answers attempt).ends_before) (up_once attempt (answers attempt) live)
      live (up_from answers left (attempt + 1))

-- `nil` stands for the error before the first attempt.
unfoldable pub up : {E : Type 0} → (ℕ → Answers E) → UpError E → Joined E
unfolding up_from
up answers nil = up_from answers up_attempts 1 nil []

-- The nodes that a result accounts for: the one that it returns, and no other.
abbrev pub Accounts : {E : Type 0} → Result (UpError E) ℕ → List ℕ → Type 0
Accounts (ok m) live = live ≡ m ∷ []
Accounts (err e) live = live ≡ []

up_once-Accounts :
    {E : Type 0} (n : ℕ) (a : Answers E) → Accounts (up_once n a []).result (up_once n a []).live
unfolding up_once
up_once-Accounts n a = ground arith

retry-Accounts :
    {E : Type 0} (result : Result (UpError E) ℕ) (joined : Joined E)
    (next : UpError E → List ℕ → Joined E)
    → joined.result ≡ result
    → Accounts joined.result joined.live
    → ((e : UpError E) → Accounts (next e []).result (next e []).live)
    → Accounts (retry result joined next).result (retry result joined next).live
unfolding retry
retry-Accounts (ok m) joined next same h k = h
retry-Accounts (err e) joined next same h k = rw (rw same at h) (k e)

round-Accounts :
    {E : Type 0} (ended : Bool) (joined : Joined E) (next : UpError E → List ℕ → Joined E)
    → Accounts joined.result joined.live
    → ((e : UpError E) → Accounts (next e []).result (next e []).live)
    → Accounts (round ended joined [] next).result (round ended joined [] next).live
unfolding round
round-Accounts true joined next h k = refl
round-Accounts false joined next h k = retry-Accounts joined.result joined next refl h k

up_from-Accounts :
    {E : Type 0} (answers : ℕ → Answers E) (left attempt : ℕ) (last : UpError E)
    → Accounts
        (up_from answers left attempt last []).result
        (up_from answers left attempt last []).live
unfolding up_from
up_from-Accounts answers zero attempt last = refl
up_from-Accounts answers (suc left) attempt last =
    round-Accounts (ltb 1 attempt && (answers attempt).ends_before)
      (up_once attempt (answers attempt) []) (up_from answers left (attempt + 1))
      (up_once-Accounts attempt (answers attempt))
      (λ e. up_from-Accounts answers left (attempt + 1) e)

-- Whatever tsnet answers, no node is leaked: a failure of `Up` leaves none running, and a success
-- the one that it returns.
pub up-Accounts :
    {E : Type 0} (answers : ℕ → Answers E) (nil : UpError E)
    → Accounts (up answers nil).result (up answers nil).live
unfolding up
up-Accounts answers nil = up_from-Accounts answers up_attempts 1 nil

-- An attempt that tsnet lets succeed.
abbrev pub CanJoin : {E : Type 0} → Answers E → Type 0
CanJoin a = (a.start ≡ none) × (a.up ≡ none) × (a.client ≡ none)

up_once-ok :
    {E : Type 0} (n m : ℕ) (a : Answers E) (live : List ℕ)
    → (up_once n a live).result ≡ ok m
    → m ≡ n
unfolding up_once
up_once-ok n m a live h = ground arith

up_once_joins :
    {E : Type 0} (n : ℕ) (a : Answers E) (live : List ℕ)
    → CanJoin a
    → (up_once n a live).result ≡ ok n
unfolding up_once
up_once_joins n a live h = ground arith

not_ended : (a b : Bool) → b ≡ false → (a && b) ≡ false
not_ended a b h = ground arith

round_ok :
    {E : Type 0} (ended : Bool) (joined : Joined E) (live : List ℕ)
    (next : UpError E → List ℕ → Joined E) (m : ℕ)
    → ended ≡ false
    → joined.result ≡ ok m
    → round ended joined live next ≡ joined
unfolding round
round_ok ended joined live next m h k = rw (h, k) refl

round_err :
    {E : Type 0} (ended : Bool) (joined : Joined E) (live : List ℕ)
    (next : UpError E → List ℕ → Joined E) (e : UpError E)
    → ended ≡ false
    → joined.result ≡ err e
    → round ended joined live next ≡ next e joined.live
unfolding round
round_err ended joined live next e h k = ground arith

-- An attempt that can succeed and has failed is not this one.
positive :
    {E : Type 0} (k attempt : ℕ) (answers : ℕ → Answers E) (live : List ℕ) (x : UpError E)
    → CanJoin (answers (attempt + k))
    → (up_once attempt (answers attempt) live).result ≡ err x
    → 0 < k
positive zero attempt answers live x can e =
    let here : CanJoin (answers attempt) =
      subst (λ (i : ℕ). CanJoin (answers i)) (add-zero attempt) can in
    absurd (cc (up_once_joins attempt (answers attempt) live here, e))
positive (suc k) attempt answers live x can e = omega arith

up_from_joins :
    {E : Type 0} (answers : ℕ → Answers E)
    → ((m : ℕ) → (answers m).ends_before ≡ false)
    → (left attempt k : ℕ) (last : UpError E) (live : List ℕ) → k < left
    → CanJoin (answers (attempt + k))
    → (m : ℕ) × ((up_from answers left attempt last live).result ≡ ok m) × (m ≤ attempt + k)
unfolding up_from
up_from_joins answers stays zero attempt k last live h can = absurd (omega arith)
up_from_joins answers stays (suc left) attempt k last live h can =
    let joined = up_once attempt (answers attempt) live in
    let next = up_from answers left (attempt + 1) in
    let open_context = not_ended (ltb 1 attempt) (answers attempt).ends_before (stays attempt) in
    elim (Result-cases joined.result) [
      | inr (m, e) ↦
          let same = round_ok _ joined live next m open_context e in
          (
            m,
            ap (λ (j : Joined _). j.result) same ∙ e,
            omega (arith, up_once-ok attempt m (answers attempt) live e),
          )
      | inl (x, e) ↦
          let later = positive k attempt answers live x can e in
          let fits : CanJoin (answers (attempt + 1 + (k - 1))) =
            subst (λ (i : ℕ). CanJoin (answers i)) (omega arith) can in
          let (m, found, bound) =
            up_from_joins answers stays left (attempt + 1) (k - 1) x joined.live (omega arith)
              fits in
          (
            m,
            ap (λ (j : Joined _). j.result) (round_err _ joined live next x open_context e) ∙ found,
            omega arith,
          )
    ]

-- A transient failure does not lose the node: if one of the first three attempts can succeed, and
-- the context does not end in the waits, then `Up` succeeds, by that attempt or an earlier one.
pub up_transient :
    {E : Type 0} (answers : ℕ → Answers E) (nil : UpError E) (n : ℕ)
    → ((m : ℕ) → (answers m).ends_before ≡ false)
    → n < up_attempts
    → CanJoin (answers (1 + n))
    → (m : ℕ) × ((up answers nil).result ≡ ok m) × (m ≤ 1 + n)
unfolding up
up_transient answers nil n stays h can = up_from_joins answers stays up_attempts 1 n nil [] h can
