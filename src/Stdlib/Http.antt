-- ===== src/Stdlib/Http.antt =====
-- net/http and net, as the program uses them: a request is built, sent, and its answer's body closed;
-- an address is dialed and the connection closed. What comes back is the world's.
use sccache_dist_action.Common.{
  Option-cases, Result, Result-cases, ◌>>=◌, Text, ok, err, ℕ, ◌+◌, ◌≡◌, refl, inl, inr, Option,
  none, some, List, [], ◌∷◌,
}
use sccache_dist_action.Effects.{Outcome, follow, and_then}

pub record Request : Type 0 where
  pub method : Text
  pub url : Text
  pub headers : List (Text × Text)
  pub timeout : ℕ  -- in nanoseconds: the client's, or that of the request's context

pub data Call : Type 0 where
  send : Request → Call
  close_body : Call
  dial : Text → ℕ → Call  -- the address, and the timeout of the context
  close_conn : Call

pub record World (E : Type 0) : Type 0 where
  pub builds : Request → Option E  -- http.NewRequest: the error, if any
  pub answers : Request → Result E Text  -- Do: an error, or the body of whatever answer came
  pub connects : Text → Option E

abbrev built : {E : Type 0} → Option E → Outcome Call E (Unit {0})
built none = record { result = ok tt; trace = [] }
built (some e) = record { result = err e; trace = [] }

-- The two errors that come before there is a body.
unfoldable pub exchange : {E : Type 0} → World E → Request → Outcome Call E Text
exchange w r =
    and_then (built (w.builds r)) (λ _. record { result = w.answers r; trace = send r ∷ [] })

-- What is opened and what is closed.
abbrev opened_if : {E A : Type 0} → Result E A → ℕ
opened_if (ok a) = 1
opened_if (err e) = 0

abbrev connected_if : {E : Type 0} → Option E → ℕ
connected_if none = 1
connected_if (some e) = 0

abbrev pub opened : {E : Type 0} → World E → List Call → ℕ
opened w [] = 0
opened w (send r ∷ calls) = opened_if (w.answers r) + opened w calls
opened w (dial addr timeout ∷ calls) = connected_if (w.connects addr) + opened w calls
opened w (close_body ∷ calls) = opened w calls
opened w (close_conn ∷ calls) = opened w calls

abbrev pub closed : List Call → ℕ
closed [] = 0
closed (close_body ∷ calls) = 1 + closed calls
closed (close_conn ∷ calls) = 1 + closed calls
closed (send r ∷ calls) = closed calls
closed (dial addr timeout ∷ calls) = closed calls

-- What is done with the body, and the deferred resp.Body.Close().
unfoldable pub with_body :
    {E A : Type 0} → World E → Request → (Text → Result E A) → Outcome Call E A
unfolding exchange
with_body w r use_body =
    and_then (exchange w r) (λ body. record { result = use_body body; trace = close_body ∷ [] })

unfoldable pub sent : {E A : Type 0} → Option E → Result E Text → (Text → Result E A) → Result E A
sent (some e) answer use_body = err e
sent none answer use_body = answer >>= use_body

-- Every body that comes is closed, and the result is that of the first step that fails.
pub with_body_lem :
    {E A : Type 0} (w : World E) (r : Request) (use_body : Text → Result E A)
    → (opened w (with_body w r use_body).trace ≡ closed (with_body w r use_body).trace)
      × ((with_body w r use_body).result ≡ sent (w.builds r) (w.answers r) use_body)
unfolding with_body exchange and_then follow sent
with_body_lem w r use_body = elim (Option-cases (w.builds r)) [
  | inr (e, failed) ↦ rw failed (refl, refl)
  | inl fine ↦ elim (Result-cases (w.answers r)) [
    | inl (e, none_came) ↦ rw (fine, none_came) (rw none_came refl, refl)
    | inr (body, came) ↦ rw (fine, came) (rw came refl, refl)
  ]
]
