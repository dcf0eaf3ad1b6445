-- ===== src/Farm/Addresses.antt =====
-- The coordinator's forwards against the addresses of the workers.
use mathlib.Core.List.{append_cancel_left, append_cancel_right}
use sccache_dist_action.Common.{
  ℤ, ◌+ℤ◌, Text, codes, text_eq, pos, ℕ, ◌+◌, ◌≤◌, ◌≡◌, refl, sym, ap, ◌∙◌, ◌≢◌, Option, some, ◌++◌,
  arith,
}
use sccache_dist_action.Stdlib.Decimal.{itoa, atoi}
use sccache_dist_action.Stdlib.Decimal.RoundTrip.{atoi-itoa}
use sccache_dist_action.Config.{Config}
use sccache_dist_action.Main.Phase.{node_hostname}
use sccache_dist_action.Worker.Address.{worker_index, server_port, server_public_addr}
use sccache_dist_action.Coordinator.Forward.{forward_spec, forward_port}

port_injective : (m n : ℕ) → pos (10500 + m) ≡ pos (10500 + n) → m ≡ n
port_injective m n e = ground arith

some_pos : (m n : ℕ) → ◌≡◌ {A = Option ℤ} (some (pos m)) (some (pos n)) → m ≡ n
some_pos m n e = cc

itoa_injective :
    (m n : ℕ)
    → m ≤ 9223372036854775807
    → n ≤ 9223372036854775807
    → itoa (pos m) ≡ itoa (pos n)
    → m ≡ n
itoa_injective m n hm hn e = some_pos m n (sym (atoi-itoa m hm) ∙ ap atoi e ∙ atoi-itoa n hn)

-- `c.RunPrefix + "-worker-"`
abbrev pub worker_prefix : Text → Text
worker_prefix run_prefix = run_prefix ++ codes "-worker-"

worker_index-itoa : (n : ℕ) → 1 ≤ n → n ≤ 55035 → worker_index (itoa (pos n)) ≡ pos n
unfolding worker_index
worker_index-itoa n low high = rw (atoi-itoa n (omega arith)) (ground arith)

forward_port-pos : (n : ℕ) → 1 ≤ n → n ≤ 55035 → forward_port (pos n) ≡ pos (10500 + n)
unfolding ◌+ℤ◌
forward_port-pos n low high = ground arith

server_port-pos : (n : ℕ) → 1 ≤ n → n ≤ 55035 → server_port (pos n) ≡ pos (10500 + n)
unfolding ◌+ℤ◌
server_port-pos n low high = ground arith

node_hostname-worker :
    (c : Config) (raw : Text)
    → c.mode ≡ codes "worker"
    → node_hostname c raw ≡ worker_prefix c.run_prefix ++ raw
unfolding node_hostname text_eq
node_hostname-worker c raw e = rw e refl

-- For an index whose port fits in 16 bits, given as a worker prints it: the forward that the
-- coordinator opens for it dials the name that the worker takes in the tailnet, at the port that it
-- listens on there, and the address that the worker tells the scheduler is the local address of that
-- forward.
pub forward_reaches_worker :
    (c : Config) (n : ℕ)
    → c.mode ≡ codes "worker"
    → 1 ≤ n
    → n ≤ 55035
    → let raw = itoa (pos n) in
      let (port, target) = forward_spec (worker_prefix c.run_prefix) (pos n) in
      (target ≡ node_hostname c raw ++ codes ":10501")
      × (server_public_addr (worker_index raw) ≡ codes "127.0.0.1:" ++ itoa port)
      × (port ≡ pos (10500 + n))
unfolding forward_spec server_public_addr
forward_reaches_worker c n e low high = (
  rw (node_hostname-worker c (itoa (pos n)) e) refl,
  rw (worker_index-itoa n low high) refl,
  forward_port-pos n low high,
)

-- Two workers have forwards at different local ports and with different targets.
pub forwards_distinct :
    (prefix : Text) (m n : ℕ)
    → 1 ≤ m
    → m ≤ 55035
    → 1 ≤ n
    → n ≤ 55035
    → m ≢ n
    → ((forward_spec prefix (pos m)).0 ≢ (forward_spec prefix (pos n)).0)
      × ((forward_spec prefix (pos m)).1 ≢ (forward_spec prefix (pos n)).1)
unfolding forward_spec
forwards_distinct prefix m n lm hm ln hn h = (
  λ e. h (port_injective m n (sym (forward_port-pos m lm hm) ∙ e ∙ forward_port-pos n ln hn)),
  λ e. h (
      itoa_injective m n (omega arith) (omega arith) (
        append_cancel_left prefix (itoa (pos m)) (itoa (pos n)) (
          append_cancel_right (prefix ++ itoa (pos m)) (prefix ++ itoa (pos n)) (codes ":10501")
            e))),
)

-- A worker whose index is not written as Itoa prints it (not set, "01", "+2") advertises a port whose
-- forward dials another name than the worker's.
pub forward_misses_worker :
    (c : Config) (raw : Text)
    → c.mode ≡ codes "worker"
    → raw ≢ itoa (worker_index raw)
    → let (port, target) = forward_spec (worker_prefix c.run_prefix) (worker_index raw) in
      (server_public_addr (worker_index raw) ≡ codes "127.0.0.1:" ++ itoa port)
      × (target ≢ node_hostname c raw ++ codes ":10501")
unfolding forward_spec server_public_addr
forward_misses_worker c raw e h =
    let prefix = worker_prefix c.run_prefix in
    (
      refl,
      λ same. h (
          sym (
            append_cancel_left prefix (itoa (worker_index raw)) raw (
              append_cancel_right (prefix ++ itoa (worker_index raw)) (prefix ++ raw)
                (codes ":10501")
                (same ∙ ap (λ x. x ++ codes ":10501") (node_hostname-worker c raw e))))),
    )
