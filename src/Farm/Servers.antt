-- ===== src/Farm/Servers.antt =====
-- The server that a worker starts, against the coordinator's forward for it: what the run of
-- internal/worker/worker.go writes for it, and what it reads there.
use sccache_dist_action.Common.{
  leb, All, All-append, Occurs, ℤ, Result, Text, codes, pos, negsuc, ok, err, ℕ, suc, ◌≤◌, ◌≡◌,
  refl, sym, ap, ◌∙◌, subst, inl, inr, Bool, true, ◌&&◌, some, List, [], ◌∷◌, ◌++◌, append-nil,
  append_assoc, arith,
}
use sccache_dist_action.Effects.Order.{Occurs-past}
use sccache_dist_action.Effects.Chain.{perform_then-past, perform_then-head}
use sccache_dist_action.Stdlib.Decimal.{itoa}
use sccache_dist_action.Stdlib.Decimal.RoundTrip.{itoa_ℕ-All}
use sccache_dist_action.Config.{Config}
use sccache_dist_action.SccacheDist.Conf.{server_conf}
use sccache_dist_action.SccacheDist.Toml.{Entry, read_file}
use sccache_dist_action.SccacheDist.Quoted.{IsCommon}
use sccache_dist_action.SccacheDist.RoundTrip.{entry, read-server_conf}
use sccache_dist_action.Main.Phase.{node_hostname}
use sccache_dist_action.Coordinator.Forward.{forward_spec}
use sccache_dist_action.Worker.Address.{worker_index, server_public_addr}
use sccache_dist_action.Worker.Run.{
  Action, RunError, World, refused, context_ended, unfinished, after_return, defer,
  guard_supervised, serve, bridge, run,
}
use sccache_dist_action.Worker.Run.Shutdown.{IsEarly, inside, inside-past, run-past, bridge-IsEarly}
use sccache_dist_action.Farm.Addresses.{worker_prefix, forward_reaches_worker}

-- Printable in ASCII, as a test.
abbrev is_ascii : Text → Bool
is_ascii [] = true
is_ascii (c ∷ s) = leb 32 c && leb c 126 && is_ascii s

module _ (table : ℕ → Bool) where
  ascii-IsCommon : (s : Text) → is_ascii s ≡ true → All (IsCommon table) s
  ascii-IsCommon [] h = tt
  ascii-IsCommon (c ∷ s) h = (inl (ground arith), ascii-IsCommon s (ground arith))

  itoa-IsCommon : (n : ℤ) → All (IsCommon table) (itoa n)
  unfolding itoa
  itoa-IsCommon (pos n) = itoa_ℕ-All (IsCommon table) (λ d h. inl (ground arith)) n
  itoa-IsCommon (negsuc n) =
      (inl refl, itoa_ℕ-All (IsCommon table) (λ d h. inl (ground arith)) (suc n))

  server_public_addr-IsCommon : (n : ℤ) → All (IsCommon table) (server_public_addr n)
  unfolding server_public_addr
  server_public_addr-IsCommon n =
      All-append (IsCommon table) (codes "127.0.0.1:") _ (ascii-IsCommon (codes "127.0.0.1:") refl)
        (itoa-IsCommon _)

after_return-tail :
    {E : Type 0} (r : Result (RunError E) (Unit {0})) (calls : List Action) (x : Action)
    → (tail : List Action) × (after_return r calls x ≡ calls ++ tail)
unfolding after_return
after_return-tail (ok _) calls x = (x ∷ [], refl)
after_return-tail (err (refused e)) calls x = (x ∷ [], refl)
after_return-tail (err context_ended) calls x = (x ∷ [], refl)
after_return-tail (err unfinished) calls x = ([], sym (append-nil calls))

module _ {E : Type 0} (table : ℕ → Bool) (c : Config) (hostname : Text) (w : World E) where
  abbrev pub conf : Text
  conf = w.conf_path (codes "sccache-server.conf")

  abbrev pub content : Text
  content =
      server_conf table c.oauth_secret (server_public_addr (worker_index w.worker_index_input))
        (codes "http://127.0.0.1:10600") (w.conf_path (codes "sccache-dist-server-cache"))

  abbrev written : Action
  written = Action.write_file conf content

  abbrev launched : Action
  launched = Action.launch conf c.server_log

  -- What is done inside the mesh is done in `Run`.
  run-inside :
      Occurs launched (run table c hostname w).trace
      → (before later : List Action) × ((run table c hostname w).trace
          ≡ before ++ ((inside table c hostname w).trace ++ later))
  unfolding run defer
  run-inside there =
      let m = inside table c hostname w in
      let (trace, _) =
        perform_then-past (Action.join_mesh hostname) (λ _. defer Action.close_mesh m) launched
          w.refuses (λ e. cc) there in
      let (tail, ends) = after_return-tail m.result m.trace Action.close_mesh in
      (Action.join_mesh hostname ∷ [], tail, trace ∙ ap (λ t. Action.join_mesh hostname ∷ t) ends)

  -- In `serve`, the launch stands right behind the write of its configuration.
  serve-launches :
      Occurs launched (serve table c w).trace
      → (later : List Action) × ((serve table c w).trace ≡ written ∷ launched ∷ later)
  unfolding serve
  serve-launches there =
      let (trace, _) = perform_then-past written _ launched w.refuses (λ e. cc) there in
      let (later, trace') = perform_then-head launched w.refuses (λ _. guard_supervised c w) in
      (later, trace ∙ ap (λ t. written ∷ t) trace')

  written_before_launch :
      Occurs launched (run table c hostname w).trace
      → (before later : List Action) × ((run table c hostname w).trace
          ≡ before ++ written ∷ launched ∷ later)
  written_before_launch there =
      let there' = run-past table c hostname w launched (λ e. e) there in
      let (_, _, trace) = inside-past table c hostname w launched (λ e. e) there' in
      let bridged = bridge c w in
      let (later, head) = serve-launches (
        Occurs-past IsEarly launched bridged.trace (serve table c w).trace
          (bridge-IsEarly table c hostname w) (λ e. e) (subst (Occurs launched) trace there')) in
      let (before, tail, whole) = run-inside there in
      (
        before ++ bridged.trace,
        later ++ tail,
        whole
            ∙ ap (λ t. before ++ (t ++ tail)) (trace ∙ ap (λ t. bridged.trace ++ t) head)
            ∙ ap (λ t. before ++ t) (append_assoc bridged.trace (written ∷ launched ∷ later) tail)
            ∙ sym (append_assoc before bridged.trace (written ∷ launched ∷ (later ++ tail))),
      )

  -- The server that a worker launches has its configuration written right before, and reads there the
  -- address to tell the scheduler: the local address of the forward that the coordinator opens for
  -- this worker's index, and that forward dials this worker by its name in the tailnet. The index is
  -- as a worker prints it, its port fits in 16 bits, and the secret and the cache's path have only
  -- characters that Go and TOML write alike.
  pub launched_server_is_forwarded :
      (n : ℕ)
      → c.mode ≡ codes "worker"
      → w.worker_index_input ≡ itoa (pos n)
      → 1 ≤ n
      → n ≤ 55035
      → All (IsCommon table) c.oauth_secret
      → All (IsCommon table) (w.conf_path (codes "sccache-dist-server-cache"))
      → Occurs (Action.launch conf c.server_log) (run table c hostname w).trace
      → let (port, target) = forward_spec (worker_prefix c.run_prefix) (pos n) in
        (target ≡ node_hostname c w.worker_index_input ++ codes ":10501")
        × ((before later : List Action) × ((run table c hostname w).trace
              ≡ before ++ Action.write_file conf content ∷ Action.launch conf c.server_log ∷ later))
        × ((entries : List Entry) × (read_file 9 [] content ≡ some entries)
            × Occurs (entry [] (codes "public_addr") (codes "127.0.0.1:" ++ itoa port)) entries)
  launched_server_is_forwarded n mode raw low high secret cache there =
      let (target, addr, _) = forward_reaches_worker c n mode low high in
      (
        rw raw target,
        written_before_launch there,
        (
          _,
          read-server_conf table c.oauth_secret
              (server_public_addr (worker_index w.worker_index_input))
              (codes "http://127.0.0.1:10600") (w.conf_path (codes "sccache-dist-server-cache"))
              secret (server_public_addr-IsCommon table (worker_index w.worker_index_input))
              (ascii-IsCommon table (codes "http://127.0.0.1:10600") refl) cache,
          inr (
              inl (
                ap (entry [] (codes "public_addr"))
                  (sym (ap (λ r. server_public_addr (worker_index r)) raw ∙ addr)))),
        ),
      )
