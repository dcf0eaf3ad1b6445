-- ===== src/Spike.antt =====
-- spike/tsnet-conn/tsbridge/main.go: the bridge of the connection-model experiment, as the sequence
-- of the calls that its `main` makes, and its `acceptLoop`.
pub mod Relay
pub mod Laws
pub mod Swallowed
use sccache_dist_action.Common.{
  if◌then◌else◌, Text, codes, is_empty, Bool, true, false, not, ◌&&◌, Option, List, [], ◌∷◌, ◌++◌,
}
use sccache_dist_action.Effects.{Outcome, and_then, perform, emit}
use sccache_dist_action.Stdlib.Strings.{split, trim_space}
use sccache_dist_action.Proxy.Serve.{Accepted, connection, listener_closed, other_error, Served}

pub record Flags : Type 0 where
  pub hostname : Text
  pub authkey : Text
  pub tags : Text
  pub listen : Text
  pub target : Text
  pub expose : Text
  pub local_target : Text

pub record Node : Type 0 where
  pub hostname : Text
  pub auth_key : Text
  pub dir : Text
  pub advertise_tags : List Text

pub data Action : Type 0 where
  start : Node → Action
  bring_up : Action
  listen_local : Text → Action
  listen_mesh : Text → Action
  dial_mesh : Text → Action  -- go acceptLoop, and what it dials over tsnet
  dial_local : Text → Action  -- go acceptLoop, and what it dials on the host

-- The loop over the parts, with what `at` holds.
unfoldable pub gather : List Text → List Text → List Text
gather at [] = at
gather at (t ∷ ts) = gather (if is_empty (trim_space t) then at else at ++ trim_space t ∷ []) ts

abbrev pub advertised : Text → List Text
advertised tags = gather [] (split tags b',')

abbrev pub node_of : Flags → Node
node_of f = record {
  hostname = f.hostname;
  auth_key = f.authkey;
  dir = codes "/tmp/tsnet-" ++ f.hostname;
  advertise_tags = advertised f.tags;
}

abbrev pub Run : Type 0 → Type 0
Run E = Outcome Action E (Unit {0})

infixr 5 ◌&>◌
abbrev pub ◌&>◌ : {E : Type 0} → Run E → Run E → Run E
m &> k = and_then m (λ _. k)

-- Both flags given: a listener, and a loop that accepts on it.
abbrev pub bridged : {E : Type 0} → (Action → Option E) → Bool → Action → Action → Run E
bridged refuses true listens serves = perform refuses listens &> emit (serves ∷ [])
bridged refuses false listens serves = emit []

-- Up to the `select {}`; an error is a log.Fatalf.
unfoldable pub bridge : {E : Type 0} → (Action → Option E) → Flags → Run E
bridge refuses f =
    perform refuses (start (node_of f))
    &> perform refuses bring_up
    &> bridged refuses (not (is_empty f.listen) && not (is_empty f.target)) (listen_local f.listen)
        (dial_mesh f.target)
    &> bridged refuses (not (is_empty f.expose) && not (is_empty f.local_target))
        (listen_mesh f.expose) (dial_local f.local_target)

-- `acceptLoop` returns at any error.
unfoldable pub accept_loop : Served → List Accepted → Served
accept_loop s [] = s
accept_loop s (connection c ∷ calls) =
    accept_loop (record s { relayed = s.relayed ++ c ∷ [] }) calls
accept_loop s (listener_closed ∷ calls) = record s { returned = true }
accept_loop s (other_error ∷ calls) = record s { returned = true }
