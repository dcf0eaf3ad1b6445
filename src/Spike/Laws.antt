-- ===== src/Spike/Laws.antt =====
-- spike/tsnet-conn/tsbridge/main.go against the code of the action that took its place.
use sccache_dist_action.Common.{
  if◌then◌else◌, Bool-cases, All, Text, is_empty, ok, ◌≡◌, refl, sym, ap, ◌∙◌, ◌≢◌, inl, inr, Bool,
  true, false, not, ◌&&◌, Option, List, [], ◌∷◌, ◌++◌, append-nil, append_assoc,
}
use sccache_dist_action.Effects.Order.{and_then-ok}
use sccache_dist_action.Effects.Chain.{perform_then-ok}
use sccache_dist_action.Stdlib.Strings.{split, trim_space}
use sccache_dist_action.Tsmesh.Tags.{split_tags, keep_tags}
use sccache_dist_action.Proxy.Serve.{
  Accepted, connection, listener_closed, other_error, Served, serve,
}
use sccache_dist_action.Spike.{
  Flags, node_of, Action, start, bring_up, listen_local, listen_mesh, dial_mesh, dial_local, gather,
  advertised, bridged, bridge, accept_loop,
}

gather-keep_tags : (at ts : List Text) → gather at ts ≡ at ++ keep_tags ts
unfolding gather keep_tags
gather-keep_tags at [] = sym (append-nil at)
gather-keep_tags at (t ∷ ts) = elim (Bool-cases (is_empty (trim_space t))) [
  | inl empty ↦ rw empty (gather-keep_tags at ts)
  | inr full ↦ rw full (
      gather-keep_tags (at ++ trim_space t ∷ []) ts
      ∙ append_assoc at (trim_space t ∷ []) (keep_tags ts))
]

-- The loop of the bridge over its tags gives the tags that splitTags gives.
pub advertised-split_tags : (tags : Text) → advertised tags ≡ split_tags tags
unfolding split_tags
advertised-split_tags tags = gather-keep_tags [] (split tags b',')

-- The bridge's acceptLoop relays what Serve relays until Accept fails, and ends at the first error,
-- where Serve goes on unless its listener is closed.
pub accept_loop-serve :
    (s : Served) (calls later : List Accepted)
    → All (λ a. (a ≢ listener_closed) × (a ≢ other_error)) calls
    → (accept_loop s calls ≡ serve s calls)
      × (accept_loop s (calls ++ listener_closed ∷ later)
          ≡ serve s (calls ++ listener_closed ∷ later))
      × (accept_loop s (calls ++ other_error ∷ later) ≡ record (serve s calls) { returned = true })
unfolding accept_loop serve
accept_loop-serve s [] later h = (refl, refl, refl)
accept_loop-serve s (connection c ∷ calls) later (h, hs) =
    accept_loop-serve (record s { relayed = s.relayed ++ c ∷ [] }) calls later hs
accept_loop-serve s (listener_closed ∷ calls) later ((h, k), hs) = absurd (h refl)
accept_loop-serve s (other_error ∷ calls) later ((h, k), hs) = absurd (k refl)

-- The calls for a pair of flags.
abbrev pub calls_for : Text → Text → Action → Action → List Action
calls_for at to listens serves =
    if not (is_empty at) && not (is_empty to) then listens ∷ serves ∷ [] else []

bridged-ok :
    {E : Type 0} (refuses : Action → Option E) (given : Bool) (listens serves : Action)
    → (bridged refuses given listens serves).result ≡ ok tt
    → (bridged refuses given listens serves).trace ≡ (if given then listens ∷ serves ∷ [] else [])
bridged-ok refuses true listens serves h =
    let (trace, _) = perform_then-ok listens _ refuses tt h in trace
bridged-ok refuses false listens serves h = refl

-- A bridge that comes up has a node with the tags, and serves exactly the directions for which both
-- flags are given, each behind its listener.
pub bridge-serves :
    {E : Type 0} (refuses : Action → Option E) (f : Flags)
    → (bridge refuses f).result ≡ ok tt
    → (bridge refuses f).trace
      ≡ start (node_of f)
        ∷ bring_up
        ∷ (calls_for f.listen f.target (listen_local f.listen) (dial_mesh f.target)
            ++ calls_for f.expose f.local_target (listen_mesh f.expose) (dial_local f.local_target))
unfolding bridge
bridge-serves refuses f h =
    let (t1, o1) = perform_then-ok (start (node_of f)) _ refuses tt h in
    let (t2, o2) = perform_then-ok bring_up _ refuses tt o1 in
    let (_, o3, o4, t3) = and_then-ok _ _ tt o2 in
    let forward = calls_for f.listen f.target (listen_local f.listen) (dial_mesh f.target) in
    let exposed =
      bridged refuses (not (is_empty f.expose) && not (is_empty f.local_target))
        (listen_mesh f.expose) (dial_local f.local_target) in
    t1
    ∙ ap (λ t. start (node_of f) ∷ t)
        (t2
          ∙ ap (λ t. bring_up ∷ t)
              (t3
                ∙ ap (λ t. t ++ exposed.trace) (bridged-ok refuses _ _ _ o3)
                ∙ ap (λ t. forward ++ t) (bridged-ok refuses _ _ _ o4)))
