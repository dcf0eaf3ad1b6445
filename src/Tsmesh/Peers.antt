-- ===== src/Tsmesh/Peers.antt =====
-- internal/tsmesh/tsmesh.go: `Peer`, `FilterOnline`, `PresentOnline`, `PathTo`, `peerPath` and the
-- translation in `Peers`.
use sccache_dist_action.Common.{
  if◌then◌else◌, Bool-cases, false_ne_true, if_true, All, Occurs, Result, Text, codes, text_eq,
  text_eq_sound, text_eq_iff, is_empty, text_eq-ne, ok, err, ◌≡◌, refl, sym, ap, ◌∙◌, subst, ◌≢◌,
  ◌↔◌, inl, inr, Bool, true, false, not, ◌&&◌, List, [], ◌∷◌, ◌++◌, map, arith,
}
use sccache_dist_action.Stdlib.Strings.{has_prefix}

pub record Peer : Type 0 where
  pub host : Text
  pub online : Bool
  pub ip : Text
  pub path : Text

-- The fields of tsnet's ipnstate.PeerStatus that are read.
pub record PeerStatus : Type 0 where
  pub host_name : Text
  pub online : Bool
  pub tailscale_ips : List Text
  pub cur_addr : Text
  pub peer_relay : Text
  pub relay : Text

unfoldable pub filter_online : List Peer → Text → List Peer
filter_online [] prefix = []
filter_online (p ∷ ps) prefix =
    if has_prefix p.host prefix && p.online
    then p ∷ filter_online ps prefix
    else filter_online ps prefix

unfoldable pub present_online : List Peer → Text → Bool
present_online [] host = false
present_online (p ∷ ps) host =
    if text_eq p.host host && p.online then true else present_online ps host

unfoldable pub path_to : List Peer → Text → Text
path_to [] host = codes "not in netmap"
path_to (p ∷ ps) host = if text_eq p.host host then p.path else path_to ps host

unfoldable pub peer_path : PeerStatus → Text
peer_path ps =
    if not (is_empty ps.cur_addr)
    then codes "direct " ++ ps.cur_addr
    else if not (is_empty ps.peer_relay)
    then codes "peer-relay " ++ ps.peer_relay
    else if not (is_empty ps.relay)
    then codes "derp " ++ ps.relay
    else codes "none"

abbrev first_ip : List Text → Text
first_ip [] = []
first_ip (ip ∷ ips) = ip

-- The body of the loop of `Peers`.
abbrev pub peer_of : PeerStatus → Peer
peer_of ps = record {
  host = ps.host_name;
  online = ps.online;
  ip = first_ip ps.tailscale_ips;
  path = peer_path ps;
}

-- `Peers` behind the call of `lc.Status`: its error, or the peers of its netmap.
unfoldable pub peers {ℓ} : {E : Type ℓ} → Result E (List PeerStatus) → Result E (List Peer)
peers (err e) = err e
peers (ok st) = ok (map peer_of st)

-- A peer that FilterOnline may keep.
abbrev pub IsWanted : Text → Peer → Type 0
IsWanted prefix p = (has_prefix p.host prefix ≡ true) × (p.online ≡ true)

and_parts : (a b : Bool) → (a && b) ≡ true → (a ≡ true) × (b ≡ true)
and_parts a b h = ground arith

and_of_parts : (a b : Bool) → a ≡ true → b ≡ true → (a && b) ≡ true
and_of_parts a b h k = ground arith

keep_later :
    (b : Bool) (p q : Peer) (ps : List Peer) → Occurs p ps → Occurs p (if b then q ∷ ps else ps)
keep_later true p q ps h = inr h
keep_later false p q ps h = h

mem-filter_online_to :
    (ps : List Peer) (prefix : Text) (p : Peer)
    → Occurs p (filter_online ps prefix)
    → Occurs p ps × IsWanted prefix p
unfolding filter_online
mem-filter_online_to [] prefix p h = absurd h
mem-filter_online_to (q ∷ ps) prefix p h =
    elim (Bool-cases (has_prefix q.host prefix && q.online)) [
      | inr skipped ↦
          let (there, wanted) = mem-filter_online_to ps prefix p (rw skipped at h) in
          (inr there, wanted)
      | inl kept ↦ elim (rw kept at h) [
        | inl e ↦ (inl e, rw e (and_parts _ _ kept))
        | inr later ↦
            let (there, wanted) = mem-filter_online_to ps prefix p later in (inr there, wanted)
      ]
    ]

mem-filter_online_of :
    (ps : List Peer) (prefix : Text) (p : Peer)
    → Occurs p ps
    → IsWanted prefix p
    → Occurs p (filter_online ps prefix)
unfolding filter_online
mem-filter_online_of [] prefix p h w = h
mem-filter_online_of (q ∷ ps) prefix p (inl e) w =
    rw ((subst (λ x. (has_prefix x.host prefix && x.online) ≡ true) e (and_of_parts _ _ w.0 w.1)))
      (inl e)
mem-filter_online_of (q ∷ ps) prefix p (inr h) w =
    keep_later (has_prefix q.host prefix && q.online) p q (filter_online ps prefix)
      (mem-filter_online_of ps prefix p h w)

-- FilterOnline keeps exactly the peers that are online and whose host name begins with the prefix.
pub mem-filter_online_iff :
    (ps : List Peer) (prefix : Text) (p : Peer)
    → Occurs p (filter_online ps prefix) ↔ (Occurs p ps × IsWanted prefix p)
mem-filter_online_iff ps prefix p =
    (mem-filter_online_to ps prefix p, λ (h, w). mem-filter_online_of ps prefix p h w)

present_online_to :
    (ps : List Peer) (host : Text)
    → present_online ps host ≡ true
    → (p : Peer) × Occurs p ps × (p.host ≡ host) × (p.online ≡ true)
unfolding present_online
present_online_to [] host h = absurd (false_ne_true h)
present_online_to (q ∷ ps) host h = elim (Bool-cases (text_eq q.host host && q.online)) [
  | inl here ↦
      let (named, on) = and_parts (text_eq q.host host) q.online here in
      (q, inl refl, text_eq_sound q.host host named, on)
  | inr skipped ↦
      let (p, there, named, on) = present_online_to ps host (rw skipped at h) in
      (p, inr there, named, on)
]

present_online_of :
    (ps : List Peer) (host : Text) (p : Peer)
    → Occurs p ps
    → p.host ≡ host
    → p.online ≡ true
    → present_online ps host ≡ true
unfolding present_online
present_online_of [] host p h e o = absurd h
present_online_of (q ∷ ps) host p (inl same) e o =
    let named : text_eq q.host host ≡ true =
      (text_eq_iff q.host host).1 (ap (λ x. x.host) (sym same) ∙ e) in
    let on : q.online ≡ true = ap (λ x. x.online) (sym same) ∙ o in rw (named, on) refl
present_online_of (q ∷ ps) host p (inr there) e o =
    if_true (text_eq q.host host && q.online) _ (present_online_of ps host p there e o)

-- PresentOnline is true exactly when a peer of that very host name is online.
pub present_online_iff :
    (ps : List Peer) (host : Text)
    → (present_online ps host ≡ true)
      ↔ ((p : Peer) × Occurs p ps × (p.host ≡ host) × (p.online ≡ true))
present_online_iff ps host =
    (present_online_to ps host, λ (p, h, e, o). present_online_of ps host p h e o)

-- PathTo gives the path of the first peer of that very host name, and says so when there is none.
pub path_to_first :
    (before later : List Peer) (p : Peer) (host : Text)
    → All (λ q. q.host ≢ host) before
    → (path_to before host ≡ codes "not in netmap")
      × (p.host ≡ host → path_to (before ++ p ∷ later) host ≡ p.path)
unfolding path_to
path_to_first [] later p host h = (refl, λ e. rw ((text_eq_iff p.host host).1 e) refl)
path_to_first (q ∷ before) later p host (h, hs) =
    let (missing, found) = path_to_first before later p host hs in
    let differs : text_eq q.host host ≡ false = text_eq-ne q.host host h in
    rw differs (missing, found)
