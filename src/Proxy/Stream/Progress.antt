-- ===== src/Proxy/Stream/Progress.antt =====
-- `pipe` and `closeWrite` in internal/proxy/proxy.go: the end of the sender's stream, by rounds of
-- the pipes.
use sccache_dist_action.Common.{
  ℕ, suc, ◌≡◌, refl, sym, ap, ◌∙◌, subst, true, List, [], ◌∷◌, ◌++◌, map,
}
use sccache_dist_action.Proxy.Stream.{
  Link, pump, Stream, Event, pumps, step, run, new_stream, last, at_first,
}
use sccache_dist_action.Proxy.Stream.Delivery.{end_is_whole}

abbrev pump_all : List ℕ → List Link → List Link
pump_all [] ls = ls
pump_all (i ∷ is) ls = pump_all is (pump i ls)

pump_all-append :
    (is js : List ℕ) (ls : List Link) → pump_all (is ++ js) ls ≡ pump_all js (pump_all is ls)
pump_all-append [] js ls = refl
pump_all-append (i ∷ is) js ls = pump_all-append is js (pump i ls)

pump-suc : (i : ℕ) (l : Link) (ls : List Link) → pump (suc i) (l ∷ ls) ≡ l ∷ pump i ls
unfolding pump
pump-suc i l [] = refl
pump-suc i l (m ∷ ls) = refl

pump_all-suc :
    (is : List ℕ) (l : Link) (ls : List Link) → pump_all (map suc is) (l ∷ ls) ≡ l ∷ pump_all is ls
pump_all-suc [] l ls = refl
pump_all-suc (i ∷ is) l ls =
    ap (pump_all (map suc is)) (pump-suc i l ls) ∙ pump_all-suc is l (pump i ls)

-- A link whose writer has half-closed is emptied, and its end passed on.
drained :
    (q : List ℕ) (d : Link) (ls : List Link)
    → (is : List ℕ) × (d' : Link) × (pump_all is (record { queue = q; ended = true } ∷ d ∷ ls)
        ≡ record { queue = []; ended = true } ∷ d' ∷ ls)
      × (d'.ended ≡ true)
unfolding pump
drained [] d ls = (0 ∷ [], record d { ended = true }, refl, refl)
drained (b ∷ q) d ls =
    let (is, d', e, h) = drained q (record d { queue = d.queue ++ b ∷ [] }) ls in (0 ∷ is, d', e, h)

last-cons : (l : Link) (ls : List Link) → (last ls).ended ≡ true → (last (l ∷ ls)).ended ≡ true
last-cons l [] h = cc
last-cons l (m ∷ ls) h = h

reaches_last :
    (q : List ℕ) (ls : List Link)
    → (is : List ℕ) × ((last (pump_all is (record { queue = q; ended = true } ∷ ls))).ended ≡ true)
reaches_last q [] = ([], refl)
reaches_last q (d ∷ ls) =
    let (is, d', e, h) = drained q d ls in
    let (js, k) = reaches_last d'.queue ls in
    let empty : Link = record { queue = []; ended = true } in
    let closed : Link = record { queue = d'.queue; ended = true } in
    (
      is ++ map suc js,
      subst (λ t. (last t).ended ≡ true)
          (sym (
            pump_all-append is (map suc js) _
            ∙ ap (pump_all (map suc js))
                (e ∙ ap (λ x. empty ∷ record { queue = d'.queue; ended = x } ∷ ls) h)
            ∙ pump_all-suc js empty (closed ∷ ls)))
          (last-cons empty (pump_all js (closed ∷ ls)) k),
    )

run-append : (s : Stream) (es fs : List Event) → run s (es ++ fs) ≡ run (run s es) fs
unfolding run
run-append s [] fs = refl
run-append s (e ∷ es) fs = run-append (step s e) es fs

at_first-pumps :
    (i : ℕ) (ls : List Link) (s : Stream)
    → s.links ≡ ls
    → (at_first (pumps i) ls s).links ≡ pump i ls
unfolding pump
at_first-pumps i [] s h = h
at_first-pumps i (l ∷ ls) s h = refl

step-pumps : (s : Stream) (i : ℕ) → (step s (pumps i)).links ≡ pump i s.links
unfolding step
step-pumps s i = at_first-pumps i s.links s refl

run-pumps : (s : Stream) (is : List ℕ) → (run s (map pumps is)).links ≡ pump_all is s.links
unfolding run
run-pumps s [] = refl
run-pumps s (i ∷ is) = run-pumps (step s (pumps i)) is ∙ ap (pump_all is) (step-pumps s i)

-- The sender has half-closed.
abbrev pub IsFinished : List Link → Type 0
IsFinished [] = ⊥
IsFinished (l ∷ ls) = l.ended ≡ true

finished-reaches :
    (ls : List Link) → IsFinished ls → (is : List ℕ) × ((last (pump_all is ls)).ended ≡ true)
finished-reaches [] h = absurd h
finished-reaches (l ∷ ls) h =
    let (is, e) = reaches_last l.queue ls in
    (
      is,
      subst (λ x. (last (pump_all is (record { queue = l.queue; ended = x } ∷ ls))).ended ≡ true)
          (sym h) e,
    )

-- A half-close is not swallowed: from every state in which the sender has half-closed, through any
-- number of relays, rounds of the pipes lead to one in which the receiver sees the end, and has got
-- all that was sent.
pub end_reaches_receiver :
    (n : ℕ) (es : List Event)
    → IsFinished (run (new_stream n) es).links
    → (is : List ℕ) × ((last (run (new_stream n) (es ++ map pumps is)).links).ended ≡ true)
      × ((last (run (new_stream n) (es ++ map pumps is)).links).queue
          ≡ (run (new_stream n) (es ++ map pumps is)).sent)
end_reaches_receiver n es h =
    let s = run (new_stream n) es in
    let (is, e) = finished-reaches s.links h in
    let ended =
      ap (λ t. (last t.links).ended) (run-append (new_stream n) es (map pumps is))
      ∙ ap (λ ls. (last ls).ended) (run-pumps s is)
      ∙ e in
    (is, ended, end_is_whole n (es ++ map pumps is) ended)
