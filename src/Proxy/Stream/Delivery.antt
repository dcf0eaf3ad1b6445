-- ===== src/Proxy/Stream/Delivery.antt =====
-- `pipe` in internal/proxy/proxy.go: the bytes on the way and the order of the half-closes.
use sccache_dist_action.Common.{
  replicate, ℕ, zero, suc, ◌≡◌, refl, sym, ap, ◌∙◌, Bool, true, false, List, [], ◌∷◌, ◌++◌,
  append-nil, append_assoc,
}
use sccache_dist_action.Proxy.Stream.{
  Link, new_link, copy, pipe, pump, Stream, Event, send, finish, pumps, step, run, new_stream, last,
  at_first, write_first,
}

-- The bytes on the way, the ones nearest to the receiver first.
abbrev in_flight : List Link → List ℕ
in_flight [] = []
in_flight (l ∷ ls) = in_flight ls ++ l.queue

-- A link is half-closed only behind one that is, and that has been emptied.
abbrev IsBehind : Link → List Link → Type 0
IsBehind l [] = Unit
IsBehind l (m ∷ ls) = m.ended ≡ true → (l.ended ≡ true) × (l.queue ≡ [])

abbrev IsOrdered : List Link → Type 0
IsOrdered [] = Unit
IsOrdered (l ∷ ls) = IsBehind l ls × IsOrdered ls

copy-in_flight :
    (q : List ℕ) (ended : Bool) (dst : Link)
    → (copy q ended dst).1.queue ++ (copy q ended dst).0.queue ≡ dst.queue ++ q
copy-in_flight (b ∷ q) ended dst = append_assoc dst.queue (b ∷ []) q
copy-in_flight [] true dst = refl
copy-in_flight [] false dst = refl

pump-in_flight : (i : ℕ) (ls : List Link) → in_flight (pump i ls) ≡ in_flight ls
unfolding pump
pump-in_flight i [] = refl
pump-in_flight i (src ∷ []) = refl
pump-in_flight zero (src ∷ dst ∷ ls) =
    append_assoc (in_flight ls) (pipe src dst).1.queue (pipe src dst).0.queue
    ∙ ap (λ t. in_flight ls ++ t) (copy-in_flight src.queue src.ended dst)
    ∙ sym (append_assoc (in_flight ls) dst.queue src.queue)
pump-in_flight (suc i) (src ∷ dst ∷ ls) = ap (λ t. t ++ src.queue) (pump-in_flight i (dst ∷ ls))

copy-source : (q : List ℕ) (ended : Bool) (dst : Link) → (copy q ended dst).0.ended ≡ ended
copy-source (b ∷ q) ended dst = refl
copy-source [] true dst = refl
copy-source [] false dst = refl

copy-IsBehind :
    (q : List ℕ) (ended : Bool) (dst : Link)
    → (dst.ended ≡ true → (ended ≡ true) × (q ≡ []))
    → (copy q ended dst).1.ended ≡ true
    → ((copy q ended dst).0.ended ≡ true) × ((copy q ended dst).0.queue ≡ [])
copy-IsBehind (b ∷ q) ended dst h e = cc ((h e).1)
copy-IsBehind [] true dst h e = (refl, refl)
copy-IsBehind [] false dst h e = h e

copy-IsBehind_next :
    (q : List ℕ) (ended : Bool) (dst : Link) (ls : List Link)
    → (dst.ended ≡ true → (ended ≡ true) × (q ≡ []))
    → IsBehind dst ls
    → IsBehind (copy q ended dst).1 ls
copy-IsBehind_next q ended dst [] h k = tt
copy-IsBehind_next (b ∷ q) ended dst (m ∷ ls) h k = λ e. cc ((h (k e).0).1)
copy-IsBehind_next [] true dst (m ∷ ls) h k = λ e. (refl, (k e).1)
copy-IsBehind_next [] false dst (m ∷ ls) h k = k

pump-IsBehind : (l : Link) (i : ℕ) (ls : List Link) → IsBehind l ls → IsBehind l (pump i ls)
unfolding pump
pump-IsBehind l i [] h = h
pump-IsBehind l i (src ∷ []) h = h
pump-IsBehind l zero (src ∷ dst ∷ ls) h = λ e. h (sym (copy-source src.queue src.ended dst) ∙ e)
pump-IsBehind l (suc i) (src ∷ dst ∷ ls) h = h

pump-IsOrdered : (i : ℕ) (ls : List Link) → IsOrdered ls → IsOrdered (pump i ls)
unfolding pump
pump-IsOrdered i [] h = h
pump-IsOrdered i (src ∷ []) h = h
pump-IsOrdered zero (src ∷ dst ∷ ls) (behind, (next, rest)) = (
  copy-IsBehind src.queue src.ended dst behind,
  (copy-IsBehind_next src.queue src.ended dst ls behind next, rest),
)
pump-IsOrdered (suc i) (src ∷ dst ∷ ls) (behind, rest) =
    (pump-IsBehind src i (dst ∷ ls) behind, pump-IsOrdered i (dst ∷ ls) rest)

-- Between any two events: nothing is lost on the way, and the links are in order.
record Inv (s : Stream) : Type 0 where
  kept : in_flight s.links ≡ s.sent
  ordered : IsOrdered s.links

write_first-IsBehind :
    (l : Link) (q : List ℕ) (ls : List Link)
    → l.ended ≡ false
    → IsBehind l ls
    → IsBehind (record l { queue = q }) ls
write_first-IsBehind l q [] h k = tt
write_first-IsBehind l q (m ∷ ls) h k = λ e. cc ((k e).0, h)

finish-IsBehind :
    (l : Link) (ls : List Link) → IsBehind l ls → IsBehind (record l { ended = true }) ls
finish-IsBehind l [] k = tt
finish-IsBehind l (m ∷ ls) k = λ e. (refl, (k e).1)

write_first-Inv :
    (b : ℕ) (ended : Bool) (l : Link) (ls : List Link) (s : Stream)
    → l.ended ≡ ended
    → Inv s
    → in_flight ls ++ l.queue ≡ s.sent
    → IsOrdered (l ∷ ls)
    → Inv (write_first b ended l ls s)
write_first-Inv b true l ls s h inv k (behind, rest) = inv
write_first-Inv b false l ls s h inv k (behind, rest) = record {
  kept = sym (append_assoc (in_flight ls) l.queue (b ∷ [])) ∙ ap (λ t. t ++ b ∷ []) k;
  ordered = (write_first-IsBehind l (l.queue ++ b ∷ []) ls h behind, rest);
}

at_first-Inv :
    (e : Event) (ls : List Link) (s : Stream)
    → Inv s
    → in_flight ls ≡ s.sent
    → IsOrdered ls
    → Inv (at_first e ls s)
at_first-Inv e [] s inv k h = inv
at_first-Inv (send b) (l ∷ ls) s inv k h = write_first-Inv b l.ended l ls s refl inv k h
at_first-Inv finish (l ∷ ls) s inv k (behind, rest) = record {
  kept = k;
  ordered = (finish-IsBehind l ls behind, rest);
}
at_first-Inv (pumps i) (l ∷ ls) s inv k h = record {
  kept = pump-in_flight i (l ∷ ls) ∙ k;
  ordered = pump-IsOrdered i (l ∷ ls) h;
}

step-Inv : (s : Stream) (e : Event) → Inv s → Inv (step s e)
unfolding step
step-Inv s e inv = at_first-Inv e s.links s inv inv.kept inv.ordered

run-Inv : (s : Stream) (es : List Event) → Inv s → Inv (run s es)
unfolding run
run-Inv s [] inv = inv
run-Inv s (e ∷ es) inv = run-Inv (step s e) es (step-Inv s e inv)

new-in_flight : (n : ℕ) → in_flight (replicate n new_link) ≡ []
new-in_flight zero = refl
new-in_flight (suc n) = ap (λ t. t ++ []) (new-in_flight n)

new-IsOrdered : (n : ℕ) → IsOrdered (replicate n new_link)
new-IsOrdered zero = tt
new-IsOrdered (suc zero) = (tt, tt)
new-IsOrdered (suc (suc n)) = (λ e. cc, new-IsOrdered (suc n))

new_stream-Inv : (n : ℕ) → Inv (new_stream n)
new_stream-Inv n = record { kept = new-in_flight (suc n); ordered = new-IsOrdered (suc n) }

last-in_flight : (ls : List Link) → (rest : List ℕ) × (in_flight ls ≡ (last ls).queue ++ rest)
last-in_flight [] = ([], refl)
last-in_flight (l ∷ []) = ([], sym (append-nil l.queue))
last-in_flight (l ∷ m ∷ ls) =
    let (rest, e) = last-in_flight (m ∷ ls) in
    (rest ++ l.queue, ap (λ t. t ++ l.queue) e ∙ append_assoc (last (m ∷ ls)).queue rest l.queue)

-- What has arrived is the beginning of what was sent, in order, whatever the relays have passed on.
pub arrived_in_order :
    (n : ℕ) (es : List Event)
    → (rest : List ℕ) × ((run (new_stream n) es).sent
        ≡ (last (run (new_stream n) es).links).queue ++ rest)
arrived_in_order n es =
    let inv = run-Inv (new_stream n) es (new_stream-Inv n) in
    let (rest, e) = last-in_flight (run (new_stream n) es).links in (rest, sym inv.kept ∙ e)

last_ended :
    (l : Link) (ls : List Link)
    → IsOrdered (l ∷ ls)
    → (last (l ∷ ls)).ended ≡ true
    → (l.ended ≡ true) × (in_flight (l ∷ ls) ≡ (last (l ∷ ls)).queue)
last_ended l [] h e = (e, refl)
last_ended l (m ∷ ls) (behind, rest) e =
    let (up, whole) = last_ended m ls rest e in
    let (closed, emptied) = behind up in
    (closed, ap (λ t. in_flight (m ∷ ls) ++ t) emptied ∙ append-nil (in_flight (m ∷ ls)) ∙ whole)

last_ended_whole :
    (ls : List Link) → IsOrdered ls → (last ls).ended ≡ true → in_flight ls ≡ (last ls).queue
last_ended_whole [] h e = refl
last_ended_whole (l ∷ ls) h e = (last_ended l ls h e).1

-- The end is not passed on too early: behind any number of relays, whatever happens, a receiver that
-- sees the end has got all that was sent, in order.
pub end_is_whole :
    (n : ℕ) (es : List Event)
    → (last (run (new_stream n) es).links).ended ≡ true
    → (last (run (new_stream n) es).links).queue ≡ (run (new_stream n) es).sent
end_is_whole n es e =
    let inv = run-Inv (new_stream n) es (new_stream-Inv n) in
    sym (last_ended_whole (run (new_stream n) es).links inv.ordered e) ∙ inv.kept
