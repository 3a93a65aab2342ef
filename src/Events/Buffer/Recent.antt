-- ===== src/Events/Buffer/Recent.antt =====
-- Buffers over histories of events.
use ouvrier.Base.{
  ℕ, ◌-◌, ◌≤◌, ◌<◌, ◌≡◌, refl, sym, ap, inl, inr, some, List, [], ◌∷◌, ◌++◌, arith, eq_string,
  eq_nat, ltb, Bool-cases, map, length, zero, suc, ◌∙◌, length-append,
}
use ouvrier.Events.{Event}
use ouvrier.Events.Buffer.{EventBuffer, new_event_buffer, append, each}
use ouvrier.Events.Buffer.Queue.{
  length-new_event_buffer, Represents, push, drop_first, length-append_entries, append-Represents,
  new_event_buffer-Represents,
}

-- The buffer after the events of a history, oldest first.
unfoldable pub append_all : List Event → EventBuffer → EventBuffer
append_all [] b = b
append_all (e ∷ es) b = append_all es (append e b)

abbrev push_all : ℕ → List Event → List Event → List Event
push_all c [] q = q
push_all c (e ∷ es) q = push_all c es (push c e q)

abbrev drop : ℕ → List Event → List Event
drop zero l = l
drop (suc n) [] = []
drop (suc n) (x ∷ l) = drop n l

-- The last `n` elements.
abbrev pub last_of : ℕ → List Event → List Event
last_of n l = drop (length l - n) l

append_all-Represents :
    (c : ℕ) (es : List Event) (b : EventBuffer) (q : List Event)
    → length b.entries ≡ c
    → Represents b q
    → Represents (append_all es b) (push_all c es q)
unfolding append_all
append_all-Represents c [] b q sized h = h
append_all-Represents c (e ∷ es) b q sized h =
    append_all-Represents c es (append e b) (push c e q) (length-append_entries e b ∙ sized)
      (rw sized at (append-Represents e b q h))

snoc_assoc : (q es : List Event) (e : Event) → (q ++ e ∷ []) ++ es ≡ q ++ e ∷ es
snoc_assoc [] es e = refl
snoc_assoc (x ∷ q) es e = ap (λ l. x ∷ l) (snoc_assoc q es e)

last_of-shorter :
    (c : ℕ) (x : Event) (l : List Event) → c ≤ length l → last_of c (x ∷ l) ≡ last_of c l
last_of-shorter c x l h = ap (λ n. drop n (x ∷ l)) {y = suc (length l - c)} (omega (arith, h))

last_of_all : (c : ℕ) (l : List Event) → length l ≤ c → last_of c l ≡ l
last_of_all c l h = ap (λ n. drop n l) {y = 0} (omega (arith, h))

push-last_of :
    (c : ℕ) (e : Event) (q es : List Event)
    → 0 < c
    → length q ≤ c
    → last_of c (push c e q ++ es) ≡ last_of c (q ++ e ∷ es)
push-last_of c e q es some_room h = elim (Bool-cases (ltb (length q) c)) [
  | inl r ↦ rw r (ap (last_of c) (snoc_assoc q es e))
  | inr r ↦ rw r (full q (ground (arith, r, h)))
]
  where
    full :
        (q : List Event)
        → length q ≡ c
        → last_of c ((drop_first q ++ e ∷ []) ++ es) ≡ last_of c (q ++ e ∷ es)
    full [] n = absurd (omega (arith, n, some_room))
    full (x ∷ q) n =
        ap (last_of c) (snoc_assoc q es e)
        ∙ sym (last_of-shorter c x (q ++ e ∷ es) (omega (arith, n, length-append q (e ∷ es))))

length-push : (c : ℕ) (e : Event) (q : List Event) → 0 < c → length q ≤ c → length (push c e q) ≤ c
length-push c e [] room h = elim (Bool-cases (ltb 0 c)) [
  | inl r ↦ rw r (omega (arith, room))
  | inr r ↦ rw r (omega (arith, room))
]
length-push c e (x ∷ q) room h = elim (Bool-cases (ltb (length (x ∷ q)) c)) [
  | inl r ↦ rw r (ground (arith, r, length-append q (e ∷ [])))
  | inr r ↦ rw r (omega (arith, h, length-append q (e ∷ [])))
]

push_all-last_of :
    (c : ℕ) (es q : List Event) → 0 < c → length q ≤ c → push_all c es q ≡ last_of c (q ++ es)
push_all-last_of c [] q room h =
    sym (last_of_all c (q ++ []) (omega (arith, h, length-append q [])) ∙ append-nil q)
  where
    append-nil : (q : List Event) → q ++ [] ≡ q
    append-nil [] = refl
    append-nil (x ∷ q) = ap (λ l. x ∷ l) (append-nil q)
push_all-last_of c (e ∷ es) q room h =
    push_all-last_of c es (push c e q) room (length-push c e q room h)
    ∙ push-last_of c e q es room h

-- A buffer of a positive capacity c holds, after any history, exactly the last c events appended,
-- oldest first: all of them while there are at most c, and never another entry.
pub each-append_all :
    (c : ℕ) (es : List Event)
    → 0 < c
    → each (append_all es (new_event_buffer c)) ≡ map some (last_of c es)
each-append_all c es room =
    (append_all-Represents c es (new_event_buffer c) [] (length-new_event_buffer c)
      (new_event_buffer-Represents c room)).1
    ∙ ap (map some) (push_all-last_of c es [] room (omega arith))
