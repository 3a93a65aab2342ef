-- ===== src/Events/Buffer/Queue.antt =====
-- The circular buffer is a queue of bounded length that forgets its oldest event when it is full.
use mathlib.Core.Path.{ap₂}
use ouvrier.Base.{
  get_at, set_at, length-replicate, length-set_at, get_at-set_at_same, get_at-set_at_other, ℕ, ◌+◌,
  ◌%◌, ◌≤◌, ◌<◌, ◌≡◌, refl, sym, ap, inl, inr, some, List, [], ◌∷◌, ◌++◌, arith, eq_string, eq_nat,
  if◌then◌else◌, ltb, Bool-cases, map, length, zero, suc, ◌∙◌, ltb→lt,
}
use native.Mathlib.Nat.{mod-lt}
use ouvrier.Events.{Event}
use ouvrier.Events.Buffer.{EventBuffer, zero_event, new_event_buffer, append, visit_from, each}
use ouvrier.Events.Buffer.Indices.{
  at_index, visit_from-snoc, visit_from-agree, unmoved, next_index, not_ltb→le, not_back, round,
}

-- The start is in range, and it moves only when the buffer is full.
abbrev pub IsValid : EventBuffer → Type 0
IsValid b =
    (b.start < length b.entries)
    × (b.size ≤ length b.entries)
    × (b.size < length b.entries → b.start ≡ 0)

-- The queue of at most `capacity` events.
abbrev pub drop_first {ℓ} : {A : Type ℓ} → List A → List A
drop_first [] = []
drop_first (e ∷ es) = es

abbrev pub push : ℕ → Event → List Event → List Event
push capacity e q = if ltb (length q) capacity then q ++ e ∷ [] else drop_first q ++ e ∷ []

module _ (b : EventBuffer) (e : Event) (valid : IsValid b) where
  abbrev with_room : EventBuffer
  with_room = record b {
    entries = set_at b.entries ((b.start + b.size) % length b.entries) e;
    size = b.size + 1;
  }

  abbrev moved : EventBuffer
  moved = record b {
    entries = set_at b.entries b.start e;
    start = (b.start + 1) % length b.entries;
  }

  -- While there is room the start is 0 and the new event stands at the logical index `size`.
  each-with_room : b.size < length b.entries → each with_room ≡ each b ++ some e ∷ []
  unfolding each
  each-with_room room =
      let n = length b.entries in
      let start0 = valid.2 room in
      let last = unmoved b.start b.size n start0 room in
      let kept : (j : ℕ) → j < b.size → at_index with_room (0 + j) ≡ at_index b (0 + j) = λ j h.
        ap (λ m. get_at with_room.entries ((b.start + (0 + j)) % m))
          (length-set_at b.entries ((b.start + b.size) % n) e)
        ∙ get_at-set_at_other b.entries ((b.start + b.size) % n) ((b.start + (0 + j)) % n) e
            (λ same.
              omega (
                arith,
                h,
                same,
                last,
                unmoved b.start (0 + j) n start0 (omega (arith, h, room)),
              )) in
      let final : at_index with_room (0 + b.size) ≡ some e =
        ap (λ m. get_at with_room.entries ((b.start + (0 + b.size)) % m))
          (length-set_at b.entries ((b.start + b.size) % n) e)
        ∙ ap (λ i. get_at with_room.entries ((b.start + i) % n)) (omega arith)
        ∙ get_at-set_at_same b.entries ((b.start + b.size) % n) e (omega (arith, last, room)) in
      ap (visit_from with_room 0) {y = suc b.size} (omega arith)
      ∙ visit_from-snoc with_room 0 b.size
      ∙ ap₂ (λ l x. l ++ x ∷ []) (visit_from-agree with_room b 0 0 b.size kept) final

  each-moved :
      b.size ≡ length b.entries
      → (n : ℕ) → b.size ≡ suc n
      → each moved ≡ visit_from b 1 n ++ some e ∷ []
  unfolding each
  each-moved full n sized =
      let kept : (j : ℕ) → j < n → at_index moved (0 + j) ≡ at_index b (1 + j) = λ j h.
        ap (λ m. get_at moved.entries ((moved.start + (0 + j)) % m))
          (length-set_at b.entries b.start e)
        ∙ ap (get_at moved.entries) (next_index b.start j (length b.entries))
        ∙ get_at-set_at_other b.entries b.start _ e
            (not_back b.start j (length b.entries) valid.0 (omega (arith, h, full, sized))) in
      let final : at_index moved (0 + n) ≡ some e =
        ap (λ m. get_at moved.entries ((moved.start + (0 + n)) % m))
          (length-set_at b.entries b.start e)
        ∙ ap (get_at moved.entries) (
            next_index b.start n (length b.entries)
            ∙ round b.start (1 + n) (length b.entries) valid.0 (omega (arith, full, sized)))
        ∙ get_at-set_at_same b.entries b.start e valid.0 in
      ap (visit_from moved 0) sized
      ∙ visit_from-snoc moved 0 n
      ∙ ap₂ (λ l x. l ++ x ∷ []) (visit_from-agree moved b 0 1 n kept) final

-- The buffer is valid and its events, oldest first, are those of the queue.
abbrev pub Represents : EventBuffer → List Event → Type 0
Represents b q = IsValid b × (each b ≡ map some q)

length-visit_from : (b : EventBuffer) (i n : ℕ) → length (visit_from b i n) ≡ n
unfolding visit_from
length-visit_from b i zero = refl
length-visit_from b i (suc n) = ap suc (length-visit_from b (suc i) n)

length-map : (q : List Event) → length (map some q) ≡ length q
length-map [] = refl
length-map (e ∷ q) = ap suc (length-map q)

map-snoc : (q : List Event) (e : Event) → map some (q ++ e ∷ []) ≡ map some q ++ some e ∷ []
map-snoc [] e = refl
map-snoc (x ∷ q) e = ap (λ l. some x ∷ l) (map-snoc q e)

represented_size : (b : EventBuffer) (q : List Event) → each b ≡ map some q → length q ≡ b.size
unfolding each
represented_size b q h = sym (length-map q) ∙ ap length (sym h) ∙ length-visit_from b 0 b.size

-- Appending keeps the capacity.
pub length-append_entries :
    (e : Event) (b : EventBuffer) → length (append e b).entries ≡ length b.entries
unfolding append
length-append_entries e b = elim (Bool-cases (ltb b.size (length b.entries))) [
  | inl h ↦ rw h (length-set_at b.entries ((b.start + b.size) % length b.entries) e)
  | inr h ↦ rw h (length-set_at b.entries b.start e)
]

append-IsValid : (e : Event) (b : EventBuffer) → IsValid b → IsValid (append e b)
unfolding append
append-IsValid e b valid =
    let grown = length-set_at b.entries ((b.start + b.size) % length b.entries) e in
    let same = length-set_at b.entries b.start e in
    elim (Bool-cases (ltb b.size (length b.entries))) [
      | inl h ↦
          rw (h, grown)
            (valid.0, omega (arith, ltb→lt b.size (length b.entries) h), λ r. valid.2 (omega arith))
      | inr h ↦
          rw (h, same)
            (
              mod-lt (b.start + 1) (omega (arith, valid.0)),
              valid.1,
              λ r. absurd (omega (arith, r, not_ltb→le b.size (length b.entries) h)),
            )
    ]

map-drop_first : (q : List Event) → drop_first (map some q) ≡ map some (drop_first q)
map-drop_first [] = refl
map-drop_first (e ∷ q) = refl

full_tail :
    (b : EventBuffer) (e : Event) (q : List Event) (n : ℕ)
    → b.size ≡ suc n
    → each b ≡ map some q
    → visit_from b 1 n ++ some e ∷ [] ≡ map some (drop_first q ++ e ∷ [])
unfolding each visit_from
full_tail b e q n sized h =
    ap (λ k. drop_first (visit_from b 0 k) ++ some e ∷ []) (sym sized)
    ∙ ap (λ l. drop_first l ++ some e ∷ []) h
    ∙ ap (λ l. l ++ some e ∷ []) (map-drop_first q)
    ∙ sym (map-snoc (drop_first q) e)

positive : (n : ℕ) → 0 < n → (m : ℕ) × (n ≡ suc m)
positive zero h = absurd (omega (arith, h))
positive (suc m) h = (m, refl)

-- Appending to the buffer is pushing to the queue: while there is room the event goes to the end,
-- and in a full buffer it replaces the oldest one, wherever the buffer's start stands.
pub append-Represents :
    (e : Event) (b : EventBuffer) (q : List Event)
    → Represents b q
    → Represents (append e b) (push (length b.entries) e q)
unfolding append
append-Represents e b q (valid, held) =
    let sized = represented_size b q held in
    (
      append-IsValid e b valid,
      elim (Bool-cases (ltb b.size (length b.entries))) [
        | inl h ↦
            rw (sized, h)
              (each-with_room b e valid (ltb→lt b.size (length b.entries) h)
                ∙ ap (λ l. l ++ some e ∷ []) held
                ∙ sym (map-snoc q e))
        | inr h ↦
            let full : b.size ≡ length b.entries =
              omega (arith, valid.1, not_ltb→le b.size (length b.entries) h) in
            let (n, counted) = positive b.size (omega (arith, full, valid.0)) in
            rw (sized, h) (each-moved b e valid full n counted ∙ full_tail b e q n counted held)
      ],
    )

pub length-new_event_buffer : (n : ℕ) → length (new_event_buffer n).entries ≡ n
unfolding new_event_buffer
length-new_event_buffer n = length-replicate n zero_event

pub new_event_buffer-Represents :
    (capacity : ℕ) → 0 < capacity → Represents (new_event_buffer capacity) []
unfolding new_event_buffer each
new_event_buffer-Represents n h =
    ((rw (length-replicate n zero_event) h, omega arith, λ r. refl), refl)
