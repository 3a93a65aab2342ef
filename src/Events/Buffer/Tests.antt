-- ===== src/Events/Buffer/Tests.antt =====
-- A buffer of two events that wraps around, and the theorem on its order at a concrete input.
use ouvrier.Base.{ℕ, ◌≡◌, refl, some, List, [], ◌∷◌, arith, eq_string, eq_nat, map}
use ouvrier.Events.{Event}
use ouvrier.Events.Buffer.{zero_event, new_event_buffer, append, each, visit_from}
use ouvrier.Events.Buffer.Recent.{append_all, last_of, each-append_all}

abbrev numbered : ℕ → Event
numbered n = record zero_event { id = n }

abbrev history : List Event
history = numbered 1 ∷ numbered 2 ∷ numbered 3 ∷ []

wraps : each (append_all history (new_event_buffer 2)) ≡ some (numbered 2) ∷ some (numbered 3) ∷ []
unfolding each append_all append visit_from new_event_buffer
wraps = refl

each-append_all_example :
    each (append_all history (new_event_buffer 2)) ≡ map some (last_of 2 history)
each-append_all_example = each-append_all 2 history (omega arith)
