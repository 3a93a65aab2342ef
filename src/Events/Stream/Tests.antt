-- ===== src/Events/Stream/Tests.antt =====
-- A stream of two retained events, and the theorems of this folder at concrete inputs.
use ouvrier.Base.{
  ℕ, ◌+◌, ◌-◌, ◌≡◌, refl, false, none, some, [], ◌∷◌, arith, eq_string, eq_nat, ok, err, ltb,
  lookup,
}
use ouvrier.Events.{Event}
use ouvrier.Events.Redactor.{Redactor}
use ouvrier.Events.Buffer as Buffer
use ouvrier.Events.Buffer.{zero_event, new_event_buffer, each, visit_from}
use ouvrier.Events.Kinds.{canonical_kind}
use ouvrier.Events.Sanitize.{sanitize_event, sanitize_payload}
use ouvrier.Events.Metrics.{Floats}
use ouvrier.Events.Stream.{Persist, EventStream, made, append, since_checked, checked_from}
use ouvrier.Events.Stream.Order.{IsOrdered, made-IsOrdered}
use ouvrier.Events.Stream.Append.{IsStep, append-IsStep}
use ouvrier.Events.Stream.Since.{IsLossless, since_checked-IsLossless}
use ouvrier.Events.Stream.Fresh.{append-since_checked}
use ouvrier.State.Types.{Context, check_context}

abbrev whole : Floats ℕ
whole = record {
  zero_float = 0;
  add = λ a b. a + b;
  is_positive = λ a. ltb 0 a;
  is_negative = λ a. false;
  parse_float = λ s. 0;
  convert = λ s. 7;
  milliseconds = λ a b. b - a;
}

abbrev scrub : Redactor
scrub = record { redact_text = λ s. s; redact_json_text = λ s. s }

abbrev two_kept : EventStream ℕ
two_kept = made whole scrub (record { initial_id = 5; retention_limit = 2 })

abbrev note : Event
note = record zero_event { kind = "before_tool"; at = 1 }

-- The store gives the id 9 to every event.
abbrev numbers_nine : Persist
numbers_nine = some (λ e. ok (record e { id = 9 }))

abbrev after_append : Persist → EventStream ℕ → EventStream ℕ
unfolding append
after_append persist s = (append whole scrub Context.live Context.live note persist 3 s).1

-- An id that another writer took leaves a gap behind the cursor.
gap_found :
    since_checked scrub 6 (after_append numbers_nine (after_append none two_kept))
    ≡ err (record { after_id = 6; expected_id = 7; next_retained_id = 9 })
unfolding since_checked checked_from append check_context Buffer.append each visit_from
    new_event_buffer sanitize_event sanitize_payload canonical_kind lookup
gap_found = refl

cancelled_append :
    (append whole scrub Context.live Context.cancelled note none 3 two_kept).1 ≡ two_kept
unfolding append check_context
cancelled_append = refl

append-IsStep_example :
    IsStep whole scrub two_kept
      (append whole scrub Context.live Context.live note numbers_nine 3 two_kept)
append-IsStep_example =
    append-IsStep whole scrub Context.live Context.live note numbers_nine 3 two_kept (omega arith)
      (λ e. omega arith)

two_kept-IsOrdered : IsOrdered two_kept []
two_kept-IsOrdered =
    made-IsOrdered whole scrub (record { initial_id = 5; retention_limit = 2 }) (omega arith)
      (omega arith)

since_checked-IsLossless_example : IsLossless scrub 3 two_kept [] (since_checked scrub 3 two_kept)
since_checked-IsLossless_example =
    since_checked-IsLossless scrub 3 two_kept [] two_kept-IsOrdered (omega arith)

append-since_checked_example :
    (stored : Event) × ((append whole scrub Context.live Context.live note none 3 two_kept).0
      ≡ ok stored)
    × (since_checked scrub 5 (append whole scrub Context.live Context.live note none 3 two_kept).1
        ≡ ok (stored ∷ []))
append-since_checked_example =
    append-since_checked whole scrub note 3 two_kept [] two_kept-IsOrdered (omega arith)
