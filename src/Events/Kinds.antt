-- ===== src/Events/Kinds.antt =====
-- internal/events/event_kind.go: the canonical name of an event kind.
use ouvrier.Base.{
  String, ◌≡◌, refl, Option, none, some, [], ◌∷◌, inl, inr, Map, eq_string, lookup, lookup-All,
  Option-cases,
}

-- legacyEventKinds
abbrev legacy_event_kinds : Map String String
legacy_event_kinds = record {
  entries =
      ("session_start", "session_started")
      ∷ ("session_end", "session_saved")
      ∷ ("before_llm", "llm_call_started")
      ∷ ("after_llm", "llm_call_completed")
      ∷ ("before_tool", "tool_call_started")
      ∷ ("after_tool", "tool_call_completed")
      ∷ ("schema_violation", "schema_validation_failed")
      ∷ ("subagent_stop", "task_completed")
      ∷ [];
}

abbrev or_same : String → Option String → String
or_same kind none = kind
or_same kind (some canonical) = canonical

-- CanonicalKind
unfoldable pub canonical_kind : String → String
canonical_kind kind = or_same kind (lookup kind legacy_event_kinds)

-- No canonical name is a legacy one.
canonical_is_new :
    (kind canonical : String)
    → lookup kind legacy_event_kinds ≡ some canonical
    → lookup canonical legacy_event_kinds ≡ none
unfolding lookup
canonical_is_new kind canonical found =
    lookup-All (λ c. lookup c legacy_event_kinds ≡ none) kind legacy_event_kinds found
      (refl, (refl, (refl, (refl, (refl, (refl, (refl, (refl, tt))))))))

pub canonical_kind-canonical_kind :
    (kind : String) → canonical_kind (canonical_kind kind) ≡ canonical_kind kind
unfolding canonical_kind
canonical_kind-canonical_kind kind = elim (Option-cases (lookup kind legacy_event_kinds)) [
  | inl e ↦ rw (e, canonical_kind, e)
  | inr (c, e) ↦ rw (e, canonical_kind, canonical_is_new kind c e)
]
