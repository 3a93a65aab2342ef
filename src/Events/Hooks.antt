-- ===== src/Events/Hooks.antt =====
-- internal/events/hook_bus.go: hooks that may rewrite an event or block it, in their order. The bus
-- is not nil.
mod Tests
use ouvrier.Base.{
  if-keeps, String, ◌≡◌, ◌≢◌, refl, inl, inr, false, Option, none, some, List, [], ◌∷◌, ◌++◌, arith,
  eq_iff, eq_string, eq_nat, ◌==◌, Result, ok, err, ◌>>=◌, ◌>>◌, if◌then◌else◌, Result-cases, Map,
  empty_map, lookup, insert, lookup-insert, lookup-insert_self,
}
use ouvrier.Events.{Event}
use ouvrier.Events.Redactor.{Redactor}
use ouvrier.Events.Kinds.{canonical_kind}
use ouvrier.Events.Sanitize.{sanitize_event}
use ouvrier.State.Types.{Error, Context, check_context}

-- A hook by what it answers for an event, or nil.
abbrev pub Hook : Type 0
Hook = Event → Result String Event

pub record HookBus : Type 0 where
  pub handlers : Map String (List Hook)

abbrev pub new_hook_bus : HookBus
new_hook_bus = record { handlers = empty_map }

pub data HookError : Type 0 where
  kind_required hook_required : HookError
  context_error : Error → HookError
  blocked : (kind message : String) → HookError

abbrev pub hooks_of : Option (List Hook) → List Hook
hooks_of none = []
hooks_of (some hooks) = hooks

unfoldable pub register : String → Option Hook → HookBus → Result HookError (Unit {0}) × HookBus
register kind hook b = if kind == "" then (err kind_required, b) else elim hook [
  | none ↦ (err hook_required, b)
  | some h ↦
      let hooks = hooks_of (lookup (canonical_kind kind) b.handlers) in
      (ok tt, record b { handlers = insert (canonical_kind kind) (hooks ++ h ∷ []) b.handlers })
]

module _ (redactor : Redactor) where
  -- What one hook leaves of an event, from and to defensive copies.
  abbrev pub answered : String → Result String Event → Result HookError Event
  answered kind (ok e) = ok (sanitize_event redactor e)
  answered kind (err message) = err (blocked kind message)

  unfoldable pub run_hooks : String → List Hook → Event → Result HookError Event
  run_hooks kind [] e = ok e
  run_hooks kind (h ∷ hooks) e =
      answered kind (h (sanitize_event redactor e)) >>= run_hooks kind hooks

  abbrev pub emit_checked : Result Error (Unit {0}) → Event → HookBus → Result HookError Event
  emit_checked (err x) e b = err (context_error x)
  emit_checked (ok _) e b =
      let kind = canonical_kind e.kind in
      run_hooks kind (hooks_of (lookup kind b.handlers))
        (sanitize_event redactor (record e { kind = kind }))

  unfoldable pub emit : Context → Event → HookBus → Result HookError Event
  unfolding check_context run_hooks
  emit ctx e b = emit_checked (check_context ctx) e b

  run_hooks-snoc :
      (kind : String) (hooks : List Hook) (h : Hook) (e : Event)
      → run_hooks kind (hooks ++ h ∷ []) e
        ≡ (run_hooks kind hooks e >>= λ d. answered kind (h (sanitize_event redactor d)))
  unfolding run_hooks
  run_hooks-snoc kind [] h e = elim (Result-cases (h (sanitize_event redactor e))) [
    | inl (x, f) ↦ rw f
    | inr (d, f) ↦ rw f
  ]
  run_hooks-snoc kind (g ∷ hooks) h e = elim (Result-cases (g (sanitize_event redactor e))) [
    | inl (x, f) ↦ rw f
    | inr (d, f) ↦ rw f (run_hooks-snoc kind hooks h (sanitize_event redactor d))
  ]

  -- A registered hook runs on an event of its kind, by whichever of its names, after the hooks
  -- registered before it and on what they left; it does not run when one of them blocks the event.
  pub emit-register :
      (ctx : Context) (kind : String) (h : Hook) (e : Event) (b : HookBus)
      → kind ≢ ""
      → canonical_kind e.kind ≡ canonical_kind kind
      → emit ctx e (register kind (some h) b).1
        ≡ (emit ctx e b >>= λ d. answered (canonical_kind kind) (h (sanitize_event redactor d)))
  unfolding emit register
  emit-register ctx kind h e b named same =
      let given : kind == "" ≡ false = ground (arith, eq_iff kind "", named) in
      elim (Result-cases (check_context ctx)) [
        | inl (x, f) ↦ rw f
        | inr (u, f) ↦
            rw (f, given, same)
              (rw
                (lookup-insert_self (canonical_kind kind)
                  (hooks_of (lookup (canonical_kind kind) b.handlers) ++ h ∷ []) b.handlers)
                (run_hooks-snoc (canonical_kind kind)
                  (hooks_of (lookup (canonical_kind kind) b.handlers)) h
                  (sanitize_event redactor (record e { kind = canonical_kind kind }))))
      ]

  unaffected :
      (checks : Result Error (Unit {0})) (kind : String) (hooks : List Hook) (e : Event)
      (b : HookBus)
      → canonical_kind e.kind ≢ kind
      → emit_checked checks e (record b { handlers = insert kind hooks b.handlers })
        ≡ emit_checked checks e b
  unaffected (err x) kind hooks e b other = refl
  unaffected (ok _) kind hooks e b other =
      let away : kind == canonical_kind e.kind ≡ false =
        ground (arith, eq_iff kind (canonical_kind e.kind), other) in
      rw (lookup-insert kind (canonical_kind e.kind) hooks b.handlers, away)

  -- A registration, refused or not, changes nothing for the events of another kind.
  pub emit-register_other :
      (ctx : Context) (kind : String) (hook : Option Hook) (e : Event) (b : HookBus)
      → canonical_kind e.kind ≢ canonical_kind kind
      → emit ctx e (register kind hook b).1 ≡ emit ctx e b
  unfolding emit register
  emit-register_other ctx kind none e b other =
      if-keeps {A = Result HookError (Unit {0}) × HookBus} (λ r. emit ctx e r.1 ≡ emit ctx e b)
        (kind == "") refl refl
  emit-register_other ctx kind (some h) e b other =
      if-keeps {A = Result HookError (Unit {0}) × HookBus} (λ r. emit ctx e r.1 ≡ emit ctx e b)
        (kind == "") refl
        (unaffected (check_context ctx) (canonical_kind kind)
          (hooks_of (lookup (canonical_kind kind) b.handlers) ++ h ∷ []) e b other)
