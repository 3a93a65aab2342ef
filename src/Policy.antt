-- ===== src/Policy.antt =====
-- internal/policy/policy.go: the permission policy that decides on tool calls, pushes and sinks.
pub mod Grants
pub mod Widening
mod Tests
use ouvrier.Base.{
  ◌>>◌, String, Bool, true, false, not, Option, none, some, List, [], ◌∷◌, eq_iff, eq_string,
  eq_nat, ◌==◌, Result, ok, if◌then◌else◌, Map, empty_map, lookup, insert, trim_space,
}
use Prim.Native.String.{◌++◌}
use ouvrier.State.Types.{Error, Context, check_context}

-- A constant of Go's type Effect, or another text.
pub data Effect : Type 0 where
  unset read_only idempotent side_effecting : Effect
  other : String → Effect

pub data ActionKind : Type 0 where
  tool_call push_webhook push_queue sink_file sink_log : ActionKind
  other : String → ActionKind

pub record Action : Type 0 where
  pub kind : ActionKind
  pub tool_name : String
  pub tool_call_id : String
  pub tool_kind : String
  pub target : String
  pub effect : Effect
  pub idempotency_key : String
  pub side_effects : List String
  pub requires_approval : Bool

pub record Decision : Type 0 where
  pub allowed : Bool
  pub reason : String
  pub suspended : Bool
  pub approval_id : String

-- Go's sets of labels are maps to the empty struct. A nil map reads as an empty one.
abbrev pub Set : Type 0
Set = Map String (Unit {0})

pub record DefaultPolicy : Type 0 where
  pub allowed_side_effects : Set
  pub allowed_side_effect_targets : Map String Set

-- The functions of type PolicyOption. The fields that they set are private to the package, which has
-- these two constructors of them; a caller may pass nil.
pub data PolicyOption : Type 0 where
  nil_option : PolicyOption
  allow_side_effects : (labels : List String) → PolicyOption
  allow_side_effect_targets : (label : String) → (targets : List String) → PolicyOption

unfoldable pub clean_labels : List String → List String
clean_labels [] = []
clean_labels (l ∷ ls) =
    let rest = clean_labels ls in if trim_space l == "" then rest else trim_space l ∷ rest

-- cleanTargets: the same loop.
unfoldable pub clean_targets : List String → List String
clean_targets [] = []
clean_targets (t ∷ ts) =
    let rest = clean_targets ts in if trim_space t == "" then rest else trim_space t ∷ rest

abbrev pub add_all : List String → Set → Set
add_all [] set = set
add_all (l ∷ ls) set = add_all ls (insert l tt set)

abbrev pub set_of : Option Set → Set
set_of none = empty_map
set_of (some set) = set

unfoldable pub apply_option : PolicyOption → DefaultPolicy → DefaultPolicy
unfolding clean_labels clean_targets
apply_option nil_option p = p
apply_option (allow_side_effects labels) p = record p {
  allowed_side_effects = add_all (clean_labels labels) p.allowed_side_effects;
}
apply_option (allow_side_effect_targets label targets) p =
    if trim_space label == ""
    then p
    else (let allowed = set_of (lookup (trim_space label) p.allowed_side_effect_targets) in
        record p {
          allowed_side_effect_targets =
              insert (trim_space label) (add_all (clean_targets targets) allowed)
                p.allowed_side_effect_targets;
        })

abbrev pub apply_options : List PolicyOption → DefaultPolicy → DefaultPolicy
apply_options [] p = p
apply_options (o ∷ os) p = apply_options os (apply_option o p)

unfoldable pub new_default_policy : List PolicyOption → DefaultPolicy
unfolding apply_option
new_default_policy options =
    apply_options options
      (record { allowed_side_effects = empty_map; allowed_side_effect_targets = empty_map })

-- Allow and Deny
abbrev pub allow : String → Decision
allow reason = record {
  allowed = true;
  reason = trim_space reason;
  suspended = false;
  approval_id = "";
}

abbrev pub deny : String → Decision
deny reason = record {
  allowed = false;
  reason = if trim_space reason == "" then "permission denied" else trim_space reason;
  suspended = false;
  approval_id = "";
}

unfoldable pub normalize_effect : Effect → Effect
normalize_effect unset = side_effecting
normalize_effect e = e

unfoldable pub action_requires_target_scope : Action → Bool
action_requires_target_scope a = elim a.kind [
  | push_webhook ↦ true
  | push_queue ↦ true
  | sink_file ↦ true
  | tool_call ↦ not (trim_space a.target == "")
  | sink_log ↦ false
  | other _ ↦ false
]

abbrev pub has : Set → String → Bool
has set label = elim (lookup label set) [ none ↦ false | some _ ↦ true ]

-- A missing or empty set of targets has no target and no "*", so the test for its length is that
-- for the two entries.
abbrev pub is_empty : Set → Bool
is_empty set = elim set.entries [ [] ↦ true | _ ∷ _ ↦ false ]

unfoldable pub target_allowed : DefaultPolicy → String → String → Bool
target_allowed p label target =
    let allowed = set_of (lookup label p.allowed_side_effect_targets) in
    if is_empty allowed then false else if has allowed target then true else has allowed "*"

-- The loop over the clean labels: the first label that is refused gives the decision.
unfoldable pub authorize_labels : DefaultPolicy → Action → String → List String → Decision
unfolding action_requires_target_scope target_allowed
authorize_labels p a what [] = allow (what ++ " explicitly allowed")
authorize_labels p a what (label ∷ labels) =
    let rest = authorize_labels p a what labels in
    if action_requires_target_scope a
    then (if trim_space a.target == ""
        then deny ("side effect " ++ label ++ " requires a target")
        else if not (target_allowed p label (trim_space a.target))
        then deny ("side effect " ++ label ++ " target is not allowed")
        else rest)
    else if not (has p.allowed_side_effects label)
    then deny ("side effect " ++ label ++ " is not allowed")
    else rest

unfoldable pub authorize_side_effecting_action : DefaultPolicy → Action → String → Decision
unfolding clean_labels authorize_labels
authorize_side_effecting_action p a what = elim (clean_labels a.side_effects) [
  | [] ↦ deny (what ++ " requires explicit side effect labels")
  | label ∷ labels ↦ authorize_labels p a what (label ∷ labels)
]

abbrev authorize_tool : DefaultPolicy → Action → Decision
authorize_tool p a =
    if trim_space a.tool_name == ""
    then deny "tool name is required"
    else if a.requires_approval
    then deny "tool requires explicit approval"
    else if trim_space a.tool_kind == "subagent"
    then allow "declared subagent call allowed"
    else elim (normalize_effect a.effect) [
      | read_only ↦ allow "read-only tool call allowed"
      | idempotent ↦
          if trim_space a.idempotency_key == ""
          then deny "idempotent tool requires an idempotency key"
          else allow "idempotent tool call allowed"
      | side_effecting ↦ authorize_side_effecting_action p a "side-effecting tool"
      | unset ↦ deny "tool effect is not allowed"
      | other _ ↦ deny "tool effect is not allowed"
    ]

-- Authorize, once the context is alive.
unfoldable pub authorize_action : DefaultPolicy → Action → Decision
unfolding normalize_effect authorize_side_effecting_action
authorize_action p a = elim a.kind [
  | tool_call ↦ authorize_tool p a
  | push_webhook ↦ authorize_side_effecting_action p a "webhook push"
  | push_queue ↦ authorize_side_effecting_action p a "queue push"
  | sink_file ↦ authorize_side_effecting_action p a "file sink"
  | sink_log ↦ allow "redacted log sink allowed"
  | other _ ↦ deny "action kind is not allowed"
]

unfoldable pub authorize : DefaultPolicy → Context → Action → Result Error Decision
unfolding check_context authorize_action
authorize p ctx a = do check_context ctx; ok (authorize_action p a)
