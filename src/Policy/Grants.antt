-- ===== src/Policy/Grants.antt =====
-- What the options of a policy grant: exactly what they name.
use ouvrier.Base.{
  String, ◌≡◌, ◌≢◌, refl, sym, inl, inr, Bool, true, false, not, ◌&&◌, ◌||◌, List, [], ◌∷◌, arith,
  eq_iff, eq_string, eq_nat, ◌==◌, if◌then◌else◌, Bool-cases, empty_map, lookup, insert,
  lookup-insert, All, all, any, trim_space, ◌∙◌,
}
use Prim.Native.String.{◌++◌}
use ouvrier.Policy.{
  Action, DefaultPolicy, PolicyOption, nil_option, allow_side_effects, allow_side_effect_targets,
  Set, clean_labels, clean_targets, add_all, set_of, apply_option, apply_options,
  new_default_policy, action_requires_target_scope, has, target_allowed, authorize_labels,
  authorize_side_effecting_action, Decision, is_empty, deny,
}

-- The option names the side effect, up to the spaces around it.
abbrev pub names : String → PolicyOption → Bool
names label nil_option = false
names label (allow_side_effects ls) = any (λ l. trim_space l == label) ls
names label (allow_side_effect_targets l ts) = false

-- The option names the target for the side effect.
abbrev pub names_target : String → String → PolicyOption → Bool
names_target label target nil_option = false
names_target label target (allow_side_effects ls) = false
names_target label target (allow_side_effect_targets l ts) =
    trim_space l == label && any (λ t. trim_space t == target) ts

-- What the policy of these options has to grant for one clean label of the action.
abbrev pub is_named : List PolicyOption → Action → String → Bool
is_named os a label =
    if action_requires_target_scope a
    then not (trim_space a.target == "")
      && (any (names_target label (trim_space a.target)) os || any (names_target label "*") os)
    else any (names label) os

has-insert : (l x : String) (set : Set) → has (insert l tt set) x ≡ (l == x || has set x)
has-insert l x set = ground (arith, lookup-insert l x tt set)

has-add_all :
    (x : String) (ls : List String) (set : Set)
    → has (add_all ls set) x ≡ (any (λ l. l == x) ls || has set x)
has-add_all x [] set = refl
has-add_all x (l ∷ ls) set = ground (arith, has-add_all x ls (insert l tt set), has-insert l x set)

any-clean_labels :
    (x : String) (ls : List String)
    → x ≢ ""
    → any (λ l. l == x) (clean_labels ls) ≡ any (λ l. trim_space l == x) ls
unfolding clean_labels
any-clean_labels x [] some_text = refl
any-clean_labels x (l ∷ ls) some_text =
    ground
      (arith, eq_iff (trim_space l) "", eq_iff (trim_space l) x, any-clean_labels x ls some_text)

clean_targets-clean_labels : (ts : List String) → clean_targets ts ≡ clean_labels ts
unfolding clean_targets clean_labels
clean_targets-clean_labels [] = refl
clean_targets-clean_labels (t ∷ ts) = rw (clean_targets-clean_labels ts) refl

has-add_targets :
    (x : String) (ts : List String) (set : Set)
    → x ≢ ""
    → has (add_all (clean_targets ts) set) x ≡ (any (λ t. trim_space t == x) ts || has set x)
has-add_targets x ts set some_text =
    rw (clean_targets-clean_labels ts, sym (any-clean_labels x ts some_text))
      (has-add_all x (clean_labels ts) set)

granted :
    (x : String) (os : List PolicyOption) (p : DefaultPolicy)
    → x ≢ ""
    → has (apply_options os p).allowed_side_effects x
      ≡ (any (names x) os || has p.allowed_side_effects x)
unfolding apply_option
granted x [] p some_text = refl
granted x (nil_option ∷ os) p some_text = granted x os p some_text
granted x (allow_side_effects ls ∷ os) p some_text = ground (
  arith,
  granted x os (apply_option (allow_side_effects ls) p) some_text,
  has-add_all x (clean_labels ls) p.allowed_side_effects,
  any-clean_labels x ls some_text,
)
granted x (allow_side_effect_targets l ts ∷ os) p some_text =
    ground (arith, granted x os (apply_option (allow_side_effect_targets l ts) p) some_text)

-- The policy has the target for the label.
abbrev has_target : DefaultPolicy → String → String → Bool
has_target p label target = has (set_of (lookup label p.allowed_side_effect_targets)) target

one_target :
    (x t l : String) (ts : List String) (p : DefaultPolicy)
    → x ≢ ""
    → t ≢ ""
    → has_target (apply_option (allow_side_effect_targets l ts) p) x t
      ≡ (names_target x t (allow_side_effect_targets l ts) || has_target p x t)
unfolding apply_option
one_target x t l ts p some_text some_target =
    let old = set_of (lookup (trim_space l) p.allowed_side_effect_targets) in
    let new = add_all (clean_targets ts) old in
    let row = lookup-insert (trim_space l) x new p.allowed_side_effect_targets in
    let trimmed : (trim_space l == x) ≡ true → trim_space l ≡ x =
      λ d. ground (arith, eq_iff (trim_space l) x) in
    elim (Bool-cases (trim_space l == "")) [
      | inl e ↦ rw e (ground (arith, eq_iff (trim_space l) "", eq_iff (trim_space l) x))
      | inr e ↦
          rw (e, row)
            (elim (Bool-cases (trim_space l == x)) [
              | inl d ↦ rw (d, sym (trimmed d)) (has-add_targets t ts old some_target)
              | inr d ↦ rw d refl
            ])
    ]

granted_target :
    (x t : String) (os : List PolicyOption) (p : DefaultPolicy)
    → x ≢ ""
    → t ≢ ""
    → has_target (apply_options os p) x t ≡ (any (names_target x t) os || has_target p x t)
unfolding apply_option
granted_target x t [] p some_text some_target = refl
granted_target x t (nil_option ∷ os) p some_text some_target =
    granted_target x t os p some_text some_target
granted_target x t (allow_side_effects ls ∷ os) p some_text some_target =
    granted_target x t os (apply_option (allow_side_effects ls) p) some_text some_target
granted_target x t (allow_side_effect_targets l ts ∷ os) p some_text some_target = ground (
  arith,
  granted_target x t os (apply_option (allow_side_effect_targets l ts) p) some_text some_target,
  one_target x t l ts p some_text some_target,
)

members :
    (l : List (String × Unit {0})) (t : String)
    → (if is_empty (record { entries = l })
        then false
        else if has (record { entries = l }) t
        then true
        else has (record { entries = l }) "*")
      ≡ (has (record { entries = l }) t || has (record { entries = l }) "*")
unfolding lookup
members [] t = refl
members (e ∷ l) t = ground arith

-- The test for an empty set adds nothing to the two tests for members.
target_allowed-has :
    (p : DefaultPolicy) (x t : String)
    → target_allowed p x t ≡ (has_target p x t || has_target p x "*")
unfolding target_allowed
target_allowed-has p x t = members (set_of (lookup x p.allowed_side_effect_targets)).entries t

-- The decision on the labels, by the rule for one label.
label_allowed : DefaultPolicy → Action → String → Bool
label_allowed p a label =
    if action_requires_target_scope a
    then not (trim_space a.target == "") && target_allowed p label (trim_space a.target)
    else has p.allowed_side_effects label

authorize_labels-allowed :
    (p : DefaultPolicy) (a : Action) (what : String) (ls : List String)
    → (authorize_labels p a what ls).allowed ≡ all (label_allowed p a) ls
unfolding authorize_labels label_allowed
authorize_labels-allowed p a what [] = refl
authorize_labels-allowed p a what (l ∷ ls) = ground (arith, authorize_labels-allowed p a what ls)

-- Clean labels are not empty.
clean_labels-texts : (ls : List String) → All (λ l. l ≢ "") (clean_labels ls)
unfolding clean_labels
clean_labels-texts [] = tt
clean_labels-texts (l ∷ ls) = elim (Bool-cases (trim_space l == "")) [
  | inl e ↦ rw e (clean_labels-texts ls)
  | inr e ↦ rw e (ground (arith, eq_iff (trim_space l) ""), clean_labels-texts ls)
]

label_allowed-is_named :
    (os : List PolicyOption) (a : Action) (x : String)
    → x ≢ ""
    → label_allowed (new_default_policy os) a x ≡ is_named os a x
unfolding label_allowed new_default_policy lookup
label_allowed-is_named os a x some_text =
    let p0 : DefaultPolicy = record {
      allowed_side_effects = empty_map;
      allowed_side_effect_targets = empty_map;
    } in
    let t = trim_space a.target in
    let by_label = granted x os p0 some_text in
    let star = granted_target x "*" os p0 some_text (λ e. cc) in
    let differs : (t == "") ≡ false → t ≢ "" = λ d. ground (arith, eq_iff t "") in
    elim (Bool-cases (action_requires_target_scope a)) [
      | inr e ↦ rw (e, by_label) (ground arith)
      | inl e ↦ elim (Bool-cases (t == "")) [
        | inl d ↦ rw (e, d) refl
        | inr d ↦
            rw
              (
                e,
                d,
                target_allowed-has (new_default_policy os) x t,
                star,
                granted_target x t os p0 some_text (differs d),
              )
              (ground arith)
      ]
    ]

all-is_named :
    (os : List PolicyOption) (a : Action) (ls : List String)
    → All (λ l. l ≢ "") ls
    → all (label_allowed (new_default_policy os) a) ls ≡ all (is_named os a) ls
all-is_named os a [] texts = refl
all-is_named os a (l ∷ ls) texts =
    rw (label_allowed-is_named os a l texts.0, all-is_named os a ls texts.1) refl

abbrev pub has_label : List String → Bool
has_label [] = false
has_label (l ∷ ls) = true

-- A side-effecting action is allowed exactly if it has a label that is not blank and the options
-- name each of its labels: for an action with a scope, its target or "*" for that label, where a
-- blank target is never enough.
pub authorize_side_effecting_action-is_named :
    (os : List PolicyOption) (a : Action) (what : String)
    → (authorize_side_effecting_action (new_default_policy os) a what).allowed ≡ (
        has_label (clean_labels a.side_effects)
        && all (is_named os a) (clean_labels a.side_effects))
unfolding authorize_side_effecting_action
authorize_side_effecting_action-is_named os a what =
    by_labels (clean_labels a.side_effects) (clean_labels-texts a.side_effects)
  where
    by_labels :
        (ls : List String)
        → All (λ l. l ≢ "") ls
        → (elim ls as (λ _. Decision) [
          | [] ↦ deny (what ++ " requires explicit side effect labels")
          | label ∷ labels ↦ authorize_labels (new_default_policy os) a what (label ∷ labels)
        ]).allowed
          ≡ (has_label ls && all (is_named os a) ls)
    by_labels [] texts = refl
    by_labels (l ∷ ls) texts =
        authorize_labels-allowed (new_default_policy os) a what (l ∷ ls)
        ∙ all-is_named os a (l ∷ ls) texts
