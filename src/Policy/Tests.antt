-- ===== src/Policy/Tests.antt =====
-- Decisions of small policies, and the theorems of this folder at concrete inputs.
use ouvrier.Base.{
  ◌≡◌, refl, true, false, ◌&&◌, List, [], ◌∷◌, ◌++◌, eq_string, eq_nat, lookup, insert, all,
  trim_space,
}
use ouvrier.Policy.{
  Action, push_webhook, side_effecting, PolicyOption, allow_side_effects, allow_side_effect_targets,
  new_default_policy, authorize_action, authorize_side_effecting_action, clean_labels,
  target_allowed, action_requires_target_scope, authorize_labels,
}
use ouvrier.Policy.Grants.{is_named, has_label, authorize_side_effecting_action-is_named}
use ouvrier.Policy.Widening.{more_options_allow_more}

abbrev notify : List PolicyOption
notify = allow_side_effect_targets " notify " ("https://a.example" ∷ " " ∷ []) ∷ []

abbrev push : Action
push = record {
  kind = push_webhook;
  tool_name = "";
  tool_call_id = "";
  tool_kind = "";
  target = "https://a.example ";
  effect = side_effecting;
  idempotency_key = "";
  side_effects = "notify" ∷ [];
  requires_approval = false;
}

push_allowed : (authorize_action (new_default_policy notify) push).allowed ≡ true
unfolding authorize_action authorize_side_effecting_action authorize_labels new_default_policy
    clean_labels action_requires_target_scope target_allowed lookup insert trim_space
push_allowed = refl

elsewhere_denied :
    (authorize_action
      (new_default_policy notify)
      (record push { target = "https://b.example" })).allowed
    ≡ false
unfolding authorize_action authorize_side_effecting_action authorize_labels new_default_policy
    clean_labels action_requires_target_scope target_allowed lookup insert trim_space
elsewhere_denied = refl

authorize_side_effecting_action-is_named_example :
    (authorize_side_effecting_action (new_default_policy notify) push "webhook push").allowed ≡ (
      has_label (clean_labels push.side_effects)
      && all (is_named notify push) (clean_labels push.side_effects))
authorize_side_effecting_action-is_named_example =
    authorize_side_effecting_action-is_named notify push "webhook push"

more_options_allow_more_example :
    (authorize_action
      (new_default_policy (notify ++ allow_side_effects ("log" ∷ []) ∷ []))
      push).allowed
    ≡ true
more_options_allow_more_example =
    more_options_allow_more notify (allow_side_effects ("log" ∷ []) ∷ []) push push_allowed
