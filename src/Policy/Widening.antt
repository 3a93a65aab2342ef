-- ===== src/Policy/Widening.antt =====
-- More options never take a permission away, and what a decision was allowed for.
use ouvrier.Base.{
  String, ◌≡◌, refl, Bool, true, ◌||◌, List, [], ◌∷◌, ◌++◌, arith, eq_string, eq_nat, all, any,
  trim_space,
}
use ouvrier.Policy.{
  Action, PolicyOption, clean_labels, new_default_policy, authorize_side_effecting_action,
  authorize_action,
}
use ouvrier.Policy.Grants.{names, names_target, is_named, authorize_side_effecting_action-is_named}

any-append {ℓ} :
    {A : Type ℓ} (f : A → Bool) (xs ys : List A) → any f (xs ++ ys) ≡ (any f xs || any f ys)
any-append f [] ys = refl
any-append f (x ∷ xs) ys = ground (arith, any-append f xs ys)

is_named-append :
    (os more : List PolicyOption) (a : Action) (x : String)
    → is_named os a x ≡ true
    → is_named (os ++ more) a x ≡ true
is_named-append os more a x h =
    let t = trim_space a.target in
    rw
      (
        any-append (names x) os more,
        any-append (names_target x t) os more,
        any-append (names_target x "*") os more,
      )
      (ground (arith, h))

all_named-append :
    (os more : List PolicyOption) (a : Action) (ls : List String)
    → all (is_named os a) ls ≡ true
    → all (is_named (os ++ more) a) ls ≡ true
all_named-append os more a [] h = refl
all_named-append os more a (l ∷ ls) h =
    ground (arith, is_named-append os more a l, all_named-append os more a ls)

side_effects_widen :
    (os more : List PolicyOption) (a : Action) (what : String)
    → (authorize_side_effecting_action (new_default_policy os) a what).allowed ≡ true
    → (authorize_side_effecting_action (new_default_policy (os ++ more)) a what).allowed ≡ true
side_effects_widen os more a what h =
    let before = authorize_side_effecting_action-is_named os a what in
    let after = authorize_side_effecting_action-is_named (os ++ more) a what in
    ground (arith, before, after, h, all_named-append os more a (clean_labels a.side_effects))

-- Whatever options are appended to those of a policy, every action that it allowed is still
-- allowed, whatever its kind.
pub more_options_allow_more :
    (os more : List PolicyOption) (a : Action)
    → (authorize_action (new_default_policy os) a).allowed ≡ true
    → (authorize_action (new_default_policy (os ++ more)) a).allowed ≡ true
unfolding authorize_action
more_options_allow_more os more a h = ground (
  arith,
  side_effects_widen os more a "side-effecting tool",
  side_effects_widen os more a "webhook push",
  side_effects_widen os more a "queue push",
  side_effects_widen os more a "file sink",
)
