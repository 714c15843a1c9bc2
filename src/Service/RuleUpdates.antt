-- ===== src/Service/RuleUpdates.antt =====
-- casper_service/main.py: the update of a rule of a policy layer, with the models of its request.
-- Whether re2 accepts a regular expression is the parameter `compiles`.
use doc_chat_template_scc.Common.{
  ℕ, zero, suc, Bool, true, false, not, ◌&&◌, ◌||◌, Option, none, some, List, [], ◌∷◌, String,
  str_eq, if◌then◌else◌, is_empty, update, first,
}
use doc_chat_template_scc.Policy.{Pattern, OptionConstraint, Rule}
use doc_chat_template_scc.Service.Data.{
  RuleRow, no_rule, invalid_rule, Request, ◌>>=◌, ◌>>◌, pure, gets, modify, raise, raise_if, found,
}
use doc_chat_template_scc.Service.Accounts.{signed_in}
use doc_chat_template_scc.Service.Layers.{user_owns_policy_layer_rule, RuleBody, rule_from, has_id}

-- a field of a body: left out, set_to as null, or given with a value
pub data Field (A : Type 0) : Type 0 where
  unset null : Field A
  set_to : A → Field A

-- `PolicyLayerRuleUpdateRequest`
pub record RuleUpdate : Type 0 where
  pub positional_constraints : Field (List Pattern)
  pub option_constraints : Field (List OptionConstraint)
  pub cwd : Field Pattern
  pub tier : Field String

-- `merged.update(body.model_dump(exclude_unset=True))`, for one key; `none` is a null
abbrev pub merged : {A : Type 0} → A → Field A → Option A
merged current unset = some current
merged current null = none
merged current (set_to a) = some a

-- `max_length`
unfoldable pub fits : ℕ → String → Bool
fits n String.[] = true
fits zero (String.◌∷◌ c s) = false
fits (suc n) (String.◌∷◌ c s) = fits n s

abbrev pub fits_if_some : ℕ → Option String → Bool
fits_if_some n none = true
fits_if_some n (some s) = fits n s

-- `not value`
abbrev pub is_blank : Option String → Bool
is_blank none = true
is_blank (some s) = is_empty s

abbrev pub is_resolution : String → Bool
is_resolution s = str_eq s "" || str_eq s "." || str_eq s "$PATH" || str_eq s "MANPATH"

abbrev pub is_tier : String → Bool
is_tier s = str_eq s "allow" || str_eq s "ask" || str_eq s "deny"

-- the UPDATE, which leaves the id, the layer and the position of the rule
abbrev pub set_rule : RuleBody → RuleRow → RuleRow
set_rule body r = record r { rule = rule_from r.rule.id r.rule.position body }

abbrev pub update_with : ℕ → Rule → Option RuleBody → Request Rule
update_with rule_id current none = raise invalid_rule
update_with rule_id current (some body) = do
  modify (λ db. record db { rules = update (has_id rule_id) (set_rule body) db.rules })
  pure (rule_from current.id current.position body)

module _ (compiles : String → Bool) where
  -- the validation of `Pattern`
  unfoldable pub is_valid_pattern : Pattern → Bool
  unfolding fits
  is_valid_pattern p =
      fits 500 p.whitelist
      && fits 500 p.blacklist
      && is_resolution p.path_resolution
      && compiles p.whitelist
      && compiles p.blacklist

  -- the validation of `OptionConstraint`
  unfoldable pub is_valid_option : OptionConstraint → Bool
  unfolding fits is_valid_pattern
  is_valid_option o =
      fits_if_some 16 o.short
      && fits_if_some 64 o.long
      && is_valid_pattern o.pattern
      && not (is_blank o.short && is_blank o.long)

  abbrev pub are_valid_patterns : List Pattern → Bool
  are_valid_patterns [] = true
  are_valid_patterns (p ∷ ps) = is_valid_pattern p && are_valid_patterns ps

  abbrev pub are_valid_options : List OptionConstraint → Bool
  are_valid_options [] = true
  are_valid_options (o ∷ os) = is_valid_option o && are_valid_options os

  -- the validation of `PolicyLayerRuleCreateRequest`
  unfoldable pub is_valid_rule : RuleBody → Bool
  unfolding is_valid_pattern is_valid_option
  is_valid_rule body =
      are_valid_patterns body.positional_constraints
      && are_valid_options body.option_constraints
      && is_valid_pattern body.cwd
      && is_tier body.tier

  -- `PolicyLayerRuleCreateRequest(**merged)`, which refuses a null
  abbrev pub validated :
      Option (List Pattern)
      → Option (List OptionConstraint)
      → Option Pattern
      → Option String
      → Option RuleBody
  validated none options cwd tier = none
  validated (some patterns) none cwd tier = none
  validated (some patterns) (some options) none tier = none
  validated (some patterns) (some options) (some cwd) none = none
  validated (some patterns) (some options) (some cwd) (some tier) =
      let body : RuleBody = record {
        positional_constraints = patterns;
        option_constraints = options;
        cwd = cwd;
        tier = tier;
      } in
      if is_valid_rule body then some body else none

  unfoldable pub revalidated : Rule → RuleUpdate → Option RuleBody
  unfolding is_valid_rule
  revalidated current body =
      validated (merged current.positional_constraints body.positional_constraints)
        (merged current.option_constraints body.option_constraints) (merged current.cwd body.cwd)
        (merged current.tier body.tier)

  module _ (hash_token : List ℕ → String) (authorization : List ℕ) where
    -- The rule that it returns is the row that it updated. The row is there, since the rule is in a
    -- layer of the user's.
    unfoldable pub update_policy_layer_rule : ℕ → ℕ → RuleUpdate → Request Rule
    unfolding signed_in user_owns_policy_layer_rule revalidated
    update_policy_layer_rule layer_id rule_id body = do
      user_id ← signed_in hash_token authorization
      owned ← gets (user_owns_policy_layer_rule user_id layer_id rule_id)
      raise_if (not owned) no_rule
      row ← gets (λ db. first (has_id rule_id) db.rules)
      current ← found row no_rule
      update_with rule_id current.rule (revalidated current.rule body)
