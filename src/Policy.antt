-- ===== src/Policy.antt =====
-- casper_service/policy.py, with the data of its rules (casper_service/models.py).
-- A regular expression is matched by google-re2, which is not part of the program: `search` stands
-- for `re2.search(pattern, value)`, as a truth value. Patterns and values are native texts.
pub mod Matching
pub mod Composition
pub mod Describe
mod Examples
use Prim.Native.String
use doc_chat_template_scc.Common.{
  ℕ, suc, Bool, true, false, not, ◌&&◌, ◌||◌, Option, none, some, List, [], ◌∷◌, ◌++◌, map, String,
  str_eq, if◌then◌else◌, get_elem?, is_empty, starts_with_slash, rstrip_slash,
}
use doc_chat_template_scc.Common.Sort.{sorted}

pub record Pattern : Type 0 where
  pub whitelist : String
  pub blacklist : String
  pub path_resolution : String

pub record OptionConstraint : Type 0 where
  pub short : Option String
  pub long : Option String
  pub pattern : Pattern

pub record Rule : Type 0 where
  pub id : ℕ
  pub position : ℕ
  pub positional_constraints : List Pattern
  pub option_constraints : List OptionConstraint
  pub cwd : Pattern
  pub tier : String

-- an option of a call: a dictionary with any of these keys
pub record CallOption : Type 0 where
  pub short : Option String
  pub long : Option String
  pub value : Option String

-- `name and opt.get(key) == name`
abbrev pub named : Option String → Option String → Bool
named none _ = false
named (some name) none = false
named (some name) (some given) = not (is_empty name) && str_eq given name

-- `_find_option`
pub find_option : List CallOption → Option String → Option String → Option CallOption
find_option [] short long = none
find_option (opt ∷ options) short long =
    if named short opt.short || named long opt.long
    then some opt
    else find_option options short long

-- a value that is missing is matched as ""
abbrev pub or_blank : Option String → String
or_blank none = ""
or_blank (some v) = v

-- `positional_args[i] if i < len(positional_args) else ""`
abbrev pub arg_at : List String → ℕ → String
arg_at args i = or_blank (get_elem? args i)

-- the value that a pattern is matched against: "." joins a relative path to the directory
pub resolve_value : String → Pattern → String → String
unfolding rstrip_slash
resolve_value value pattern cwd =
    if str_eq pattern.path_resolution "." && not (is_empty value) && not (starts_with_slash value)
    then (if is_empty cwd then value else String.◌++◌ (rstrip_slash cwd) (String.◌++◌ "/" value))
    else value

-- the layers of a policy, each with its id
abbrev pub Layers : Type 0
Layers = List (ℕ × List Rule)

-- a composed policy: each rule with the id of its layer
abbrev pub Policy : Type 0
Policy = List (ℕ × Rule)

abbrev pub tag_rules : ℕ → List Rule → Policy
tag_rules layer_id rules = map (λ rule. (layer_id, rule)) rules

pub extend_layers : Layers → Policy
extend_layers [] = []
extend_layers ((layer_id, rules) ∷ layers) = tag_rules layer_id rules ++ extend_layers layers

-- `compose_policy`
pub compose_policy : Layers → Policy
unfolding extend_layers sorted
compose_policy layers = extend_layers (sorted layers)

module _ (search : String → String → Bool) where
  -- `_pattern_matches`
  pub pattern_matches : String → Pattern → String → Bool
  unfolding resolve_value
  pattern_matches value pattern cwd =
      let v = resolve_value value pattern cwd in
      if not (is_empty pattern.whitelist) && not (search pattern.whitelist v)
      then false
      else if not (is_empty pattern.blacklist) && search pattern.blacklist v
      then false
      else true

  -- the loop over `positional_constraints`, from the index `i` on
  pub positional_match : ℕ → List Pattern → List String → String → Bool
  positional_match i [] args cwd = true
  positional_match i (pattern ∷ patterns) args cwd =
      if pattern_matches (arg_at args i) pattern cwd
      then positional_match (suc i) patterns args cwd
      else false

  -- one round of the loop over `option_constraints`
  pub option_match : OptionConstraint → List CallOption → String → Bool
  option_match constraint options cwd =
      elim (find_option options constraint.short constraint.long) [
        | none ↦ false
        | some supplied ↦ pattern_matches (or_blank supplied.value) constraint.pattern cwd
      ]

  pub options_match : List OptionConstraint → List CallOption → String → Bool
  unfolding option_match
  options_match [] options cwd = true
  options_match (constraint ∷ constraints) options cwd =
      if option_match constraint options cwd then options_match constraints options cwd else false

  -- `_rule_matches`: the directory is matched raw, against no directory
  pub rule_matches : Rule → List String → List CallOption → String → Bool
  unfolding positional_match options_match
  rule_matches rule args options cwd =
      if not (pattern_matches cwd rule.cwd "")
      then false
      else if not (positional_match 0 rule.positional_constraints args cwd)
      then false
      else options_match rule.option_constraints options cwd

  -- `match_policy`: `none` is the pair `(None, None)`, the terminal deny
  pub match_policy : Policy → List String → List CallOption → String → Option (ℕ × Rule)
  match_policy [] args options cwd = none
  match_policy ((layer_id, rule) ∷ composed) args options cwd =
      if rule_matches rule args options cwd
      then some (layer_id, rule)
      else match_policy composed args options cwd
