-- ===== src/Service/Layers.antt =====
-- casper_service/main.py: policy layers, their hosts and their rules.
-- The JSON text of a column is taken to be the value that it was made from.
use doc_chat_template_scc.Common.{
  ℕ, suc, max, Bool, true, ◌&&◌, Option, none, some, List, [], ◌∷◌, ◌++◌, map, String,
  if◌then◌else◌, ◌==◌, length, select, first, update, exists, nocase_eq,
}
use doc_chat_template_scc.Common.Sort.{sorted}
use doc_chat_template_scc.Common.Distinct.{contains}
use doc_chat_template_scc.Policy.{Pattern, OptionConstraint, Rule}
use doc_chat_template_scc.Service.Data.{HostOf, PolicyLayer, LayerHost, RuleRow, Store}

-- `_user_owns_host`
unfoldable pub user_owns_host : ℕ → ℕ → Store → Bool
user_owns_host user_id host_id db =
    exists (λ (h : HostOf). h.user_id == user_id && h.host_id == host_id) db.user_hosts

-- `_user_owns_policy_layer`
unfoldable pub user_owns_policy_layer : ℕ → ℕ → Store → Bool
user_owns_policy_layer user_id layer_id db =
    exists (λ (l : PolicyLayer). l.id == layer_id && l.user_id == user_id) db.policy_layers

-- `_user_owns_policy_layer_rule`
unfoldable pub user_owns_policy_layer_rule : ℕ → ℕ → ℕ → Store → Bool
unfolding user_owns_policy_layer
user_owns_policy_layer_rule user_id layer_id rule_id db =
    exists (λ (r : RuleRow). r.rule.id == rule_id && r.policy_layer_id == layer_id) db.rules
    && user_owns_policy_layer user_id layer_id db

abbrev pub in_layer : ℕ → RuleRow → Bool
in_layer layer_id r = r.policy_layer_id == layer_id

abbrev pub rules_of : ℕ → List RuleRow → List Rule
rules_of layer_id rows = map (λ (r : RuleRow). r.rule) (select (in_layer layer_id) rows)

abbrev pub by_position : List Rule → List (ℕ × Rule)
by_position rules = sorted (map (λ (r : Rule). (r.position, r)) rules)

-- `_policy_layer_rules`: `ORDER BY position`
unfoldable pub policy_layer_rules : ℕ → Store → List Rule
policy_layer_rules layer_id db = map (λ p. p.1) (by_position (rules_of layer_id db.rules))

pub record LayerInfo : Type 0 where
  pub id : ℕ
  pub name : String
  pub rules : List Rule
  pub host_ids : List ℕ

abbrev pub name_of : Option PolicyLayer → String
name_of none = ""
name_of (some l) = l.name

-- `_policy_layer_info`, of a layer that is there
unfoldable pub policy_layer_info : ℕ → Store → LayerInfo
unfolding policy_layer_rules
policy_layer_info layer_id db = record {
  id = layer_id;
  name = name_of (first (λ (l : PolicyLayer). l.id == layer_id) db.policy_layers);
  rules = policy_layer_rules layer_id db;
  host_ids =
      map (λ (h : LayerHost). h.host_id)
        (select (λ (h : LayerHost). h.policy_layer_id == layer_id) db.layer_hosts);
}

-- `COALESCE(MAX(position), -1) + 1`
unfoldable pub next_position : List Rule → ℕ
next_position [] = 0
next_position (r ∷ rs) = max (suc r.position) (next_position rs)

-- the body of a request for a rule
pub record RuleBody : Type 0 where
  pub positional_constraints : List Pattern
  pub option_constraints : List OptionConstraint
  pub cwd : Pattern
  pub tier : String

abbrev pub rule_from : ℕ → ℕ → RuleBody → Rule
rule_from id position body = record {
  id = id;
  position = position;
  positional_constraints = body.positional_constraints;
  option_constraints = body.option_constraints;
  cwd = body.cwd;
  tier = body.tier;
}

abbrev pub insert_rule : ℕ → RuleBody → Store → Store
insert_rule layer_id body db = record db {
  rule_seq = suc db.rule_seq;
  rules =
      db.rules
      ++ (record {
        policy_layer_id = layer_id;
        rule = rule_from (suc db.rule_seq) (next_position (rules_of layer_id db.rules)) body;
      })
        ∷ [];
}

abbrev pub has_id : ℕ → RuleRow → Bool
has_id rule_id r = r.rule.id == rule_id

abbrev pub set_position : ℕ → RuleRow → RuleRow
set_position position r =
    let rule = r.rule in record r { rule = record rule { position = position } }

-- `for position, rule_id in enumerate(rule_ids)`, from a position on
unfoldable pub place_rules : ℕ → List ℕ → List RuleRow → List RuleRow
place_rules position [] rows = rows
place_rules position (rule_id ∷ rule_ids) rows =
    place_rules (suc position) rule_ids (update (has_id rule_id) (set_position position) rows)

abbrev pub covers : List ℕ → List ℕ → Bool
covers ids [] = true
covers ids (x ∷ xs) = contains ids x && covers ids xs

-- the two tests of the ids of a request against the ids of the layer's rules, which are unique
unfoldable pub is_permutation : List ℕ → List ℕ → Bool
is_permutation rule_ids current_ids =
    length rule_ids == length current_ids
    && (covers current_ids rule_ids && covers rule_ids current_ids)

abbrev pub ids_of : List Rule → List ℕ
ids_of rules = map (λ (r : Rule). r.id) rules

abbrev pub named_layer : ℕ → String → PolicyLayer → Bool
named_layer user_id name l = l.user_id == user_id && nocase_eq l.name name

abbrev pub insert_layer : ℕ → String → Store → Store
insert_layer user_id name db = record db {
  policy_layer_seq = suc db.policy_layer_seq;
  policy_layers =
      db.policy_layers
      ++ (record { id = suc db.policy_layer_seq; user_id = user_id; name = name }) ∷ [];
}

-- `INSERT OR IGNORE INTO policy_layer_hosts`
abbrev pub add_layer_host : ℕ → ℕ → Store → Store
add_layer_host layer_id host_id db =
    if exists (λ (h : LayerHost). h.policy_layer_id == layer_id && h.host_id == host_id)
      db.layer_hosts
    then db
    else record db {
      layer_hosts =
          db.layer_hosts ++ (record { policy_layer_id = layer_id; host_id = host_id }) ∷ [];
    }
