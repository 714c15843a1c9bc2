-- ===== src/Policy/Examples.antt =====
-- Two layers of rules, and what the theorems on policies say of them.
-- `re2.search` is taken to be equality of texts here.
use doc_chat_template_scc.Common.{
  ◌≡◌, refl, Bool, true, false, none, some, List, [], ◌∷◌, String, str_eq, arith,
}
use doc_chat_template_scc.Common.Sort.{IsSorted, sorted}
use doc_chat_template_scc.Policy.{
  Pattern, Rule, CallOption, Layers, Policy, pattern_matches, find_option, compose_policy,
  rule_matches, match_policy,
}
use doc_chat_template_scc.Policy.Matching.{
  rule_matches_iff, match_policy-first, rule_matches-append_blank, rule_matches-append,
}
use doc_chat_template_scc.Common.{map, select}
use doc_chat_template_scc.Common.Sort.{key_is}
use doc_chat_template_scc.Policy.Composition.{
  rules_given, compose_policy-IsSorted, match_policy-compose_policy,
}

abbrev equals : String → String → Bool
equals = str_eq

abbrev only : String → Pattern
only text = record { whitelist = text; blacklist = ""; path_resolution = "" }

abbrev anything : Pattern
anything = only ""

abbrev list_files : Rule
list_files = record {
  id = 1;
  position = 0;
  positional_constraints = only "ls" ∷ [];
  option_constraints =
      (record { short = some "s"; long = some "sort"; pattern = only "time" }) ∷ [];
  cwd = anything;
  tier = "allow";
}

abbrev print_file : Rule
print_file = record {
  id = 2;
  position = 1;
  positional_constraints =
      only "cat"
      ∷ (record { whitelist = "/home/notes"; blacklist = ""; path_resolution = "." })
      ∷ [];
  option_constraints = [];
  cwd = anything;
  tier = "ask";
}

abbrev two_layers : Layers
two_layers = (7, print_file ∷ []) ∷ (3, list_files ∷ []) ∷ []

abbrev by_time : List CallOption
by_time = (record { short = none; long = some "sort"; value = some "time" }) ∷ []

abbrev composed : Policy
composed = (3, list_files) ∷ (7, print_file) ∷ []

composed_test : compose_policy two_layers ≡ composed
unfolding compose_policy sorted
composed_test = refl

list_files_test : rule_matches equals list_files ("ls" ∷ []) by_time "/" ≡ true
unfolding rule_matches pattern_matches find_option
list_files_test = refl

print_file_test : rule_matches equals print_file ("cat" ∷ "notes" ∷ []) [] "/home/" ≡ true
unfolding rule_matches pattern_matches find_option
print_file_test = refl

rule_matches_iff_example : pattern_matches equals "ls" (only "ls") "/" ≡ true
rule_matches_iff_example =
    ((rule_matches_iff equals list_files ("ls" ∷ []) by_time "/").0 list_files_test).1 0 (only "ls")
      refl

match_policy-first_example :
    match_policy equals composed ("cat" ∷ "notes" ∷ []) [] "/home/" ≡ some (7, print_file)
unfolding rule_matches pattern_matches find_option
match_policy-first_example =
    ((match_policy-first equals composed ("cat" ∷ "notes" ∷ []) [] "/home/").0 (7, print_file)).1
      ((3, list_files) ∷ [], [], refl, (refl, tt), print_file_test)

rule_matches-append_blank_example :
    rule_matches equals list_files ("ls" ∷ "" ∷ []) by_time "/"
    ≡ rule_matches equals list_files ("ls" ∷ []) by_time "/"
rule_matches-append_blank_example =
    rule_matches-append_blank equals list_files ("ls" ∷ []) by_time "/"

rule_matches-append_example :
    rule_matches equals list_files ("ls" ∷ "-l" ∷ []) by_time "/"
    ≡ rule_matches equals list_files ("ls" ∷ []) by_time "/"
rule_matches-append_example =
    rule_matches-append equals list_files ("ls" ∷ []) ("-l" ∷ []) by_time "/" (omega arith)

compose_policy-IsSorted_example :
    IsSorted (compose_policy two_layers)
    × (map (λ y. y.1) (select (key_is 7) (compose_policy two_layers)) ≡ rules_given 7 two_layers)
compose_policy-IsSorted_example = compose_policy-IsSorted two_layers 7

match_policy-compose_policy_example :
    rule_matches equals list_files ("cat" ∷ "notes" ∷ []) [] "/home/" ≡ false
unfolding compose_policy sorted match_policy rule_matches pattern_matches find_option
match_policy-compose_policy_example =
    (match_policy-compose_policy equals two_layers ("cat" ∷ "notes" ∷ []) [] "/home/"
        (7, print_file) refl).1.0.0
      (omega arith)
