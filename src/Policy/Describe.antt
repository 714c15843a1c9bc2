-- ===== src/Policy/Describe.antt =====
-- The rendering of rules in prose: the end of casper_service/policy.py.
-- `repr` stands for Python's `repr` of a text.
use Prim.Native.String
use doc_chat_template_scc.Common.{
  ℕ, zero, suc, Bool, true, false, not, ◌&&◌, ◌||◌, Option, none, some, List, [], ◌∷◌, ◌++◌, String,
  str_eq, if◌then◌else◌, is_empty, show_nat,
}
use doc_chat_template_scc.Policy.{Pattern, OptionConstraint, Rule, or_blank}

-- `BLACKLIST_MATCHES_NOTHING`
abbrev pub blacklist_matches_nothing : String
blacklist_matches_nothing = "[^\\s\\S]"

abbrev pub has_blacklist : Pattern → Bool
has_blacklist p = not (is_empty p.blacklist) && not (str_eq p.blacklist blacklist_matches_nothing)

abbrev pub part_if : Bool → String → List String
part_if true text = text ∷ []
part_if false text = []

-- `separator.join(parts)`
unfoldable pub join : String → List String → String
join separator [] = ""
join separator (x ∷ []) = x
join separator (x ∷ y ∷ xs) = String.◌++◌ x (String.◌++◌ separator (join separator (y ∷ xs)))

abbrev pub join_or : String → String → List String → String
join_or separator otherwise [] = otherwise
join_or separator otherwise (x ∷ xs) = join separator (x ∷ xs)

-- the name of an option in prose
abbrev pub prose_name : String → String → String
prose_name long short =
    if not (is_empty long) && not (is_empty short)
    then String.◌++◌ "--" (String.◌++◌ long (String.◌++◌ "/-" short))
    else if not (is_empty long)
    then String.◌++◌ "--" long
    else String.◌++◌ "-" short

-- `opt.short` in an f-string: a missing name is "None"
abbrev pub short_text : Option String → String
short_text none = "None"
short_text (some s) = s

abbrev pub option_text : Option String → Option String → String
option_text long none = prose_name (or_blank long) ""
option_text long (some s) = prose_name (or_blank long) s

abbrev pub named_option : Option String → Option String → String
named_option long short =
    if is_empty (or_blank long) then String.◌++◌ "-" (short_text short) else option_text long short

abbrev pub position_label : ℕ → String
position_label zero = "binary (always checked against its $PATH-resolved path)"
position_label (suc i) = String.◌++◌ "position " (show_nat (suc i))

abbrev pub line : String → String → String
line label text = String.◌++◌ label (String.◌++◌ ": " text)

module _ (repr : String → String) where
  unfoldable pub describe_pattern : Pattern → String
  unfolding join
  describe_pattern p =
      if str_eq p.whitelist "^$" && not (has_blacklist p)
      then "value not allowed"
      else join_or ", " "value not required" (
          part_if (not (is_empty p.whitelist)) (String.◌++◌ "must match " (repr p.whitelist))
          ++ (part_if (has_blacklist p) (String.◌++◌ "must not match " (repr p.blacklist))
              ++ part_if (not (is_empty p.path_resolution)) (
                  String.◌++◌ "checked against its "
                    (String.◌++◌ (repr p.path_resolution) "-resolved value"))))

  unfoldable pub position_lines : ℕ → List Pattern → List String
  unfolding describe_pattern
  position_lines i [] = []
  position_lines i (p ∷ ps) =
      line (position_label i) (describe_pattern p) ∷ position_lines (suc i) ps

  unfoldable pub option_lines : List OptionConstraint → List String
  unfolding describe_pattern
  option_lines [] = []
  option_lines (c ∷ cs) =
      line (String.◌++◌ "option " (named_option c.long c.short)) (describe_pattern c.pattern)
      ∷ option_lines cs

  unfoldable pub describe_rule : Rule → String
  unfolding position_lines option_lines
  describe_rule rule = String.◌++◌ "tier=" (
      line rule.tier (
        join_or "; " "(no constraints)" (
          position_lines 0 rule.positional_constraints
          ++ (option_lines rule.option_constraints
              ++ part_if (not (is_empty rule.cwd.whitelist) || has_blacklist rule.cwd)
                  (line "cwd" (describe_pattern rule.cwd))))))
