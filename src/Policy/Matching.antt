-- ===== src/Policy/Matching.antt =====
-- What it means that a call matches a rule, and which rule of a policy decides a call.
use doc_chat_template_scc.Common.{
  ℕ, zero, suc, ◌+◌, ◌≤◌, ◌<◌, append-nil, ◌≡◌, ◌↔◌, refl, ap, Bool, true, false, none, some, List,
  [], ◌∷◌, ◌++◌, arith, String, get_elem?, length, All, Bool-cases, inl, inr,
}
use doc_chat_template_scc.Policy.{
  Pattern, OptionConstraint, Rule, CallOption, Policy, find_option, or_blank, arg_at,
  pattern_matches, positional_match, options_match, rule_matches, match_policy,
}

arg_at-append_blank : (args : List String) (i : ℕ) → arg_at (args ++ "" ∷ []) i ≡ arg_at args i
arg_at-append_blank [] zero = refl
arg_at-append_blank [] (suc i) = refl
arg_at-append_blank (a ∷ args) zero = refl
arg_at-append_blank (a ∷ args) (suc i) = arg_at-append_blank args i

arg_at-append :
    (args more : List String) (i : ℕ) → i < length args → arg_at (args ++ more) i ≡ arg_at args i
arg_at-append [] more i h = absurd (omega arith)
arg_at-append (a ∷ args) more zero h = refl
arg_at-append (a ∷ args) more (suc i) h = arg_at-append args more i (omega arith)

module _ (search : String → String → Bool) where
  -- Every positional constraint is met by the argument in its place, from `i` on.
  abbrev PositionsMatch : ℕ → List Pattern → List String → String → Type 0
  PositionsMatch i patterns args cwd =
      (j : ℕ) (p : Pattern)
      → get_elem? patterns j ≡ some p
      → pattern_matches search (arg_at args (i + j)) p cwd ≡ true

  positional_match-PositionsMatch :
      (i : ℕ) (patterns : List Pattern) (args : List String) (cwd : String)
      → positional_match search i patterns args cwd ≡ true
      → PositionsMatch i patterns args cwd
  unfolding positional_match
  positional_match-PositionsMatch i [] args cwd h j p e = cc
  positional_match-PositionsMatch i (q ∷ qs) args cwd h zero p e =
      let e0 : i + 0 ≡ i = omega arith in ground arith
  positional_match-PositionsMatch i (q ∷ qs) args cwd h (suc j) p e =
      let e0 : i + suc j ≡ suc i + j = omega arith in
      rw e0 (positional_match-PositionsMatch (suc i) qs args cwd (ground arith) j p e)

  PositionsMatch-positional_match :
      (i : ℕ) (patterns : List Pattern) (args : List String) (cwd : String)
      → PositionsMatch i patterns args cwd
      → positional_match search i patterns args cwd ≡ true
  unfolding positional_match
  PositionsMatch-positional_match i [] args cwd h = refl
  PositionsMatch-positional_match i (q ∷ qs) args cwd h =
      let e0 : i + 0 ≡ i = omega arith in
      let head : pattern_matches search (arg_at args i) q cwd ≡ true = rw e0 at (h 0 q refl) in
      rw head (
        PositionsMatch-positional_match (suc i) qs args cwd
          λ j p e. let e1 : i + suc j ≡ suc i + j = omega arith in rw e1 at (h (suc j) p e))

  -- Only the arguments at the constraints' own indices count.
  positional_match_congr :
      (i : ℕ) (patterns : List Pattern) (args args' : List String) (cwd : String)
      → ((j : ℕ) → j < i + length patterns → arg_at args j ≡ arg_at args' j)
      → positional_match search i patterns args cwd ≡ positional_match search i patterns args' cwd
  unfolding positional_match
  positional_match_congr i [] args args' cwd h = refl
  positional_match_congr i (q ∷ qs) args args' cwd h =
      rw (
        h i (omega arith),
        positional_match_congr (suc i) qs args args' cwd λ j k. h j (omega arith),
      )

  -- Every option constraint is met by the option of the call that it names.
  abbrev OptionsMatch : List OptionConstraint → List CallOption → String → Type 0
  OptionsMatch constraints options cwd =
      All
        (λ c.
          (o : CallOption) × (find_option options c.short c.long ≡ some o)
          × (pattern_matches search (or_blank o.value) c.pattern cwd ≡ true))
        constraints

  options_match-OptionsMatch :
      (constraints : List OptionConstraint) (options : List CallOption) (cwd : String)
      → options_match search constraints options cwd ≡ true
      → OptionsMatch constraints options cwd
  unfolding options_match
  options_match-OptionsMatch [] options cwd h = tt
  options_match-OptionsMatch (c ∷ cs) options cwd h =
      (ground arith, options_match-OptionsMatch cs options cwd (ground arith))

  OptionsMatch-options_match :
      (constraints : List OptionConstraint) (options : List CallOption) (cwd : String)
      → OptionsMatch constraints options cwd
      → options_match search constraints options cwd ≡ true
  unfolding options_match
  OptionsMatch-options_match [] options cwd h = refl
  OptionsMatch-options_match (c ∷ cs) options cwd (h, hs) =
      ground (arith, OptionsMatch-options_match cs options cwd hs)

  -- A rule matches a call exactly when the call's directory, taken raw, passes the rule's pattern
  -- for it, each positional constraint is met by the argument with its index (by the empty text
  -- where the call has no such argument), and each option constraint finds an option with its
  -- short or long name whose value (the empty text, where it has none) meets its pattern.
  pub rule_matches_iff :
      (rule : Rule) (args : List String) (options : List CallOption) (cwd : String)
      → (rule_matches search rule args options cwd ≡ true) ↔ (
          (pattern_matches search cwd rule.cwd "" ≡ true)
          × ((j : ℕ) (p : Pattern)
              → get_elem? rule.positional_constraints j ≡ some p
              → pattern_matches search (arg_at args j) p cwd ≡ true)
          × OptionsMatch rule.option_constraints options cwd)
  unfolding rule_matches
  rule_matches_iff rule args options cwd =
      let positions = rule.positional_constraints in
      (
        λ h. (
          ground arith,
          λ j p e.
              let e0 : 0 + j ≡ j = omega arith in
              rw e0 at (positional_match-PositionsMatch 0 positions args cwd (ground arith) j p e),
          options_match-OptionsMatch rule.option_constraints options cwd (ground arith),
        ),
        λ (dir, pos, opts).
            let met : positional_match search 0 positions args cwd ≡ true =
              PositionsMatch-positional_match 0 positions args cwd
                λ j p e. let e0 : 0 + j ≡ j = omega arith in rw e0 (pos j p e) in
            ground (arith, OptionsMatch-options_match rule.option_constraints options cwd opts),
      )

  -- No rule of the policy matches.
  abbrev pub NoneMatch : Policy → List String → List CallOption → String → Type 0
  NoneMatch composed args options cwd =
      All (λ x. rule_matches search x.1 args options cwd ≡ false) composed

  abbrev pub DecidedBy : Policy → List String → List CallOption → String → ℕ × Rule → Type 0
  DecidedBy composed args options cwd x =
      (pre post : Policy) × (composed ≡ pre ++ x ∷ post)
      × NoneMatch pre args options cwd
      × (rule_matches search x.1 args options cwd ≡ true)

  match_policy-some :
      (composed : Policy) (args : List String) (options : List CallOption) (cwd : String)
      (x : ℕ × Rule)
      → match_policy search composed args options cwd ≡ some x
      → DecidedBy composed args options cwd x
  unfolding match_policy
  match_policy-some [] args options cwd x h = cc
  match_policy-some (y ∷ ys) args options cwd x h =
      elim (Bool-cases (rule_matches search y.1 args options cwd)) [
        | inl e ↦ let q : y ≡ x = ground arith in ([], ys, ap (λ z. z ∷ ys) q, tt, rw q at e)
        | inr e ↦
            let (pre, post, split, before, hit) =
              match_policy-some ys args options cwd x (ground arith) in
            (y ∷ pre, post, ap (λ zs. y ∷ zs) split, (e, before), hit)
      ]

  match_policy-skip :
      (pre post : Policy) (args : List String) (options : List CallOption) (cwd : String)
      → NoneMatch pre args options cwd
      → match_policy search (pre ++ post) args options cwd
        ≡ match_policy search post args options cwd
  unfolding match_policy
  match_policy-skip [] post args options cwd h = refl
  match_policy-skip (y ∷ ys) post args options cwd h =
      ground (arith, match_policy-skip ys post args options cwd h.1)

  match_policy-none :
      (composed : Policy) (args : List String) (options : List CallOption) (cwd : String)
      → match_policy search composed args options cwd ≡ none
      → NoneMatch composed args options cwd
  unfolding match_policy
  match_policy-none [] args options cwd h = tt
  match_policy-none (y ∷ ys) args options cwd h =
      (ground arith, match_policy-none ys args options cwd (ground arith))

  -- The first rule that matches decides a call: the answer is a rule (with its layer's id) exactly
  -- when the policy splits at that rule into rules in front that do not match and the rest, and the
  -- rule itself matches; it is the terminal deny exactly when no rule of the policy matches.
  pub match_policy-first :
      (composed : Policy) (args : List String) (options : List CallOption) (cwd : String)
      → ((x : ℕ × Rule)
          → (match_policy search composed args options cwd ≡ some x)
            ↔ DecidedBy composed args options cwd x)
        × ((match_policy search composed args options cwd ≡ none)
            ↔ NoneMatch composed args options cwd)
  unfolding match_policy
  match_policy-first composed args options cwd = (
    λ x. (
      match_policy-some composed args options cwd x,
      λ (pre, post, split, before, hit).
          rw split (rw (match_policy-skip pre (x ∷ post) args options cwd before) (rw hit)),
    ),
    (
      match_policy-none composed args options cwd,
      λ h. let step = match_policy-skip composed [] args options cwd h in rw append-nil at step,
    ),
  )

  -- An argument that is missing is the empty text: a call with one more argument, the empty text,
  -- matches the same rules.
  pub rule_matches-append_blank :
      (rule : Rule) (args : List String) (options : List CallOption) (cwd : String)
      → rule_matches search rule (args ++ "" ∷ []) options cwd
        ≡ rule_matches search rule args options cwd
  unfolding rule_matches
  rule_matches-append_blank rule args options cwd =
      rw
        (positional_match_congr 0 rule.positional_constraints (args ++ "" ∷ []) args cwd
          (λ i _. arg_at-append_blank args i))
        refl

  -- Arguments behind the last constraint are not looked at: a call that has an argument for every
  -- constraint matches the same rules with any further arguments.
  pub rule_matches-append :
      (rule : Rule) (args more : List String) (options : List CallOption) (cwd : String)
      → length rule.positional_constraints ≤ length args
      → rule_matches search rule (args ++ more) options cwd
        ≡ rule_matches search rule args options cwd
  unfolding rule_matches
  rule_matches-append rule args more options cwd h =
      rw
        (positional_match_congr 0 rule.positional_constraints (args ++ more) args cwd
          (λ i k. arg_at-append args more i (omega arith)))
        refl
