-- ===== src/Service/Tokens.antt =====
-- What a login and a revocation make of the tokens.
use doc_chat_template_scc.Common.{
  ℕ, ◌≡◌, ◌≢◌, refl, sym, ap, ◌∙◌, subst, Bool, true, false, Option, none, some, List, [], ◌∷◌,
  String, ◌==◌, first, update, str_eq, eq_iff, Bool-cases, Option-cases, inl, inr, ==_iff,
}
use doc_chat_template_scc.Common.Rows.{Elem, first_found}
use doc_chat_template_scc.Trust.Invites.{is_nil}
use doc_chat_template_scc.Service.Data.{
  Account, Store, Reply, returned, raised, Server, commit, limited,
}
use doc_chat_template_scc.Service.Rates.{Attempts, check_rate_limit}
use doc_chat_template_scc.Service.Accounts.{
  is_token, has_token, Session, bearer, by_token, issue_token, renew, set_token, id_of, verify,
  username_of, resolve_user_id, revoke, open_session, login, by_name,
}

-- `id` is the primary key of `users`.
abbrev pub IsKeyed : List Account → Type 0
IsKeyed accounts = (a b : Account) → Elem a accounts → Elem b accounts → a.id ≡ b.id → a ≡ b

-- The row that an UPDATE gives a digest that no row had is the row with the digest.
first-renew :
    (h : String) (now : ℕ) (a : Account) (xs : List Account)
    → Elem a xs
    → IsKeyed xs
    → first (has_token h) xs ≡ none
    → first (has_token h) (update (λ (x : Account). x.id == a.id) (renew h now) xs)
      ≡ some (renew h now a)
unfolding first update
first-renew h now a [] m k f = absurd m
first-renew h now a (x ∷ xs) m k f = elim (Bool-cases (x.id == a.id)) [
  | inl e ↦
      let same : x ≡ a = k x a (inl refl) m ((==_iff x.id a.id).0 e) in
      let q = (eq_iff h h).1 refl in rw e (rw q (ap (λ y. some (renew h now y)) same))
  | inr e ↦ elim (Bool-cases (has_token h x)) [
    | inl g ↦ let f' : some x ≡ none = rw g at f in absurd (cc)
    | inr g ↦
        let f' : first (has_token h) xs ≡ none = rw g at f in
        elim m [
          | inl s ↦
              let r : (x.id == a.id) ≡ true = (==_iff x.id a.id).1 (ap (λ y. y.id) (sym s)) in
              absurd (let z : true ≡ false = sym r ∙ e in cc)
          | inr m' ↦ rw e (rw g (first-renew h now a xs m' (λ b c i j. k b c (inr i) (inr j)) f'))
        ]
  ]
]

returned_injective : {A : Type 0} {x y : A} → returned x ≡ returned y → x ≡ y
returned_injective h = cc

module _ (hash_token : List ℕ → String) where
  -- a header that carries the token of an account
  abbrev pub Carries : List ℕ → Account → Store → Type 0
  Carries authorization a db =
      (verify hash_token authorization db ≡ some a.username)
      × (resolve_user_id hash_token authorization db ≡ some a.id)

  issue_token-Carries :
      (a : Account) (now : ℕ) (authorization : List ℕ) (db : Store)
      → IsKeyed db.accounts
      → Elem a db.accounts
      → by_token hash_token (bearer authorization) db ≡ none
      → is_nil (bearer authorization) ≡ false
      → Carries authorization a (set_token a.id (hash_token (bearer authorization)) now db)
  unfolding verify resolve_user_id
  issue_token-Carries a now authorization db keyed there fresh real =
      let token = bearer authorization in
      let e = first-renew (hash_token token) now a db.accounts there keyed fresh in
      rw real (ap username_of e, ap id_of e)

  module _ (check_password : String → String → Bool) where
    open_session-Carries :
        (username password : String) (now : ℕ) (authorization : List ℕ) (db db' : Store)
        (s : Session)
        → IsKeyed db.accounts
        → by_token hash_token (bearer authorization) db ≡ none
        → is_nil (bearer authorization) ≡ false
        → open_session hash_token check_password username password now (bearer authorization) db
          ≡ returned (s, db')
        → (a : Account) × (by_name username db ≡ some a)
          × (s.username ≡ a.username)
          × (check_password password a.password_hash ≡ true)
          × Carries authorization a db'
    unfolding open_session issue_token
    open_session-Carries username password now authorization db db' s keyed fresh real h =
        elim (Option-cases (by_name username db)) [
          | inl e ↦ absurd (let k = rw e at h in cc)
          | inr (a, e) ↦ elim (Bool-cases (check_password password a.password_hash)) [
            | inl p ↦
                let token = bearer authorization in
                let S : Session = record { username = a.username; token = token } in
                let D = set_token a.id (hash_token token) now db in
                let k : returned (S, D) ≡ returned (s, db') = rw p at (rw e at h) in
                let (x, there) = first_found _ db.accounts a e in
                let c = issue_token-Carries a now authorization db keyed there fresh real in
                let pairs : (S, D) ≡ (s, db') = returned_injective k in
                let es : S ≡ s = ap (λ r. r.0) pairs in
                let ed : D ≡ db' = ap (λ r. r.1) pairs in
                (a, e, sym (ap (λ y. y.username) es), p, subst (Carries authorization a) ed c)
            | inr p ↦ absurd (let k = rw p at (rw e at h) in cc)
          ]
        ]

    -- A login that returns has checked the password of the account with the name, and has given out a
    -- token of it: a header that carries the token verifies, under the account's own spelling of its
    -- name, and resolves to its id. The ids of the accounts are unique, and the token that is drawn is
    -- not empty and has a digest that no account has.
    pub login-Carries :
        (ip username password : String) (now : ℕ) (authorization : List ℕ) (s s' : Server)
        (x : Session)
        → IsKeyed s.store.accounts
        → by_token hash_token (bearer authorization) s.store ≡ none
        → is_nil (bearer authorization) ≡ false
        → login hash_token check_password ip username password now (bearer authorization) s
          ≡ (returned x, s')
        → (a : Account) × (by_name username s.store ≡ some a)
          × (x.username ≡ a.username)
          × (check_password password a.password_hash ≡ true)
          × Carries authorization a s'.store
    unfolding login limited
    login-Carries ip username password now authorization s s' x keyed fresh real h =
        let m =
          open_session hash_token check_password username password now (bearer authorization) in
        elim (Option-cases (check_rate_limit now ip s.attempts)) [
          | inl e ↦ absurd (let k = rw e at h in cc)
          | inr (attempts, e) ↦
              let k : commit (m s.store) (record s { attempts = attempts }) ≡ (returned x, s') =
                rw e at h in
              after_commit (m s.store) attempts k refl
        ]
      where
        after_commit :
            (r : Reply (Session × Store)) (attempts : Attempts)
            → commit r (record s { attempts = attempts }) ≡ (returned x, s')
            → open_session hash_token check_password username password now
                (bearer authorization)
                s.store
              ≡ r
            → (a : Account) × (by_name username s.store ≡ some a)
              × (x.username ≡ a.username)
              × (check_password password a.password_hash ≡ true)
              × Carries authorization a s'.store
        after_commit (returned (y, db)) attempts k e =
            let same : y ≡ x = cc in
            let kept : db ≡ s'.store = ap (λ r. r.1.store) k in
            open_session-Carries username password now authorization s.store s'.store x keyed fresh
              real (e ∙ rw same (rw kept refl))
        after_commit (raised z) attempts k e = absurd (cc)

  abbrev forget : Account → Account
  forget a = record a { token_hash = none }

  first-forget :
      (h : String) (xs : List Account) → first (has_token h) (update (has_token h) forget xs) ≡ none
  unfolding first update
  first-forget h [] = refl
  first-forget h (a ∷ xs) = elim (Bool-cases (has_token h a)) [
    | inl e ↦ rw e (first-forget h xs)
    | inr e ↦ rw e (rw e (first-forget h xs))
  ]

  is_token-apart :
      (g h : String) (t : Option String) → g ≢ h → is_token h t ≡ true → is_token g t ≡ false
  is_token-apart g h none n k = absurd (cc)
  is_token-apart g h (some t) n k = elim (Bool-cases (str_eq t g)) [
    | inl e ↦ absurd (let p = (eq_iff t g).0 e in let q = (eq_iff t h).0 k in n (sym p ∙ q))
    | inr e ↦ e
  ]

  first-forget_others :
      (g h : String) (xs : List Account)
      → g ≢ h
      → first (has_token g) (update (has_token h) forget xs) ≡ first (has_token g) xs
  unfolding first update
  first-forget_others g h [] n = refl
  first-forget_others g h (a ∷ xs) n = elim (Bool-cases (has_token h a)) [
    | inl e ↦
        let f : has_token g a ≡ false = is_token-apart g h a.token_hash n e in
        rw e (rw f (first-forget_others g h xs n))
    | inr e ↦ rw e (rw (first-forget_others g h xs n) refl)
  ]

  -- A revocation returns. A header that carries the revoked token no longer verifies, and a header
  -- whose token has another digest verifies, or fails to, as before.
  pub revoke-verify :
      (authorization other : List ℕ) (db : Store)
      → hash_token (bearer other) ≢ hash_token (bearer authorization)
      → (db' : Store) × (revoke hash_token authorization db ≡ returned (tt, db'))
        × (verify hash_token authorization db' ≡ none)
        × (verify hash_token other db' ≡ verify hash_token other db)
  unfolding revoke verify
  revoke-verify authorization other db n = elim (Bool-cases (is_nil (bearer authorization))) [
    | inl e ↦ (db, rw e refl, rw e refl, refl)
    | inr e ↦
        let h = hash_token (bearer authorization) in
        let db' : Store = record db { accounts = update (has_token h) forget db.accounts } in
        (
          db',
          rw e refl,
          rw e (ap username_of (first-forget h db.accounts)),
          rw (first-forget_others (hash_token (bearer other)) h db.accounts n) refl,
        )
  ]
