-- ===== src/Service/Forgetting.antt =====
-- What forgetting a host leaves.
use doc_chat_template_scc.Common.{
  ℕ, ◌≡◌, ◌≢◌, refl, sym, ap, ◌∙◌, Bool, true, false, not, ◌&&◌, Option, none, some, List, String,
  ◌==◌, ==_iff, select, first, exists, exists_congr, exists_false, Bool-cases, inl, inr, and-left,
  and-right, and-false, str_eq,
}
use doc_chat_template_scc.Common.Rows.{exists-select}
use doc_chat_template_scc.Service.Data.{
  HostRow, HostOf, Environment, EnvironmentHost, Store, returned,
}
use doc_chat_template_scc.Service.Accounts.{resolve_user_id, signed_in}
use doc_chat_template_scc.Service.Layers.{user_owns_host}
use doc_chat_template_scc.Service.Hosts.{of_user, is_pairing, unpair, forget_host}

pub deleted_is_gone :
    {A : Type 0} (p : A → Bool) (xs : List A) → exists p (select (λ x. not (p x)) xs) ≡ false
deleted_is_gone p xs = exists-select _ p xs ∙ exists_false _ xs (λ x. contradiction (p x))
  where
    contradiction : (b : Bool) → (not b && b) ≡ false
    contradiction true = refl
    contradiction false = refl

deleted_spares :
    {A : Type 0} (p q : A → Bool) (xs : List A)
    → ((x : A) → q x ≡ true → p x ≡ false)
    → exists q (select (λ x. not (p x)) xs) ≡ exists q xs
deleted_spares {A = A} p q xs h = exists-select _ q xs ∙ exists_congr _ q xs spared
  where
    spared : (x : A) → (not (p x) && q x) ≡ q x
    spared x = elim (Bool-cases (q x)) [
      | inl e ↦ rw (h x e) refl
      | inr e ↦ rw e (elim (Bool-cases (p x)) [ inl f ↦ rw f refl | inr f ↦ rw f refl ])
    ]

-- the user has the host in one of his environments
abbrev pub in_environment : ℕ → ℕ → Store → EnvironmentHost → Bool
in_environment user_id host_id db x =
    x.host_id == host_id
    && exists (λ (e : Environment). e.id == x.environment_id && e.user_id == user_id)
        db.environments

-- a link of the host `h` to the environment `e`, which is none of the user's
abbrev pub in_environment_of_others : ℕ → ℕ → ℕ → Store → EnvironmentHost → Bool
in_environment_of_others user_id e h db x =
    (x.environment_id == e && x.host_id == h)
    && not (
        exists (λ (y : Environment). y.id == x.environment_id && y.user_id == user_id)
          db.environments)

abbrev pub is_paired_to : ℕ → Option HostRow → Store → Bool
is_paired_to user_id none db = false
is_paired_to user_id (some h) db = exists (is_pairing h.routing_key user_id) db.host_pairings

module _ (hash_token : List ℕ → String) (authorization : List ℕ) where
  unpair-user_hosts :
      (u : ℕ) (h : Option HostRow) (db : Store)
      → (unpair hash_token authorization u h db).user_hosts ≡ db.user_hosts
  unpair-user_hosts u none db = refl
  unpair-user_hosts u (some h) db = refl

  unpair-environments :
      (u host_id : ℕ) (h : Option HostRow) (db : Store)
      → (let db' = unpair hash_token authorization u h db in
          exists (in_environment u host_id db') db'.environment_hosts
          ≡ exists (in_environment u host_id db) db.environment_hosts)
  unpair-environments u host_id none db = refl
  unpair-environments u host_id (some h) db = refl

  is_paired_to-unpair :
      (u : ℕ) (h : Option HostRow) (db : Store)
      → is_paired_to u h (unpair hash_token authorization u h db) ≡ false
  is_paired_to-unpair u none db = refl
  is_paired_to-unpair u (some h) db = deleted_is_gone (is_pairing h.routing_key u) db.host_pairings

  unpair_spares :
      (u : ℕ) (h : Option HostRow) (db : Store) (key : String) (other : ℕ)
      → other ≢ u
      → exists (is_pairing key other) (unpair hash_token authorization u h db).host_pairings
        ≡ exists (is_pairing key other) db.host_pairings
  unpair_spares u none db key other apart = refl
  unpair_spares u (some h) db key other apart =
      deleted_spares (is_pairing h.routing_key u) (is_pairing key other) db.host_pairings λ x k.
        elim (Bool-cases (x.user_id == u)) [
          | inl e ↦
              let o =
                (==_iff x.user_id other).0
                  (and-right (str_eq x.routing_key key) (x.user_id == other) k) in
              absurd (apart (sym o ∙ (==_iff x.user_id u).0 e))
          | inr e ↦ rw e (and-false (str_eq x.routing_key h.routing_key))
        ]

  unpair-in_environment_of_others :
      (u : ℕ) (h : Option HostRow) (db : Store) (e host : ℕ)
      → (let db' = unpair hash_token authorization u h db in
          exists (in_environment_of_others u e host db') db'.environment_hosts
          ≡ exists (in_environment_of_others u e host db) db.environment_hosts)
  unpair-in_environment_of_others u none db e host = refl
  unpair-in_environment_of_others u (some h) db e host = refl

  others_environments_spared :
      (u host_id e host : ℕ) (db : Store)
      → exists
          (in_environment_of_others u e host db)
          (select (λ x. not (in_environment u host_id db x)) db.environment_hosts)
        ≡ exists (in_environment_of_others u e host db) db.environment_hosts
  others_environments_spared u host_id e host db =
      deleted_spares (in_environment u host_id db) (in_environment_of_others u e host db)
        db.environment_hosts
        λ x k.
          let his =
            exists (λ (y : Environment). y.id == x.environment_id && y.user_id == u)
              db.environments in
          rw (not_true his (and-right (x.environment_id == e && x.host_id == host) (not his) k))
            (and-false (x.host_id == host_id))
    where
      not_true : (b : Bool) → not b ≡ true → b ≡ false
      not_true false h = refl
      not_true true h = absurd (let t : true ≡ false = sym h in cc)

  -- Forgetting a host by a user who knows it returns. The user no longer knows the host, is not paired
  -- to it, and has it in no environment. What others have is untouched: another user knows the hosts
  -- that he knew, any other user's pairing with any routing key is there if it was, and so is any
  -- host's link to an environment that is none of the user's.
  pub forget_host-forgets :
      (host_id : ℕ) (db : Store) (user_id other other_host : ℕ) (key : String) (environment_id : ℕ)
      → resolve_user_id hash_token authorization db ≡ some user_id
      → user_owns_host user_id host_id db ≡ true
      → other ≢ user_id
      → (db' : Store) × (forget_host hash_token authorization host_id db ≡ returned (tt, db'))
        × (user_owns_host user_id host_id db' ≡ false)
        × (is_paired_to user_id (first (λ (h : HostRow). h.id == host_id) db.hosts) db' ≡ false)
        × (exists (in_environment user_id host_id db') db'.environment_hosts ≡ false)
        × (user_owns_host other other_host db' ≡ user_owns_host other other_host db)
        × (exists (is_pairing key other) db'.host_pairings
            ≡ exists (is_pairing key other) db.host_pairings)
        × (exists
              (in_environment_of_others user_id environment_id other_host db')
              db'.environment_hosts
            ≡ exists
                (in_environment_of_others user_id environment_id other_host db)
                db.environment_hosts)
  unfolding forget_host signed_in user_owns_host
  forget_host-forgets host_id db user_id other other_host key environment_id known owned apart =
      let row = first (λ (h : HostRow). h.id == host_id) db.hosts in
      let db1 : Store = record db {
        environment_hosts =
            select (λ x. not (in_environment user_id host_id db x)) db.environment_hosts;
        user_hosts = select (λ h. not (of_user user_id host_id h)) db.user_hosts;
      } in
      let db' = unpair hash_token authorization user_id row db1 in
      let users = unpair-user_hosts user_id row db1 in
      (
        db',
        rw known (rw owned refl),
        ap (exists (of_user user_id host_id)) users
            ∙ deleted_is_gone (of_user user_id host_id) db.user_hosts,
        is_paired_to-unpair user_id row db1,
        unpair-environments user_id host_id row db1
            ∙ deleted_is_gone (in_environment user_id host_id db) db.environment_hosts,
        ap (exists (of_user other other_host)) users
            ∙ deleted_spares (of_user user_id host_id) (of_user other other_host) db.user_hosts
                different,
        unpair_spares user_id row db1 key other apart,
        unpair-in_environment_of_others user_id row db1 environment_id other_host
            ∙ others_environments_spared user_id host_id environment_id other_host db,
      )
    where
      different :
          (x : HostOf) → of_user other other_host x ≡ true → of_user user_id host_id x ≡ false
      different x h = elim (Bool-cases (x.user_id == user_id)) [
        | inl e ↦ absurd (
            let e' = (==_iff x.user_id user_id).0 e in
            let o : (x.user_id == other) ≡ true =
              and-left (x.user_id == other) (x.host_id == other_host) h in
            apart (sym ((==_iff x.user_id other).0 o) ∙ e'))
        | inr e ↦ rw e refl
      ]
