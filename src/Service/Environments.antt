-- ===== src/Service/Environments.antt =====
-- casper_service/main.py: environments, the groups that a user makes of hosts.
use doc_chat_template_scc.Common.{
  ℕ, suc, Bool, not, ◌&&◌, Option, List, [], ◌∷◌, ◌++◌, map, String, if◌then◌else◌, ◌==◌, select,
  first, update, exists, nocase_eq,
}
use doc_chat_template_scc.Service.Data.{
  Environment, EnvironmentHost, Store, no_environment, no_environment_or_host, environment_exists,
  integrity_error, Request, ◌>>=◌, ◌>>◌, pure, gets, modify, raise_if, found,
}
use doc_chat_template_scc.Service.Accounts.{signed_in}
use doc_chat_template_scc.Service.Layers.{user_owns_host}
use doc_chat_template_scc.Service.Hosts.{is_of_user, Paired, pair_host_for}

pub record EnvironmentInfo : Type 0 where
  pub id : ℕ
  pub name : String
  pub host_ids : List ℕ

-- `_user_owns_environment`
unfoldable pub user_owns_environment : ℕ → ℕ → Store → Bool
user_owns_environment user_id environment_id db =
    exists (λ (e : Environment). e.id == environment_id && e.user_id == user_id) db.environments

-- `_environment_info`
unfoldable pub environment_info : ℕ → String → Store → EnvironmentInfo
environment_info environment_id name db = record {
  id = environment_id;
  name = name;
  host_ids =
      map (λ (x : EnvironmentHost). x.host_id)
        (select (λ (x : EnvironmentHost). x.environment_id == environment_id) db.environment_hosts);
}

abbrev pub insert_environment : ℕ → String → Store → Store
insert_environment user_id name db = record db {
  environment_seq = suc db.environment_seq;
  environments =
      db.environments
      ++ (record { id = suc db.environment_seq; user_id = user_id; name = name }) ∷ [];
}

abbrev pub is_link : ℕ → ℕ → EnvironmentHost → Bool
is_link environment_id host_id x = x.environment_id == environment_id && x.host_id == host_id

-- `INSERT OR IGNORE INTO environment_hosts`
abbrev pub add_environment_host : ℕ → ℕ → Store → Store
add_environment_host environment_id host_id db =
    if exists (is_link environment_id host_id) db.environment_hosts then db else record db {
      environment_hosts =
          db.environment_hosts
          ++ (record { environment_id = environment_id; host_id = host_id }) ∷ [];
    }

-- `_assign_default_environment`, by the user's environments
abbrev pub assign_to : ℕ → ℕ → List Environment → Request Unit
assign_to user_id host_id [] =
    modify (insert_environment user_id "Default")
    >> modify (λ db. add_environment_host db.environment_seq host_id db)
assign_to user_id host_id (e ∷ []) = modify (add_environment_host e.id host_id)
assign_to user_id host_id (e ∷ f ∷ es) = pure tt

unfoldable pub assign_default_environment : ℕ → ℕ → Request Unit
assign_default_environment user_id host_id db =
    assign_to user_id host_id (select (is_of_user user_id) db.environments) db

-- `pair_host` for the user whom its header names
unfoldable pub pair_new_host :
    ℕ → String → Option String → Option String → String → String → Request Paired
unfolding pair_host_for assign_default_environment
pair_new_host user_id routing_key hostname requested device_token_hash command_key = do
  paired ← pair_host_for user_id routing_key hostname requested device_token_hash command_key
  (if paired.is_new then assign_default_environment user_id paired.host_id else pure tt)
  pure paired

module _ (hash_token : List ℕ → String) (authorization : List ℕ) where
  unfoldable pub create_environment : String → Request EnvironmentInfo
  unfolding signed_in environment_info
  create_environment name = do
    user_id ← signed_in hash_token authorization
    existing ← gets (λ db.
        exists (λ (e : Environment). is_of_user user_id e && nocase_eq e.name name) db.environments)
    raise_if existing environment_exists
    modify (insert_environment user_id name)
    gets (λ db. environment_info db.environment_seq name db)

  -- where another environment of the user has the name, the unique index refuses the UPDATE
  unfoldable pub rename_environment : ℕ → String → Request EnvironmentInfo
  unfolding signed_in user_owns_environment environment_info
  rename_environment environment_id name = do
    user_id ← signed_in hash_token authorization
    owned ← gets (user_owns_environment user_id environment_id)
    raise_if (not owned) no_environment
    clash ← gets λ db.
        exists
          (λ (e : Environment).
            not (e.id == environment_id) && (is_of_user user_id e && nocase_eq e.name name))
          db.environments
    raise_if clash integrity_error
    modify λ db. record db {
      environments =
          update (λ (e : Environment). e.id == environment_id)
            (λ (e : Environment). record e { name = name }) db.environments;
    }
    gets (environment_info environment_id name)

  unfoldable pub delete_environment : ℕ → Request Unit
  unfolding signed_in user_owns_environment
  delete_environment environment_id = do
    user_id ← signed_in hash_token authorization
    owned ← gets (user_owns_environment user_id environment_id)
    raise_if (not owned) no_environment
    modify λ db. record db {
      environment_hosts =
          select (λ (x : EnvironmentHost). not (x.environment_id == environment_id))
            db.environment_hosts;
      environments = select (λ (e : Environment). not (e.id == environment_id)) db.environments;
    }

  abbrev pub own_environment : ℕ → ℕ → Store → Option Environment
  own_environment user_id environment_id db =
      first (λ (e : Environment). e.id == environment_id && e.user_id == user_id) db.environments

  unfoldable pub add_host_to_environment : ℕ → ℕ → Request EnvironmentInfo
  unfolding signed_in user_owns_host environment_info
  add_host_to_environment environment_id host_id = do
    user_id ← signed_in hash_token authorization
    env ← gets (own_environment user_id environment_id)
    e ← found env no_environment_or_host
    owned ← gets (user_owns_host user_id host_id)
    raise_if (not owned) no_environment_or_host
    modify (add_environment_host environment_id host_id)
    gets (environment_info environment_id e.name)

  unfoldable pub remove_host_from_environment : ℕ → ℕ → Request EnvironmentInfo
  unfolding signed_in environment_info
  remove_host_from_environment environment_id host_id = do
    user_id ← signed_in hash_token authorization
    env ← gets (own_environment user_id environment_id)
    e ← found env no_environment
    modify λ db. record db {
      environment_hosts = select (λ x. not (is_link environment_id host_id x)) db.environment_hosts;
    }
    gets (environment_info environment_id e.name)
