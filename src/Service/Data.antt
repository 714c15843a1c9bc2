-- ===== src/Service/Data.antt =====
-- casper_service/main.py: the tables that the service itself keeps, and how an endpoint ends.
use doc_chat_template_scc.Common.{ℕ, Bool, Option, none, some, List, String, if◌then◌else◌}
use doc_chat_template_scc.Policy.{Rule}
use doc_chat_template_scc.Service.Rates.{Attempts, check_rate_limit}

-- a row of `users`, with what the service keeps in it
pub record Account : Type 0 where
  pub id : ℕ
  pub username : String
  pub password_hash : String
  pub token_hash : Option String
  pub token_created_at : Option ℕ

pub record HostOf : Type 0 where
  pub user_id : ℕ
  pub host_id : ℕ
  pub label : String

pub record PolicyLayer : Type 0 where
  pub id : ℕ
  pub user_id : ℕ
  pub name : String

pub record LayerHost : Type 0 where
  pub policy_layer_id : ℕ
  pub host_id : ℕ

-- a row of `policy_layer_rules`; its JSON columns are the values that they hold
pub record RuleRow : Type 0 where
  pub policy_layer_id : ℕ
  pub rule : Rule

pub record Environment : Type 0 where
  pub id : ℕ
  pub user_id : ℕ
  pub name : String

pub record EnvironmentHost : Type 0 where
  pub environment_id : ℕ
  pub host_id : ℕ

pub record HostRow : Type 0 where
  pub id : ℕ
  pub routing_key : String
  pub hostname : Option String

-- a row of `host_pairings`, whose key is the first two columns
pub record PairingRow : Type 0 where
  pub routing_key : String
  pub user_id : ℕ
  pub host_id : ℕ
  pub device_token_hash : String
  pub command_key : String

-- The tables; a `…_seq` is the largest id that its table has given (AUTOINCREMENT).
pub record Store : Type 0 where
  pub accounts : List Account
  pub account_seq : ℕ
  pub hosts : List HostRow
  pub host_seq : ℕ
  pub user_hosts : List HostOf
  pub host_pairings : List PairingRow
  pub policy_layers : List PolicyLayer
  pub policy_layer_seq : ℕ
  pub layer_hosts : List LayerHost
  pub rules : List RuleRow
  pub rule_seq : ℕ
  pub environments : List Environment
  pub environment_seq : ℕ
  pub environment_hosts : List EnvironmentHost

-- the `HTTPException`s, and the error of the database that nothing catches
pub data HttpError : Type 0 where
  too_many_attempts bad_token bad_login username_taken : HttpError
  no_host no_layer no_layer_or_host layer_exists no_rule invalid_rule not_a_permutation : HttpError
  no_environment no_environment_or_host environment_exists integrity_error : HttpError

-- the HTTP status of each
pub status_code : HttpError → ℕ
status_code too_many_attempts = 429
status_code bad_token = 401
status_code bad_login = 401
status_code username_taken = 409
status_code no_host = 404
status_code no_layer = 404
status_code no_layer_or_host = 404
status_code layer_exists = 409
status_code no_rule = 404
status_code invalid_rule = 422
status_code not_a_permutation = 400
status_code no_environment = 404
status_code no_environment_or_host = 404
status_code environment_exists = 409
status_code integrity_error = 500

pub data Reply (A : Type 0) : Type 0 where
  returned : A → Reply A
  raised : HttpError → Reply A

-- A request: `get_db` commits what it wrote if it returns, and nothing if it raises.
abbrev pub Request : Type 0 → Type 0
Request A = Store → Reply (A × Store)

infixl 5 ◌>>=◌ ◌>>◌
abbrev pub ◌>>=◌ : {A B : Type 0} → Request A → (A → Request B) → Request B
◌>>=◌ m f db = elim (m db) [ returned (a, db') ↦ f a db' | raised e ↦ raised e ]

abbrev pub ◌>>◌ : {A B : Type 0} → Request A → Request B → Request B
m >> k = m >>= λ _. k

module _ {A : Type 0} where
  abbrev pub pure : A → Request A
  pure a db = returned (a, db)

  abbrev pub raise : HttpError → Request A
  raise e db = raised e

  abbrev pub gets : (Store → A) → Request A
  gets f db = returned (f db, db)

  abbrev pub found : Option A → HttpError → Request A
  found none e = raise e
  found (some a) e = pure a

abbrev pub modify : (Store → Store) → Request Unit
modify f db = returned (tt, f db)

abbrev pub raise_if : Bool → HttpError → Request Unit
raise_if b e db = if b then raised e else returned (tt, db)

-- the process: the tables, and the attempts that it remembers
pub record Server : Type 0 where
  pub store : Store
  pub attempts : Attempts

module _ {A : Type 0} where
  abbrev pub commit : Reply (A × Store) → Server → Reply A × Server
  commit (returned (a, store)) s = (returned a, record s { store = store })
  commit (raised e) s = (raised e, s)

  abbrev pub admit : Option Attempts → Request A → Server → Reply A × Server
  admit none request s = (raised too_many_attempts, s)
  admit (some attempts) request s = commit (request s.store) (record s { attempts = attempts })

  -- an endpoint that calls `check_rate_limit` first
  unfoldable pub limited : ℕ → String → Request A → Server → Reply A × Server
  unfolding check_rate_limit
  limited now ip request s = admit (check_rate_limit now ip s.attempts) request s
