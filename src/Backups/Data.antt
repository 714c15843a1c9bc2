-- ===== src/Backups/Data.antt =====
-- The data of peer backups, and the effects of the functions that orchestrate them.
-- What a daemon answers is kept in the event of the call. Texts that the code formats from parts
-- are constructors over the parts; `Payload` is what `_data` reads in the JSON text of an answer,
-- with a number where the code takes `int` of it.
use doc_chat_template_scc.Common.{
  ℕ, Bool, Option, none, some, List, [], ◌∷◌, ◌++◌, String, is_empty, if◌then◌else◌,
}
use doc_chat_template_scc.Common.Int.{ℤ}
use doc_chat_template_scc.Trust.Data.{Db}

pub record Config : Type 0 where
  pub url : String
  pub api_key : String
  pub label : String

-- an entry of `own_configs`, whose label is its key
pub record OwnConfig : Type 0 where
  pub host_id : ℕ
  pub config : Config

-- an action of a daemon with its arguments
pub data Action : Type 0 where
  prepare : (path : String) (backup_id : String) → Action
  authorize : (grantee : String) (backup_id : String) (total_bytes : ℕ) → Action
  cleanup prepare_status restore_unpack : (backup_id : String) → Action
  read_chunk : (backup_id : String) (index : ℕ) → Action
  write_chunk :
      (grantee backup_id : String) (index : ℕ) (content : String) (approved : Bool)
      (extra : Option (String × String))
      → Action
  get_manifest delete_stored : (grantee backup_id : String) → Action
  get_chunk : (grantee backup_id : String) (index : ℕ) → Action
  restore_begin : (backup_id manifest signature : String) → Action
  restore_chunk : (backup_id : String) (index : ℕ) (content : String) → Action

pub record Payload : Type 0 where
  pub plaintext_bytes : Option ℕ
  pub name : Option String
  pub reason : Option String
  pub state : Option String
  pub error : Option String
  pub chunk_count : Option ℕ
  pub total_bytes : Option ℕ
  pub manifest : Option String
  pub signature : Option String
  pub content : Option String
  pub restored_to : Option String

abbrev pub empty_payload : Payload
empty_payload = record {
  plaintext_bytes = none;
  name = none;
  reason = none;
  state = none;
  error = none;
  chunk_count = none;
  total_bytes = none;
  manifest = none;
  signature = none;
  content = none;
  restored_to = none;
}

-- a daemon's Result
pub record Answer : Type 0 where
  pub success : Bool
  pub tier : Option String
  pub stderr : Option String
  pub payload : Payload

-- what comes of a POST: no answer, an HTTP error with its detail, or a Result
pub data Response : Type 0 where
  unreachable : String → Response
  refused : (status_code : ℕ) (detail : String) → Response
  answered : Answer → Response

pub data Status : Type 0 where
  pending awaiting_approval transferring complete denied failed deleted : Status

-- the texts of `BackupError`
pub data Why : Type 0 where
  not_shared no_space dest_offline own_offline not_yours no_such_backup : String → Why
  source_went_offline : Why
  dest_went_offline : String → Why
  failed_at : (what : String) → Option String → Why
  encrypting_failed : Option String → Why
  too_slow : Why
  chunk_refused : (dest : String) (reason stderr : Option String) (index : ℕ) → Why
  not_complete : String → Status → Why
  cannot_delete_now : String → Why

-- what the columns `error` and `restore_detail` hold
pub data Detail : Type 0 where
  blank : Detail
  denied_by_daemon : String → Detail
  denied_by_owner : Detail
  because : Why → Detail
  restoring_to restored_to : String → Detail

pub data RestoreStatus : Type 0 where
  no_restore restoring restored restore_failed : RestoreStatus

-- a row of `backups`
pub record Backup : Type 0 where
  pub id : String
  pub owner_user_id : ℕ
  pub name : String
  pub source_host_id : ℕ
  pub dest_host_id : ℕ
  pub dest_owner_user_id : ℕ
  pub status : Status
  pub plaintext_bytes : ℕ
  pub total_bytes : ℕ
  pub chunk_count : ℕ
  pub chunks_done : ℕ
  pub error : Detail
  pub restore_status : RestoreStatus
  pub restore_detail : Detail
  pub created_at : ℕ
  pub completed_at : Option ℕ

-- what people are told
pub data News : Type 0 where
  denied_news : (name dest : String) → News
  backed_up : (name dest : String) (total_bytes : ℕ) → News
  backup_failed : (name dest : String) → Why → News
  restored_news : (name target : String) (place : Option String) → News
  restore_failed_news : (name : String) → Why → News

-- the parts of the question that the owner of the destination is asked
pub record Question : Type 0 where
  pub who : String
  pub size : ℕ
  pub host : String
  pub used : ℕ
  pub quota : ℤ

-- what the functions ask of the world
pub data Event : Type 0 where
  called : Config → Action → Response → Event
  asked_approval : (approver requester : ℕ) → Question → (backup_id : String) → Event
  notified : ℕ → News → Event
  started_transfer : (backup_id : String) (approved : Bool) → Event
  started_restore : (backup_id : String) (target peer : Config) → Event
  slept : Event

-- The world answers by what has happened so far.
pub record Deps : Type 0 where
  pub host_config : List Event → ℕ → ℕ → Option Config
  pub own_configs : List Event → ℕ → List (String × OwnConfig)
  pub daemon : List Event → Config → Action → Response
  pub clock : List Event → ℕ

pub record World : Type 0 where
  pub db : Db
  pub backups : List Backup
  pub events : List Event

-- How a function ends: it returns, it raises `BackupError`, it raises `KeyError` at a key that an
-- answer lacks, or the rounds that the model allows are used up.
pub data Outcome (A : Type 0) : Type 0 where
  ok : A → Outcome A
  problem : Why → Outcome A
  key_error out_of_fuel : Outcome A

abbrev pub M : Type 0 → Type 0
M A = World → Outcome A × World

module _ {A B : Type 0} where
  -- `try: m except BackupError: handler else: rest`
  abbrev pub resume : Outcome A → (Why → M B) → (A → M B) → M B
  resume (ok a) handler rest w = rest a w
  resume (problem e) handler rest w = handler e w
  resume key_error handler rest w = (key_error, w)
  resume out_of_fuel handler rest w = (out_of_fuel, w)

  unfoldable pub attempt : M A → (Why → M B) → (A → M B) → M B
  attempt m handler rest w = let (r, w') = m w in resume r handler rest w'

module _ {A : Type 0} where
  unfoldable pub pure : A → M A
  pure a w = (ok a, w)

  unfoldable pub raise : Why → M A
  raise e w = (problem e, w)

  unfoldable pub gets : (World → A) → M A
  gets f w = (ok (f w), w)

  -- `d[key]`
  unfoldable pub key : Option A → M A
  key none w = (key_error, w)
  key (some a) w = (ok a, w)

infixl 5 ◌>>=◌ ◌>>◌
unfoldable pub ◌>>=◌ : {A B : Type 0} → M A → (A → M B) → M B
unfolding attempt raise
m >>= f = attempt m raise f

abbrev pub ◌>>◌ : {A B : Type 0} → M A → M B → M B
m >> k = m >>= λ _. k

unfoldable pub log : Event → M Unit
log e w = (ok tt, record w { events = w.events ++ e ∷ [] })

-- `a or b` on texts that may be missing
abbrev pub or_else : Option String → String → String
or_else none b = b
or_else (some a) b = if is_empty a then b else a
