-- ===== src/Backups/Resolve.antt =====
-- Talking to daemons, rows, and resolving hosts: the first half of casper_service/backups.py.
use Prim.Native.String
use Prim.Native.Char.{code}
use doc_chat_template_scc.Common.{
  ℕ, false, ◌&&◌, Option, none, some, List, [], ◌∷◌, String, str_eq, if◌then◌else◌, ◌==◌, is_num,
  is_empty, select, exists, first, update, show_nat,
}
use doc_chat_template_scc.Trust.Data.{Db, UserHost, backup_peer}
use doc_chat_template_scc.Trust.Users.{user_id_by_name, username, host_label}
use doc_chat_template_scc.Trust.Grants.{Grant, grants_held}
use doc_chat_template_scc.Backups.Data.{
  Config, OwnConfig, Action, Payload, empty_payload, Answer, Response, unreachable, refused,
  answered, Why, not_shared, no_space, dest_offline, own_offline, not_yours, failed_at, Backup,
  called, Deps, World, M, ◌>>=◌, ◌>>◌, pure, raise, gets, log,
}

-- the Result that `daemon_call` makes of a failure
abbrev pub failure : String → Answer
failure why = record { success = false; tier = none; stderr = some why; payload = empty_payload }

abbrev pub http_detail : ℕ → String → String
http_detail status detail =
    if is_empty detail then String.◌++◌ "HTTP " (show_nat status) else detail

unfoldable pub to_answer : Config → Response → Answer
to_answer config (unreachable why) =
    failure (String.◌++◌ "couldn't reach " (String.◌++◌ config.label (String.◌++◌ ": " why)))
to_answer config (refused status detail) = failure (http_detail status detail)
to_answer config (answered r) = r

-- `_require_ok`
unfoldable pub require_ok : String → Answer → M Payload
require_ok what r = if r.success then pure r.payload else raise (failed_at what r.stderr)

-- `_row`
unfoldable pub row : World → String → Option Backup
row w backup_id = first (λ (b : Backup). str_eq b.id backup_id) w.backups

-- `_update`
unfoldable pub update_row : String → (Backup → Backup) → M Unit
update_row backup_id f w =
    pure tt (record w { backups = update (λ (b : Backup). str_eq b.id backup_id) f w.backups })

-- `_dest_name`
unfoldable pub dest_name : Db → Backup → String
dest_name db b =
    String.◌++◌ (username db b.dest_owner_user_id)
      (String.◌++◌ "/" (host_label db b.dest_owner_user_id b.dest_host_id))

-- `dest_host.partition("/")`: the parts in front of the first slash and behind it
unfoldable pub before_slash : String → String
before_slash String.[] = String.[]
before_slash (String.◌∷◌ c s) =
    let rest = before_slash s in if code c == b'/' then String.[] else String.◌∷◌ c rest

unfoldable pub after_slash : String → String
after_slash String.[] = String.[]
after_slash (String.◌∷◌ c s) = let rest = after_slash s in if code c == b'/' then s else rest

-- the user's grants of backup space on a host of the owner with the label
unfoldable pub space_on : Db → ℕ → Option ℕ → String → List Grant
space_on db user_id owner_id label =
    select (λ (g : Grant). is_num g.owner_user_id owner_id && str_eq g.host label)
      (grants_held db user_id false (some backup_peer))

abbrev pub find_own : List (String × OwnConfig) → String → Option OwnConfig
find_own [] host = none
find_own ((label, c) ∷ configs) host = if str_eq label host then some c else find_own configs host

-- what `resolve_own` raises for a host that is not connected
unfoldable pub not_connected : Db → ℕ → String → Why
not_connected db user_id host =
    if exists (λ (h : UserHost). h.user_id == user_id && str_eq h.label host) db.user_hosts
    then own_offline host
    else not_yours host

module _ (deps : Deps) where
  unfoldable pub daemon_call : Config → Action → M Answer
  unfolding to_answer
  daemon_call config action w =
      let r = deps.daemon w.events config action in
      (log (called config action r) >> pure (to_answer config r)) w

  -- what follows the check of the grants in `resolve_dest`
  unfoldable pub resolve_space : String → List Grant → M (Grant × Config)
  resolve_space dest_host [] w = raise (no_space dest_host) w
  resolve_space dest_host (g ∷ gs) w = elim (deps.host_config w.events g.owner_user_id g.host_id) [
    | none ↦ raise (dest_offline dest_host) w
    | some config ↦ pure (g, config) w
  ]

  unfoldable pub resolve_dest : ℕ → String → M (Grant × Config)
  unfolding resolve_space before_slash after_slash space_on
  resolve_dest user_id dest_host w =
      if is_empty (after_slash dest_host)
      then raise (not_shared dest_host) w
      else resolve_space dest_host
          (space_on w.db user_id (user_id_by_name w.db (before_slash dest_host))
            (after_slash dest_host))
          w

  unfoldable pub resolve_own : ℕ → String → M OwnConfig
  unfolding not_connected
  resolve_own user_id host w = elim (find_own (deps.own_configs w.events user_id) host) [
    | none ↦ raise (not_connected w.db user_id host) w
    | some c ↦
        let config = c.config in pure (record c { config = record config { label = host } }) w
  ]

  abbrev pub labelled : (World → String) → World → Option Config → Option Config
  labelled label w none = none
  labelled label w (some c) = some (record c { label = label w })

  -- `_src_config`
  unfoldable pub src_config : Backup → M (Option Config)
  src_config b = gets λ w.
      labelled (λ v. host_label v.db b.owner_user_id b.source_host_id) w
        (deps.host_config w.events b.owner_user_id b.source_host_id)

  -- `_dest_config`
  unfoldable pub dest_config : Backup → M (Option Config)
  unfolding dest_name
  dest_config b = gets λ w.
      labelled (λ v. dest_name v.db b) w
        (deps.host_config w.events b.dest_owner_user_id b.dest_host_id)

  -- `daemon_call(config, "backup_cleanup", …)` where there is a configuration
  unfoldable pub clean_up : Option Config → String → M Unit
  unfolding daemon_call
  clean_up none backup_id = pure tt
  clean_up (some c) backup_id = daemon_call c (Action.cleanup backup_id) >>= λ r. pure tt
