-- ===== src/Backups/Push.antt =====
-- Starting a backup, and the decision of the destination's owner: `push` and `decide_write`.
use doc_chat_template_scc.Common.{
  ℕ, ◌+◌, Bool, true, false, ◌&&◌, Option, none, some, List, [], ◌∷◌, ◌++◌, String, str_eq,
  if◌then◌else◌, ◌==◌,
}
use doc_chat_template_scc.Trust.Users.{username}
use doc_chat_template_scc.Trust.Grants.{Grant}
use doc_chat_template_scc.Backups.Data.{
  Config, OwnConfig, Action, Payload, Answer, Why, Detail, blank, denied_by_daemon, denied_by_owner,
  Status, pending, awaiting_approval, transferring, complete, denied, failed, deleted, no_restore,
  Backup, asked_approval, notified, denied_news, started_transfer, Deps, M, attempt, ◌>>=◌, ◌>>◌,
  pure, gets, log, or_else,
}
use doc_chat_template_scc.Backups.Resolve.{
  row, update_row, dest_name, daemon_call, resolve_dest, resolve_own, src_config, clean_up,
}

-- the texts that `push` and `decide_write` return
pub data Reply : Type 0 where
  cannot_back_up : Why → Reply
  cannot_prepare : (path host : String) → Option String → Reply
  refused_by : (dest_host reason : String) → Reply
  waiting_for :
      (backup_id : String) (name : Option String) (size : ℕ) (owner host who : String) → Reply
  backing_up :
      (backup_id : String) (name : Option String) (size : ℕ) (source dest who : String) → Reply
  no_longer_waiting : Reply
  denied_size approved_size : ℕ → Reply

-- `tier == "deny"`, `"ask"` and the rest
pub data Verdict : Type 0 where
  deny ask allow : Verdict

abbrev pub verdict_of : Option String → Verdict
verdict_of tier =
    if str_eq (or_else tier "deny") "deny"
    then deny
    else if str_eq (or_else tier "deny") "ask"
    then ask
    else allow

abbrev pub size_of : Option ℕ → ℕ
size_of none = 0
size_of (some n) = n

abbrev pub is_complete : Status → Bool
is_complete complete = true
is_complete pending = false
is_complete awaiting_approval = false
is_complete transferring = false
is_complete denied = false
is_complete failed = false
is_complete deleted = false

abbrev pub is_waiting : Status → Bool
is_waiting awaiting_approval = true
is_waiting complete = false
is_waiting pending = false
is_waiting transferring = false
is_waiting denied = false
is_waiting failed = false
is_waiting deleted = false

-- the total size of the complete backups of a user on a host
unfoldable pub used_on : ℕ → ℕ → List Backup → ℕ
used_on user_id host_id [] = 0
used_on user_id host_id (b ∷ bs) =
    let rest = used_on user_id host_id bs in
    if b.owner_user_id == user_id && b.dest_host_id == host_id && is_complete b.status
    then b.total_bytes + rest
    else rest

abbrev pub set_status : Status → Backup → Backup
set_status s b = record b { status = s }

abbrev pub set_failed : Status → Detail → Backup → Backup
set_failed s why b = record b { status = s; error = why }

module _ (deps : Deps) where
  -- `INSERT INTO backups`
  abbrev pub insert_backup : String → ℕ → String → ℕ → Grant → ℕ → M Unit
  insert_backup backup_id user_id name source_host_id grant size w = (pure tt) (record w {
    backups =
        w.backups
        ++ (record {
          id = backup_id;
          owner_user_id = user_id;
          name = name;
          source_host_id = source_host_id;
          dest_host_id = grant.host_id;
          dest_owner_user_id = grant.owner_user_id;
          status = pending;
          plaintext_bytes = size;
          total_bytes = 0;
          chunk_count = 0;
          chunks_done = 0;
          error = blank;
          restore_status = no_restore;
          restore_detail = blank;
          created_at = deps.clock w.events;
          completed_at = none;
        })
          ∷ [];
  })

  -- what `push` does with the verdict
  unfoldable pub follow :
      ℕ → String → String → String → OwnConfig → Grant → Payload → Answer → ℕ → Verdict → M Reply
  follow user_id backup_id source_host dest_host src grant prep verdict size deny = do
    let reason = or_else verdict.payload.reason (or_else verdict.stderr "refused")
    update_row backup_id (set_failed denied (denied_by_daemon reason))
    clean_up deps (some src.config) backup_id
    pure (refused_by dest_host reason)
  follow user_id backup_id source_host dest_host src grant prep verdict size ask = do
    question ← gets λ w. record {
      who = username w.db user_id;
      size = size;
      host = grant.host;
      used = used_on user_id grant.host_id w.backups;
      quota = grant.quota_bytes;
    }
    log (asked_approval grant.owner_user_id user_id question backup_id)
    update_row backup_id (set_status awaiting_approval)
    pure (waiting_for backup_id prep.name size grant.owner source_host question.who)
  follow user_id backup_id source_host dest_host src grant prep verdict size allow = do
    update_row backup_id (set_status transferring)
    log (started_transfer backup_id false)
    who ← gets (λ w. username w.db user_id)
    pure (backing_up backup_id prep.name size source_host dest_host who)

  -- from the answer to "backup_prepare" on
  unfoldable pub authorize :
      ℕ → String → String → String → String → OwnConfig → Grant → Config → Answer → M Reply
  unfolding follow
  authorize user_id backup_id source_host path dest_host src grant dest prep = do
    let size = size_of prep.payload.plaintext_bytes
    me ← gets (λ w. username w.db user_id)
    verdict ← daemon_call deps dest (Action.authorize me backup_id size)
    insert_backup backup_id user_id (or_else prep.payload.name path) src.host_id grant size
    follow user_id backup_id source_host dest_host src grant prep.payload verdict size
        (verdict_of verdict.tier)

  unfoldable pub push_to :
      ℕ → String → String → String → String → OwnConfig → Grant → Config → M Reply
  unfolding authorize
  push_to user_id backup_id source_host path dest_host src grant dest = do
    prep ← daemon_call deps src.config (Action.prepare path backup_id)
    (if prep.success
        then authorize user_id backup_id source_host path dest_host src grant dest prep
        else pure (cannot_prepare path source_host prep.stderr))

  unfoldable pub resolve_both : ℕ → String → String → M (OwnConfig × Grant × Config)
  resolve_both user_id source_host dest_host = do
    src ← resolve_own deps user_id source_host
    space ← resolve_dest deps user_id dest_host
    pure (src, space.0, space.1)

  -- `push`, with the id that it draws
  unfoldable pub push : ℕ → String → String → String → String → M Reply
  unfolding push_to resolve_both
  push user_id backup_id source_host path dest_host =
      attempt (resolve_both user_id source_host dest_host) (λ e. pure (cannot_back_up e))
        (λ r. push_to user_id backup_id source_host path dest_host r.0 r.1 r.2)

  -- `decide_write` for a backup that waits
  unfoldable pub decide_waiting : Bool → Backup → M Reply
  decide_waiting false b = do
    dest ← gets (λ w. dest_name w.db b)
    update_row b.id (set_failed denied denied_by_owner)
    src ← src_config deps b
    clean_up deps src b.id
    log (notified b.owner_user_id (denied_news b.name dest))
    pure (denied_size b.plaintext_bytes)
  decide_waiting true b = do
    update_row b.id (set_status transferring)
    log (started_transfer b.id true)
    pure (approved_size b.plaintext_bytes)

  unfoldable pub decide_row : Bool → Option Backup → M Reply
  unfolding decide_waiting
  decide_row decision none = pure no_longer_waiting
  decide_row decision (some b) =
      if is_waiting b.status then decide_waiting decision b else pure no_longer_waiting

  -- `decide_write`, with the id in the payload of the approval
  unfoldable pub decide_write : String → String → M Reply
  unfolding decide_row
  decide_write backup_id decision w = decide_row (str_eq decision "allow") (row w backup_id) w
