-- ===== src/Backups/Restore.antt =====
-- Restoring and deleting backups: the last part of casper_service/backups.py.
use doc_chat_template_scc.Common.{
  ℕ, zero, suc, not, ◌&&◌, Option, none, some, String, if◌then◌else◌, is_none,
}
use doc_chat_template_scc.Trust.Users.{username}
use doc_chat_template_scc.Backups.Data.{
  Config, OwnConfig, Action, Payload, Why, dest_offline, not_complete, cannot_delete_now, Detail,
  because, restoring_to, restored_to, deleted, RestoreStatus, restoring, restored, restore_failed,
  Backup, notified, restored_news, restore_failed_news, started_restore, Deps, M, attempt, ◌>>=◌,
  ◌>>◌, pure, raise, gets, key, log,
}
use doc_chat_template_scc.Backups.Resolve.{
  require_ok, update_row, dest_name, daemon_call, resolve_own, dest_config,
}
use doc_chat_template_scc.Backups.Push.{is_complete, set_status}
use doc_chat_template_scc.Backups.Manage.{
  may_be_stored, own_row, Reply, cannot_restore, cannot_delete, restoring_reply, not_deleted,
  deleted_reply,
}

abbrev pub set_restore : RestoreStatus → Detail → Backup → Backup
set_restore s d b = record b { restore_status = s; restore_detail = d }

abbrev pub place_of : Option String → Detail
place_of none = restored_to ""
place_of (some place) = restored_to place

module _ (deps : Deps) where
  -- `if peer is None: raise …`
  abbrev pub peer_or : Option Config → Why → M Config
  peer_or none e = raise e
  peer_or (some c) e = pure c

  -- the body of `try` in `restore`
  unfoldable pub find_restore : ℕ → String → String → M (Backup × OwnConfig × Config)
  unfolding own_row
  find_restore user_id backup_id dest_host = do
    b ← own_row user_id backup_id
    (if is_complete b.status then pure tt else raise (not_complete backup_id b.status))
    target ← resolve_own deps user_id dest_host
    peer ← dest_config deps b
    label ← gets (λ w. dest_name w.db b)
    found ← peer_or peer (dest_offline label)
    pure (b, target, found)

  unfoldable pub start_restore : String → String → Backup → OwnConfig → Config → M Reply
  start_restore backup_id dest_host b target peer = do
    update_row backup_id (set_restore restoring (restoring_to dest_host))
    log (started_restore backup_id target.config peer)
    pure (restoring_reply b.name dest_host)

  -- `restore`
  unfoldable pub restore : ℕ → String → String → M Reply
  unfolding find_restore start_restore
  restore user_id backup_id dest_host =
      attempt (find_restore user_id backup_id dest_host) (λ e. pure (cannot_restore e))
        (λ r. start_restore backup_id dest_host r.0 r.1 r.2)

  -- one round of the loop of `_restore`
  unfoldable pub restore_chunk : Config → Config → String → String → ℕ → M Unit
  restore_chunk target peer me backup_id i = do
    r ← daemon_call deps peer (Action.get_chunk me backup_id i)
    c ← require_ok "fetching" r
    content ← key c.content
    put ← daemon_call deps target (Action.restore_chunk backup_id i content)
    stored ← require_ok "restoring" put
    pure tt

  unfoldable pub restore_chunks : ℕ → ℕ → Config → Config → String → String → M Unit
  unfolding restore_chunk
  restore_chunks zero i target peer me backup_id = pure tt
  restore_chunks (suc n) i target peer me backup_id =
      restore_chunk target peer me backup_id i >>= λ u.
      restore_chunks n (suc i) target peer me backup_id

  -- the statements of `_restore` in front of its loop: what the manifest says
  unfoldable pub begin_restore : Config → Config → String → String → M Payload
  begin_restore target peer me backup_id = do
    r ← daemon_call deps peer (Action.get_manifest me backup_id)
    m ← require_ok "fetching the manifest" r
    manifest ← key m.manifest
    signature ← key m.signature
    begun ← daemon_call deps target (Action.restore_begin backup_id manifest signature)
    ready ← require_ok "starting the restore" begun
    pure m

  unfoldable pub unpack : Config → Backup → M Unit
  unpack target b = do
    r ← daemon_call deps target (Action.restore_unpack b.id)
    out ← require_ok "decrypting" r
    update_row b.id (set_restore restored (place_of out.restored_to))
    log (notified b.owner_user_id (restored_news b.name target.label out.restored_to))

  unfoldable pub restore_body : Config → Config → String → Backup → M Unit
  unfolding begin_restore restore_chunks unpack
  restore_body target peer me b = do
    m ← begin_restore target peer me b.id
    count ← key m.chunk_count
    restore_chunks count 0 target peer me b.id
    unpack target b

  unfoldable pub restore_gave_up : Backup → Why → M Unit
  restore_gave_up b e = do
    update_row b.id (set_restore restore_failed (because e))
    log (notified b.owner_user_id (restore_failed_news b.name e))

  -- `_restore`
  unfoldable pub run_restore : Backup → Config → Config → M Unit
  unfolding restore_body restore_gave_up
  run_restore b target peer = do
    me ← gets (λ w. username w.db b.owner_user_id)
    attempt (restore_body target peer me b) (restore_gave_up b) pure

  -- the body of `try` in `delete`
  unfoldable pub find_delete : ℕ → String → M (Backup × Option Config)
  unfolding own_row
  find_delete user_id backup_id = do
    b ← own_row user_id backup_id
    peer ← dest_config deps b
    label ← gets (λ w. dest_name w.db b)
    (if may_be_stored b.status && is_none peer then raise (cannot_delete_now label) else pure tt)
    pure (b, peer)

  -- the last two statements of `delete`
  unfoldable pub mark_deleted : String → Backup → M Reply
  mark_deleted backup_id b =
      update_row backup_id (set_status deleted) >> pure (deleted_reply backup_id b.name)

  -- the rest of `delete`, by the destination's configuration
  unfoldable pub delete_from : ℕ → String → Backup → Option Config → M Reply
  unfolding mark_deleted
  delete_from user_id backup_id b none = mark_deleted backup_id b
  delete_from user_id backup_id b (some peer) = do
    me ← gets (λ w. username w.db user_id)
    r ← daemon_call deps peer (Action.delete_stored me backup_id)
    (if not r.success && is_complete b.status
        then pure (not_deleted r.stderr)
        else mark_deleted backup_id b)

  -- `delete`
  unfoldable pub delete : ℕ → String → M Reply
  unfolding find_delete delete_from
  delete user_id backup_id =
      attempt (find_delete user_id backup_id) (λ e. pure (cannot_delete e))
        (λ r. delete_from user_id backup_id r.0 r.1)
