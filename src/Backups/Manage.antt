-- ===== src/Backups/Manage.antt =====
-- What an owner does with a backup: `status` and `list_backups`.
use doc_chat_template_scc.Common.{
  ℕ, zero, suc, leb, Bool, true, false, not, ◌&&◌, Option, none, some, List, [], ◌∷◌, map, String,
  if◌then◌else◌, ◌==◌, select,
}
use doc_chat_template_scc.Backups.Data.{
  Why, no_such_backup, Detail, blank, Status, pending, awaiting_approval, transferring, complete,
  denied, failed, deleted, RestoreStatus, no_restore, restoring, restored, restore_failed, Backup,
  World, M, attempt, pure, raise, gets,
}
use doc_chat_template_scc.Backups.Resolve.{row, dest_name}
use doc_chat_template_scc.Backups.Push.{is_complete}

abbrev pub is_deleted : Status → Bool
is_deleted deleted = true
is_deleted complete = false
is_deleted pending = false
is_deleted awaiting_approval = false
is_deleted transferring = false
is_deleted denied = false
is_deleted failed = false

-- `b["status"] in ("complete", "failed", "transferring")`
abbrev pub may_be_stored : Status → Bool
may_be_stored complete = true
may_be_stored failed = true
may_be_stored transferring = true
may_be_stored pending = false
may_be_stored awaiting_approval = false
may_be_stored denied = false
may_be_stored deleted = false

-- the test of `_own_row`
abbrev pub is_own : ℕ → Backup → Bool
is_own user_id b = b.owner_user_id == user_id && not (is_deleted b.status)

-- `_own_row`
abbrev pub check_own : ℕ → String → Option Backup → M Backup
check_own user_id backup_id none = raise (no_such_backup backup_id)
check_own user_id backup_id (some b) =
    if is_own user_id b then pure b else raise (no_such_backup backup_id)

unfoldable pub own_row : ℕ → String → M Backup
own_row user_id backup_id w = check_own user_id backup_id (row w backup_id) w

-- the dictionary that `_describe` makes; its sizes are numbers of bytes
pub record Described : Type 0 where
  pub backup_id : String
  pub name : String
  pub stored_on : String
  pub status : Status
  pub size : ℕ
  pub created_at : ℕ
  pub progress : Option (ℕ × ℕ)
  pub error : Option Detail
  pub restore : Option (RestoreStatus × Detail)

abbrev pub progress_of : Status → ℕ → ℕ → Option (ℕ × ℕ)
progress_of transferring done count = if count == 0 then none else some (done, count)
progress_of complete done count = none
progress_of pending done count = none
progress_of awaiting_approval done count = none
progress_of denied done count = none
progress_of failed done count = none
progress_of deleted done count = none

abbrev pub error_of : Detail → Option Detail
error_of blank = none
error_of e = some e

abbrev pub restore_of : RestoreStatus → Detail → Option (RestoreStatus × Detail)
restore_of no_restore d = none
restore_of restoring d = some (restoring, d)
restore_of restored d = some (restored, d)
restore_of restore_failed d = some (restore_failed, d)

-- `_describe`
unfoldable pub describe : World → Backup → Described
describe w b = record {
  backup_id = b.id;
  name = b.name;
  stored_on = dest_name w.db b;
  status = b.status;
  size = if b.total_bytes == 0 then b.plaintext_bytes else b.total_bytes;
  created_at = b.created_at;
  progress = progress_of b.status b.chunks_done b.chunk_count;
  error = error_of b.error;
  restore = restore_of b.restore_status b.restore_detail;
}

-- `ORDER BY created_at DESC`, where later rows come first among equals
unfoldable pub insert_newest : Backup → List Backup → List Backup
insert_newest b [] = b ∷ []
insert_newest b (c ∷ cs) =
    let rest = insert_newest b cs in if leb c.created_at b.created_at then b ∷ c ∷ cs else c ∷ rest

unfoldable pub newest_first : List Backup → List Backup → List Backup
unfolding insert_newest
newest_first acc [] = acc
newest_first acc (b ∷ bs) = newest_first (insert_newest b acc) bs

abbrev pub take {ℓ} : {A : Type ℓ} → ℕ → List A → List A
take zero xs = []
take (suc n) [] = []
take (suc n) (x ∷ xs) = x ∷ take n xs

-- `status` without an id
unfoldable pub latest_backups : ℕ → World → List Described
unfolding newest_first describe
latest_backups user_id w =
    map (describe w) (take 10 (newest_first [] (select (is_own user_id) w.backups)))

-- `list_backups`
unfoldable pub list_backups : ℕ → World → List Described
unfolding newest_first describe
list_backups user_id w = map (describe w) (
    newest_first []
      (select (λ (b : Backup). b.owner_user_id == user_id && is_complete b.status) w.backups))

-- the texts that the functions return
pub data Reply : Type 0 where
  described : Described → Reply
  cannot_show cannot_restore cannot_delete : Why → Reply
  restoring_reply : (name dest_host : String) → Reply
  not_deleted : Option String → Reply
  deleted_reply : (backup_id name : String) → Reply

-- `status` with an id
unfoldable pub status_of : ℕ → String → M Reply
unfolding own_row describe
status_of user_id backup_id =
    attempt (own_row user_id backup_id) (λ e. pure (cannot_show e))
      (λ b. gets (λ w. described (describe w b)))
