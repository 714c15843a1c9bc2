-- ===== src/Backups/Deletion.antt =====
-- A backup that was deleted is gone for everybody.
use doc_chat_template_scc.Common.{◌≡◌, some, String}
use doc_chat_template_scc.Backups.Data.{deleted, Backup, Deps, World, Outcome, ok}
use doc_chat_template_scc.Backups.Resolve.{row}
use doc_chat_template_scc.Backups.Manage.{Reply, deleted_reply}

module _ (deps : Deps) (id : String) where
  -- where the reply is that the backup was deleted, its row says so
  abbrev Deletes : Outcome Reply × World → Type 0
  Deletes x =
      (name : String)
      → x.0 ≡ ok (deleted_reply id name)
      → (c : Backup) × (row x.1 id ≡ some c) × (c.status ≡ deleted)
