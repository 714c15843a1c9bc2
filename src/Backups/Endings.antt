-- ===== src/Backups/Endings.antt =====
-- How a transfer ends: with every chunk stored, or with a failure; the owner is told of either.
use doc_chat_template_scc.Common.{◌≡◌, ◌⊎◌, Bool, Option, some, String}
use doc_chat_template_scc.Common.Rows.{Elem}
use doc_chat_template_scc.Backups.Data.{
  Config, Why, because, failed, Backup, notified, backup_failed, Deps, World,
}
use doc_chat_template_scc.Backups.Resolve.{row, dest_name, labelled}
use doc_chat_template_scc.Backups.Effects.{Elem-append_last}
use doc_chat_template_scc.Backups.Effects.{Elem-append_last}
use doc_chat_template_scc.Backups.Sending.{Good}
use doc_chat_template_scc.Trust.Users.{username, host_label}

-- how a transfer that fails ends
abbrev pub Failed : Backup → String → World → Type 0
Failed b label w =
    (c : Backup) × (e : Why) × (row w b.id ≡ some c)
    × (c.status ≡ failed)
    × (c.error ≡ because e)
    × Elem (notified b.owner_user_id (backup_failed b.name label e)) w.events

module _ (deps : Deps) where
  -- the connections of the source host and of the destination host of a backup, where there are any
  abbrev pub source_of : Backup → World → Option Config
  source_of b w =
      labelled deps (λ v. host_label v.db b.owner_user_id b.source_host_id) w
        (deps.host_config w.events b.owner_user_id b.source_host_id)

  abbrev pub destination_of : Backup → World → Option Config
  destination_of b w =
      labelled deps (λ v. dest_name v.db b) w
        (deps.host_config w.events b.dest_owner_user_id b.dest_host_id)

  -- whichever way a transfer begun at `v` ends, the row says so and the owner has been told
  abbrev pub Ended : Backup → Bool → World → World → Type 0
  Ended b approved v w =
      Good deps (source_of b v) (destination_of b v) (username v.db b.owner_user_id) b approved
        (dest_name v.db b) w
      ⊎ Failed b (dest_name v.db b) w
