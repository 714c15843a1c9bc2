-- ===== src/Trust/Users.antt =====
-- Users and hosts by name: the look-ups at the head of casper_service/trust.py.
use Prim.Native.String
use doc_chat_template_scc.Common.{
  ℕ, Bool, ◌&&◌, Option, none, some, String, ◌==◌, nocase_eq, show_nat, first, exists,
}
use doc_chat_template_scc.Trust.Data.{Db, User}

abbrev pub opt_user_id : Option User → Option ℕ
opt_user_id none = none
opt_user_id (some u) = some u.id

-- `users.username` is declared COLLATE NOCASE
unfoldable pub user_id_by_name : Db → String → Option ℕ
user_id_by_name db name = opt_user_id (first (λ u. nocase_eq u.username name) db.users)

unfoldable pub username : Db → ℕ → String
username db user_id = elim (first (λ u. u.id == user_id) db.users) [
  | none ↦ String.◌++◌ "user" (show_nat user_id)
  | some u ↦ u.username
]

unfoldable pub host_label : Db → ℕ → ℕ → String
host_label db user_id host_id =
    elim (first (λ h. h.user_id == user_id && h.host_id == host_id) db.user_hosts) [
      | none ↦ String.◌++◌ "host" (show_nat host_id)
      | some h ↦ h.label
    ]

unfoldable pub owns_paired_host : Db → ℕ → ℕ → Bool
owns_paired_host db user_id host_id =
    exists (λ hp. hp.user_id == user_id && hp.host_id == host_id) db.pairings
