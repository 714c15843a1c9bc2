-- ===== src/Trust/Grants.antt =====
-- Grants: casper_service/trust.py, the part under "Grants".
use doc_chat_template_scc.Common.{
  ℕ, Bool, true, false, not, ◌&&◌, ◌||◌, Option, none, some, List, [], ◌∷◌, map, String,
  if◌then◌else◌, ◌==◌, select, first, update,
}
use doc_chat_template_scc.Common.Int.{ℤ}
use doc_chat_template_scc.Trust.Data.{
  Db, Tuple, Edge, friend, member, grant, GrantAttrs, GrantRelation, backup_peer, relation_eq,
  WriteTier, HostPairing, ok, err, no_grant, Action, revoke, is_active,
}
use doc_chat_template_scc.Trust.Users.{username, host_label}

-- the dictionary that `_grant_dict` makes of a row
pub record Grant : Type 0 where
  pub id : ℕ
  pub relation : GrantRelation
  pub grantee_user_id : ℕ
  pub grantee : String
  pub owner_user_id : ℕ
  pub owner : String
  pub host_id : ℕ
  pub host : String
  pub quota_bytes : ℤ
  pub write_tier : WriteTier
  pub created_at : ℕ
  pub revoked_at : Option ℕ

-- `_grant_dict`
unfoldable pub grant_dict : Db → Tuple → GrantRelation → GrantAttrs → Grant
grant_dict db row rel attrs = record {
  id = row.id;
  relation = rel;
  grantee_user_id = row.subject_id;
  grantee = username db row.subject_id;
  owner_user_id = attrs.owner_user_id;
  owner = username db attrs.owner_user_id;
  host_id = row.object_id;
  host = host_label db attrs.owner_user_id row.object_id;
  quota_bytes = attrs.quota_bytes;
  write_tier = attrs.write_tier;
  created_at = row.created_at;
  revoked_at = row.revoked_at;
}

-- `relation IN (…)`: the one that is asked for, or any of the three
abbrev pub relation_in : Option GrantRelation → GrantRelation → Bool
relation_in none rel = true
relation_in (some one) rel = relation_eq one rel

abbrev pub grant_of : Db → Option GrantRelation → Tuple → Edge → Option Grant
grant_of db relation row (friend tag) = none
grant_of db relation row (member tag) = none
grant_of db relation row (grant rel attrs) =
    if relation_in relation rel then some (grant_dict db row rel attrs) else none

abbrev pub add_grant : Option Grant → List Grant → List Grant
add_grant none gs = gs
add_grant (some g) gs = g ∷ gs

unfoldable pub collect_grants : Db → (Tuple → Bool) → Option GrantRelation → List Tuple → List Grant
collect_grants db wanted relation [] = []
collect_grants db wanted relation (row ∷ rows) =
    let rest = collect_grants db wanted relation rows in
    if wanted row then add_grant (grant_of db relation row row.edge) rest else rest

-- `_grant_rows`
unfoldable pub grant_rows : Db → (Tuple → Bool) → Option GrantRelation → List Grant
unfolding collect_grants
grant_rows db wanted relation = collect_grants db wanted relation db.tuples

unfoldable pub active_grant : Db → ℕ → ℕ → ℕ → GrantRelation → Option Grant
unfolding grant_rows
active_grant db grantee_id host_id owner_id relation =
    first (λ g. g.owner_user_id == owner_id)
      (grant_rows db (λ t. t.subject_id == grantee_id && t.object_id == host_id && is_active t)
        (some relation))

abbrev pub last? {ℓ} : {A : Type ℓ} → List A → Option A
last? [] = none
last? (x ∷ []) = some x
last? (x ∷ y ∷ ys) = last? (y ∷ ys)

unfoldable pub latest_grant : Db → ℕ → ℕ → ℕ → GrantRelation → Option Grant
unfolding grant_rows
latest_grant db grantee_id host_id owner_id relation = last? (
    select (λ g. g.owner_user_id == owner_id)
      (grant_rows db (λ t. t.subject_id == grantee_id && t.object_id == host_id) (some relation)))

unfoldable pub grants_held : Db → ℕ → Bool → Option GrantRelation → List Grant
unfolding grant_rows
grants_held db grantee_id include_revoked relation =
    grant_rows db (λ t. t.subject_id == grantee_id && (include_revoked || is_active t)) relation

unfoldable pub grants_given : Db → ℕ → Bool → Option GrantRelation → List Grant
unfolding grant_rows
grants_given db owner_id include_revoked relation =
    select (λ g. g.owner_user_id == owner_id)
      (grant_rows db (λ t. include_revoked || is_active t) relation)

unfoldable pub grants_between : Db → ℕ → ℕ → List Grant
unfolding grants_held
grants_between db grantee_id owner_id =
    select (λ g. g.owner_user_id == owner_id) (grants_held db grantee_id false none)

-- an entry of what `GET /hosts/grants` tells a daemon
pub record DaemonGrant : Type 0 where
  pub grantee : String
  pub signing_keys : List String
  pub quota_bytes : ℤ
  pub write_tier : WriteTier
  pub revoked_at : Option ℕ

unfoldable pub signing_keys : List HostPairing → ℕ → List String
signing_keys [] user_id = []
signing_keys (hp ∷ hps) user_id =
    let rest = signing_keys hps user_id in
    if hp.user_id == user_id
    then elim hp.backup_signing_key [ none ↦ rest | some k ↦ k ∷ rest ]
    else rest

abbrev pub daemon_grant : Db → Grant → DaemonGrant
daemon_grant db g = record {
  grantee = g.grantee;
  signing_keys = signing_keys db.pairings g.grantee_user_id;
  quota_bytes = g.quota_bytes;
  write_tier = g.write_tier;
  revoked_at = g.revoked_at;
}

unfoldable pub grants_on_host_for_daemon : Db → ℕ → ℕ → List DaemonGrant
unfolding grant_rows signing_keys
grants_on_host_for_daemon db owner_id host_id = map (daemon_grant db) (
    select (λ g. g.owner_user_id == owner_id)
      (grant_rows db (λ t. t.object_id == host_id) (some backup_peer)))

unfoldable pub revoke_grant_row : ℕ → ℕ → Db → Db
revoke_grant_row grant_id ts db = record db {
  tuples = update (λ t. t.id == grant_id && is_active t) (revoke ts) db.tuples;
}

-- `revoke_grant`
unfoldable pub revoke_grant : ℕ → ℕ → ℕ → Action Grant
unfolding grant_rows revoke_grant_row
revoke_grant now actor_id grant_id db =
    elim (grant_rows db (λ t. t.id == grant_id && is_active t) none) [
      | [] ↦ err no_grant
      | g ∷ _ ↦
          if not (g.owner_user_id == actor_id || g.grantee_user_id == actor_id)
          then err no_grant
          else ok (g, revoke_grant_row grant_id now db)
    ]
