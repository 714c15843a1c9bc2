-- ===== src/Trust/Offerings.antt =====
-- Offerings and access requests: casper_service/trust.py, the part under "Offerings".
use doc_chat_template_scc.Common.{
  ℕ, suc, Bool, true, false, not, ◌&&◌, ◌||◌, Option, none, some, List, [], ◌∷◌, ◌++◌, map, String,
  if◌then◌else◌, ◌==◌, is_none, is_some, select, first, update, exists,
}
use doc_chat_template_scc.Common.Int.{ℤ, pos, leb_ℤ, ltb_ℤ}
use doc_chat_template_scc.Trust.Data.{
  Db, Kind, kind_of, relation_by_kind, WriteTier, tier_of, GrantAttrs, grant, Offering,
  AccessRequest, AccessStatus, host_not_paired, bad_write_tier, unknown_kind, no_offering,
  own_offering, friends_only, bad_quota, already_granted, already_asked, Action, ◌>>=◌, ◌>>◌, gets,
  found, raise_if, modify, insert_tuple,
}
use doc_chat_template_scc.Trust.Users.{owns_paired_host, username, host_label}
use doc_chat_template_scc.Trust.Grants.{active_grant}
use doc_chat_template_scc.Trust.Friends.{are_friends, friends_of}

abbrev pub insert_offering : ℕ → ℕ → Kind → ℤ → WriteTier → Db → Db
insert_offering owner host k quota tier db = record db {
  offerings =
      db.offerings
      ++ (record {
        id = suc db.offering_seq;
        owner_user_id = owner;
        host_id = host;
        kind = k;
        max_quota_bytes = quota;
        write_tier = tier;
        withdrawn_at = none;
      })
        ∷ [];
  offering_seq = suc db.offering_seq;
}

unfoldable pub publish_offering : ℕ → ℕ → ℤ → String → String → Action ℕ
publish_offering owner_id host_id max_quota_bytes write_tier kind = do
  paired ← gets (λ db. owns_paired_host db owner_id host_id)
  raise_if (not paired) host_not_paired
  tier ← found (tier_of write_tier) bad_write_tier
  k ← found (kind_of kind) unknown_kind
  modify (insert_offering owner_id host_id k max_quota_bytes tier)
  gets (λ db. db.offering_seq)

abbrev pub is_offered : Offering → Bool
is_offered o = is_none o.withdrawn_at

abbrev pub own_open_offering : ℕ → ℕ → Offering → Bool
own_open_offering owner_id offering_id o =
    o.id == offering_id && o.owner_user_id == owner_id && is_offered o

-- `cur.rowcount == 0`: the statement met no row
unfoldable pub withdraw_offering : ℕ → ℕ → ℕ → Action Unit
withdraw_offering now owner_id offering_id = do
  met ← gets (λ db. exists (own_open_offering owner_id offering_id) db.offerings)
  modify (λ db. record db {
    offerings =
        update (own_open_offering owner_id offering_id) (λ o. record o { withdrawn_at = some now })
          db.offerings;
  })
  raise_if (not met) no_offering

abbrev pub is_waiting : AccessStatus → Bool
is_waiting AccessStatus.pending = true
is_waiting AccessStatus.granted = false
is_waiting AccessStatus.declined = false

-- a pending request of a user for an offering
unfoldable pub already_requested : Db → ℕ → ℕ → Bool
already_requested db offering_id requester_id =
    exists
      (λ r.
        r.offering_id == offering_id && r.requester_user_id == requester_id && is_waiting r.status)
      db.access_requests

-- the field "yours" of an offering that somebody else owns
pub data Standing : Type 0 where
  granted requested neither : Standing

-- What `_offering_dict` makes of a row; the quota stays in bytes, where the source rounds it to GB.
pub record OfferingEntry : Type 0 where
  pub id : ℕ
  pub owner : String
  pub host : String
  pub kind : Kind
  pub max_quota_bytes : ℤ
  pub write_tier : WriteTier
  pub yours : Option Standing

unfoldable pub standing : Db → Offering → ℕ → Standing
standing db o viewer_id =
    if is_some (active_grant db viewer_id o.host_id o.owner_user_id (relation_by_kind o.kind))
    then Standing.granted
    else if already_requested db o.id viewer_id
    then requested
    else neither

unfoldable pub offering_dict : Db → ℕ → Offering → OfferingEntry
offering_dict db viewer_id o = record {
  id = o.id;
  owner = username db o.owner_user_id;
  host = host_label db o.owner_user_id o.host_id;
  kind = o.kind;
  max_quota_bytes = o.max_quota_bytes;
  write_tier = o.write_tier;
  yours = if o.owner_user_id == viewer_id then none else some (standing db o viewer_id);
}

-- `owner_user_id IN (friend ids)`
abbrev pub owner_in : List ℕ → Offering → Bool
owner_in ids o = exists (λ i. i == o.owner_user_id) ids

unfoldable pub list_offerings : Db → ℕ → List OfferingEntry × List OfferingEntry
list_offerings db viewer_id = (
  map (offering_dict db viewer_id)
      (select (λ o. o.owner_user_id == viewer_id && is_offered o) db.offerings),
  map (offering_dict db viewer_id)
      (select (λ o. owner_in (friends_of db viewer_id) o && is_offered o) db.offerings),
)

abbrev pub insert_access_request : ℕ → ℕ → ℤ → Db → Db
insert_access_request offering requester quota db = record db {
  access_requests =
      db.access_requests
      ++ (record {
        id = suc db.access_request_seq;
        offering_id = offering;
        requester_user_id = requester;
        quota_bytes = quota;
        status = AccessStatus.pending;
        decided_at = none;
      })
        ∷ [];
  access_request_seq = suc db.access_request_seq;
}

-- `quota_bytes <= 0 or quota_bytes > max_quota_bytes`
abbrev pub quota_refused : ℤ → ℤ → Bool
quota_refused quota max_quota = leb_ℤ quota (pos 0) || ltb_ℤ max_quota quota

unfoldable pub create_access_request : ℕ → ℕ → ℤ → Action (ℕ × Offering)
create_access_request requester_id offering_id quota_bytes = do
  row ← gets (λ db. first (λ o. o.id == offering_id && is_offered o) db.offerings)
  offering ← found row no_offering
  raise_if (offering.owner_user_id == requester_id) own_offering
  friends ← gets (λ db. are_friends db requester_id offering.owner_user_id)
  raise_if (not friends) friends_only
  raise_if (quota_refused quota_bytes offering.max_quota_bytes) bad_quota
  held ← gets (λ db.
      active_grant db requester_id offering.host_id offering.owner_user_id
        (relation_by_kind offering.kind))
  raise_if (is_some held) already_granted
  asked ← gets (λ db. already_requested db offering_id requester_id)
  raise_if asked already_asked
  modify (insert_access_request offering_id requester_id quota_bytes)
  gets (λ db. (db.access_request_seq, offering))

abbrev pub grant_attrs : ℕ → ℤ → WriteTier → ℕ → Option ℕ → GrantAttrs
grant_attrs owner quota tier offering invite = record {
  owner_user_id = owner;
  quota_bytes = quota;
  write_tier = tier;
  offering_id = offering;
  invite_id = invite;
}

unfoldable pub write_grant : ℕ → AccessRequest → Offering → Db → Db
write_grant now r o db =
    if are_friends db r.requester_user_id o.owner_user_id
    then insert_tuple now r.requester_user_id
        (grant (relation_by_kind o.kind)
          (grant_attrs o.owner_user_id r.quota_bytes o.write_tier r.offering_id none))
        o.host_id db
    else db

unfoldable pub decide_access : ℕ → Bool → AccessRequest → Offering → Db → Db
unfolding write_grant
decide_access now grant_it r o db =
    let decided = record db {
      access_requests =
          update (λ q. q.id == r.id)
            (λ q. record q {
              status = if grant_it then AccessStatus.granted else AccessStatus.declined;
              decided_at = some now;
            })
            db.access_requests;
    } in
    if grant_it then write_grant now r o decided else decided

-- `decide_access_request`; the JOIN drops a request whose offering is not there
unfoldable pub decide_access_request : ℕ → ℕ → Bool → Db → Option (AccessRequest × Offering) × Db
unfolding decide_access
decide_access_request now request_id grant_it db =
    elim (first (λ r. r.id == request_id && is_waiting r.status) db.access_requests) [
      | none ↦ (none, db)
      | some r ↦ elim (first (λ o. o.id == r.offering_id) db.offerings) [
        | none ↦ (none, db)
        | some o ↦ (some (r, o), decide_access now grant_it r o db)
      ]
    ]
