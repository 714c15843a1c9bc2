-- ===== src/Trust/Friends.antt =====
-- Friends: casper_service/trust.py, the part under "Friends".
use doc_chat_template_scc.Common.{
  ℕ, suc, Bool, true, false, not, ◌&&◌, ◌||◌, Option, none, some, List, [], ◌∷◌, ◌++◌, map, String,
  if◌then◌else◌, ◌==◌, select, first, update, exists,
}
use doc_chat_template_scc.Trust.Data.{
  Db, Tuple, Edge, friend, member, grant, FriendRequest, FriendStatus, accepted, no_user,
  self_friend, already_friends, request_pending, not_friends, Action, ◌>>=◌, ◌>>◌, pure, gets,
  found, raise_if, modify, insert_tuple, revoke, is_active,
}
use doc_chat_template_scc.Trust.Users.{user_id_by_name, username}
use doc_chat_template_scc.Trust.Grants.{Grant, grants_between, revoke_grant_row}

abbrev pub is_friend_edge : Edge → Bool
is_friend_edge (friend tag) = true
is_friend_edge (member tag) = false
is_friend_edge (grant relation attrs) = false

abbrev pub is_member_edge : Edge → Bool
is_member_edge (friend tag) = false
is_member_edge (member tag) = true
is_member_edge (grant relation attrs) = false

unfoldable pub are_friends : Db → ℕ → ℕ → Bool
are_friends db a b =
    exists (λ t. t.subject_id == a && is_friend_edge t.edge && t.object_id == b && is_active t)
      db.tuples

unfoldable pub friends_of : Db → ℕ → List ℕ
friends_of db user_id =
    map (λ (t : Tuple). t.object_id)
      (select (λ t. t.subject_id == user_id && is_friend_edge t.edge && is_active t) db.tuples)

abbrev pub is_pending : FriendStatus → Bool
is_pending FriendStatus.pending = true
is_pending accepted = false
is_pending FriendStatus.declined = false

-- a pending request between two users, either way round
unfoldable pub request_between : Db → ℕ → ℕ → Bool
request_between db a b =
    exists
      (λ r.
        is_pending r.status
        && (r.from_user_id == a && r.to_user_id == b || r.from_user_id == b && r.to_user_id == a))
      db.friend_requests

abbrev pub insert_friend_request : ℕ → ℕ → Db → Db
insert_friend_request from_id to_id db = record db {
  friend_requests =
      db.friend_requests
      ++ (record {
        id = suc db.friend_request_seq;
        from_user_id = from_id;
        to_user_id = to_id;
        status = FriendStatus.pending;
        decided_at = none;
      })
        ∷ [];
  friend_request_seq = suc db.friend_request_seq;
}

unfoldable pub create_friend_request : ℕ → String → Action (ℕ × ℕ)
create_friend_request from_id to_username = do
  row ← gets (λ db. user_id_by_name db to_username)
  to_id ← found row no_user
  raise_if (to_id == from_id) self_friend
  friends ← gets (λ db. are_friends db from_id to_id)
  raise_if friends already_friends
  waiting ← gets (λ db. request_between db from_id to_id)
  raise_if waiting request_pending
  modify (insert_friend_request from_id to_id)
  gets (λ db. (db.friend_request_seq, to_id))

-- the two INSERTs of a new friendship, one for each direction
abbrev pub befriend : ℕ → Option ℕ → ℕ → ℕ → Db → Db
befriend now tag a b db = insert_tuple now b (friend tag) a (insert_tuple now a (friend tag) b db)

-- `if accept: …`
unfoldable pub settle_request : ℕ → Bool → FriendRequest → Db → Db
settle_request now accept row db =
    if accept then befriend now none row.from_user_id row.to_user_id db else db

unfoldable pub decide_friend_request : ℕ → ℕ → Bool → Db → Option FriendRequest × Db
unfolding settle_request
decide_friend_request now request_id accept db =
    elim (first (λ r. r.id == request_id && is_pending r.status) db.friend_requests) [
      | none ↦ (none, db)
      | some row ↦
          let decided = record db {
            friend_requests =
                update (λ r. r.id == request_id)
                  (λ r. record r {
                    status = if accept then accepted else FriendStatus.declined;
                    decided_at = some now;
                  })
                  db.friend_requests;
          } in
          (some row, settle_request now accept row decided)
    ]

-- both directions of a pair
abbrev pub pair_is : ℕ → ℕ → ℕ → ℕ → Bool
pair_is u v a b = a == u && b == v || a == v && b == u

unfoldable pub end_friendship : ℕ → ℕ → ℕ → Db → Db
end_friendship ts u v db = record db {
  tuples =
      update (λ t. is_friend_edge t.edge && is_active t && pair_is u v t.subject_id t.object_id)
        (revoke ts) db.tuples;
}

-- `object_id IN (SELECT id FROM groups WHERE owner_user_id = owner)`
abbrev pub group_owned : Db → ℕ → ℕ → Bool
group_owned db group_id owner = exists (λ g. g.owner_user_id == owner && g.id == group_id) db.groups

unfoldable pub leave_groups : ℕ → ℕ → ℕ → Db → Db
leave_groups ts u v db = record db {
  tuples =
      update
        (λ t.
          is_member_edge t.edge
          && is_active t
          && (t.subject_id == u && group_owned db t.object_id v
              || t.subject_id == v && group_owned db t.object_id u))
        (revoke ts) db.tuples;
}

unfoldable pub revoke_grant_rows : ℕ → List Grant → Db → Db
unfolding revoke_grant_row
revoke_grant_rows ts [] db = db
revoke_grant_rows ts (g ∷ gs) db = revoke_grant_rows ts gs (revoke_grant_row g.id ts db)

unfoldable pub remove_friend : ℕ → ℕ → String → Action (List Grant)
remove_friend now user_id other_username = do
  row ← gets (λ db. user_id_by_name db other_username)
  other_id ← found row not_friends
  friends ← gets (λ db. are_friends db user_id other_id)
  raise_if (not friends) not_friends
  modify (end_friendship now user_id other_id)
  modify (leave_groups now user_id other_id)
  revoked ← gets (λ db. grants_between db user_id other_id ++ grants_between db other_id user_id)
  modify (revoke_grant_rows now revoked)
  pure revoked

-- an entry of `pending_friend_requests`
pub record RequestEntry : Type 0 where
  pub id : ℕ
  pub username : String

abbrev pub has_user : Db → ℕ → Bool
has_user db user_id = exists (λ u. u.id == user_id) db.users

-- `JOIN users`: a request of a user who is not there is dropped
unfoldable pub request_entries : Db → (FriendRequest → ℕ) → List FriendRequest → List RequestEntry
request_entries db other [] = []
request_entries db other (r ∷ rs) =
    let rest = request_entries db other rs in
    if has_user db (other r)
    then (record { id = r.id; username = username db (other r) }) ∷ rest
    else rest

unfoldable pub pending_friend_requests : Db → ℕ → List RequestEntry × List RequestEntry
unfolding request_entries
pending_friend_requests db user_id = (
  request_entries db (λ r. r.from_user_id)
      (select (λ r. r.to_user_id == user_id && is_pending r.status) db.friend_requests),
  request_entries db (λ r. r.to_user_id)
      (select (λ r. r.from_user_id == user_id && is_pending r.status) db.friend_requests),
)
