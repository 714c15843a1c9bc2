-- ===== src/Trust/Invites.antt =====
-- Invites: casper_service/trust.py, the part under "Invites".
-- A code is the list of its code points; `sha256` stands for the digest of `hashlib`, in
-- hexadecimal. Upper case and white space are those of ASCII.
use doc_chat_template_scc.Common.{
  ℕ, suc, ◌+◌, ◌*◌, ◌-◌, Bool, true, false, not, ◌&&◌, ◌||◌, Option, none, some, List, [], ◌∷◌,
  ◌++◌, String, if◌then◌else◌, ◌==◌, leb, ltb, is_none, is_some, is_num, select, first, update,
  exists, str_eq,
}
use doc_chat_template_scc.Common.Int.{ℤ}
use doc_chat_template_scc.Trust.Data.{
  Db, relation_by_kind, Tuple, member, grant, Offering, Invite, bad_code, invite_cancelled,
  invite_used, invite_expired, own_invite, no_open_invite, no_own_offering, bad_quota,
  already_granted, Action, ◌>>=◌, ◌>>◌, pure, gets, found, raise_if, modify, invite_of,
  insert_tuple, revoke, is_active,
}
use doc_chat_template_scc.Trust.Grants.{active_grant}
use doc_chat_template_scc.Trust.Friends.{is_friend_edge, is_member_edge, are_friends, befriend}
use doc_chat_template_scc.Trust.Offerings.{own_open_offering, quota_refused, grant_attrs}

abbrev pub is_space : ℕ → Bool
is_space c = leb 9 c && leb c 13 || leb 28 c && leb c 32

abbrev pub upper_code : ℕ → ℕ
upper_code c = if leb b'a' c && leb c b'z' then c - 32 else c

unfoldable pub lstrip : List ℕ → List ℕ
lstrip [] = []
lstrip (c ∷ s) = let rest = lstrip s in if is_space c then rest else c ∷ s

abbrev pub is_nil : List ℕ → Bool
is_nil [] = true
is_nil (c ∷ s) = false

unfoldable pub rstrip : List ℕ → List ℕ
rstrip [] = []
rstrip (c ∷ s) = let rest = rstrip s in if is_nil rest && is_space c then [] else c ∷ rest

-- `.upper().replace(" ", "")`
unfoldable pub upper_no_spaces : List ℕ → List ℕ
upper_no_spaces [] = []
upper_no_spaces (c ∷ s) =
    let rest = upper_no_spaces s in if c == b' ' then rest else upper_code c ∷ rest

-- what of a code counts: `code.strip().upper().replace(" ", "")`
unfoldable pub normalise : List ℕ → List ℕ
unfolding lstrip rstrip upper_no_spaces
normalise code = upper_no_spaces (rstrip (lstrip code))

abbrev pub invite_ttl : ℕ
invite_ttl = 7 * 86400

-- A row of the JOIN of an invite and its offering.
pub record InviteRow : Type 0 where
  pub invite : Invite
  pub offering : Offering

abbrev pub set_invites : (Invite → Bool) → (Invite → Invite) → Db → Db
set_invites p f db = record db { invites = update p f db.invites }

unfoldable pub offering_of : Db → Invite → Option InviteRow
offering_of db i = elim (first (λ o. o.id == i.offering_id) db.offerings) [
  | none ↦ none
  | some o ↦ some (record { invite = i; offering = o })
]

-- the guards of `find_invite`, on the row that it found
unfoldable pub check_invite : ℕ → InviteRow → Action InviteRow
check_invite now row = do
  raise_if (is_some row.invite.cancelled_at || is_some row.offering.withdrawn_at) invite_cancelled
  raise_if (is_some row.invite.completed_at) invite_used
  raise_if (is_none row.invite.used_at && ltb row.invite.expires_at now) invite_expired
  pure row

-- one round of the loop of `release_invite`
unfoldable pub revoke_if_tagged : ℕ → ℕ → Tuple → Db → Db
revoke_if_tagged ts invite_id row db =
    if is_num invite_id (invite_of row.edge)
    then record db { tuples = update (λ t. t.id == row.id) (revoke ts) db.tuples }
    else db

unfoldable pub revoke_tagged : ℕ → ℕ → List Tuple → Db → Db
unfolding revoke_if_tagged
revoke_tagged ts invite_id [] db = db
revoke_tagged ts invite_id (row ∷ rows) db =
    revoke_tagged ts invite_id rows (revoke_if_tagged ts invite_id row db)

-- the rows that `release_invite` looks through
abbrev pub of_earlier : Option ℕ → Tuple → Bool
of_earlier earlier t =
    is_active t
    && (is_num t.subject_id earlier || is_friend_edge t.edge && is_num t.object_id earlier)

unfoldable pub release_invite : ℕ → Invite → Db → Db
unfolding revoke_tagged
release_invite now inv db =
    set_invites (λ i. i.id == inv.id) (λ i. record i { used_by_user_id = none; used_at = none })
      (revoke_tagged now inv.id (select (of_earlier inv.used_by_user_id) db.tuples) db)

-- the statements of `redeem_invite` behind its last guard
unfoldable pub join_friends : ℕ → ℕ → InviteRow → Db → Db
join_friends now user_id row db =
    if are_friends db user_id row.invite.owner_user_id
    then db
    else befriend now (some row.invite.id) user_id row.invite.owner_user_id db

unfoldable pub write_invite_grant : ℕ → ℕ → InviteRow → Db → Db
write_invite_grant now user_id row db =
    insert_tuple now user_id
      (grant (relation_by_kind row.offering.kind) (
        grant_attrs row.invite.owner_user_id row.invite.quota_bytes row.offering.write_tier
          row.invite.offering_id (some row.invite.id)))
      row.offering.host_id db

abbrev pub is_member : Db → ℕ → ℕ → Bool
is_member db user_id group_id =
    exists
      (λ t.
        t.subject_id == user_id && is_member_edge t.edge && t.object_id == group_id && is_active t)
      db.tuples

unfoldable pub join_group : ℕ → ℕ → ℕ → Option ℕ → Db → Db
join_group now user_id invite_id none db = db
join_group now user_id invite_id (some g) db =
    if is_member db user_id g then db else insert_tuple now user_id (member (some invite_id)) g db

unfoldable pub mark_used : ℕ → ℕ → ℕ → Db → Db
mark_used now user_id invite_id =
    set_invites (λ i. i.id == invite_id)
      (λ i. record i { used_by_user_id = some user_id; used_at = some now })

-- `if inv["used_by_user_id"] is not None: release_invite(db, inv)`
unfoldable pub release_earlier : ℕ → Invite → Db → Db
release_earlier now inv db = if is_some inv.used_by_user_id then release_invite now inv db else db

-- the rest of `redeem_invite`, for a user who has not accepted this invite
unfoldable pub accept_invite : ℕ → ℕ → InviteRow → Action InviteRow
accept_invite now user_id row = do
  modify (release_earlier now row.invite)
  held ← gets (λ db.
      active_grant db user_id row.offering.host_id row.invite.owner_user_id
        (relation_by_kind row.offering.kind))
  raise_if (is_some held) already_granted
  modify (join_friends now user_id row)
  modify (write_invite_grant now user_id row)
  modify (join_group now user_id row.invite.id row.invite.group_id)
  modify (mark_used now user_id row.invite.id)
  pure row

unfoldable pub complete_invites : ℕ → ℕ → Db → Db
complete_invites now user_id =
    set_invites (λ i. is_num user_id i.used_by_user_id && is_none i.completed_at)
      (λ i. record i { completed_at = some now })

abbrev pub can_cancel : ℕ → ℕ → Invite → Bool
can_cancel owner_id invite_id i =
    i.id == invite_id
    && i.owner_user_id == owner_id
    && is_none i.completed_at
    && is_none i.cancelled_at

unfoldable pub cancel_invite : ℕ → ℕ → ℕ → Action Unit
cancel_invite now owner_id invite_id = do
  met ← gets (λ db. exists (can_cancel owner_id invite_id) db.invites)
  modify (set_invites (can_cancel owner_id invite_id) (λ i. record i { cancelled_at = some now }))
  raise_if (not met) no_open_invite

unfoldable pub open_invites : Db → ℕ → ℕ → List Invite
open_invites db now owner_id =
    select
      (λ i.
        i.owner_user_id == owner_id
        && is_none i.completed_at
        && is_none i.cancelled_at
        && (is_some i.used_at || ltb now i.expires_at))
      db.invites

module _ (sha256 : List ℕ → String) where
  -- `_invite_hash`
  unfoldable pub invite_hash : List ℕ → String
  invite_hash code = sha256 (normalise code)

  abbrev pub insert_invite : ℕ → ℕ → ℕ → ℤ → String → Option ℕ → List ℕ → Db → Db
  insert_invite now owner offering quota memo group code db = record db {
    invites =
        db.invites
        ++ (record {
          id = suc db.invite_seq;
          code_hash = invite_hash code;
          owner_user_id = owner;
          offering_id = offering;
          quota_bytes = quota;
          note = memo;
          expires_at = now + invite_ttl;
          used_by_user_id = none;
          used_at = none;
          cancelled_at = none;
          group_id = group;
          completed_at = none;
        })
          ∷ [];
    invite_seq = suc db.invite_seq;
  }

  -- `create_invite`, with the code that `new_invite_code` draws as an argument
  unfoldable pub create_invite :
      ℕ → ℕ → ℕ → ℤ → String → Option ℕ → List ℕ → Action (List ℕ × Offering)
  create_invite now owner_id offering_id quota_bytes note group_id code = do
    row ← gets (λ db. first (own_open_offering owner_id offering_id) db.offerings)
    offering ← found row no_own_offering
    raise_if (quota_refused quota_bytes offering.max_quota_bytes) bad_quota
    modify (insert_invite now owner_id offering_id quota_bytes note group_id code)
    pure (code, offering)

  unfoldable pub find_invite : ℕ → List ℕ → Action InviteRow
  unfolding check_invite
  find_invite now code = do
    i ← gets (λ db. first (λ i. str_eq i.code_hash (invite_hash code)) db.invites)
    inv ← found i bad_code
    joined ← gets (λ db. offering_of db inv)
    row ← found joined bad_code
    check_invite now row

  unfoldable pub redeem_invite : ℕ → ℕ → List ℕ → Action InviteRow
  redeem_invite now user_id code = do
    row ← find_invite now code
    raise_if (row.invite.owner_user_id == user_id) own_invite
    if is_num user_id row.invite.used_by_user_id then pure row else accept_invite now user_id row
