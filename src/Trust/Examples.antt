-- ===== src/Trust/Examples.antt =====
-- A small database, and what the theorems on friends, grants and invites say of it.
-- The digest of a code is taken to be one text for all codes here.
use doc_chat_template_scc.Common.{
  ℕ, ◌≡◌, refl, true, not, ◌&&◌, none, List, [], ◌∷◌, String, first, exists, nocase_eq,
}
use doc_chat_template_scc.Common.Int.{pos}
use doc_chat_template_scc.Trust.Data.{
  Kind, WriteTier, Offering, Invite, Db, Result, ok, err, not_friends, invite_used,
}
use doc_chat_template_scc.Trust.Users.{user_id_by_name}
use doc_chat_template_scc.Trust.Grants.{Grant, active_grant}
use doc_chat_template_scc.Trust.Friends.{are_friends, remove_friend, pair_is}
use doc_chat_template_scc.Trust.Invites.{
  InviteRow, redeem_invite, complete_invites, find_invite, invite_hash, offering_of, accept_invite,
  release_earlier, mark_used, join_group, write_invite_grant, join_friends,
}
use doc_chat_template_scc.Trust.Unfriend.{
  has_grant, remove_friend-severs, remove_friend-remove_friend,
}
use doc_chat_template_scc.Trust.InviteLife.{redeem_invite-completed}
use doc_chat_template_scc.Trust.Steps.{IsSound}
use doc_chat_template_scc.Trust.Reach.{
  Reach, here, next, redeemed, Reach-are_friends, Reach-IsSound, redeem_invite-grants,
}

abbrev same_digest : List ℕ → String
same_digest code = "digest"

abbrev space : Offering
space = record {
  id = 4;
  owner_user_id = 1;
  host_id = 9;
  kind = Kind.backup_space;
  max_quota_bytes = pos 100;
  write_tier = WriteTier.ask;
  withdrawn_at = none;
}

abbrev open_invite : Invite
open_invite = record {
  id = 5;
  code_hash = "digest";
  owner_user_id = 1;
  offering_id = 4;
  quota_bytes = pos 50;
  note = "";
  expires_at = 1000;
  used_by_user_id = none;
  used_at = none;
  cancelled_at = none;
  group_id = none;
  completed_at = none;
}

abbrev two_users : Db
two_users = record {
  users = (record { id = 1; username = "ann" }) ∷ (record { id = 2; username = "bob" }) ∷ [];
  pairings = [];
  user_hosts = [];
  tuples = [];
  tuple_seq = 0;
  friend_requests = [];
  friend_request_seq = 0;
  offerings = space ∷ [];
  offering_seq = 4;
  access_requests = [];
  access_request_seq = 0;
  invites = open_invite ∷ [];
  invite_seq = 5;
  groups = [];
  group_seq = 0;
}

abbrev row : InviteRow
row = record { invite = open_invite; offering = space }

two_users-IsSound : IsSound two_users
unfolding exists
two_users-IsSound = record {
  keyed = record { below = tt; unique = λ x y mx my e. absurd mx };
  symmetric = λ a b tag h. h;
}

-- the database after bob has redeemed ann's invite
abbrev committed : Result (InviteRow × Db) → Db
committed (ok (r, db)) = db
committed (err e) = two_users

abbrev joined : Db
joined = committed (redeem_invite same_digest 10 2 [] two_users)

redeemed_test : redeem_invite same_digest 10 2 [] two_users ≡ ok (row, joined)
unfolding redeem_invite find_invite first invite_hash offering_of accept_invite active_grant
    release_earlier
redeemed_test = refl

joined_reached : Reach same_digest two_users joined
joined_reached = next here (redeemed 10 2 [] row redeemed_test)

Reach-are_friends_example : are_friends joined 2 1 ≡ are_friends joined 1 2
Reach-are_friends_example =
    Reach-are_friends same_digest {db = two_users} {db' = joined} 2 1 two_users-IsSound
      joined_reached

friends_test : are_friends joined 1 2 ≡ true
unfolding redeem_invite find_invite first invite_hash offering_of accept_invite active_grant
    release_earlier mark_used join_group write_invite_grant join_friends are_friends exists
friends_test = refl

remove_friend-severs_example :
    (gs : List Grant) × (db' : Db) × (remove_friend 20 1 "bob" joined ≡ ok (gs, db'))
    × ((a b : ℕ) → are_friends db' a b ≡ (are_friends joined a b && not (pair_is 1 2 a b)))
    × ((a b : ℕ) → has_grant db' a b ≡ (has_grant joined a b && not (pair_is 1 2 a b)))
unfolding redeem_invite find_invite first invite_hash offering_of accept_invite active_grant
    release_earlier mark_used join_group write_invite_grant join_friends are_friends exists
    user_id_by_name nocase_eq
remove_friend-severs_example =
    remove_friend-severs 20 1 2 "bob" joined
      (Reach-IsSound same_digest two_users-IsSound joined_reached).keyed refl friends_test

remove_friend-remove_friend_example :
    (gs : List Grant) × (db' : Db) × (remove_friend 20 1 "bob" joined ≡ ok (gs, db'))
    × (remove_friend 25 1 "bob" db' ≡ err not_friends)
    × (remove_friend 25 2 "ann" db' ≡ err not_friends)
unfolding user_id_by_name first accept_invite release_earlier mark_used join_group
    write_invite_grant join_friends redeem_invite find_invite invite_hash offering_of active_grant
    are_friends exists nocase_eq
remove_friend-remove_friend_example =
    remove_friend-remove_friend 20 25 1 2 "bob" "ann" joined
      (Reach-IsSound same_digest two_users-IsSound joined_reached).keyed refl refl friends_test

redeem_invite-completed_example :
    redeem_invite same_digest 40 7 [] (complete_invites 30 2 joined) ≡ err invite_used
redeem_invite-completed_example =
    redeem_invite-completed same_digest [] 10 2 30 40 7 two_users joined row redeemed_test

redeem_invite-grants_example :
    (are_friends joined 2 1 ≡ true)
    × (are_friends joined 1 2 ≡ true)
    × (has_grant joined 2 1 ≡ true)
redeem_invite-grants_example =
    redeem_invite-grants same_digest 10 2 [] two_users joined row two_users-IsSound redeemed_test
      refl
