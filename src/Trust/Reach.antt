-- ===== src/Trust/Reach.antt =====
-- Databases that the operations reach, and what holds in all of them.
use doc_chat_template_scc.Common.{
  refl, ◌==◌, ◌&&◌, first, nocase_eq, ℕ, ◌≡◌, ◌∙◌, sym, subst, inl, inr, Bool, true, false, Option,
  none, some, List, String, arith, exists, Bool-cases, ==_refl, is_num, first, nocase_eq, ◌&&◌,
}
use doc_chat_template_scc.Common.Int.{ℤ}
use doc_chat_template_scc.Trust.Data.{Group, Db, Tuple, Edge, friend, Offering, ok, insert_tuple}
use doc_chat_template_scc.Trust.Grants.{Grant, revoke_grant}
use doc_chat_template_scc.Trust.Friends.{
  are_friends, create_friend_request, decide_friend_request, remove_friend,
}
use doc_chat_template_scc.Trust.Offerings.{
  publish_offering, withdraw_offering, create_access_request, decide_access_request,
}
use doc_chat_template_scc.Trust.Invites.{
  InviteRow, join_friends, join_group, is_member, write_invite_grant, mark_used, release_earlier,
  create_invite, redeem_invite, complete_invites, cancel_invite,
}
use doc_chat_template_scc.Trust.Groups.{find_or_insert, group_named_text}
use doc_chat_template_scc.Trust.Symmetry.{exists-snoc, are_friends_comm}
use doc_chat_template_scc.Trust.GrantRows.{grant_row}
use doc_chat_template_scc.Trust.Unfriend.{friends_row, has_grant}
use doc_chat_template_scc.Trust.Steps.{
  IsSound, same-IsSound, decide_friend_request-IsSound, remove_friend-IsSound,
  decide_access_request-IsSound, revoke_grant-IsSound, accepted_invite, accepted_invite-IsSound,
}
use doc_chat_template_scc.Trust.Redemption.{redeem_invite-cases}

find_or_insert-IsSound :
    (owner : ℕ) (text : String) (g : Option Group) (db : Db)
    → IsSound db
    → IsSound (find_or_insert owner text g db).1
unfolding find_or_insert
find_or_insert-IsSound owner text none db s = same-IsSound db _ (refl, refl) s
find_or_insert-IsSound owner text (some g) db s = s

group_named-IsSound :
    (owner : ℕ) (text : String) (id : ℕ) (db db' : Db)
    → IsSound db
    → group_named_text owner text db ≡ ok (id, db')
    → IsSound db'
unfolding group_named_text
group_named-IsSound owner text id db db' s h =
    let g = first (λ (g : Group). g.owner_user_id == owner && nocase_eq g.name text) db.groups in
    let q : (find_or_insert owner text g db).1 ≡ db' = ground arith in
    subst IsSound q (find_or_insert-IsSound owner text g db s)

module _ (sha256 : List ℕ → String) where
  -- One request that was committed, by its operation.
  pub data Step : Db → Db → Type 0 where
    asked :
        {db db' : Db} (from : ℕ) (to : String) (r : ℕ × ℕ)
        → create_friend_request from to db ≡ ok (r, db')
        → Step db db'
    answered :
        {db db' : Db} (now id : ℕ) (accept : Bool)
        → (decide_friend_request now id accept db).1 ≡ db'
        → Step db db'
    unfriended :
        {db db' : Db} (now u : ℕ) (name : String) (gs : List Grant)
        → remove_friend now u name db ≡ ok (gs, db')
        → Step db db'
    published :
        {db db' : Db} (owner host : ℕ) (quota : ℤ) (tier kind : String) (id : ℕ)
        → publish_offering owner host quota tier kind db ≡ ok (id, db')
        → Step db db'
    withdrawn :
        {db db' : Db} (now owner id : ℕ)
        → withdraw_offering now owner id db ≡ ok (tt, db')
        → Step db db'
    requested :
        {db db' : Db} (who offering : ℕ) (quota : ℤ) (r : ℕ × Offering)
        → create_access_request who offering quota db ≡ ok (r, db')
        → Step db db'
    decided :
        {db db' : Db} (now id : ℕ) (grant_it : Bool)
        → (decide_access_request now id grant_it db).1 ≡ db'
        → Step db db'
    revoked :
        {db db' : Db} (now actor id : ℕ) (g : Grant)
        → revoke_grant now actor id db ≡ ok (g, db')
        → Step db db'
    invited :
        {db db' : Db} (now owner offering : ℕ) (quota : ℤ) (note : String) (group : Option ℕ)
        (code : List ℕ) (r : List ℕ × Offering)
        → create_invite sha256 now owner offering quota note group code db ≡ ok (r, db')
        → Step db db'
    redeemed :
        {db db' : Db} (now u : ℕ) (code : List ℕ) (row : InviteRow)
        → redeem_invite sha256 now u code db ≡ ok (row, db')
        → Step db db'
    completed : {db db' : Db} (now u : ℕ) → complete_invites now u db ≡ db' → Step db db'
    cancelled :
        {db db' : Db} (now owner id : ℕ)
        → cancel_invite now owner id db ≡ ok (tt, db')
        → Step db db'
    grouped :
        {db db' : Db} (owner : ℕ) (text : String) (id : ℕ)
        → group_named_text owner text db ≡ ok (id, db')
        → Step db db'

  pub data Reach (db : Db) : Db → Type 0 where
    here : Reach db db
    next : {d d' : Db} → Reach db d → Step d d' → Reach db d'

  Step-IsSound : {db db' : Db} → Step db db' → IsSound db → IsSound db'
  unfolding create_friend_request publish_offering withdraw_offering create_access_request
      create_invite complete_invites cancel_invite
  Step-IsSound {db} {db'} (asked from to r h) s = same-IsSound db db' (ground arith, ground arith) s
  Step-IsSound (answered now id accept h) s =
      subst IsSound h (decide_friend_request-IsSound now id accept _ s)
  Step-IsSound (unfriended now u name gs h) s = remove_friend-IsSound now u name _ gs _ s h
  Step-IsSound {db} {db'} (published o h q t k i e) s =
      same-IsSound db db' (ground arith, ground arith) s
  Step-IsSound {db} {db'} (withdrawn now o i e) s =
      same-IsSound db db' (ground arith, ground arith) s
  Step-IsSound {db} {db'} (requested w o q r e) s =
      same-IsSound db db' (ground arith, ground arith) s
  Step-IsSound (decided now id grant_it h) s =
      subst IsSound h (decide_access_request-IsSound now id grant_it _ s)
  Step-IsSound (revoked now actor id g h) s = revoke_grant-IsSound now actor id _ g _ s h
  Step-IsSound {db} {db'} (invited n o f q t g c r e) s =
      same-IsSound db db' (ground arith, ground arith) s
  Step-IsSound {db} {db'} (redeemed now u code row h) s =
      elim (redeem_invite-cases sha256 now u code db row db' h).1 [
        | inl k ↦ subst IsSound (sym k.1) s
        | inr e ↦ subst IsSound (sym e) (accepted_invite-IsSound now u row db s)
      ]
  Step-IsSound {db} {db'} (completed now u e) s = same-IsSound db db' (ground arith, ground arith) s
  Step-IsSound {db} {db'} (cancelled now o i e) s =
      same-IsSound db db' (ground arith, ground arith) s
  Step-IsSound {db} {db'} (grouped owner text id e) s = group_named-IsSound owner text id db db' s e

  pub Reach-IsSound : {db db' : Db} → IsSound db → Reach db db' → IsSound db'
  Reach-IsSound s here = s
  Reach-IsSound s (next r st) = Step-IsSound st (Reach-IsSound s r)

  -- Friendship is mutual in every database that requests reach, one after the other, from one whose
  -- relation tuples have unique ids and friend rows in pairs, such as the empty one.
  pub Reach-are_friends :
      {db db' : Db} (a b : ℕ)
      → IsSound db
      → Reach db db'
      → are_friends db' a b ≡ are_friends db' b a
  Reach-are_friends a b s r = let t = Reach-IsSound s r in are_friends_comm _ a b t.symmetric

-- What a redemption leaves: friendship both ways, and a grant.
insert-keeps :
    (p : Tuple → Bool) (now s : ℕ) (e : Edge) (o : ℕ) (db : Db)
    → exists p db.tuples ≡ true
    → exists p (insert_tuple now s e o db).tuples ≡ true
insert-keeps p now s e o db h = exists-snoc p db.tuples _ ∙ rw h

join_friends-befriends :
    (now u : ℕ) (row : InviteRow) (db : Db)
    → are_friends (join_friends now u row db) u row.invite.owner_user_id ≡ true
unfolding join_friends are_friends
join_friends-befriends now u row db =
    let owner = row.invite.owner_user_id in
    elim (Bool-cases (are_friends db u owner)) [
      | inl e ↦ rw e e
      | inr e ↦ rw e (
          insert-keeps (friends_row u owner) now owner (friend (some row.invite.id)) u
            (insert_tuple now u (friend (some row.invite.id)) owner db)
            (exists-snoc (friends_row u owner) db.tuples _
              ∙ ground (arith, ==_refl u, ==_refl owner)))
    ]

join_group-keeps :
    (p : Tuple → Bool) (now u i : ℕ) (g : Option ℕ) (db : Db)
    → exists p db.tuples ≡ true
    → exists p (join_group now u i g db).tuples ≡ true
unfolding join_group
join_group-keeps p now u i none db h = h
join_group-keeps p now u i (some g) db h = elim (Bool-cases (is_member db u g)) [
  | inl e ↦ rw e h
  | inr e ↦ rw e (insert-keeps p now u _ g db h)
]

accepted_invite-grants :
    (now u : ℕ) (row : InviteRow) (db : Db)
    → (are_friends (accepted_invite now u row db) u row.invite.owner_user_id ≡ true)
      × (has_grant (accepted_invite now u row db) u row.invite.owner_user_id ≡ true)
unfolding mark_used write_invite_grant are_friends
accepted_invite-grants now u row db =
    let owner = row.invite.owner_user_id in
    let joined = join_friends now u row (release_earlier now row.invite db) in
    let granted = write_invite_grant now u row joined in
    (
      join_group-keeps (friends_row u owner) now u row.invite.id row.invite.group_id granted (
          insert-keeps (friends_row u owner) now u _ row.offering.host_id joined
            (join_friends-befriends now u row (release_earlier now row.invite db))),
      join_group-keeps (grant_row u owner) now u row.invite.id row.invite.group_id granted (
          exists-snoc (grant_row u owner) joined.tuples _
          ∙ ground (arith, ==_refl u, ==_refl owner)),
    )

-- A user who redeems an invite of which he is not already the one who accepted it is from then on
-- a friend of its owner, both ways, and holds a grant from the owner.
pub redeem_invite-grants :
    (sha256 : List ℕ → String) (now u : ℕ) (code : List ℕ) (db db' : Db) (row : InviteRow)
    → IsSound db
    → redeem_invite sha256 now u code db ≡ ok (row, db')
    → is_num u row.invite.used_by_user_id ≡ false
    → (are_friends db' u row.invite.owner_user_id ≡ true)
      × (are_friends db' row.invite.owner_user_id u ≡ true)
      × (has_grant db' u row.invite.owner_user_id ≡ true)
redeem_invite-grants sha256 now u code db db' row s h fresh =
    let owner = row.invite.owner_user_id in
    let (_, how) = redeem_invite-cases sha256 now u code db row db' h in
    elim how [
      | inl k ↦ absurd (ground arith)
      | inr e ↦
          let (f, g) = accepted_invite-grants now u row db in
          let t = accepted_invite-IsSound now u row db s in
          rw e (f, sym (are_friends_comm (accepted_invite now u row db) u owner t.symmetric) ∙ f, g)
    ]
