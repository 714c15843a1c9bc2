-- ===== src/Trust/Steps.antt =====
-- The operations of casper_service/trust.py as steps of the database, and what all of them keep:
-- unique ids of the relation tuples, and friendships that go both ways.
use doc_chat_template_scc.Common.{
  ℕ, ◌≡◌, refl, ◌∙◌, sym, subst, ◌⊎◌, inl, inr, Bool, true, false, not, ◌&&◌, Option, none, some,
  List, [], ◌∷◌, String, arith, ◌==◌, exists_congr, select, Bool-cases, Option-cases, is_some,
  and-true, first,
}
use doc_chat_template_scc.Common.Rows.{Elem, exists_congr-Elem}
use doc_chat_template_scc.Trust.Data.{
  Db, Tuple, Edge, friend, member, FriendRequest, AccessRequest, Offering, Invite, ok, insert_tuple,
  is_active,
}
use doc_chat_template_scc.Trust.Users.{user_id_by_name}
use doc_chat_template_scc.Trust.Grants.{Grant, grant_rows, revoke_grant_row, revoke_grant}
use doc_chat_template_scc.Trust.Friends.{
  are_friends, is_friend_edge, befriend, end_friendship, leave_groups, settle_request,
  decide_friend_request, remove_friend, is_pending,
}
use doc_chat_template_scc.Trust.Offerings.{
  write_grant, decide_access, decide_access_request, is_waiting,
}
use doc_chat_template_scc.Trust.Invites.{
  InviteRow, revoke_tagged, of_earlier, release_invite, release_earlier, join_friends,
  write_invite_grant, is_member, join_group, mark_used,
}
use doc_chat_template_scc.Trust.Tuples.{exists-revoke}
use doc_chat_template_scc.Trust.Keys.{
  Keyed, insert_tuple-Keyed, end_friendship-Keyed, leave_groups-Keyed, revoke_grant_row-Keyed,
  revoke_grant_rows-Keyed, revoke_tagged-Keyed,
}
use doc_chat_template_scc.Trust.Symmetry.{
  IsSymmetric, friend_row, keep-IsSymmetric, has_tag-is_friend_edge, end_friendship-IsSymmetric,
  leave_groups-IsSymmetric, insert_tuple-IsSymmetric, befriend-IsSymmetric, release-IsSymmetric,
}
use doc_chat_template_scc.Trust.GrantRows.{
  owner_is, Elem-collect_grants, grant_of_fields, grant_row,
}
use doc_chat_template_scc.Trust.Unfriend.{unfriended, exists-unfriended, owner_is-not_friend}

-- What every operation keeps.
pub record IsSound (db : Db) : Type 0 where
  pub keyed : Keyed db
  pub symmetric : IsSymmetric db.tuples

abbrev pub SameTuples : Db → Db → Type 0
SameTuples db db' = (db'.tuples ≡ db.tuples) × (db'.tuple_seq ≡ db.tuple_seq)

pub same-IsSound : (db db' : Db) → SameTuples db db' → IsSound db → IsSound db'
same-IsSound db db' (e, n) s = record {
  keyed = rw (e, n) s.keyed;
  symmetric = subst IsSymmetric (sym e) s.symmetric;
}

insert-IsSound :
    (now u : ℕ) (e : Edge) (o : ℕ) (db : Db)
    → is_friend_edge e ≡ false
    → IsSound db
    → IsSound (insert_tuple now u e o db)
insert-IsSound now u e o db other s = record {
  keyed = insert_tuple-Keyed now u e o db s.keyed;
  symmetric = insert_tuple-IsSymmetric now u e o db other s.symmetric;
}

befriend-IsSound :
    (now : ℕ) (tag : Option ℕ) (a b : ℕ) (db : Db) → IsSound db → IsSound (befriend now tag a b db)
befriend-IsSound now tag a b db s = record {
  keyed =
      insert_tuple-Keyed now b (friend tag) a (insert_tuple now a (friend tag) b db)
        (insert_tuple-Keyed now a (friend tag) b db s.keyed);
  symmetric = befriend-IsSymmetric now tag a b db s.symmetric;
}

settle_request-IsSound :
    (now : ℕ) (accept : Bool) (r : FriendRequest) (db : Db)
    → IsSound db
    → IsSound (settle_request now accept r db)
unfolding settle_request
settle_request-IsSound now true r db s = befriend-IsSound now none r.from_user_id r.to_user_id db s
settle_request-IsSound now false r db s = s

pub decide_friend_request-IsSound :
    (now id : ℕ) (accept : Bool) (db : Db)
    → IsSound db
    → IsSound (decide_friend_request now id accept db).1
unfolding decide_friend_request
decide_friend_request-IsSound now id accept db s =
    elim (Option-cases (first (λ r. r.id == id && is_pending r.status) db.friend_requests)) [
      | inl e ↦ rw (e, decide_friend_request) s
      | inr (r, e) ↦
          rw (e, decide_friend_request)
            (settle_request-IsSound now accept r _ (same-IsSound db _ (refl, refl) s))
    ]

-- a friend row is not one of the grants that are revoked
friend_row-not_grant :
    (a b : ℕ) (tag : Option ℕ) (u o : ℕ) (t : Tuple)
    → friend_row a b tag t ≡ true
    → grant_row u o t ≡ false
friend_row-not_grant a b tag u o t h = elim (Bool-cases (owner_is o t.edge)) [
  | inl e ↦ ground (arith, owner_is-not_friend o t.edge e, has_tag-is_friend_edge tag t.edge)
  | inr e ↦ ground arith
]

unfriended-IsSound : (now u v : ℕ) (db : Db) → IsSound db → IsSound (unfriended now u v db)
unfriended-IsSound now u v db s =
    let ended = end_friendship now u v db in
    let left = leave_groups now u v ended in
    let keep : ℕ → ℕ → Option ℕ → Bool = λ a b tag. true in
    record {
      keyed =
          revoke_grant_rows-Keyed now _ left
            (leave_groups-Keyed now u v ended (end_friendship-Keyed now u v db s.keyed));
      symmetric =
          keep-IsSymmetric keep left.tuples _ (λ a b tag h. h)
            (λ a b tag.
              exists-unfriended (friend_row a b tag) now u v db s.keyed (λ t k. ground arith)
              ∙ exists_congr _ (friend_row a b tag) left.tuples (λ t.
                ground
                  (arith, friend_row-not_grant a b tag u v t, friend_row-not_grant a b tag v u t))
              ∙ sym (and-true _))
            (leave_groups-IsSymmetric now u v ended
              (end_friendship-IsSymmetric now u v db s.symmetric));
    }

pub remove_friend-IsSound :
    (now u : ℕ) (name : String) (db : Db) (gs : List Grant) (db' : Db)
    → IsSound db
    → remove_friend now u name db ≡ ok (gs, db')
    → IsSound db'
unfolding remove_friend
remove_friend-IsSound now u name db gs db' s h = elim (Option-cases (user_id_by_name db name)) [
  | inl e ↦ absurd (ground arith)
  | inr (v, e) ↦
      let q : unfriended now u v db ≡ db' = ground arith in
      subst IsSound q (unfriended-IsSound now u v db s)
]

write_grant-IsSound :
    (now : ℕ) (r : AccessRequest) (o : Offering) (db : Db)
    → IsSound db
    → IsSound (write_grant now r o db)
unfolding write_grant
write_grant-IsSound now r o db s =
    elim (Bool-cases (are_friends db r.requester_user_id o.owner_user_id)) [
      | inl e ↦ rw e (insert-IsSound now r.requester_user_id _ o.host_id db refl s)
      | inr e ↦ rw e s
    ]

decide_access-IsSound :
    (now : ℕ) (grant_it : Bool) (r : AccessRequest) (o : Offering) (db : Db)
    → IsSound db
    → IsSound (decide_access now grant_it r o db)
unfolding decide_access
decide_access-IsSound now true r o db s =
    write_grant-IsSound now r o _ (same-IsSound db _ (refl, refl) s)
decide_access-IsSound now false r o db s = same-IsSound db _ (refl, refl) s

pub decide_access_request-IsSound :
    (now id : ℕ) (grant_it : Bool) (db : Db)
    → IsSound db
    → IsSound (decide_access_request now id grant_it db).1
unfolding decide_access_request
decide_access_request-IsSound now id grant_it db s =
    elim (Option-cases (first (λ r. r.id == id && is_waiting r.status) db.access_requests)) [
      | inl e ↦ rw (e, decide_access_request) s
      | inr (r, e) ↦ elim (Option-cases (first (λ o. o.id == r.offering_id) db.offerings)) [
        | inl f ↦ rw (e, f, decide_access_request) s
        | inr (o, f) ↦
            rw (e, f, decide_access_request) (decide_access-IsSound now grant_it r o db s)
      ]
    ]

List-cases : {A : Type 0} (xs : List A) → (xs ≡ []) ⊎ ((x : A) × (ys : List A) × (xs ≡ x ∷ ys))
List-cases [] = inl refl
List-cases (x ∷ ys) = inr (x, ys, refl)

-- Revoking a row by the id of a grant meets no friend row.
revoke_grant_row-IsSound :
    (now id : ℕ) (db : Db) (t : Tuple)
    → Elem t db.tuples
    → t.id ≡ id
    → is_friend_edge t.edge ≡ false
    → IsSound db
    → IsSound (revoke_grant_row id now db)
unfolding revoke_grant_row
revoke_grant_row-IsSound now id db t m same other s = record {
  keyed = unfold revoke_grant_row in revoke_grant_row-Keyed id now db s.keyed;
  symmetric =
      let keep : ℕ → ℕ → Option ℕ → Bool = λ a b tag. true in
      keep-IsSymmetric keep db.tuples _ (λ a b tag h. h)
        (λ a b tag.
          exists-revoke (friend_row a b tag) _ now db.tuples (λ x k. ground arith)
          ∙ exists_congr-Elem _ (friend_row a b tag) db.tuples (λ x n. kept a b tag x n)
          ∙ sym (and-true _))
        s.symmetric;
}
  where
    kept :
        (a b : ℕ) (tag : Option ℕ) (x : Tuple)
        → Elem x db.tuples
        → (friend_row a b tag x && not (x.id == id && is_active x)) ≡ friend_row a b tag x
    kept a b tag x n = elim (Bool-cases (x.id == id)) [
      | inl e ↦
          let q : x ≡ t = s.keyed.unique x t n m (ground arith) in
          let edge : is_friend_edge x.edge ≡ false = rw q other in
          ground (arith, has_tag-is_friend_edge tag x.edge)
      | inr e ↦ ground arith
    ]

pub revoke_grant-IsSound :
    (now actor id : ℕ) (db : Db) (g : Grant) (db' : Db)
    → IsSound db
    → revoke_grant now actor id db ≡ ok (g, db')
    → IsSound db'
unfolding revoke_grant
revoke_grant-IsSound now actor id db g db' s h =
    elim (List-cases (grant_rows db (λ t. t.id == id && is_active t) none)) [
      | inl e ↦ absurd (ground arith)
      | inr (g0, gs, e) ↦
          let present : Elem g0 (grant_rows db (λ t. t.id == id && is_active t) none) =
            rw e (inl refl) in
          let (t, m, w, made) =
            Elem-collect_grants db (λ t. t.id == id && is_active t) none db.tuples g0 present in
          let fields = grant_of_fields db none t t.edge g0 made in
          let q : revoke_grant_row id now db ≡ db' = ground arith in
          subst IsSound q (revoke_grant_row-IsSound now id db t m (ground arith) fields.3 s)
    ]

release_invite-IsSound :
    (now : ℕ) (inv : Invite) (db : Db) → IsSound db → IsSound (release_invite now inv db)
unfolding release_invite
release_invite-IsSound now inv db s =
    let rows = select (of_earlier inv.used_by_user_id) db.tuples in
    same-IsSound (revoke_tagged now inv.id rows db) _ (refl, refl)
      (record {
        keyed = revoke_tagged-Keyed now inv.id rows db s.keyed;
        symmetric =
            release-IsSymmetric now inv.id inv.used_by_user_id db s.keyed.unique s.symmetric;
      })

release_earlier-IsSound :
    (now : ℕ) (inv : Invite) (db : Db) → IsSound db → IsSound (release_earlier now inv db)
unfolding release_earlier
release_earlier-IsSound now inv db s = elim (Bool-cases (is_some inv.used_by_user_id)) [
  | inl e ↦ rw e (release_invite-IsSound now inv db s)
  | inr e ↦ rw e s
]

join_friends-IsSound :
    (now u : ℕ) (row : InviteRow) (db : Db) → IsSound db → IsSound (join_friends now u row db)
unfolding join_friends
join_friends-IsSound now u row db s =
    elim (Bool-cases (are_friends db u row.invite.owner_user_id)) [
      | inl e ↦ rw e s
      | inr e ↦ rw e (befriend-IsSound now (some row.invite.id) u row.invite.owner_user_id db s)
    ]

join_group-IsSound :
    (now u i : ℕ) (g : Option ℕ) (db : Db) → IsSound db → IsSound (join_group now u i g db)
unfolding join_group
join_group-IsSound now u i none db s = s
join_group-IsSound now u i (some g) db s = elim (Bool-cases (is_member db u g)) [
  | inl e ↦ rw e s
  | inr e ↦ rw e (insert-IsSound now u (member (some i)) g db refl s)
]

-- the database that `redeem_invite` leaves for a user who is new to the invite
abbrev pub accepted_invite : ℕ → ℕ → InviteRow → Db → Db
accepted_invite now u row db = mark_used now u row.invite.id (
    join_group now u row.invite.id row.invite.group_id
      (write_invite_grant now u row (join_friends now u row (release_earlier now row.invite db))))

pub accepted_invite-IsSound :
    (now u : ℕ) (row : InviteRow) (db : Db) → IsSound db → IsSound (accepted_invite now u row db)
accepted_invite-IsSound now u row db s =
    let joined = join_friends now u row (release_earlier now row.invite db) in
    let s1 =
      join_friends-IsSound now u row (release_earlier now row.invite db)
        (release_earlier-IsSound now row.invite db s) in
    let s2 : IsSound (write_invite_grant now u row joined) =
      unfold write_invite_grant in insert-IsSound now u _ row.offering.host_id joined refl s1 in
    unfold mark_used in
    same-IsSound _ _ (refl, refl)
      (join_group-IsSound now u row.invite.id row.invite.group_id
        (write_invite_grant now u row joined) s2)
