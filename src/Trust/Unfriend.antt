-- ===== src/Trust/Unfriend.antt =====
-- What the end of a friendship leaves: `remove_friend`.
use doc_chat_template_scc.Common.{
  ℕ, ◌≡◌, refl, ap, ◌∙◌, sym, subst, inl, inr, Bool, true, false, not, ◌&&◌, ◌||◌, some, List, ◌++◌,
  String, arith, ◌==◌, exists, exists_congr, exists-and, Bool-cases, Bool-ext, first, nocase_eq, [],
  ◌∷◌, and-false,
}
use doc_chat_template_scc.Common.Rows.{
  Elem, exists_found, exists_intro, exists_congr-Elem, Elem-append,
}
use doc_chat_template_scc.Trust.Data.{
  Db, Tuple, Edge, friend, member, grant, ok, err, not_friends, is_active,
}
use doc_chat_template_scc.Trust.Users.{opt_user_id, user_id_by_name}
use doc_chat_template_scc.Trust.Grants.{Grant, grants_between, revoke_grant_row}
use doc_chat_template_scc.Trust.Friends.{
  are_friends, is_friend_edge, is_member_edge, pair_is, end_friendship, leave_groups,
  revoke_grant_rows, remove_friend,
}
use doc_chat_template_scc.Trust.Tuples.{
  OnlyActive, exists-revoke, grant_hit, exists-revoke_grant_rows, UniqueIds,
}
use doc_chat_template_scc.Trust.Keys.{Keyed, end_friendship-Keyed, leave_groups-Keyed}
use doc_chat_template_scc.Trust.GrantRows.{
  owner_is, grant_row, grants_between-Elem, Elem-grants_between, append-Elem_left,
  append-Elem_right,
}

-- the rows of an active friendship, by the direction
abbrev pub friends_row : ℕ → ℕ → Tuple → Bool
friends_row a b t = t.subject_id == a && is_friend_edge t.edge && t.object_id == b && is_active t

-- the grants that `remove_friend` revokes
abbrev pub both_ways : Db → ℕ → ℕ → List Grant
both_ways db u v = grants_between db u v ++ grants_between db v u

-- the database that `remove_friend` leaves
abbrev pub unfriended : ℕ → ℕ → ℕ → Db → Db
unfriended now u v db =
    let left = leave_groups now u v (end_friendship now u v db) in
    revoke_grant_rows now (both_ways left u v) left

pub owner_is-not_friend : (o : ℕ) (e : Edge) → owner_is o e ≡ true → is_friend_edge e ≡ false
owner_is-not_friend o (friend t) h = ground arith
owner_is-not_friend o (member t) h = ground arith
owner_is-not_friend o (grant r a) h = refl

owner_is-not_member : (o : ℕ) (e : Edge) → owner_is o e ≡ true → is_member_edge e ≡ false
owner_is-not_member o (friend t) h = ground arith
owner_is-not_member o (member t) h = ground arith
owner_is-not_member o (grant r a) h = refl

member-not_friend : (e : Edge) → is_friend_edge e ≡ true → is_member_edge e ≡ false
member-not_friend (friend t) h = refl
member-not_friend (member t) h = ground arith
member-not_friend (grant r a) h = refl

-- On a row of the table, revoking those grants by id meets the rows that are such grants.
grant_hit-both_ways :
    (db : Db) (u v : ℕ) (t : Tuple)
    → UniqueIds db.tuples
    → Elem t db.tuples
    → grant_hit (both_ways db u v) t ≡ (grant_row u v t || grant_row v u t)
grant_hit-both_ways db u v t unique m =
    Bool-ext _ _
      (λ h.
        let (g, e, n) = exists_found _ (both_ways db u v) h in
        elim (Elem-append g (grants_between db u v) (grants_between db v u) n) [
          | inl k ↦
              let (r, mr, same, row) = Elem-grants_between db u v g k in
              let q : t ≡ r = unique t r m mr (ground arith) in
              let hit : grant_row u v t ≡ true = subst (λ z. grant_row u v z ≡ true) (sym q) row in
              ground arith
          | inr k ↦
              let (r, mr, same, row) = Elem-grants_between db v u g k in
              let q : t ≡ r = unique t r m mr (ground arith) in
              let hit : grant_row v u t ≡ true = subst (λ z. grant_row v u z ≡ true) (sym q) row in
              ground arith
        ])
      (λ h. elim (Bool-cases (grant_row u v t)) [
        | inl e ↦
            let (g, n, same) = grants_between-Elem db u v t m e in
            exists_intro _ g (both_ways db u v)
              (append-Elem_left g (grants_between db u v) (grants_between db v u) n) (ground arith)
        | inr e ↦
            let (g, n, same) = grants_between-Elem db v u t m (ground arith) in
            exists_intro _ g (both_ways db u v)
              (append-Elem_right g (grants_between db u v) (grants_between db v u) n) (ground arith)
      ])

-- What a test for active rows finds after `remove_friend`.
pub exists-unfriended :
    (p : Tuple → Bool) (now u v : ℕ) (db : Db)
    → Keyed db
    → OnlyActive p
    → exists p (unfriended now u v db).tuples
      ≡ exists
          (λ t. p t && not (grant_row u v t || grant_row v u t))
          (leave_groups now u v (end_friendship now u v db)).tuples
exists-unfriended p now u v db keyed only =
    let ended = end_friendship now u v db in
    let left = leave_groups now u v ended in
    let k = leave_groups-Keyed now u v ended (end_friendship-Keyed now u v db keyed) in
    exists-revoke_grant_rows p now (both_ways left u v) left only
    ∙ exists_congr-Elem _ _ left.tuples
        (λ t m. ap (λ b. p t && not b) (grant_hit-both_ways left u v t k.unique m))

-- `b` has an active grant from `o`, of any kind and on any host
abbrev pub has_grant : Db → ℕ → ℕ → Bool
has_grant db b o = exists (grant_row b o) db.tuples

friends_row-not_grant :
    (a b u o : ℕ) (t : Tuple) → friends_row a b t ≡ true → grant_row u o t ≡ false
friends_row-not_grant a b u o t h = elim (Bool-cases (owner_is o t.edge)) [
  | inl e ↦ ground (arith, owner_is-not_friend o t.edge e)
  | inr e ↦ ground arith
]

are_friends-unfriended :
    (now u v a b : ℕ) (db : Db)
    → Keyed db
    → are_friends (unfriended now u v db) a b ≡ (are_friends db a b && not (pair_is u v a b))
unfolding are_friends end_friendship leave_groups
are_friends-unfriended now u v a b db keyed =
    let ended = end_friendship now u v db in
    exists-unfriended (friends_row a b) now u v db keyed (λ t k. ground arith)
    ∙ exists_congr _ (friends_row a b) (leave_groups now u v ended).tuples
        (λ t. ground (arith, friends_row-not_grant a b u v t, friends_row-not_grant a b v u t))
    ∙ exists-revoke (friends_row a b) _ now ended.tuples (λ t k. ground arith)
    ∙ exists_congr _ (friends_row a b) ended.tuples (λ t. ground (arith, member-not_friend t.edge))
    ∙ exists-revoke (friends_row a b) _ now db.tuples (λ t k. ground arith)
    ∙ exists_congr _ (λ t. friends_row a b t && not (pair_is u v a b)) db.tuples (λ t. ground arith)
    ∙ exists-and (friends_row a b) (not (pair_is u v a b)) db.tuples

owner_is_unique : (b v : ℕ) (e : Edge) → owner_is b e ≡ true → owner_is v e ≡ (b == v)
owner_is_unique b v (friend t) h = ground arith
owner_is_unique b v (member t) h = ground arith
owner_is_unique b v (grant r a) h = let q : a.owner_user_id ≡ b = ground arith in rw q

grant_row-pair :
    (u v a b : ℕ) (t : Tuple)
    → (grant_row a b t && not (grant_row u v t || grant_row v u t))
      ≡ (grant_row a b t && not (pair_is u v a b))
grant_row-pair u v a b t = elim (Bool-cases (owner_is b t.edge)) [
  | inl e ↦ ground (arith, owner_is_unique b v t.edge e, owner_is_unique b u t.edge e)
  | inr e ↦ ground arith
]

has_grant-unfriended :
    (now u v a b : ℕ) (db : Db)
    → Keyed db
    → has_grant (unfriended now u v db) a b ≡ (has_grant db a b && not (pair_is u v a b))
unfolding end_friendship leave_groups
has_grant-unfriended now u v a b db keyed =
    let ended = end_friendship now u v db in
    exists-unfriended (grant_row a b) now u v db keyed (λ t k. ground arith)
    ∙ exists_congr _ (λ t. grant_row a b t && not (pair_is u v a b))
        (leave_groups now u v ended).tuples (grant_row-pair u v a b)
    ∙ exists-and (grant_row a b) (not (pair_is u v a b)) (leave_groups now u v ended).tuples
    ∙ ap (λ r. r && not (pair_is u v a b))
        (exists-revoke (grant_row a b) _ now ended.tuples (λ t k. ground arith)
          ∙ exists_congr _ (grant_row a b) ended.tuples
              (λ t. ground (arith, owner_is-not_member b t.edge))
          ∙ exists-revoke (grant_row a b) _ now db.tuples (λ t k. ground arith)
          ∙ exists_congr _ (grant_row a b) db.tuples
              (λ t. ground (arith, owner_is-not_friend b t.edge)))

-- Where the name is that of a friend, `remove_friend` returns, and what it leaves is this: of the
-- friendships, all but the one between the two, either way round; of the active grants, all but
-- those between the two, either way round. Ids of relation tuples are unique in the database.
pub remove_friend-severs :
    (now u v : ℕ) (name : String) (db : Db)
    → Keyed db
    → user_id_by_name db name ≡ some v
    → are_friends db u v ≡ true
    → (gs : List Grant) × (db' : Db) × (remove_friend now u name db ≡ ok (gs, db'))
      × ((a b : ℕ) → are_friends db' a b ≡ (are_friends db a b && not (pair_is u v a b)))
      × ((a b : ℕ) → has_grant db' a b ≡ (has_grant db a b && not (pair_is u v a b)))
unfolding remove_friend
remove_friend-severs now u v name db keyed known friends =
    let left = leave_groups now u v (end_friendship now u v db) in
    (
      both_ways left u v,
      unfriended now u v db,
      rw (known, friends),
      (λ a b. are_friends-unfriended now u v a b db keyed),
      (λ a b. has_grant-unfriended now u v a b db keyed),
    )

revoke_grant_rows-users :
    (now : ℕ) (gs : List Grant) (db : Db) → (revoke_grant_rows now gs db).users ≡ db.users
unfolding revoke_grant_rows revoke_grant_row
revoke_grant_rows-users now [] db = refl
revoke_grant_rows-users now (g ∷ gs) db =
    revoke_grant_rows-users now gs (revoke_grant_row g.id now db)

user_id_by_name-unfriended :
    (now u v : ℕ) (name : String) (db : Db)
    → user_id_by_name (unfriended now u v db) name ≡ user_id_by_name db name
unfolding user_id_by_name end_friendship leave_groups
user_id_by_name-unfriended now u v name db =
    let left = leave_groups now u v (end_friendship now u v db) in
    ap (λ us. opt_user_id (first (λ r. nocase_eq r.username name) us))
      (revoke_grant_rows-users now (both_ways left u v) left)

pair_is_both : (u v : ℕ) → (pair_is u v u v ≡ true) × (pair_is u v v u ≡ true)
pair_is_both u v = (ground arith, ground arith)

-- A friendship ends once, for both. After `remove_friend` has ended the friendship of the user `u`
-- with the user `v`, a second removal is refused as one of somebody who is no friend, and so is the
-- removal of `u` by `v`, at any later time. Ids of relation tuples are unique in the database.
pub remove_friend-remove_friend :
    (now later u v : ℕ) (name own_name : String) (db : Db)
    → Keyed db
    → user_id_by_name db name ≡ some v
    → user_id_by_name db own_name ≡ some u
    → are_friends db u v ≡ true
    → (gs : List Grant) × (db' : Db) × (remove_friend now u name db ≡ ok (gs, db'))
      × (remove_friend later u name db' ≡ err not_friends)
      × (remove_friend later v own_name db' ≡ err not_friends)
unfolding remove_friend
remove_friend-remove_friend now later u v name own_name db keyed known own friends =
    let left = leave_groups now u v (end_friendship now u v db) in
    let named = user_id_by_name-unfriended now u v name db ∙ known in
    let named' = user_id_by_name-unfriended now u v own_name db ∙ own in
    let (forth, back) = pair_is_both u v in
    let ended : are_friends (unfriended now u v db) u v ≡ false =
      are_friends-unfriended now u v u v db keyed
      ∙ ap (λ b. are_friends db u v && not b) forth
      ∙ and-false (are_friends db u v) in
    let ended' : are_friends (unfriended now u v db) v u ≡ false =
      are_friends-unfriended now u v v u db keyed
      ∙ ap (λ b. are_friends db v u && not b) back
      ∙ and-false (are_friends db v u) in
    (
      both_ways left u v,
      unfriended now u v db,
      rw (known, friends),
      rw (named, ended),
      rw (named', ended'),
    )
