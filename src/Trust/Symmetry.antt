-- ===== src/Trust/Symmetry.antt =====
-- Friendship goes both ways. The invariant keeps, for each invite and for no invite, the friend
-- rows with that tag in pairs: `release_invite` revokes by the tag.
use doc_chat_template_scc.Common.{
  ℕ, suc, ◌≡◌, refl, ap, ◌∙◌, inl, inr, Bool, true, false, not, ◌&&◌, ◌||◌, Option, none, some,
  List, [], ◌∷◌, ◌++◌, arith, ◌==◌, ==_refl, exists, exists-append, or-false, exists_mono,
  exists-and, update, select, Bool-cases, Bool-ext, is_num,
}
use doc_chat_template_scc.Common.Rows.{Elem, exists_found, exists_intro, exists_congr-Elem}
use doc_chat_template_scc.Trust.Data.{
  Db, Tuple, Edge, friend, member, grant, invite_of, insert_tuple, revoke, is_active, new_row,
}
use doc_chat_template_scc.Trust.Friends.{
  is_friend_edge, is_member_edge, are_friends, befriend, pair_is, end_friendship, leave_groups,
}
use doc_chat_template_scc.Trust.Invites.{revoke_tagged, of_earlier}
use doc_chat_template_scc.Trust.Tuples.{
  exists-revoke, exists-revoke_tagged, tagged_hit-select, UniqueIds,
}

abbrev pub tag_eq : Option ℕ → Option ℕ → Bool
tag_eq none none = true
tag_eq none (some n) = false
tag_eq (some m) none = false
tag_eq (some m) (some n) = m == n

tag_eq_refl : (t : Option ℕ) → tag_eq t t ≡ true
tag_eq_refl none = refl
tag_eq_refl (some n) = ==_refl n

abbrev pub has_tag : Option ℕ → Edge → Bool
has_tag tag (friend t) = tag_eq tag t
has_tag tag (member t) = false
has_tag tag (grant relation attrs) = false

-- an active friend row from `a` to `b` with this tag
abbrev pub friend_row : ℕ → ℕ → Option ℕ → Tuple → Bool
friend_row a b tag t = t.subject_id == a && has_tag tag t.edge && t.object_id == b && is_active t

abbrev pub IsSymmetric : List Tuple → Type 0
IsSymmetric xs =
    (a b : ℕ) (tag : Option ℕ)
    → exists (friend_row a b tag) xs ≡ true
    → exists (friend_row b a tag) xs ≡ true

abbrev tag_of : Edge → Option ℕ
tag_of (friend t) = t
tag_of (member t) = none
tag_of (grant relation attrs) = none

has_tag-tag_of : (e : Edge) → is_friend_edge e ≡ true → has_tag (tag_of e) e ≡ true
has_tag-tag_of (friend t) h = tag_eq_refl t
has_tag-tag_of (member t) h = ground arith
has_tag-tag_of (grant r a) h = ground arith

pub has_tag-is_friend_edge :
    (tag : Option ℕ) (e : Edge) → has_tag tag e ≡ true → is_friend_edge e ≡ true
has_tag-is_friend_edge tag (friend t) h = refl
has_tag-is_friend_edge tag (member t) h = ground arith
has_tag-is_friend_edge tag (grant r a) h = ground arith

friend-not_member : (e : Edge) → is_friend_edge e ≡ true → is_member_edge e ≡ false
friend-not_member (friend t) h = refl
friend-not_member (member t) h = ground arith
friend-not_member (grant r a) h = refl

has_tag-invite_of : (tag : Option ℕ) (e : Edge) → has_tag tag e ≡ true → invite_of e ≡ tag
has_tag-invite_of none (friend none) h = refl
has_tag-invite_of none (friend (some n)) h = ground arith
has_tag-invite_of (some m) (friend none) h = ground arith
has_tag-invite_of (some m) (friend (some n)) h = ground arith
has_tag-invite_of tag (member t) h = ground arith
has_tag-invite_of tag (grant r a) h = ground arith

pub exists-snoc :
    (p : Tuple → Bool) (xs : List Tuple) (x : Tuple)
    → exists p (xs ++ x ∷ []) ≡ (exists p xs || p x)
unfolding exists
exists-snoc p xs x = exists-append p xs (x ∷ []) ∙ ap (λ r. exists p xs || r) (or-false (p x))

-- the rows that `release_invite` meets, among the friend rows with a tag
released :
    (i : ℕ) (earlier : Option ℕ) (a b : ℕ) (tag : Option ℕ) (t : Tuple)
    → (friend_row a b tag t && not (of_earlier earlier t && is_num i (invite_of t.edge)))
      ≡ (friend_row a b tag t && not (is_num i tag && (is_num a earlier || is_num b earlier)))
released i earlier a b tag t = elim (Bool-cases (friend_row a b tag t)) [
  | inl e ↦
      let tagged : has_tag tag t.edge ≡ true = ground arith in
      let from : t.subject_id ≡ a = ground arith in
      let to : t.object_id ≡ b = ground arith in
      rw
        (e, from, to, has_tag-invite_of tag t.edge tagged, has_tag-is_friend_edge tag t.edge tagged)
        (ground arith)
  | inr e ↦ rw e
]

friends_from :
    (db : Db) (a b : ℕ)
    → IsSymmetric db.tuples
    → are_friends db a b ≡ true
    → are_friends db b a ≡ true
unfolding are_friends
friends_from db a b sy h =
    let (t, k, m) = exists_found _ db.tuples h in
    let here : exists (friend_row a b (tag_of t.edge)) db.tuples ≡ true =
      exists_intro _ t db.tuples m (ground (arith, has_tag-tag_of t.edge)) in
    exists_mono (friend_row b a (tag_of t.edge)) _ db.tuples
      (λ x e. ground (arith, has_tag-is_friend_edge (tag_of t.edge) x.edge))
      (sy a b (tag_of t.edge) here)

pub are_friends_comm :
    (db : Db) (a b : ℕ) → IsSymmetric db.tuples → are_friends db a b ≡ are_friends db b a
are_friends_comm db a b sy = Bool-ext _ _ (friends_from db a b sy) (friends_from db b a sy)

-- A table whose friend rows are those of a symmetric one, less some pairs, is symmetric.
pub keep-IsSymmetric :
    (keep : ℕ → ℕ → Option ℕ → Bool) (xs ys : List Tuple)
    → ((a b : ℕ) (tag : Option ℕ) → keep a b tag ≡ true → keep b a tag ≡ true)
    → ((a b : ℕ) (tag : Option ℕ)
        → exists (friend_row a b tag) ys ≡ (exists (friend_row a b tag) xs && keep a b tag))
    → IsSymmetric xs
    → IsSymmetric ys
keep-IsSymmetric keep xs ys comm same sy a b tag h =
    let e = same a b tag in
    let old : exists (friend_row a b tag) xs ≡ true = ground arith in
    ground (arith, same b a tag, sy a b tag old, comm a b tag)

update-keep :
    (keep : ℕ → ℕ → Option ℕ → Bool) (q : Tuple → Bool) (ts : ℕ) (xs : List Tuple) (a b : ℕ)
    (tag : Option ℕ)
    → ((t : Tuple)
        → Elem t xs
        → (friend_row a b tag t && not (q t)) ≡ (friend_row a b tag t && keep a b tag))
    → exists (friend_row a b tag) (update q (revoke ts) xs)
      ≡ (exists (friend_row a b tag) xs && keep a b tag)
update-keep keep q ts xs a b tag h =
    exists-revoke (friend_row a b tag) q ts xs (λ t k. ground arith)
    ∙ exists_congr-Elem _ _ xs h
    ∙ exists-and (friend_row a b tag) (keep a b tag) xs

pub end_friendship-IsSymmetric :
    (ts u v : ℕ) (db : Db) → IsSymmetric db.tuples → IsSymmetric (end_friendship ts u v db).tuples
unfolding end_friendship
end_friendship-IsSymmetric ts u v db sy =
    let keep : ℕ → ℕ → Option ℕ → Bool = λ a b tag. not (pair_is u v a b) in
    keep-IsSymmetric keep db.tuples _ (λ a b tag h. ground arith)
      (λ a b tag.
        update-keep keep _ ts db.tuples a b tag
          λ t _. ground (arith, has_tag-is_friend_edge tag t.edge))
      sy

pub leave_groups-IsSymmetric :
    (ts u v : ℕ) (db : Db) → IsSymmetric db.tuples → IsSymmetric (leave_groups ts u v db).tuples
unfolding leave_groups
leave_groups-IsSymmetric ts u v db sy =
    let keep : ℕ → ℕ → Option ℕ → Bool = λ a b tag. true in
    keep-IsSymmetric keep db.tuples _ (λ a b tag h. h)
      (λ a b tag. update-keep keep _ ts db.tuples a b tag λ t _. not_member a b tag t _) sy
  where
    not_member :
        (a b : ℕ) (tag : Option ℕ) (t : Tuple) (rest : Bool)
        → (friend_row a b tag t && not (is_member_edge t.edge && is_active t && rest))
          ≡ (friend_row a b tag t && true)
    not_member a b tag t rest = elim (Bool-cases (has_tag tag t.edge)) [
      | inl e ↦ ground (arith, has_tag-is_friend_edge tag t.edge e, friend-not_member t.edge)
      | inr e ↦ rw e (ground arith)
    ]

pub insert_tuple-IsSymmetric :
    (now s : ℕ) (e : Edge) (o : ℕ) (db : Db)
    → is_friend_edge e ≡ false
    → IsSymmetric db.tuples
    → IsSymmetric (insert_tuple now s e o db).tuples
insert_tuple-IsSymmetric now s e o db other sy =
    let keep : ℕ → ℕ → Option ℕ → Bool = λ a b tag. true in
    keep-IsSymmetric keep db.tuples _ (λ a b tag h. h)
      (λ a b tag.
        exists-snoc (friend_row a b tag) db.tuples _ ∙ ground (arith, has_tag-is_friend_edge tag e))
      sy

pub befriend-IsSymmetric :
    (now : ℕ) (tag : Option ℕ) (u v : ℕ) (db : Db)
    → IsSymmetric db.tuples
    → IsSymmetric (befriend now tag u v db).tuples
befriend-IsSymmetric now tag u v db sy a b t h =
    let first : Tuple → Bool = friend_row a b t in
    let back : Tuple → Bool = friend_row b a t in
    let one : Db = insert_tuple now u (friend tag) v db in
    ground (
      arith,
      exists-snoc first one.tuples (new_row now (suc (suc db.tuple_seq)) v (friend tag) u),
      exists-snoc first db.tuples (new_row now (suc db.tuple_seq) u (friend tag) v),
      exists-snoc back one.tuples (new_row now (suc (suc db.tuple_seq)) v (friend tag) u),
      exists-snoc back db.tuples (new_row now (suc db.tuple_seq) u (friend tag) v),
      sy a b t,
    )

pub release-IsSymmetric :
    (ts i : ℕ) (earlier : Option ℕ) (db : Db)
    → UniqueIds db.tuples
    → IsSymmetric db.tuples
    → IsSymmetric (revoke_tagged ts i (select (of_earlier earlier) db.tuples) db).tuples
release-IsSymmetric ts i earlier db unique sy =
    let keep : ℕ → ℕ → Option ℕ → Bool =
      λ a b tag. not (is_num i tag && (is_num a earlier || is_num b earlier)) in
    keep-IsSymmetric keep db.tuples _ (λ a b tag h. ground arith)
      (λ a b tag.
        exists-revoke_tagged (friend_row a b tag) ts i _ db (λ t k. ground arith)
        ∙ exists_congr-Elem _ _ db.tuples (λ t m.
          rw (tagged_hit-select i earlier db.tuples t unique m) (released i earlier a b tag t))
        ∙ exists-and (friend_row a b tag) (keep a b tag) db.tuples)
      sy
