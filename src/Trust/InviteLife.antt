-- ===== src/Trust/InviteLife.antt =====
-- An invite that has been accepted, and one whose mirror is running.
use doc_chat_template_scc.Common.{
  ℕ, ◌≡◌, refl, ap, ◌∙◌, inl, inr, true, false, ◌&&◌, Option, none, some, List, [], ◌∷◌, String,
  arith, ◌==◌, ==_refl, if◌then◌else◌, Bool-cases, Option-cases, is_some, is_none, is_num, first,
  select,
}
use doc_chat_template_scc.Trust.Data.{
  Db, Tuple, Invite, TrustError, ok, err, invite_used, invite_of,
}
use doc_chat_template_scc.Trust.Friends.{are_friends}
use doc_chat_template_scc.Trust.Invites.{
  InviteRow, offering_of, check_invite, find_invite, redeem_invite, release_earlier, release_invite,
  revoke_tagged, revoke_if_tagged, of_earlier, complete_invites, mark_used, join_friends,
  join_group, is_member, write_invite_grant,
}
use doc_chat_template_scc.Trust.Steps.{accepted_invite}
use doc_chat_template_scc.Trust.Redemption.{first-update, by_code, redeem_invite-cases}

-- an accepted invite, as the table has it
abbrev pub taken : ℕ → ℕ → Invite → Invite
taken now u i = record i { used_by_user_id = some u; used_at = some now }

-- What the statements on relation tuples leave alone.
abbrev SameInvites : Db → Db → Type 0
SameInvites db db' = (db'.invites ≡ db.invites) × (db'.offerings ≡ db.offerings)

revoke_if_tagged-SameInvites :
    (ts i : ℕ) (row : Tuple) (db : Db) → SameInvites db (revoke_if_tagged ts i row db)
unfolding revoke_if_tagged
revoke_if_tagged-SameInvites ts i row db = elim (Bool-cases (is_num i (invite_of row.edge))) [
  | inl e ↦ rw e (refl, refl)
  | inr e ↦ rw e (refl, refl)
]

revoke_tagged-SameInvites :
    (ts i : ℕ) (rows : List Tuple) (db : Db) → SameInvites db (revoke_tagged ts i rows db)
unfolding revoke_tagged
revoke_tagged-SameInvites ts i [] db = (refl, refl)
revoke_tagged-SameInvites ts i (row ∷ rows) db =
    let (a, b) = revoke_if_tagged-SameInvites ts i row db in
    let (c, d) = revoke_tagged-SameInvites ts i rows (revoke_if_tagged ts i row db) in
    (c ∙ a, d ∙ b)

join_friends-SameInvites :
    (now u : ℕ) (row : InviteRow) (db : Db) → SameInvites db (join_friends now u row db)
unfolding join_friends
join_friends-SameInvites now u row db =
    elim (Bool-cases (are_friends db u row.invite.owner_user_id)) [
      | inl e ↦ rw e (refl, refl)
      | inr e ↦ rw e (refl, refl)
    ]

join_group-SameInvites :
    (now u i : ℕ) (g : Option ℕ) (db : Db) → SameInvites db (join_group now u i g db)
unfolding join_group
join_group-SameInvites now u i none db = (refl, refl)
join_group-SameInvites now u i (some g) db = elim (Bool-cases (is_member db u g)) [
  | inl e ↦ rw e (refl, refl)
  | inr e ↦ rw e (refl, refl)
]

offering_of-move :
    (db db' : Db) (i i' : Invite) (row : InviteRow)
    → offering_of db i ≡ some row
    → db'.offerings ≡ db.offerings
    → i'.offering_id ≡ i.offering_id
    → offering_of db' i' ≡ some (record row { invite = i' })
unfolding offering_of
offering_of-move db db' i i' row h offers same =
    elim (Option-cases (first (λ o. o.id == i.offering_id) db.offerings)) [
      | inl e ↦ absurd (ground arith)
      | inr (o, e) ↦
          let is_o : o ≡ row.offering = ground arith in
          let there : first (λ o. o.id == i'.offering_id) db'.offerings ≡ some row.offering =
            rw (offers, same) (e ∙ ap some is_o) in
          ground arith
    ]

module _ (sha256 : List ℕ → String) (code : List ℕ) where
  -- the invite of the code, after an earlier acceptance has been released
  release_earlier-listed :
      (now : ℕ) (i : Invite) (db : Db)
      → first (by_code sha256 code) db.invites ≡ some i
      → (j : Invite) × (first (by_code sha256 code) (release_earlier now i db).invites ≡ some j)
        × ((n u : ℕ) → taken n u j ≡ taken n u i)
        × ((release_earlier now i db).offerings ≡ db.offerings)
  unfolding release_earlier release_invite
  release_earlier-listed now i db h = elim (Bool-cases (is_some i.used_by_user_id)) [
    | inl e ↦
        let rows = select (of_earlier i.used_by_user_id) db.tuples in
        let (same, offers) = revoke_tagged-SameInvites now i.id rows db in
        let still : first (by_code sha256 code) (revoke_tagged now i.id rows db).invites ≡ some i =
          rw same h in
        (
          record i { used_by_user_id = none; used_at = none },
          rw e (
              first-update (by_code sha256 code) _ _ (revoke_tagged now i.id rows db).invites i
                (λ y. refl) still
              ∙ rw (==_refl i.id)),
          (λ n u. refl),
          rw e offers,
        )
    | inr e ↦ (i, rw e h, (λ n u. refl), rw e)
  ]

  accepted_invite-listed :
      (now u : ℕ) (row : InviteRow) (db : Db)
      → first (by_code sha256 code) db.invites ≡ some row.invite
      → (first (by_code sha256 code) (accepted_invite now u row db).invites
          ≡ some (taken now u row.invite))
        × ((accepted_invite now u row db).offerings ≡ db.offerings)
  unfolding mark_used write_invite_grant
  accepted_invite-listed now u row db h =
      let released = release_earlier now row.invite db in
      let joined = join_friends now u row released in
      let granted = write_invite_grant now u row joined in
      let last = join_group now u row.invite.id row.invite.group_id granted in
      let (j, listed, same, offers) = release_earlier-listed now row.invite db h in
      let (i1, o1) = join_friends-SameInvites now u row released in
      let (i2, o2) = join_group-SameInvites now u row.invite.id row.invite.group_id granted in
      let at : first (by_code sha256 code) last.invites ≡ some j = rw (i2 ∙ i1) listed in
      let id_is : j.id ≡ row.invite.id = ap (λ z. z.id) (same 0 0) in
      let hit : (j.id == row.invite.id) ≡ true = ground arith in
      (
        first-update (by_code sha256 code) _ (taken now u) last.invites j (λ y. refl) at
            ∙ ap (λ b. some (if b then taken now u j else j)) hit
            ∙ ap some (same now u),
        o2 ∙ o1 ∙ offers,
      )

  -- `find_invite` on an invite that is finished
  find_invite-finished :
      (now t : ℕ) (i : Invite) (row : InviteRow) (db : Db)
      → first (by_code sha256 code) db.invites ≡ some i
      → offering_of db i ≡ some row
      → row.invite ≡ i
      → i.completed_at ≡ some t
      → is_some i.cancelled_at ≡ false
      → is_some row.offering.withdrawn_at ≡ false
      → find_invite sha256 now code db ≡ err invite_used
  unfolding find_invite check_invite
  find_invite-finished now t i row db listed joined same done open_ offered = ground arith

  finish-listed :
      (u t : ℕ) (i : Invite) (db : Db)
      → first (by_code sha256 code) db.invites ≡ some i
      → is_num u i.used_by_user_id ≡ true
      → is_some i.completed_at ≡ false
      → first (by_code sha256 code) (complete_invites t u db).invites
        ≡ some (record i { completed_at = some t })
  unfolding complete_invites
  finish-listed u t i db h used open_ =
      first-update (by_code sha256 code) _ _ db.invites i (λ y. refl) h
      ∙ (let hit : (is_num u i.used_by_user_id && is_none i.completed_at) ≡ true = ground arith in
          ap (λ b. some (if b then record i { completed_at = some t } else i)) hit)

  -- the invite that a redemption which returned leaves under its code
  redeemed-listed :
      (now u : ℕ) (db db' : Db) (row : InviteRow)
      → redeem_invite sha256 now u code db ≡ ok (row, db')
      → (i : Invite) × (first (by_code sha256 code) db'.invites ≡ some i)
        × (offering_of db' i ≡ some (record row { invite = i }))
        × (is_num u i.used_by_user_id ≡ true)
        × (is_some i.completed_at ≡ false)
        × (is_some i.cancelled_at ≡ false)
        × (is_some row.offering.withdrawn_at ≡ false)
  redeemed-listed now u db db' row h =
      let (f, how) = redeem_invite-cases sha256 now u code db row db' h in
      elim how [
        | inl (used, same) ↦
            (row.invite, rw same f.listed, rw same f.joined, used, f.unfinished, f.open_, f.offered)
        | inr same ↦
            let (listed, offers) = accepted_invite-listed now u row db f.listed in
            (
              taken now u row.invite,
              rw same listed,
              offering_of-move db db' row.invite (taken now u row.invite) row f.joined
                  (ap (λ d. d.offerings) same ∙ offers) refl,
              ==_refl u,
              f.unfinished,
              f.open_,
              f.offered,
            )
      ]

  redeem_invite-raises :
      (now w : ℕ) (db : Db) (e : TrustError)
      → find_invite sha256 now code db ≡ err e
      → redeem_invite sha256 now w code db ≡ err e
  unfolding redeem_invite
  redeem_invite-raises now w db e h = ground arith

  -- An invite is used once: after a redemption that returned, and the completion of the invites of
  -- the user who redeemed, every redemption of that code by anybody, at any time, raises the error
  -- that the invite has been used.
  pub redeem_invite-completed :
      (now u t now' w : ℕ) (db db' : Db) (row : InviteRow)
      → redeem_invite sha256 now u code db ≡ ok (row, db')
      → redeem_invite sha256 now' w code (complete_invites t u db') ≡ err invite_used
  redeem_invite-completed now u t now' w db db' row h =
      let (i, listed, joined, used, fresh, kept, offered) = redeemed-listed now u db db' row h in
      let done : Invite = record i { completed_at = some t } in
      let end_ = complete_invites t u db' in
      let moved : offering_of end_ done ≡ some (record row { invite = done }) =
        unfold complete_invites in
        offering_of-move db' end_ i done (record row { invite = i }) joined refl refl in
      redeem_invite-raises now' w end_ invite_used (
        find_invite-finished now' t done (record row { invite = done }) end_
          (finish-listed u t i db' listed used fresh) moved refl refl kept offered)
