-- ===== src/Trust/Redemption.antt =====
-- The life of an invite: what `redeem_invite` does, when it is repeated and after the end.
use doc_chat_template_scc.Common.{
  ℕ, ◌≡◌, refl, ap, ◌∙◌, sym, subst, ◌⊎◌, inl, inr, Bool, true, false, some, List, [], ◌∷◌, String,
  str_eq, arith, ◌==◌, if◌then◌else◌, Bool-cases, Option-cases, is_some, is_num, first, update,
}
use doc_chat_template_scc.Trust.Data.{Db, Invite, TrustError, Result, ok, err}
use doc_chat_template_scc.Trust.Invites.{
  InviteRow, offering_of, check_invite, invite_hash, find_invite, accept_invite, redeem_invite,
}
use doc_chat_template_scc.Trust.Steps.{accepted_invite}

module _ {A : Type 0} where
  -- the first row of an updated table, if the update does not touch what is tested
  pub first-update :
      (p q : A → Bool) (f : A → A) (xs : List A) (x : A)
      → ((y : A) → p (f y) ≡ p y)
      → first p xs ≡ some x
      → first p (update q f xs) ≡ some (if q x then f x else x)
  unfolding first update
  first-update p q f [] x same h = ground arith
  first-update p q f (y ∷ ys) x same h = elim (Bool-cases (p y)) [
    | inl e ↦
        let at : y ≡ x = ground arith in
        rw (kept y ∙ e) (ap (λ z. some (if q z then f z else z)) at)
    | inr e ↦ rw (kept y ∙ e) (first-update p q f ys x same (ground arith))
  ]
    where
      kept : (z : A) → p (if q z then f z else z) ≡ p z
      kept z = elim (Bool-cases (q z)) [ inl k ↦ rw k (same z) | inr k ↦ rw k ]

offering_of-invite :
    (db : Db) (i : Invite) (r : InviteRow) → offering_of db i ≡ some r → r.invite ≡ i
unfolding offering_of
offering_of-invite db i r h =
    elim (Option-cases (first (λ o. o.id == i.offering_id) db.offerings)) [
      | inl e ↦ absurd (ground arith)
      | inr (o, e) ↦ ground arith
    ]

check_invite-passes :
    (now : ℕ) (r row : InviteRow) (db db' : Db)
    → check_invite now r db ≡ ok (row, db')
    → (row ≡ r)
      × (db' ≡ db)
      × (is_some r.invite.cancelled_at ≡ false)
      × (is_some r.offering.withdrawn_at ≡ false)
      × (is_some r.invite.completed_at ≡ false)
unfolding check_invite
check_invite-passes now r row db db' h =
    (ground arith, ground arith, ground arith, ground arith, ground arith)

Result-cases :
    {A : Type 0} (r : Result A) → ((a : A) × (r ≡ ok a)) ⊎ ((e : TrustError) × (r ≡ err e))
Result-cases (ok a) = inl (a, refl)
Result-cases (err e) = inr (e, refl)

accept_invite-ok :
    (now u : ℕ) (r row : InviteRow) (db db' : Db)
    → accept_invite now u r db ≡ ok (row, db')
    → (row ≡ r) × (db' ≡ accepted_invite now u r db)
unfolding accept_invite
accept_invite-ok now u r row db db' h = (ground arith, ground arith)

module _ (sha256 : List ℕ → String) where
  abbrev pub by_code : List ℕ → Invite → Bool
  by_code code i = str_eq i.code_hash (invite_hash sha256 code)

  -- What is known of an invite that `find_invite` returns.
  pub record IsFound (now : ℕ) (code : List ℕ) (db : Db) (row : InviteRow) : Type 0 where
    pub listed : first (by_code code) db.invites ≡ some row.invite
    pub joined : offering_of db row.invite ≡ some row
    pub open_ : is_some row.invite.cancelled_at ≡ false
    pub offered : is_some row.offering.withdrawn_at ≡ false
    pub unfinished : is_some row.invite.completed_at ≡ false

  find_invite-IsFound :
      (now : ℕ) (code : List ℕ) (db : Db) (row : InviteRow) (db' : Db)
      → find_invite sha256 now code db ≡ ok (row, db')
      → IsFound now code db row × (db' ≡ db)
  unfolding find_invite
  find_invite-IsFound now code db row db' h =
      elim (Option-cases (first (by_code code) db.invites)) [
        | inl e ↦ absurd (ground arith)
        | inr (i, e) ↦ elim (Option-cases (offering_of db i)) [
          | inl f ↦ absurd (ground arith)
          | inr (r, f) ↦
              let passed : check_invite now r db ≡ ok (row, db') = ground arith in
              let (q, same, c, w, d) = check_invite-passes now r row db db' passed in
              let i_is : row.invite ≡ i = ap (λ z. z.invite) q ∙ offering_of-invite db i r f in
              (
                record {
                  listed = e ∙ ap some (sym i_is);
                  joined = ap (offering_of db) i_is ∙ f ∙ ap some (sym q);
                  open_ = rw q c;
                  offered = rw q w;
                  unfinished = rw q d;
                },
                same,
              )
        ]
      ]

  -- How a redemption that returns has ended: the user had accepted before, and nothing is written,
  -- or the invite is accepted now.
  pub redeem_invite-cases :
      (now u : ℕ) (code : List ℕ) (db : Db) (row : InviteRow) (db' : Db)
      → redeem_invite sha256 now u code db ≡ ok (row, db')
      → IsFound now code db row
        × ((is_num u row.invite.used_by_user_id ≡ true) × (db' ≡ db)
            ⊎ (db' ≡ accepted_invite now u row db))
  unfolding redeem_invite
  redeem_invite-cases now u code db row db' h =
      elim (Result-cases (find_invite sha256 now code db)) [
        | inr (e, no_) ↦ absurd (ground arith)
        | inl ((r, d), e) ↦
            let (found_, same) = find_invite-IsFound now code db r d e in
            elim (Bool-cases (is_num u r.invite.used_by_user_id)) [
              | inl used ↦
                  let q : r ≡ row = ground arith in
                  let end_ : d ≡ db' = ground arith in
                  subst
                    (λ z.
                      IsFound now code db z
                      × ((is_num u z.invite.used_by_user_id ≡ true) × (db' ≡ db)
                          ⊎ (db' ≡ accepted_invite now u z db)))
                    q (found_, inl (used, sym end_ ∙ same))
              | inr fresh ↦
                  let took : accept_invite now u r d ≡ ok (row, db') = ground arith in
                  let (q, last) = accept_invite-ok now u r row d db' took in
                  subst
                    (λ z.
                      IsFound now code db z
                      × ((is_num u z.invite.used_by_user_id ≡ true) × (db' ≡ db)
                          ⊎ (db' ≡ accepted_invite now u z db)))
                    (sym q) (found_, inr (last ∙ ap (accepted_invite now u r) same))
            ]
      ]
