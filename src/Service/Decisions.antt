-- ===== src/Service/Decisions.antt =====
-- An approval is decided by its own approver, and once.
use doc_chat_template_scc.Common.{
  ℕ, ◌≡◌, refl, sym, ap, ◌∙◌, subst, true, false, Option, none, some, List, [], ◌∷◌, String, ◌==◌,
  first, exists, exists-append, str_eq, eq_iff, Bool-cases, Option-cases, inl, inr, and-left, ◌≢◌,
  ==_iff, Bool, ◌&&◌,
}
use doc_chat_template_scc.Common.Rows.{Elem, first_found}
use doc_chat_template_scc.Service.Accounts.{resolve_user_id}
use doc_chat_template_scc.Service.Forgetting.{deleted_is_gone}
use doc_chat_template_scc.Service.Approvals.{
  PendingApproval, Desk, unknown_approval, has_approval_id, drop_approval, resume_pending_approval,
  is_own_approval, decide_pending_approval,
}

both_true : (a b : Bool) → (a && b) ≡ true → (a ≡ true) × (b ≡ true)
both_true true b h = (refl, h)
both_true false b h = absurd (let t : true ≡ false = cc in cc)

module _ {W : Type 0} (handlers : String → Option (PendingApproval → String → W → String × W))
    (converse : PendingApproval → String → W → (String × W) × List PendingApproval)
    (hash_token : List ℕ → String) where
  abbrev IsGone : String → Desk W → Type 0
  IsGone id d = exists (has_approval_id id) d.approvals ≡ false

  first-gone :
      (u : ℕ) (id : String) (xs : List PendingApproval)
      → exists (has_approval_id id) xs ≡ false
      → first (is_own_approval u id) xs ≡ none
  unfolding first exists
  first-gone u id [] h = refl
  first-gone u id (a ∷ xs) h = elim (Bool-cases (has_approval_id id a)) [
    | inl e ↦ absurd (let t : true ≡ false = rw e at h in cc)
    | inr e ↦ rw e (first-gone u id xs (rw e at h))
  ]

  decide-gone :
      (authorization : List ℕ) (id decision : String) (d : Desk W) (user_id : ℕ)
      → resolve_user_id hash_token authorization d.store ≡ some user_id
      → IsGone id d
      → decide_pending_approval handlers converse hash_token authorization id decision d
        ≡ (unknown_approval, d)
  unfolding decide_pending_approval
  decide-gone authorization id decision d user_id known gone =
      rw known (rw (first-gone user_id id d.approvals gone) refl)

  -- Whatever acts on the decision, the approval is not there after it.
  resume-IsGone :
      (a : PendingApproval) (decision : String) (d : Desk W)
      → exists (has_approval_id a.id) (converse a decision d.rest).1 ≡ false
      → IsGone a.id (resume_pending_approval handlers converse hash_token a decision d).1
  unfolding resume_pending_approval
  resume-IsGone a decision d fresh =
      let gone = deleted_is_gone (has_approval_id a.id) d.approvals in
      elim (Bool-cases (str_eq a.kind "conversation")) [
        | inl e ↦ rw e (
            exists-append (has_approval_id a.id) (drop_approval a.id d.approvals)
              (converse a decision d.rest).1
            ∙ rw gone fresh)
        | inr e ↦ elim (Option-cases (handlers a.kind)) [
          | inl f ↦ rw e (rw f gone)
          | inr (h, f) ↦ rw e (rw f gone)
        ]
      ]

  store-resume :
      (a : PendingApproval) (decision : String) (d : Desk W)
      → (resume_pending_approval handlers converse hash_token a decision d).1.store ≡ d.store
  unfolding resume_pending_approval
  store-resume a decision d = elim (Bool-cases (str_eq a.kind "conversation")) [
    | inl e ↦ rw e refl
    | inr e ↦ elim (Option-cases (handlers a.kind)) [
      | inl f ↦ rw e (rw f refl)
      | inr (h, f) ↦ rw e (rw f refl)
    ]
  ]

  -- An approval is decided once. When its approver has decided it, whatever its kind and however that
  -- was acted upon, a further decision by any signed-in user is refused, and changes nothing. A
  -- conversation that the decision resumes draws no approval with the same id.
  pub decide_pending_approval-decide_pending_approval :
      (authorization authorization' : List ℕ) (id decision decision' : String) (d : Desk W)
      (user_id other : ℕ) (a : PendingApproval)
      → resolve_user_id hash_token authorization d.store ≡ some user_id
      → resolve_user_id hash_token authorization' d.store ≡ some other
      → first (is_own_approval user_id id) d.approvals ≡ some a
      → exists (has_approval_id id) (converse a decision d.rest).1 ≡ false
      → (d' : Desk W) × (decide_pending_approval handlers converse hash_token authorization id
            decision d
          ≡ resume_pending_approval handlers converse hash_token a decision d)
        × ((resume_pending_approval handlers converse hash_token a decision d).1 ≡ d')
        × (decide_pending_approval handlers converse hash_token authorization' id decision' d'
            ≡ (unknown_approval, d'))
  unfolding decide_pending_approval
  decide_pending_approval-decide_pending_approval authorization authorization' id decision decision'
        d user_id other a known known' there fresh =
      let d' = (resume_pending_approval handlers converse hash_token a decision d).1 in
      let (own, m) = first_found _ d.approvals a there in
      let same : a.id ≡ id =
        (eq_iff a.id id).0 (and-left (has_approval_id id a) (a.user_id == user_id) own) in
      let gone = resume-IsGone a decision d (
        subst (λ i. exists (has_approval_id i) (converse a decision d.rest).1 ≡ false) (sym same)
          fresh) in
      let gone' : IsGone id d' = subst (λ i. IsGone i d') same gone in
      let resolved =
        ap (resolve_user_id hash_token authorization') (store-resume a decision d) ∙ known' in
      (
        d',
        rw known (rw there refl),
        refl,
        decide-gone authorization' id decision' d' other resolved gone',
      )

  -- Nobody decides an approval of another: where every approval with the id has another user as its
  -- approver, or there is none, the decision is refused, and nothing changes.
  pub decide_pending_approval-isolates :
      (authorization : List ℕ) (id decision : String) (d : Desk W) (user_id : ℕ)
      → resolve_user_id hash_token authorization d.store ≡ some user_id
      → ((a : PendingApproval) → Elem a d.approvals → a.id ≡ id → a.user_id ≢ user_id)
      → decide_pending_approval handlers converse hash_token authorization id decision d
        ≡ (unknown_approval, d)
  unfolding decide_pending_approval
  decide_pending_approval-isolates authorization id decision d user_id known foreign =
      elim (Option-cases (first (is_own_approval user_id id) d.approvals)) [
        | inl e ↦ rw known (rw e refl)
        | inr (a, e) ↦
            let (own, m) = first_found _ d.approvals a e in
            let (named, his) = both_true (has_approval_id id a) (a.user_id == user_id) own in
            absurd (foreign a m ((eq_iff a.id id).0 named) ((==_iff a.user_id user_id).0 his))
      ]
