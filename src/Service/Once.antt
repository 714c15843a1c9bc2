-- ===== src/Service/Once.antt =====
-- Pairing by code, from the approval to the host: the token works, once.
use doc_chat_template_scc.Common.{
  ℕ, ◌+◌, ◌≤◌, ◌<◌, ltb, ◌≡◌, refl, ap, true, none, some, List, String, eq_iff, arith,
}
use doc_chat_template_scc.Common.Dict.{
  get, remove, get-put, get-remove, get-select, get-select-none,
}
use doc_chat_template_scc.Service.Accounts.{bearer}
use doc_chat_template_scc.Service.Codes.{
  CodeEntry, Pairing, is_open, is_valid, prune_pairing, approved, token_for, no_such_code,
  pairing_approve, pairing_status, paired_user,
}

open_until : (now : ℕ) (e : CodeEntry) (k : String) → now ≤ e.expires → is_open now (k, e) ≡ true
open_until now e k h = ground arith

valid_until :
    (now user_id expiry : ℕ) (k : String)
    → now ≤ expiry
    → is_valid now (k, (user_id, expiry)) ≡ true
valid_until now user_id expiry k h = ground arith

module _ (hash_token : List ℕ → String) where
  -- A code that is gone stays gone for a status.
  status-absent :
      (now : ℕ) (code : String) (secret : List ℕ) (p : Pairing)
      → get code p.pairing_codes ≡ none
      → (pairing_status hash_token now code secret p).0 ≡ no_such_code
  unfolding pairing_status prune_pairing
  status-absent now code secret p h =
      let e = get-select-none (is_open now) code p.pairing_codes h in rw e refl

  module _ (user_id : ℕ) (username code : String) (token secret authorization : List ℕ)
      (e : CodeEntry) where
    -- an approved entry, and the token that is held for it until a time
    abbrev IsApproved : ℕ → Pairing → Type 0
    IsApproved until p =
        (get code p.pairing_codes ≡ some (record e { approval = some (token, username) }))
        × (get (hash_token token) p.pair_tokens ≡ some (user_id, until))

    abbrev IsCollected : ℕ → Pairing → Type 0
    IsCollected until p =
        (get code p.pairing_codes ≡ none)
        × (get (hash_token token) p.pair_tokens ≡ some (user_id, until))

    approve-IsApproved :
        (now : ℕ) (p : Pairing)
        → get code p.pairing_codes ≡ some e
        → now ≤ e.expires
        → ((pairing_approve hash_token now user_id username code token p).0 ≡ approved)
          × IsApproved (now + 300) (pairing_approve hash_token now user_id username code token p).1
    unfolding pairing_approve prune_pairing
    approve-IsApproved now p there early =
        let kept =
          get-select (is_open now) code e p.pairing_codes there (λ k. open_until now e k early) in
        rw kept (refl, (get-put code _ _, get-put (hash_token token) _ _))

    status-IsCollected :
        (until now : ℕ) (p : Pairing)
        → IsApproved until p
        → now ≤ e.expires
        → now ≤ until
        → e.secret ≡ hash_token secret
        → ((pairing_status hash_token now code secret p).0 ≡ token_for token username)
          × IsCollected until (pairing_status hash_token now code secret p).1
    unfolding pairing_status prune_pairing
    status-IsCollected until now p (there, held) early soon same =
        let f : CodeEntry = record e { approval = some (token, username) } in
        let kept =
          get-select (is_open now) code f p.pairing_codes there (λ k. open_until now f k early) in
        let token_kept =
          get-select (is_valid now) (hash_token token) (user_id, until) p.pair_tokens held
            (λ k. valid_until now user_id until k soon) in
        let match = (eq_iff e.secret (hash_token secret)).1 same in
        rw kept (rw match (refl, (get-remove code _, token_kept)))

    -- A code that a user approves in time is collected in time by whoever has its secret, and the token
    -- that this gives pairs a host to the user, if it is presented within the five minutes that it
    -- lasts. Both work once: the code is unknown to any later status, with whatever secret, and the
    -- token pairs no other host.
    pub pairing_works_once :
        (t1 t2 t3 t4 t5 : ℕ) (guess : List ℕ) (p : Pairing)
        → get code p.pairing_codes ≡ some e
        → e.secret ≡ hash_token secret
        → bearer authorization ≡ token
        → t1 ≤ e.expires
        → t2 ≤ e.expires
        → t2 ≤ t1 + 300
        → t3 < t1 + 300
        → (p1 p2 p3 : Pairing) × (pairing_approve hash_token t1 user_id username code token p
            ≡ (approved, p1))
          × (pairing_status hash_token t2 code secret p1 ≡ (token_for token username, p2))
          × (paired_user hash_token t3 authorization none p2 ≡ (some user_id, p3))
          × ((pairing_status hash_token t4 code guess p3).0 ≡ no_such_code)
          × ((paired_user hash_token t5 authorization none p3).0 ≡ none)
    unfolding paired_user
    pairing_works_once t1 t2 t3 t4 t5 guess p there same sent early2 early3 soon fresh =
        let p1 = (pairing_approve hash_token t1 user_id username code token p).1 in
        let (a, held) = approve-IsApproved t1 p there early2 in
        let p2 = (pairing_status hash_token t2 code secret p1).1 in
        let (b, (c, d)) = status-IsCollected (t1 + 300) t2 p1 held early3 soon same in
        let p3 : Pairing = record p2 { pair_tokens = remove (hash_token token) p2.pair_tokens } in
        let alive : ltb t3 (t1 + 300) ≡ true = ground arith in
        (
          p1,
          p2,
          p3,
          ap (λ r. (r, p1)) a,
          ap (λ r. (r, p2)) b,
          rw sent (rw d (rw alive refl)),
          status-absent t4 code guess p3 c,
          rw sent (rw (get-remove (hash_token token) p2.pair_tokens) refl),
        )
