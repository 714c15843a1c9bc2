-- ===== src/Service/Codes.antt =====
-- casper_service/main.py: pairing by code. Times are whole seconds; what is drawn is an argument.
use doc_chat_template_scc.Common.{
  ℕ, ◌+◌, ◌*◌, ltb, Bool, not, Option, none, some, List, String, str_eq, if◌then◌else◌, select,
}
use doc_chat_template_scc.Common.Dict.{get, put, remove}
use doc_chat_template_scc.Service.Rates.{Attempts, check_rate_limit}
use doc_chat_template_scc.Service.Accounts.{bearer}

abbrev pub pairing_code_seconds : ℕ
pairing_code_seconds = 15 * 60

-- a value of `_pairing_codes`
pub record CodeEntry : Type 0 where
  pub secret : String
  pub expires : ℕ
  pub approval : Option (List ℕ × String)

-- `_pairing_codes`, and `_pair_tokens`: the user and the expiry of each digest
pub record Pairing : Type 0 where
  pub pairing_codes : List (String × CodeEntry)
  pub pair_tokens : List (String × (ℕ × ℕ))

-- what `_prune_pairing` leaves of each
abbrev pub is_open : ℕ → String × CodeEntry → Bool
is_open now (code, e) = not (ltb e.expires now)

abbrev pub is_valid : ℕ → String × (ℕ × ℕ) → Bool
is_valid now (h, (user_id, expiry)) = not (ltb expiry now)

-- `_prune_pairing`
unfoldable pub prune_pairing : ℕ → Pairing → Pairing
prune_pairing now p = record {
  pairing_codes = select (is_open now) p.pairing_codes;
  pair_tokens = select (is_valid now) p.pair_tokens;
}

pub data PairingReply : Type 0 where
  started : (code : String) (secret : List ℕ) → PairingReply
  approved : PairingReply
  not_approved : PairingReply
  token_for : (token : List ℕ) (username : String) → PairingReply
  link_expired no_such_code too_many_attempts : PairingReply

module _ (hash_token : List ℕ → String) where
  abbrev pub start_code :
      Option Attempts → ℕ → String → List ℕ → Attempts → Pairing → PairingReply × Attempts × Pairing
  start_code none now code secret old p = (too_many_attempts, old, p)
  start_code (some attempts) now code secret old p =
      let q = prune_pairing now p in
      let e : CodeEntry = record {
        secret = hash_token secret;
        expires = now + pairing_code_seconds;
        approval = none;
      } in
      (started code secret, attempts, record q { pairing_codes = put code e q.pairing_codes })

  -- `pairing_start`; its key for the limit is "pairing:" and the address
  unfoldable pub pairing_start :
      ℕ → String → String → List ℕ → Attempts → Pairing → PairingReply × Attempts × Pairing
  unfolding check_rate_limit prune_pairing
  pairing_start now key code secret attempts p =
      start_code (check_rate_limit now key attempts) now code secret attempts p

  abbrev pub approve_entry :
      Option CodeEntry → ℕ → ℕ → String → String → List ℕ → Pairing → PairingReply × Pairing
  approve_entry none now user_id username code token p = (link_expired, p)
  approve_entry (some e) now user_id username code token p = (
    approved,
    record {
      pairing_codes = put code (record e { approval = some (token, username) }) p.pairing_codes;
      pair_tokens = put (hash_token token) (user_id, now + 300) p.pair_tokens;
    },
  )

  -- `pairing_approve`, by a signed-in user
  unfoldable pub pairing_approve :
      ℕ → ℕ → String → String → List ℕ → Pairing → PairingReply × Pairing
  unfolding prune_pairing get put
  pairing_approve now user_id username code token p =
      let q = prune_pairing now p in
      approve_entry (get code q.pairing_codes) now user_id username code token q

  abbrev pub hand_out : Option (List ℕ × String) → String → Pairing → PairingReply × Pairing
  hand_out none code p = (not_approved, p)
  hand_out (some (token, username)) code p =
      (token_for token username, record p { pairing_codes = remove code p.pairing_codes })

  abbrev pub collect : Option CodeEntry → String → List ℕ → Pairing → PairingReply × Pairing
  collect none code secret p = (no_such_code, p)
  collect (some e) code secret p =
      if str_eq e.secret (hash_token secret) then hand_out e.approval code p else (no_such_code, p)

  -- `pairing_status`
  unfoldable pub pairing_status : ℕ → String → List ℕ → Pairing → PairingReply × Pairing
  unfolding prune_pairing get remove
  pairing_status now code secret p =
      let q = prune_pairing now p in collect (get code q.pairing_codes) code secret q

  -- `held[0] if held and held[1] > time.time() else resolved`
  abbrev pub held_or : ℕ → Option (ℕ × ℕ) → Option ℕ → Option ℕ
  held_or now none resolved = resolved
  held_or now (some (user_id, expiry)) resolved = if ltb now expiry then some user_id else resolved

  -- the first two statements of `pair_host`: whom a host is paired to. What the header is as a
  -- browser's token is given.
  unfoldable pub paired_user : ℕ → List ℕ → Option ℕ → Pairing → Option ℕ × Pairing
  unfolding bearer get remove
  paired_user now authorization resolved p =
      let h = hash_token (bearer authorization) in
      (
        held_or now (get h p.pair_tokens) resolved,
        record p { pair_tokens = remove h p.pair_tokens },
      )
