-- ===== src/Service/Accounts.antt =====
-- casper_service/main.py: accounts and the tokens of their sessions.
-- A header, like a token, is the list of its code points. The digest of `hashlib` is the parameter
-- `hash_token`; the two functions on bcrypt are parameters as well, and so is what is drawn.
use doc_chat_template_scc.Common.{
  ℕ, suc, Bool, false, not, Option, none, some, List, [], ◌∷◌, ◌++◌, String, codes, if◌then◌else◌,
  ◌==◌, is_some, first, update, str_eq, nocase_eq,
}
use doc_chat_template_scc.Trust.Invites.{lstrip, rstrip, is_nil}
use doc_chat_template_scc.Service.Data.{
  Account, Store, bad_token, bad_login, username_taken, Reply, Request, ◌>>=◌, ◌>>◌, pure, gets,
  found, modify, raise_if, Server, limited,
}

-- `s.removeprefix(prefix)`
abbrev pub strip_prefix : List ℕ → List ℕ → Option (List ℕ)
strip_prefix [] s = some s
strip_prefix (c ∷ prefix) [] = none
strip_prefix (c ∷ prefix) (d ∷ s) = if c == d then strip_prefix prefix s else none

abbrev pub or_same : List ℕ → Option (List ℕ) → List ℕ
or_same s none = s
or_same s (some rest) = rest

unfoldable pub remove_prefix : List ℕ → List ℕ → List ℕ
remove_prefix prefix s = or_same s (strip_prefix prefix s)

-- `authorization.removeprefix("Bearer ").strip()`
unfoldable pub bearer : List ℕ → List ℕ
unfolding remove_prefix lstrip rstrip
bearer authorization = rstrip (lstrip (remove_prefix (codes "Bearer ") authorization))

-- `token_hash = ?`
abbrev pub is_token : String → Option String → Bool
is_token h none = false
is_token h (some t) = str_eq t h

abbrev pub has_token : String → Account → Bool
has_token h a = is_token h a.token_hash

pub record Session : Type 0 where
  pub username : String
  pub token : List ℕ

abbrev pub username_of : Option Account → Option String
username_of none = none
username_of (some a) = some a.username

abbrev pub id_of : Option Account → Option ℕ
id_of none = none
id_of (some a) = some a.id

abbrev pub by_name : String → Store → Option Account
by_name username db = first (λ (a : Account). nocase_eq a.username username) db.accounts

abbrev pub insert_account : String → String → Store → Store
insert_account username password_hash db = record db {
  account_seq = suc db.account_seq;
  accounts =
      db.accounts
      ++ (record {
        id = suc db.account_seq;
        username = username;
        password_hash = password_hash;
        token_hash = none;
        token_created_at = none;
      })
        ∷ [];
}

abbrev pub renew : String → ℕ → Account → Account
renew h now a = record a { token_hash = some h; token_created_at = some now }

-- `UPDATE users SET token_hash = ?, token_created_at = ? WHERE id = ?`
abbrev pub set_token : ℕ → String → ℕ → Store → Store
set_token user_id h now db = record db {
  accounts = update (λ (a : Account). a.id == user_id) (renew h now) db.accounts;
}

module _ (hash_token : List ℕ → String) where
  abbrev pub by_token : List ℕ → Store → Option Account
  by_token token db = first (has_token (hash_token token)) db.accounts

  -- `issue_token`, with the token that it draws
  unfoldable pub issue_token : ℕ → ℕ → List ℕ → Request Unit
  issue_token user_id now token = modify (set_token user_id (hash_token token) now)

  -- `verify`
  unfoldable pub verify : List ℕ → Store → Option String
  unfolding bearer
  verify authorization db =
      let token = bearer authorization in
      if is_nil token then none else username_of (by_token token db)

  -- `revoke`
  unfoldable pub revoke : List ℕ → Request Unit
  unfolding bearer
  revoke authorization =
      let token = bearer authorization in
      if is_nil token
      then pure tt
      else modify λ db. record db {
        accounts =
            update (has_token (hash_token token)) (λ (a : Account). record a { token_hash = none })
              db.accounts;
      }

  -- `_resolve_user_id`
  unfoldable pub resolve_user_id : List ℕ → Store → Option ℕ
  unfolding bearer
  resolve_user_id authorization db =
      let token = bearer authorization in if is_nil token then none else id_of (by_token token db)

  -- the first two statements of an endpoint for signed-in users
  unfoldable pub signed_in : List ℕ → Request ℕ
  unfolding resolve_user_id
  signed_in authorization db = found (resolve_user_id authorization db) bad_token db

  module _ (hash_password : String → String → String) where
    unfoldable pub create_account : String → String → String → ℕ → List ℕ → Request Session
    unfolding issue_token
    create_account username password salt now token = do
      existing ← gets (by_name username)
      raise_if (is_some existing) username_taken
      modify (insert_account username (hash_password salt password))
      id ← gets (λ db. db.account_seq)
      issue_token id now token
      pure (record { username = username; token = token })

    -- `signup`, with the salt and the token that it draws
    unfoldable pub signup :
        String → String → String → String → ℕ → List ℕ → Server → Reply Session × Server
    unfolding limited create_account
    signup ip username password salt now token =
        limited now ip (create_account username password salt now token)

  module _ (check_password : String → String → Bool) where
    unfoldable pub open_session : String → String → ℕ → List ℕ → Request Session
    unfolding issue_token
    open_session username password now token = do
      row ← gets (by_name username)
      a ← found row bad_login
      raise_if (not (check_password password a.password_hash)) bad_login
      issue_token a.id now token
      pure (record { username = a.username; token = token })

    -- `login`, with the token that it draws
    unfoldable pub login : String → String → String → ℕ → List ℕ → Server → Reply Session × Server
    unfolding limited open_session
    login ip username password now token = limited now ip (open_session username password now token)
