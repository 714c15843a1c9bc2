-- ===== src/Trust/Data.antt =====
-- The tables that casper_service/trust.py works on (casper_service/db.py), the errors that it
-- raises, and the transaction that `get_db` makes of a request.
-- Only trust.py writes `relation_tuples`, and it writes three kinds of row: the subject is a user,
-- and the relation settles the type of the object and what is in `attrs`. `Edge` is those three.
-- Columns that no operation reads are left out. Times are seconds: the texts that `now_iso` makes,
-- of one format and zone, sort as the times do.
use doc_chat_template_scc.Common.{
  ℕ, suc, Bool, true, false, Option, none, some, List, [], ◌∷◌, ◌++◌, String, str_eq, if◌then◌else◌,
  is_none,
}
use doc_chat_template_scc.Common.Int.{ℤ}

pub data Kind : Type 0 where
  backup_space mirror_space catcher_space : Kind

-- `RELATION_BY_KIND`, which has one relation for each kind
pub data GrantRelation : Type 0 where
  backup_peer mirror_peer catcher_peer : GrantRelation

abbrev pub relation_by_kind : Kind → GrantRelation
relation_by_kind backup_space = backup_peer
relation_by_kind mirror_space = mirror_peer
relation_by_kind catcher_space = catcher_peer

abbrev pub relation_eq : GrantRelation → GrantRelation → Bool
relation_eq backup_peer backup_peer = true
relation_eq mirror_peer mirror_peer = true
relation_eq catcher_peer catcher_peer = true
relation_eq _ _ = false

-- `kind not in RELATION_BY_KIND`
abbrev pub kind_of : String → Option Kind
kind_of s =
    if str_eq s "backup_space"
    then some backup_space
    else if str_eq s "mirror_space"
    then some mirror_space
    else if str_eq s "catcher_space"
    then some catcher_space
    else none

pub data WriteTier : Type 0 where
  allow ask : WriteTier

-- `write_tier not in ("allow", "ask")`
abbrev pub tier_of : String → Option WriteTier
tier_of s = if str_eq s "allow" then some allow else if str_eq s "ask" then some ask else none

pub record GrantAttrs : Type 0 where
  pub owner_user_id : ℕ
  pub quota_bytes : ℤ
  pub write_tier : WriteTier
  pub offering_id : ℕ
  pub invite_id : Option ℕ

-- relation, object type and attrs of a row; a friend or member row may be tagged with an invite
pub data Edge : Type 0 where
  friend : Option ℕ → Edge
  member : Option ℕ → Edge
  grant : GrantRelation → GrantAttrs → Edge

-- a row of `relation_tuples`
pub record Tuple : Type 0 where
  pub id : ℕ
  pub subject_id : ℕ
  pub edge : Edge
  pub object_id : ℕ
  pub created_at : ℕ
  pub revoked_at : Option ℕ

pub data FriendStatus : Type 0 where
  pending accepted declined : FriendStatus

pub data AccessStatus : Type 0 where
  pending granted declined : AccessStatus

pub record FriendRequest : Type 0 where
  pub id : ℕ
  pub from_user_id : ℕ
  pub to_user_id : ℕ
  pub status : FriendStatus
  pub decided_at : Option ℕ

pub record Offering : Type 0 where
  pub id : ℕ
  pub owner_user_id : ℕ
  pub host_id : ℕ
  pub kind : Kind
  pub max_quota_bytes : ℤ
  pub write_tier : WriteTier
  pub withdrawn_at : Option ℕ

pub record AccessRequest : Type 0 where
  pub id : ℕ
  pub offering_id : ℕ
  pub requester_user_id : ℕ
  pub quota_bytes : ℤ
  pub status : AccessStatus
  pub decided_at : Option ℕ

pub record Invite : Type 0 where
  pub id : ℕ
  pub code_hash : String
  pub owner_user_id : ℕ
  pub offering_id : ℕ
  pub quota_bytes : ℤ
  pub note : String
  pub expires_at : ℕ
  pub used_by_user_id : Option ℕ
  pub used_at : Option ℕ
  pub cancelled_at : Option ℕ
  pub group_id : Option ℕ
  pub completed_at : Option ℕ

pub record Group : Type 0 where
  pub id : ℕ
  pub owner_user_id : ℕ
  pub name : String

pub record User : Type 0 where
  pub id : ℕ
  pub username : String

pub record HostPairing : Type 0 where
  pub user_id : ℕ
  pub host_id : ℕ
  pub backup_signing_key : Option String

pub record UserHost : Type 0 where
  pub user_id : ℕ
  pub host_id : ℕ
  pub label : String

-- The database; a `…_seq` is the largest id that its table has given (AUTOINCREMENT).
pub record Db : Type 0 where
  pub users : List User
  pub pairings : List HostPairing
  pub user_hosts : List UserHost
  pub tuples : List Tuple
  pub tuple_seq : ℕ
  pub friend_requests : List FriendRequest
  pub friend_request_seq : ℕ
  pub offerings : List Offering
  pub offering_seq : ℕ
  pub access_requests : List AccessRequest
  pub access_request_seq : ℕ
  pub invites : List Invite
  pub invite_seq : ℕ
  pub groups : List Group
  pub group_seq : ℕ

-- each `TrustError` of the module
pub data TrustError : Type 0 where
  no_user self_friend already_friends request_pending not_friends : TrustError
  host_not_paired bad_write_tier unknown_kind no_offering own_offering friends_only : TrustError
  bad_quota already_granted already_asked no_grant bad_group_name no_own_offering : TrustError
  bad_code invite_cancelled invite_used invite_expired own_invite no_open_invite : TrustError

-- the HTTP status that each carries
pub error_status : TrustError → ℕ
error_status no_user = 404
error_status self_friend = 400
error_status already_friends = 409
error_status request_pending = 409
error_status not_friends = 404
error_status host_not_paired = 404
error_status bad_write_tier = 400
error_status unknown_kind = 400
error_status no_offering = 404
error_status own_offering = 400
error_status friends_only = 403
error_status bad_quota = 400
error_status already_granted = 409
error_status already_asked = 409
error_status no_grant = 404
error_status bad_group_name = 400
error_status no_own_offering = 404
error_status bad_code = 404
error_status invite_cancelled = 410
error_status invite_used = 410
error_status invite_expired = 410
error_status own_invite = 400
error_status no_open_invite = 404

pub data Result (A : Type 0) : Type 0 where
  ok : A → Result A
  err : TrustError → Result A

-- A request: `get_db` commits what it wrote if it returns, and nothing if it raises.
abbrev pub Action : Type 0 → Type 0
Action A = Db → Result (A × Db)

infixl 5 ◌>>=◌ ◌>>◌
abbrev pub ◌>>=◌ : {A B : Type 0} → Action A → (A → Action B) → Action B
◌>>=◌ m f db = elim (m db) [ ok (a, db') ↦ f a db' | err e ↦ err e ]

abbrev pub ◌>>◌ : {A B : Type 0} → Action A → Action B → Action B
m >> k = m >>= λ _. k

module _ {A : Type 0} where
  abbrev pub pure : A → Action A
  pure a db = ok (a, db)

  abbrev pub gets : (Db → A) → Action A
  gets f db = ok (f db, db)

  -- `if row is None: raise …`
  abbrev pub found : Option A → TrustError → Action A
  found none e db = err e
  found (some a) e db = ok (a, db)

abbrev pub raise_if : Bool → TrustError → Action Unit
raise_if true e db = err e
raise_if false e db = ok (tt, db)

abbrev pub modify : (Db → Db) → Action Unit
modify f db = ok (tt, f db)

-- the invite that a row is tagged with, `attrs.get("invite_id")`
abbrev pub invite_of : Edge → Option ℕ
invite_of (friend tag) = tag
invite_of (member tag) = tag
invite_of (grant relation attrs) = attrs.invite_id

-- a row of `relation_tuples` as it is inserted
abbrev pub new_row : ℕ → ℕ → ℕ → Edge → ℕ → Tuple
new_row now ident subject e object = record {
  id = ident;
  subject_id = subject;
  edge = e;
  object_id = object;
  created_at = now;
  revoked_at = none;
}

-- `INSERT INTO relation_tuples`
abbrev pub insert_tuple : ℕ → ℕ → Edge → ℕ → Db → Db
insert_tuple now subject e object db = record db {
  tuples = db.tuples ++ new_row now (suc db.tuple_seq) subject e object ∷ [];
  tuple_seq = suc db.tuple_seq;
}

-- `SET revoked_at = ts`
abbrev pub revoke : ℕ → Tuple → Tuple
revoke ts t = record t { revoked_at = some ts }

abbrev pub is_active : Tuple → Bool
is_active t = is_none t.revoked_at
