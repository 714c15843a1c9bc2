-- ===== src/Service/Examples.antt =====
-- Small instances of the service: what the theorems on it say of them.
-- Tokens are single code points here, a digest is a text that tells two of them apart, and base64 is
-- the identity.
use doc_chat_template_scc.Common.{
  ℕ, ◌≤◌, ◌≡◌, ◌≢◌, refl, sym, ap, ◌∙◌, Bool, true, false, Option, none, some, List, [], ◌∷◌,
  String, if◌then◌else◌, ◌==◌, codes, arith, nocase_eq, select, first, update, exists, length, inl,
  inr,
}
use doc_chat_template_scc.Common.Distinct.{Distinct}
use doc_chat_template_scc.Common.Rows.{Elem}
use doc_chat_template_scc.Common.Dict.{get}
use doc_chat_template_scc.Policy.{Pattern, Rule}
use doc_chat_template_scc.Service.Data.{
  Account, PolicyLayer, RuleRow, Store, Server, returned, limited,
}
use doc_chat_template_scc.Service.Rates.{check_rate_limit, rate_limit, attempts_of, set_attempts}
use doc_chat_template_scc.Service.Pace.{History, accepted, in_window, check_rate_limit-bounds}
use doc_chat_template_scc.Service.Accounts.{
  is_token, bearer, remove_prefix, Session, by_name, verify, resolve_user_id, revoke, login,
  open_session, issue_token,
}
use doc_chat_template_scc.Service.Tokens.{IsKeyed, Carries, login-Carries, revoke-verify}
use doc_chat_template_scc.Service.Layers.{
  ids_of, rules_of, policy_layer_rules, LayerInfo, user_owns_policy_layer, is_permutation,
}
use doc_chat_template_scc.Service.Requests.{reorder_policy_layer_rules}
use doc_chat_template_scc.Service.Reorder.{reorder_policy_layer_rules-lists}
use doc_chat_template_scc.Service.Isolation.{serve, serve-isolates}
use doc_chat_template_scc.Service.Storage.{
  upload_storage, download_storage, stored, safe_filename, is_dots, total_bytes, store_data,
  basename,
}
use doc_chat_template_scc.Service.Cap.{upload, IsWithinCap, disk_after, disk_after-IsWithinCap}
use doc_chat_template_scc.Service.Files.{upload_storage-download_storage, safe_filename-flat}
use doc_chat_template_scc.Service.Codes.{
  CodeEntry, Pairing, approved, token_for, no_such_code, pairing_approve, pairing_status,
  paired_user,
}
use doc_chat_template_scc.Service.Once.{pairing_works_once}
use doc_chat_template_scc.Service.Spared
use doc_chat_template_scc.Service.Isolation.{update_rule}
use doc_chat_template_scc.Service.Layers.{user_owns_policy_layer_rule}
use doc_chat_template_scc.Service.Accounts.{signed_in}
use doc_chat_template_scc.Service.RuleUpdates.{
  RuleUpdate, unset, set_to, fits, is_valid_pattern, is_valid_rule, revalidated,
  update_policy_layer_rule,
}
use doc_chat_template_scc.Trust.Invites.{lstrip, rstrip, is_nil}

abbrev digest : List ℕ → String
digest [] = ""
digest (c ∷ s) = if c == 65 then "a" else "b"

abbrev header : List ℕ
header = codes "Bearer A"

abbrev other_header : List ℕ
other_header = codes "Bearer B"

header-bearer : bearer header ≡ 65 ∷ []
unfolding bearer remove_prefix lstrip rstrip
header-bearer = refl

other_header-bearer : bearer other_header ≡ 66 ∷ []
unfolding bearer remove_prefix lstrip rstrip
other_header-bearer = refl

abbrev is_right : String → String → Bool
is_right password hash = true

abbrev ann : Account
ann = record {
  id = 1;
  username = "Ann";
  password_hash = "x";
  token_hash = none;
  token_created_at = none;
}

abbrev bob : Account
bob = record {
  id = 2;
  username = "bob";
  password_hash = "y";
  token_hash = some "b";
  token_created_at = some 0;
}

abbrev blank : Pattern
blank = record { whitelist = ""; blacklist = ""; path_resolution = "" }

abbrev rule : ℕ → ℕ → Rule
rule id position = record {
  id = id;
  position = position;
  positional_constraints = [];
  option_constraints = [];
  cwd = blank;
  tier = "ask";
}

abbrev store : Store
store = record {
  accounts = ann ∷ bob ∷ [];
  account_seq = 2;
  hosts = [];
  host_seq = 0;
  user_hosts = [];
  host_pairings = [];
  policy_layers =
      (record { id = 4; user_id = 2; name = "mine" })
      ∷ (record { id = 5; user_id = 1; name = "hers" })
      ∷ [];
  policy_layer_seq = 5;
  layer_hosts = [];
  rules =
      (record { policy_layer_id = 4; rule = rule 7 0 })
      ∷ (record { policy_layer_id = 4; rule = rule 8 1 })
      ∷ (record { policy_layer_id = 5; rule = rule 9 0 })
      ∷ [];
  rule_seq = 9;
  environments = [];
  environment_seq = 0;
  environment_hosts = [];
}

abbrev server : Server
server = record { store = store; attempts = [] }

abbrev after_login : Server
after_login = record {
  store = record store {
    accounts = record ann { token_hash = some "a"; token_created_at = some 9 } ∷ bob ∷ [];
  };
  attempts = ("ip", 9 ∷ []) ∷ [];
}

store-IsKeyed : IsKeyed store.accounts
store-IsKeyed a b (inl e) (inl f) h = e ∙ sym f
store-IsKeyed a b (inl e) (inr (inl f)) h =
    absurd (let k : 1 ≡ 2 = sym (ap (λ x. x.id) e) ∙ h ∙ ap (λ x. x.id) f in omega arith)
store-IsKeyed a b (inr (inl e)) (inl f) h =
    absurd (let k : 2 ≡ 1 = sym (ap (λ x. x.id) e) ∙ h ∙ ap (λ x. x.id) f in omega arith)
store-IsKeyed a b (inr (inl e)) (inr (inl f)) h = e ∙ sym f
store-IsKeyed a b (inl e) (inr (inr f)) h = absurd f
store-IsKeyed a b (inr (inl e)) (inr (inr f)) h = absurd f
store-IsKeyed a b (inr (inr e)) f h = absurd e

abbrev session : Session
session = record { username = "Ann"; token = bearer header }

login_run :
    login digest is_right "ip" "ann" "pw" 9 (bearer header) server ≡ (returned session, after_login)
unfolding login limited check_rate_limit attempts_of set_attempts open_session issue_token select
    first update bearer remove_prefix lstrip rstrip nocase_eq
login_run = refl

no_token :
    first (λ (a : Account). is_token (digest (bearer header)) a.token_hash) store.accounts ≡ none
unfolding first bearer remove_prefix lstrip rstrip
no_token = refl

header-is_nil : is_nil (bearer header) ≡ false
header-is_nil = rw header-bearer refl

login-Carries_example :
    (a : Account) × (by_name "ann" store ≡ some a)
    × (session.username ≡ a.username)
    × (is_right "pw" a.password_hash ≡ true)
    × Carries digest header a after_login.store
login-Carries_example =
    login-Carries digest is_right "ip" "ann" "pw" 9 header server after_login session store-IsKeyed
      no_token header-is_nil login_run

digests_differ : digest (bearer other_header) ≢ digest (bearer header)
digests_differ = rw (header-bearer, other_header-bearer) (λ h. absurd (cc))

revoke-verify_example :
    (db : Store) × (revoke digest header after_login.store ≡ returned (tt, db))
    × (verify digest header db ≡ none)
    × (verify digest other_header db ≡ verify digest other_header after_login.store)
revoke-verify_example = revoke-verify digest header other_header after_login.store digests_differ

abbrev history : History
history = (70, "ip") ∷ (30, "ip") ∷ (20, "other") ∷ []

check_rate_limit-bounds_example :
    length (select (in_window 25) (accepted "ip" history)) ≤ rate_limit
check_rate_limit-bounds_example =
    check_rate_limit-bounds "ip" history 25
      ((omega arith, (omega arith, tt)), ((omega arith, tt), (tt, tt)))

bob-resolves : resolve_user_id digest other_header store ≡ some 2
unfolding resolve_user_id bearer remove_prefix lstrip rstrip first
bob-resolves = refl

bob-owns : user_owns_policy_layer 2 4 store ≡ true
unfolding user_owns_policy_layer exists
bob-owns = refl

ann-owns : user_owns_policy_layer 1 5 store ≡ true
unfolding user_owns_policy_layer exists
ann-owns = refl

rules-Distinct : Distinct (ids_of (rules_of 4 store.rules))
unfolding exists select
rules-Distinct = (refl, (refl, tt))

swap-is_permutation : is_permutation (8 ∷ 7 ∷ []) (ids_of (rules_of 4 store.rules)) ≡ true
unfolding is_permutation exists select
swap-is_permutation = refl

reorder_policy_layer_rules-lists_example :
    (info : LayerInfo) × (db : Store) × (reorder_policy_layer_rules digest other_header 4
        (8 ∷ 7 ∷ [])
        store
      ≡ returned (info, db))
    × (ids_of info.rules ≡ 8 ∷ 7 ∷ [])
    × (ids_of (policy_layer_rules 4 db) ≡ 8 ∷ 7 ∷ [])
reorder_policy_layer_rules-lists_example =
    reorder_policy_layer_rules-lists digest other_header 4 (8 ∷ 7 ∷ []) store 2 rules-Distinct
      bob-resolves bob-owns swap-is_permutation

abbrev hers : Store
hers = record store {
  rules =
      (record { policy_layer_id = 4; rule = rule 7 0 })
      ∷ (record { policy_layer_id = 5; rule = rule 9 0 })
      ∷ [];
}

hers-layers :
    (l m : PolicyLayer)
    → Elem l hers.policy_layers
    → Elem m hers.policy_layers
    → l.id ≡ m.id
    → l ≡ m
hers-layers l m (inl e) (inl f) h = e ∙ sym f
hers-layers l m (inl e) (inr (inl f)) h =
    absurd (let k : 4 ≡ 5 = sym (ap (λ x. x.id) e) ∙ h ∙ ap (λ x. x.id) f in omega arith)
hers-layers l m (inr (inl e)) (inl f) h =
    absurd (let k : 5 ≡ 4 = sym (ap (λ x. x.id) e) ∙ h ∙ ap (λ x. x.id) f in omega arith)
hers-layers l m (inr (inl e)) (inr (inl f)) h = e ∙ sym f
hers-layers l m (inl e) (inr (inr f)) h = absurd f
hers-layers l m (inr (inl e)) (inr (inr f)) h = absurd f
hers-layers l m (inr (inr e)) f h = absurd e

hers-rules : (x y : RuleRow) → Elem x hers.rules → Elem y hers.rules → x.rule.id ≡ y.rule.id → x ≡ y
hers-rules x y (inl e) (inl f) h = e ∙ sym f
hers-rules x y (inl e) (inr (inl f)) h =
    absurd (let k : 7 ≡ 9 = sym (ap (λ r. r.rule.id) e) ∙ h ∙ ap (λ r. r.rule.id) f in omega arith)
hers-rules x y (inr (inl e)) (inl f) h =
    absurd (let k : 9 ≡ 7 = sym (ap (λ r. r.rule.id) e) ∙ h ∙ ap (λ r. r.rule.id) f in omega arith)
hers-rules x y (inr (inl e)) (inr (inl f)) h = e ∙ sym f
hers-rules x y (inl e) (inr (inr f)) h = absurd f
hers-rules x y (inr (inl e)) (inr (inr f)) h = absurd f
hers-rules x y (inr (inr e)) f h = absurd e

hers-IsKeyed : Spared.IsKeyed hers
hers-IsKeyed = record { layers = hers-layers; rules = hers-rules }

abbrev patch : RuleUpdate
patch = record {
  positional_constraints = unset;
  option_constraints = unset;
  cwd = unset;
  tier = set_to "deny";
}

abbrev is_regex : String → Bool
is_regex s = true

updated_run :
    rules_of 4 (serve is_regex digest other_header (update_rule 4 7 patch) hers).rules
    ≡ record (rule 7 0) { tier = "deny" } ∷ []
unfolding serve update_policy_layer_rule revalidated is_valid_rule is_valid_pattern fits signed_in
    resolve_user_id bearer remove_prefix lstrip rstrip user_owns_policy_layer_rule
    user_owns_policy_layer exists first update select
updated_run = refl

one_is_not_two : (let one : ℕ = 1 in one ≢ 2)
one_is_not_two h = absurd (omega (arith, h))

serve-isolates_example :
    rules_of 5 (serve is_regex digest other_header (update_rule 4 7 patch) hers).rules
    ≡ rules_of 5 hers.rules
unfolding user_owns_policy_layer resolve_user_id
serve-isolates_example =
    serve-isolates is_regex digest other_header 1 2 5 hers hers-IsKeyed one_is_not_two ann-owns
      bob-resolves (update_rule 4 7 patch)

abbrev decode : List ℕ → Option (List ℕ)
decode s = some s

abbrev encode : List ℕ → List ℕ
encode s = s

disk_after-IsWithinCap_example :
    IsWithinCap (disk_after decode encode (upload 1 (codes "a") (1 ∷ 2 ∷ []) 5 ∷ []))
disk_after-IsWithinCap_example =
    disk_after-IsWithinCap decode encode (upload 1 (codes "a") (1 ∷ 2 ∷ []) 5 ∷ [])

note_stored :
    (upload_storage decode encode 1 (codes "a") (1 ∷ 2 ∷ []) 5 []).0
    ≡ stored (record { filename = codes "a"; size = 2; uploaded_at = 5 })
unfolding upload_storage safe_filename basename lstrip rstrip store_data total_bytes exists first
note_stored = refl

upload_storage-download_storage_example :
    download_storage decode encode 1
      (codes "a")
      (upload_storage decode encode 1 (codes "a") (1 ∷ 2 ∷ []) 5 []).1
    ≡ stored (1 ∷ 2 ∷ [])
upload_storage-download_storage_example =
    upload_storage-download_storage decode encode 1 (codes "a") (1 ∷ 2 ∷ []) 5 []
      (record { filename = codes "a"; size = 2; uploaded_at = 5 }) refl note_stored

passwd : safe_filename (codes "../etc/passwd") ≡ some (codes "passwd")
unfolding safe_filename basename lstrip rstrip exists
passwd = refl

safe_filename-flat_example :
    (is_nil (codes "passwd") ≡ false)
    × (exists (λ d. d == b'/') (codes "passwd") ≡ false)
    × (is_dots (codes "passwd") ≡ false)
safe_filename-flat_example = safe_filename-flat (codes "../etc/passwd") (codes "passwd") passwd

abbrev entry : CodeEntry
entry = record { secret = "b"; expires = 900; approval = none }

abbrev waiting : Pairing
waiting = record { pairing_codes = ("code", entry) ∷ []; pair_tokens = [] }

waiting-get : get "code" waiting.pairing_codes ≡ some entry
unfolding get
waiting-get = refl

pairing_works_once_example :
    (p1 p2 p3 : Pairing) × (pairing_approve digest 10 2 "bob" "code" (65 ∷ []) waiting
      ≡ (approved, p1))
    × (pairing_status digest 11 "code" (66 ∷ []) p1 ≡ (token_for (65 ∷ []) "bob", p2))
    × (paired_user digest 12 header none p2 ≡ (some 2, p3))
    × ((pairing_status digest 13 "code" (66 ∷ []) p3).0 ≡ no_such_code)
    × ((paired_user digest 14 header none p3).0 ≡ none)
pairing_works_once_example =
    pairing_works_once digest 2 "bob" "code" (65 ∷ []) (66 ∷ []) header entry 10 11 12 13 14
      (66 ∷ []) waiting waiting-get refl header-bearer (omega arith) (omega arith) (omega arith)
      (omega arith)
