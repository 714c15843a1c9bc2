-- ===== src/Service/HostExamples.antt =====
-- Two users of one host, one of whom has an approval to decide: what the theorems on hosts and on
-- approvals say of them. Tokens and digests are as simple as can be.
use doc_chat_template_scc.Common.{
  ℕ, ◌≡◌, ◌≢◌, refl, true, false, Option, none, some, List, [], ◌∷◌, String, codes, ◌==◌, first,
  exists, arith,
}
use doc_chat_template_scc.Trust.Invites.{lstrip, rstrip}
use doc_chat_template_scc.Service.Data.{HostRow, Store, returned}
use doc_chat_template_scc.Service.Accounts.{remove_prefix, bearer, resolve_user_id}
use doc_chat_template_scc.Service.Layers.{user_owns_host}
use doc_chat_template_scc.Service.Hosts.{is_pairing, Paired, pair_host_for, forget_host}
use doc_chat_template_scc.Service.Pairings.{pairing_row, pair_host_for-pair_host_for}
use doc_chat_template_scc.Common.Rows.{Elem}
use doc_chat_template_scc.Common.{sym, ap, inl, inr, ◌∙◌}
use doc_chat_template_scc.Service.Forgetting.{
  in_environment_of_others, in_environment, is_paired_to, forget_host-forgets,
}
use doc_chat_template_scc.Service.Approvals.{
  PendingApproval, Desk, has_approval_id, is_own_approval, unknown_approval,
  resume_pending_approval, decide_pending_approval,
}
use doc_chat_template_scc.Service.Decisions.{
  decide_pending_approval-decide_pending_approval, decide_pending_approval-isolates,
}

abbrev digest : List ℕ → String
digest s = "h"

abbrev header : List ℕ
header = codes "Bearer A"

abbrev shared : Store
shared = record {
  accounts =
      (record {
        id = 1;
        username = "ann";
        password_hash = "";
        token_hash = some "h";
        token_created_at = none;
      })
      ∷ (record {
        id = 2;
        username = "bob";
        password_hash = "";
        token_hash = none;
        token_created_at = none;
      })
      ∷ [];
  account_seq = 2;
  hosts = (record { id = 3; routing_key = "key"; hostname = some "mini" }) ∷ [];
  host_seq = 3;
  user_hosts =
      (record { user_id = 1; host_id = 3; label = "mine" })
      ∷ (record { user_id = 2; host_id = 3; label = "hers" })
      ∷ [];
  host_pairings =
      (record {
        routing_key = "key";
        user_id = 1;
        host_id = 3;
        device_token_hash = "d";
        command_key = "c";
      })
      ∷ (record {
        routing_key = "key";
        user_id = 2;
        host_id = 3;
        device_token_hash = "e";
        command_key = "f";
      })
      ∷ [];
  policy_layers = [];
  policy_layer_seq = 0;
  layer_hosts = [];
  rules = [];
  rule_seq = 0;
  environments =
      (record { id = 6; user_id = 1; name = "Default" })
      ∷ (record { id = 7; user_id = 2; name = "Default" })
      ∷ [];
  environment_seq = 7;
  environment_hosts =
      (record { environment_id = 6; host_id = 3 })
      ∷ (record { environment_id = 7; host_id = 3 })
      ∷ [];
}

pair_host_for-pair_host_for_example :
    (r : Paired) × (db' : Store) × (db'' : Store) × (pair_host_for 1 "key" none none "d1" "c1"
        shared
      ≡ returned (r, db'))
    × (pair_host_for 1 "key" (some "studio") (some "other") "d2" "c2" db'
        ≡ returned (record { host_id = r.host_id; label = r.label; is_new = false }, db''))
    × (first (is_pairing "key" 1) db'.host_pairings
        ≡ some (pairing_row 1 "key" r.host_id "d1" "c1"))
    × (first (is_pairing "key" 1) db''.host_pairings
        ≡ some (pairing_row 1 "key" r.host_id "d2" "c2"))
pair_host_for-pair_host_for_example =
    pair_host_for-pair_host_for 1 "key" none (some "studio") none (some "other") "d1" "d2" "c1" "c2"
      shared

ann-resolves : resolve_user_id digest header shared ≡ some 1
unfolding resolve_user_id bearer remove_prefix lstrip rstrip first
ann-resolves = refl

ann-owns : user_owns_host 1 3 shared ≡ true
unfolding user_owns_host exists
ann-owns = refl

two_is_not_one : (let two : ℕ = 2 in two ≢ 1)
two_is_not_one h = absurd (omega (arith, h))

forget_host-forgets_example :
    (db' : Store) × (forget_host digest header 3 shared ≡ returned (tt, db'))
    × (user_owns_host 1 3 db' ≡ false)
    × (is_paired_to 1 (first (λ (h : HostRow). h.id == 3) shared.hosts) db' ≡ false)
    × (exists (in_environment 1 3 db') db'.environment_hosts ≡ false)
    × (user_owns_host 2 3 db' ≡ user_owns_host 2 3 shared)
    × (exists (is_pairing "key" 2) db'.host_pairings
        ≡ exists (is_pairing "key" 2) shared.host_pairings)
    × (exists (in_environment_of_others 1 7 3 db') db'.environment_hosts
        ≡ exists (in_environment_of_others 1 7 3 shared) shared.environment_hosts)
forget_host-forgets_example =
    forget_host-forgets digest header 3 shared 1 2 3 "key" 7 ann-resolves ann-owns two_is_not_one

abbrev approval : PendingApproval
approval = record {
  id = "p1";
  user_id = 1;
  description = "";
  kind = "note";
  content = "hello";
  requester_user_id = some 2;
}

-- the state that decisions act on is the last decision
abbrev desk : Desk String
desk = record { store = shared; approvals = approval ∷ []; rest = "" }

abbrev handlers : String → Option (PendingApproval → String → String → String × String)
handlers kind = some (λ a decision last. (a.content, decision))

abbrev converse : PendingApproval → String → String → (String × String) × List PendingApproval
converse a decision last = (("", decision), [])

desk-first : first (is_own_approval 1 "p1") desk.approvals ≡ some approval
unfolding first
desk-first = refl

converse-fresh : exists (has_approval_id "p1") (converse approval "allow" "").1 ≡ false
unfolding exists
converse-fresh = refl

decide_pending_approval-decide_pending_approval_example :
    (d' : Desk String) × (decide_pending_approval handlers converse digest header "p1" "allow" desk
      ≡ resume_pending_approval handlers converse digest approval "allow" desk)
    × ((resume_pending_approval handlers converse digest approval "allow" desk).1 ≡ d')
    × (decide_pending_approval handlers converse digest header "p1" "deny" d'
        ≡ (unknown_approval, d'))
decide_pending_approval-decide_pending_approval_example =
    decide_pending_approval-decide_pending_approval handlers converse digest header header "p1"
      "allow" "deny" desk 1 1 approval ann-resolves ann-resolves desk-first converse-fresh

abbrev anothers : Desk String
anothers = record desk { approvals = record approval { user_id = 2 } ∷ [] }

anothers-apart :
    (a : PendingApproval)
    → Elem a anothers.approvals
    → a.id ≡ "p1"
    → (let one : ℕ = 1 in a.user_id ≢ one)
anothers-apart a (inl e) h k = two_is_not_one (sym (ap (λ (x : PendingApproval). x.user_id) e) ∙ k)
anothers-apart a (inr m) h k = absurd m

decide_pending_approval-isolates_example :
    decide_pending_approval handlers converse digest header "p1" "allow" anothers
    ≡ (unknown_approval, anothers)
decide_pending_approval-isolates_example =
    decide_pending_approval-isolates handlers converse digest header "p1" "allow" anothers 1
      ann-resolves anothers-apart
