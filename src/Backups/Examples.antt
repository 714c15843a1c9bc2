-- ===== src/Backups/Examples.antt =====
-- A backup of two chunks between two daemons that agree to everything, and what the theorems say of it.
use doc_chat_template_scc.Common.{
  ℕ, suc, ◌≡◌, refl, ap, true, none, some, List, [], ◌∷◌, ◌++◌, first, arith, inl, inr, ◌≢◌,
}
use doc_chat_template_scc.Trust.Data.{Db}
use doc_chat_template_scc.Backups.Data.{
  Config, Payload, empty_payload, Answer, answered, Status, awaiting_approval, transferring,
  complete, blank, no_restore, Backup, Event, slept, Deps, World, ok, no_such_backup,
}
use doc_chat_template_scc.Backups.Resolve.{row}
use doc_chat_template_scc.Backups.Transfer.{transfer}
use doc_chat_template_scc.Backups.Push.{no_longer_waiting, decide_write}
use doc_chat_template_scc.Backups.Manage.{status_of, cannot_show, cannot_restore, cannot_delete}
use doc_chat_template_scc.Backups.Restore.{restore, delete}
use doc_chat_template_scc.Backups.Deciding.{decide_write-decide_write}
use doc_chat_template_scc.Backups.Runs.{Ends}
use doc_chat_template_scc.Backups.Termination.{Ticks, transfer-Ends}
use doc_chat_template_scc.Backups.Ownership.{
  IsNotOwn, IsSafeDelete, own_row-isolates, delete-IsSafeDelete,
}

abbrev daemon_at : Config
daemon_at = record { url = "http://host"; api_key = "key"; label = "" }

abbrev ready : Payload
ready = record empty_payload {
  state = some "ready";
  chunk_count = some 2;
  total_bytes = some 20;
  manifest = some "m";
  signature = some "s";
  content = some "bytes";
}

abbrev yes : Answer
yes = record { success = true; tier = some "allow"; stderr = none; payload = ready }

abbrev count : List Event → ℕ
count [] = 0
count (e ∷ es) = suc (count es)

abbrev agreeing : Deps
agreeing = record {
  host_config = λ es user_id host_id. some daemon_at;
  own_configs = λ es user_id. [];
  daemon = λ es c a. answered yes;
  clock = count;
}

count-append : (es : List Event) (e : Event) → count (es ++ e ∷ []) ≡ suc (count es)
count-append [] e = refl
count-append (d ∷ es) e = ap suc (count-append es e)

count-Ticks : Ticks count
count-Ticks = record {
  mono = λ es e. let h = count-append es e in omega arith;
  sleeps = λ es. let h = count-append es slept in omega arith;
}

abbrev one_user : Db
one_user = record {
  users = (record { id = 1; username = "ann" }) ∷ [];
  pairings = [];
  user_hosts = [];
  tuples = [];
  tuple_seq = 0;
  friend_requests = [];
  friend_request_seq = 0;
  offerings = [];
  offering_seq = 0;
  access_requests = [];
  access_request_seq = 0;
  invites = [];
  invite_seq = 0;
  groups = [];
  group_seq = 0;
}

abbrev photos : Status → Backup
photos s = record {
  id = "b1";
  owner_user_id = 1;
  name = "photos";
  source_host_id = 5;
  dest_host_id = 6;
  dest_owner_user_id = 2;
  status = s;
  plaintext_bytes = 15;
  total_bytes = 0;
  chunk_count = 0;
  chunks_done = 0;
  error = blank;
  restore_status = no_restore;
  restore_detail = blank;
  created_at = 0;
  completed_at = none;
}

abbrev with_photos : Status → World
with_photos s = record { db = one_user; backups = photos s ∷ []; events = [] }

with_photos-row : (s : Status) → row (with_photos s) "b1" ≡ some (photos s)
unfolding row first
with_photos-row s = refl

transfer-Ends_example : Ends (transfer agreeing 3602 "b1" true (with_photos transferring)).0
transfer-Ends_example =
    transfer-Ends agreeing count-Ticks 3602 (omega arith) "b1" true (with_photos transferring)

decide_write-decide_write_example :
    decide_write agreeing "b1" "deny"
      (decide_write agreeing "b1" "allow" (with_photos awaiting_approval)).1
    ≡ (ok no_longer_waiting, (decide_write agreeing "b1" "allow" (with_photos awaiting_approval)).1)
decide_write-decide_write_example =
    decide_write-decide_write agreeing "b1" "allow" "deny" (with_photos awaiting_approval)

one_is_not_two : (let one : ℕ = 1 in one ≢ 2)
one_is_not_two h = absurd (omega (arith, h))

anothers_photos : IsNotOwn 2 "b1" (with_photos complete)
unfolding row first
anothers_photos = inr (photos complete, refl, inl one_is_not_two)

own_row-isolates_example :
    (status_of 2 "b1" (with_photos complete)
      ≡ (ok (cannot_show (no_such_backup "b1")), with_photos complete))
    × (restore agreeing 2 "b1" "home" (with_photos complete)
        ≡ (ok (cannot_restore (no_such_backup "b1")), with_photos complete))
    × (delete agreeing 2 "b1" (with_photos complete)
        ≡ (ok (cannot_delete (no_such_backup "b1")), with_photos complete))
own_row-isolates_example =
    own_row-isolates agreeing 2 "b1" "home" (with_photos complete) anothers_photos

delete-IsSafeDelete_example :
    IsSafeDelete agreeing 1 "b1"
      (photos complete)
      (with_photos complete)
      (delete agreeing 1 "b1" (with_photos complete)).1
delete-IsSafeDelete_example =
    delete-IsSafeDelete agreeing 1 "b1" (photos complete) (with_photos complete)
      (with_photos-row complete) refl

abbrev after_deletion : World
after_deletion = (delete agreeing 1 "b1" (with_photos complete)).1
