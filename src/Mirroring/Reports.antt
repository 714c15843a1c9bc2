-- ===== src/Mirroring/Reports.antt =====
-- The reports of protection, and the creation of folders: casper_service/mirroring.py, its ends.
-- A report is the part of the JSON text that the code reads; times are seconds.
use doc_chat_template_scc.Common.{
  ℕ, ◌+◌, ◌*◌, Bool, true, false, not, ◌&&◌, Option, none, some, List, [], ◌∷◌, ◌++◌, String,
  str_eq, if◌then◌else◌, ◌==◌, ltb, is_none, exists, first, update,
}
use doc_chat_template_scc.Trust.Grants.{Grant}
use doc_chat_template_scc.Mirroring.{
  Store, Target, Folder, FolderStatus, awaiting_consent, active, Role, mirror, catcher,
  active_targets,
}

pub record Report : Type 0 where
  pub folder_id : String
  pub local_bytes : ℕ
  pub unprotected_files : ℕ
  pub unprotected_oldest_unix : ℕ

-- a row of `mirror_status`
pub record Status : Type 0 where
  pub folder_id : String
  pub status : Report
  pub updated_at : ℕ
  pub nudged_at : Option ℕ

pub record Nudge : Type 0 where
  pub folder : Folder
  pub status : Report

abbrev pub nudge_after_seconds : ℕ
nudge_after_seconds = 6 * 3600

abbrev pub nudge_every_seconds : ℕ
nudge_every_seconds = 12 * 3600

unfoldable pub folder_row : Store → String → Option Folder
folder_row db folder_id = first (λ (f : Folder). str_eq f.id folder_id) db.folders

unfoldable pub peers_of : Store → String → List Target
peers_of db folder_id = active_targets db folder_id

abbrev pub status_row : String → List Status → Option Status
status_row folder_id rows = first (λ (r : Status). str_eq r.folder_id folder_id) rows

-- `INSERT … ON CONFLICT(folder_id) DO UPDATE`
unfoldable pub upsert_status : ℕ → String → Report → List Status → List Status
upsert_status now folder_id st rows =
    if exists (λ (r : Status). str_eq r.folder_id folder_id) rows
    then update (λ (r : Status). str_eq r.folder_id folder_id)
        (λ r. record r { status = st; updated_at = now }) rows
    else rows
      ++ (record { folder_id = folder_id; status = st; updated_at = now; nudged_at = none }) ∷ []

abbrev pub last_nudge : Option Status → Option ℕ
last_nudge none = none
last_nudge (some r) = r.nudged_at

-- `not last or time.time() - last > NUDGE_EVERY_SECONDS`
abbrev pub nudge_due : ℕ → Option ℕ → Bool
nudge_due now none = true
nudge_due now (some last) = ltb (last + nudge_every_seconds) now

-- whether a report asks for a nudge, with the row as it was before
unfoldable pub needs_nudge : ℕ → Report → Option Status → Bool
needs_nudge now st prev =
    not (st.unprotected_files == 0)
    && not (st.unprotected_oldest_unix == 0)
    && ltb (st.unprotected_oldest_unix + nudge_after_seconds) now
    && nudge_due now (last_nudge prev)

-- one round of the loop, for a folder of the user
unfoldable pub store_report : ℕ → Folder → Report → List Status → List Status
unfolding upsert_status needs_nudge
store_report now f st rows =
    let saved = upsert_status now f.id st rows in
    if needs_nudge now st (status_row f.id rows)
    then update (λ (r : Status). str_eq r.folder_id f.id) (λ r. record r { nudged_at = some now })
        saved
    else saved

-- `f is None or f["owner_user_id"] != user_id`
abbrev pub own_folder : ℕ → Option Folder → Option Folder
own_folder user_id none = none
own_folder user_id (some f) = if f.owner_user_id == user_id then some f else none

abbrev pub add_nudge : Bool → Folder → Report → List Nudge → List Nudge
add_nudge true f st rest = (record { folder = f; status = st }) ∷ rest
add_nudge false f st rest = rest

unfoldable pub store_status : Store → ℕ → ℕ → List Report → List Status → List Nudge × List Status
unfolding store_report folder_row
store_status db now user_id [] rows = ([], rows)
store_status db now user_id (st ∷ sts) rows =
    elim (own_folder user_id (folder_row db st.folder_id)) [
      | none ↦ store_status db now user_id sts rows
      | some f ↦
          let (rest, after) = store_status db now user_id sts (store_report now f st rows) in
          (add_nudge (needs_nudge now st (status_row f.id rows)) f st rest, after)
    ]

unfoldable pub latest_status : String → List Status → Option (Report × ℕ)
latest_status folder_id rows = elim (status_row folder_id rows) [
  | none ↦ none
  | some r ↦ some (r.status, r.updated_at)
]

-- `status IN ('active', 'awaiting_consent')`
abbrev pub is_open_folder : FolderStatus → Bool
is_open_folder awaiting_consent = true
is_open_folder active = true
is_open_folder FolderStatus.declined = false
is_open_folder FolderStatus.stopped = false

abbrev pub bytes_of : Option Status → Option Folder → ℕ
bytes_of none f = 0
bytes_of (some r) none = 0
bytes_of (some r) (some f) = if is_open_folder f.status then r.status.local_bytes else 0

-- `used_bytes`, with `excluding or ""`; the sum over the targets of a grant
unfoldable pub used_bytes : Store → List Status → ℕ → String → List Target → ℕ
unfolding folder_row
used_bytes db rows grant_id excluding [] = 0
used_bytes db rows grant_id excluding (t ∷ ts) =
    let rest = used_bytes db rows grant_id excluding ts in
    if t.grant_id == grant_id && is_none t.removed_at && not (str_eq t.folder_id excluding)
    then bytes_of (status_row t.folder_id rows) (folder_row db t.folder_id) + rest
    else rest

abbrev pub new_target : String → Role → Grant → Target
new_target folder role g = record {
  folder_id = folder;
  role = role;
  grant_id = g.id;
  peer_owner_user_id = g.owner_user_id;
  peer_host_id = g.host_id;
  removed_at = none;
}

unfoldable pub mirror_targets : String → List Grant → List Target
mirror_targets folder [] = []
mirror_targets folder (g ∷ gs) = new_target folder mirror g ∷ mirror_targets folder gs

abbrev pub catcher_targets : String → Option Grant → List Target
catcher_targets folder none = []
catcher_targets folder (some g) = new_target folder catcher g ∷ []

-- `create_folder`, with the id that the source draws as an argument
unfoldable pub create_folder :
    String → ℕ → ℕ → String → String → List Grant → Option Grant → Bool → Store → Store
unfolding mirror_targets
create_folder folder user host where_ label mirrors catch use_it db = record db {
  folders =
      db.folders
      ++ (record {
        id = folder;
        owner_user_id = user;
        owner_host_id = host;
        path = where_;
        label = label;
        status = awaiting_consent;
        use_casper_catcher = use_it;
        restore_host_id = none;
        restore_path = none;
      })
        ∷ [];
  targets = db.targets ++ (mirror_targets folder mirrors ++ catcher_targets folder catch);
}
