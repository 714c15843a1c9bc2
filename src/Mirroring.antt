-- ===== src/Mirroring.antt =====
-- casper_service/mirroring.py: what each Mac mirrors and holds, and the reports of protection.
-- The tables are those of Trust with the tables of mirroring. The `grant_id` of a target is that of
-- a grant. `catcher_device` stands for Casper's own catcher, which is asked over HTTP, and `relays`
-- for the addresses that the environment gives.
pub mod Reports
pub mod Granted
mod Examples
use Prim.Native.String
use doc_chat_template_scc.Common.{
  ℕ, ◌+◌, ◌*◌, Bool, true, false, not, ◌&&◌, ◌||◌, Option, none, some, List, [], ◌∷◌, ◌++◌, map,
  String, str_eq, if◌then◌else◌, ◌==◌, ltb, is_none, is_num, is_empty, select, exists, first,
  update,
}
use doc_chat_template_scc.Common.Int.{ℤ, pos}
use doc_chat_template_scc.Trust.Data.{Db, Tuple, Edge, friend, member, grant, is_active}
use doc_chat_template_scc.Trust.Users.{username}

pub record Host : Type 0 where
  pub id : ℕ
  pub routing_key : String
  pub hostname : Option String

pub record MirrorDevice : Type 0 where
  pub routing_key : String
  pub device_id : String
  pub addresses : List String

pub data FolderStatus : Type 0 where
  awaiting_consent active declined stopped : FolderStatus

pub data Role : Type 0 where
  mirror catcher : Role

pub record Folder : Type 0 where
  pub id : String
  pub owner_user_id : ℕ
  pub owner_host_id : ℕ
  pub path : String
  pub label : String
  pub status : FolderStatus
  pub use_casper_catcher : Bool
  pub restore_host_id : Option ℕ
  pub restore_path : Option String

pub record Target : Type 0 where
  pub folder_id : String
  pub role : Role
  pub grant_id : ℕ
  pub peer_owner_user_id : ℕ
  pub peer_host_id : ℕ
  pub removed_at : Option ℕ

pub record Store : Type 0 where
  pub trust : Db
  pub hosts : List Host
  pub devices : List MirrorDevice
  pub folders : List Folder
  pub targets : List Target

-- a peer as the daemons know it
pub record Device : Type 0 where
  pub device_id : String
  pub addresses : List String
  pub name : String

abbrev pub is_active_folder : Folder → Bool
is_active_folder f = elim f.status [
  | awaiting_consent ↦ false
  | active ↦ true
  | declined ↦ false
  | stopped ↦ false
]

-- `row["hostname"] or f"host{host_id}"`
abbrev pub host_name : (ℕ → String) → ℕ → Option String → String
host_name show host_id none = String.◌++◌ "host" (show host_id)
host_name show host_id (some name) =
    if is_empty name then String.◌++◌ "host" (show host_id) else name

-- `_device_for_host`, its JOIN of a host and its device
pub device_of : (ℕ → String) → Store → ℕ → Option Host → Option Device
device_of show db host_id none = none
device_of show db host_id (some h) =
    elim (first (λ (d : MirrorDevice). str_eq d.routing_key h.routing_key) db.devices) [
      | none ↦ none
      | some d ↦ some (record {
        device_id = d.device_id;
        addresses = d.addresses;
        name = host_name show host_id h.hostname;
      })
    ]

abbrev pub add_device : Option Device → List Device → List Device
add_device none ds = ds
add_device (some d) ds = d ∷ ds

-- the tuple that a target's `grant_id` refers to, if it is active
abbrev pub active_tuple : Store → Target → Option Tuple
active_tuple db t = first (λ (rt : Tuple). rt.id == t.grant_id && is_active rt) db.trust.tuples

abbrev pub has_tuple : Option Tuple → Bool
has_tuple none = false
has_tuple (some rt) = true

-- `_active_targets`
unfoldable pub active_targets : Store → String → List Target
active_targets db folder_id =
    select
      (λ t. str_eq t.folder_id folder_id && is_none t.removed_at && has_tuple (active_tuple db t))
      db.targets

-- `add_peer`: the first device with an id stays
unfoldable pub add_peer : Device → List Device → List Device
add_peer dev peers =
    if exists (λ p. str_eq p.device_id dev.device_id) peers then peers else peers ++ dev ∷ []

pub record Owned : Type 0 where
  pub folder_id : String
  pub label : String
  pub path : Option String
  pub mirrors : List String
  pub catcher : String
  pub restore : Bool

pub record Held : Type 0 where
  pub folder_id : String
  pub label : String
  pub owner_devices : List String
  pub kind : Role
  pub quota_bytes : ℤ

-- what the loop over a folder's targets gathers
pub record Gathered : Type 0 where
  pub mirrors : List String
  pub catcher : String
  pub peers : List Device

unfoldable pub add_target : Role → Option Device → Gathered → Gathered
unfolding add_peer
add_target role none g = g
add_target mirror (some dev) g = record g {
  mirrors = g.mirrors ++ dev.device_id ∷ [];
  peers = add_peer dev g.peers;
}
add_target catcher (some dev) g = record g { catcher = dev.device_id; peers = add_peer dev g.peers }

-- Casper's own catcher, for a folder that uses it and has no other
unfoldable pub use_catcher : Option Device → Bool → Gathered → Gathered
unfolding add_peer
use_catcher none wanted g = g
use_catcher (some cd) wanted g =
    if is_empty g.catcher && wanted
    then record g { catcher = cd.device_id; peers = add_peer cd g.peers }
    else g

abbrev pub quota_of : Edge → ℤ
quota_of (friend tag) = pos 0
quota_of (member tag) = pos 0
quota_of (grant relation attrs) = attrs.quota_bytes

-- a row of the JOIN of a target, its folder and its grant
pub record HeldRow : Type 0 where
  pub target : Target
  pub folder : Folder
  pub tuple : Tuple

abbrev pub join_row : Target → Option Folder → Option Tuple → List HeldRow → List HeldRow
join_row t none rt rest = rest
join_row t (some f) none rest = rest
join_row t (some f) (some rt) rest =
    if is_active_folder f then (record { target = t; folder = f; tuple = rt }) ∷ rest else rest

unfoldable pub held_rows : Store → ℕ → ℕ → List Target → List HeldRow
held_rows db user_id host_id [] = []
held_rows db user_id host_id (t ∷ ts) =
    let rest = held_rows db user_id host_id ts in
    if t.peer_host_id == host_id && t.peer_owner_user_id == user_id && is_none t.removed_at
    then join_row t (first (λ (f : Folder). str_eq f.id t.folder_id) db.folders) (active_tuple db t)
        rest
    else rest

abbrev pub add_peers : List Device → List Device → List Device
add_peers [] peers = peers
add_peers (d ∷ ds) peers = add_peers ds (add_peer d peers)

pub record Desired : Type 0 where
  pub peers : List Device
  pub owned : List Owned
  pub held : List Held
  pub relays : List String

abbrev pub ids : List Device → List String
ids ds = map (λ (d : Device). d.device_id) ds

abbrev pub owns_here : ℕ → ℕ → Folder → Bool
owns_here user_id host_id f =
    f.owner_user_id == user_id
    && is_active_folder f
    && (f.owner_host_id == host_id || is_num host_id f.restore_host_id)

module _ (show : ℕ → String) (catcher_device : Option Device) (relay_list : List String) where
  -- `_device_for_host`
  unfoldable pub device_for_host : Store → ℕ → Option Device
  unfolding device_of
  device_for_host db host_id =
      device_of show db host_id (first (λ (h : Host). h.id == host_id) db.hosts)

  abbrev pub device_for_host? : Store → Option ℕ → Option Device
  device_for_host? db none = none
  device_for_host? db (some host_id) = device_for_host db host_id

  unfoldable pub gather : Store → List Target → Gathered → Gathered
  unfolding add_target device_for_host
  gather db [] g = g
  gather db (t ∷ ts) g = gather db ts (add_target t.role (device_for_host db t.peer_host_id) g)

  -- one round of the loop over the folders that are mirrored out
  unfoldable pub gather_folder : Store → Folder → List Device → Gathered
  unfolding gather use_catcher
  gather_folder db f peers =
      use_catcher catcher_device f.use_casper_catcher
        (gather db (active_targets db f.id) (record { mirrors = []; catcher = ""; peers = peers }))

  unfoldable pub owned_folder : ℕ → Folder → Gathered → Owned
  owned_folder host_id f g =
      let restoring = is_num host_id f.restore_host_id && not (f.owner_host_id == host_id) in
      record {
        folder_id = f.id;
        label = f.label;
        path = if restoring then f.restore_path else some f.path;
        mirrors = g.mirrors;
        catcher = g.catcher;
        restore = restoring;
      }

  unfoldable pub own : Store → ℕ → List Folder → List Device → List Owned × List Device
  unfolding gather_folder owned_folder
  own db host_id [] peers = ([], peers)
  own db host_id (f ∷ fs) peers =
      let g = gather_folder db f peers in
      let (rest, all) = own db host_id fs g.peers in (owned_folder host_id f g ∷ rest, all)

  -- the devices of the Macs that a held folder comes from
  unfoldable pub owner_devices_of : Store → Folder → List Device
  unfolding device_for_host
  owner_devices_of db f =
      add_device (device_for_host db f.owner_host_id)
        (add_device (device_for_host? db f.restore_host_id) [])

  unfoldable pub held_folder : Store → HeldRow → List Device → Held
  held_folder db row devs = record {
    folder_id = row.target.folder_id;
    label =
        String.◌++◌ (username db.trust row.folder.owner_user_id)
          (String.◌++◌ ": " row.folder.label);
    owner_devices = ids devs;
    kind = row.target.role;
    quota_bytes = quota_of row.tuple.edge;
  }

  abbrev pub add_held : Store → HeldRow → List Device → List Held → List Held
  add_held db row [] rest = rest
  add_held db row (d ∷ ds) rest = held_folder db row (d ∷ ds) ∷ rest

  unfoldable pub hold : Store → List HeldRow → List Device → List Held × List Device
  unfolding held_folder owner_devices_of
  hold db [] peers = ([], peers)
  hold db (row ∷ rows) peers =
      let devs = owner_devices_of db row.folder in
      let (rest, all) = hold db rows (add_peers devs peers) in (add_held db row devs rest, all)

  -- `desired_state`
  unfoldable pub desired_state : Store → ℕ → ℕ → Desired
  unfolding own hold held_rows
  desired_state db user_id host_id =
      let (owned_list, peers) = own db host_id (select (owns_here user_id host_id) db.folders) [] in
      let (held_list, all) = hold db (held_rows db user_id host_id db.targets) peers in
      record { peers = all; owned = owned_list; held = held_list; relays = relay_list }
