-- ===== src/Mirroring/Examples.antt =====
-- A Mac that holds one folder of a friend.
use doc_chat_template_scc.Common.{
  ◌≡◌, refl, inl, true, false, ◌&&◌, none, some, [], ◌∷◌, show_nat, ◌==◌, first, select,
}
use doc_chat_template_scc.Common.Int.{pos}
use doc_chat_template_scc.Common.Rows.{Elem}
use doc_chat_template_scc.Trust.Data.{Db, Tuple, grant, GrantRelation, WriteTier, is_active}
use doc_chat_template_scc.Trust.Users.{username}
use doc_chat_template_scc.Mirroring.{
  FolderStatus, Target, Role, Store, Held, quota_of, desired_state,
}
use doc_chat_template_scc.Mirroring.Granted.{is_here, desired_state-granted}

abbrev space_grant : Tuple
space_grant = record {
  id = 3;
  subject_id = 2;
  edge = grant GrantRelation.mirror_peer (record {
    owner_user_id = 1;
    quota_bytes = pos 100;
    write_tier = WriteTier.allow;
    offering_id = 1;
    invite_id = none;
  });
  object_id = 9;
  created_at = 5;
  revoked_at = none;
}

abbrev trust_db : Db
trust_db = record {
  users = (record { id = 2; username = "bob" }) ∷ [];
  pairings = [];
  user_hosts = [];
  tuples = space_grant ∷ [];
  tuple_seq = 3;
  friend_requests = [];
  friend_request_seq = 0;
  offerings = [];
  offering_seq = 0;
  access_requests = [];
  access_request_seq = 0;
  invites = [];
  invite_seq = 0;
  groups = [];
  group_seq = 0;
}

abbrev photos_target : Target
photos_target = record {
  folder_id = "casper-1";
  role = Role.mirror;
  grant_id = 3;
  peer_owner_user_id = 1;
  peer_host_id = 9;
  removed_at = none;
}

abbrev photos_store : Store
photos_store = record {
  trust = trust_db;
  hosts = (record { id = 8; routing_key = "key8"; hostname = some "mac8" }) ∷ [];
  devices = (record { routing_key = "key8"; device_id = "DEV8"; addresses = [] }) ∷ [];
  folders =
      (record {
        id = "casper-1";
        owner_user_id = 2;
        owner_host_id = 8;
        path = "/photos";
        label = "photos";
        status = FolderStatus.active;
        use_casper_catcher = false;
        restore_host_id = none;
        restore_path = none;
      })
      ∷ [];
  targets = photos_target ∷ [];
}

abbrev photos_held : Held
photos_held = record {
  folder_id = "casper-1";
  label = "bob: photos";
  owner_devices = "DEV8" ∷ [];
  kind = Role.mirror;
  quota_bytes = pos 100;
}

held_test : Elem photos_held (desired_state show_nat none [] photos_store 1 9).held
unfolding desired_state first select username
held_test = inl refl

desired_state-granted_example :
    (t : Target) × (rt : Tuple) × Elem t photos_store.targets
    × Elem rt photos_store.trust.tuples
    × (is_here 1 9 t ≡ true)
    × ((rt.id == t.grant_id && is_active rt) ≡ true)
    × ("casper-1" ≡ t.folder_id)
    × (Role.mirror ≡ t.role)
    × (pos 100 ≡ quota_of rt.edge)
desired_state-granted_example =
    desired_state-granted show_nat none [] photos_store 1 9 photos_held held_test
