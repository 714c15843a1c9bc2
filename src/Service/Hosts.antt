-- ===== src/Service/Hosts.antt =====
-- casper_service/main.py: pairing a host, and a user's list of hosts.
-- The device's token is given by its digest; it and the command key are drawn.
use doc_chat_template_scc.Common.{
  ℕ, suc, Bool, true, false, not, ◌&&◌, Option, none, some, List, [], ◌∷◌, ◌++◌, String,
  if◌then◌else◌, ◌==◌, is_empty, select, first, update, exists, str_eq,
}
use doc_chat_template_scc.Service.Data.{
  HostRow, HostOf, PairingRow, Environment, EnvironmentHost, Store, no_host, Request, ◌>>=◌, ◌>>◌,
  pure, gets, modify, raise_if,
}
use doc_chat_template_scc.Service.Accounts.{signed_in}
use doc_chat_template_scc.Service.Layers.{user_owns_host}

abbrev pub has_key : String → HostRow → Bool
has_key routing_key h = str_eq h.routing_key routing_key

abbrev pub of_user : ℕ → ℕ → HostOf → Bool
of_user user_id host_id h = h.user_id == user_id && h.host_id == host_id

abbrev pub is_pairing : String → ℕ → PairingRow → Bool
is_pairing routing_key user_id p = str_eq p.routing_key routing_key && p.user_id == user_id

abbrev pub insert_host : String → Option String → Store → Store
insert_host routing_key hostname db = record db {
  host_seq = suc db.host_seq;
  hosts =
      db.hosts
      ++ (record { id = suc db.host_seq; routing_key = routing_key; hostname = hostname }) ∷ [];
}

-- `if hostname: UPDATE hosts …`
abbrev pub set_hostname : ℕ → Option String → Store → Store
set_hostname host_id none db = db
set_hostname host_id (some name) db = if is_empty name then db else record db {
  hosts =
      update (λ (h : HostRow). h.id == host_id) (λ (h : HostRow). record h { hostname = some name })
        db.hosts;
}

-- the first statements of `_pair_host`: the id of the host with the key
abbrev pub host_with : String → Option String → Option HostRow → Request ℕ
host_with routing_key hostname none = do
  modify (insert_host routing_key hostname)
  gets (λ db. db.host_seq)
host_with routing_key hostname (some h) = modify (set_hostname h.id hostname) >> pure h.id

-- `requested_label or hostname or "Unnamed host"`
abbrev pub given : Option String → String → String
given none other = other
given (some s) other = if is_empty s then other else s

-- the label that the user has for the host, which is given now if there is none
abbrev pub label_host :
    ℕ → ℕ → Option String → Option String → Option HostOf → Request (String × Bool)
label_host user_id host_id hostname requested none =
    let label = given requested (given hostname "Unnamed host") in
    modify (λ db. record db {
      user_hosts =
          db.user_hosts ++ (record { user_id = user_id; host_id = host_id; label = label }) ∷ [];
    })
    >> pure (label, true)
label_host user_id host_id hostname requested (some h) = pure (h.label, false)

-- `INSERT INTO host_pairings … ON CONFLICT(routing_key, user_id) DO UPDATE`
unfoldable pub upsert_pairing : PairingRow → List PairingRow → List PairingRow
upsert_pairing p [] = p ∷ []
upsert_pairing p (q ∷ ps) =
    let rest = upsert_pairing p ps in
    if is_pairing p.routing_key p.user_id q then p ∷ ps else q ∷ rest

pub record Paired : Type 0 where
  pub host_id : ℕ
  pub label : String
  pub is_new : Bool

module _ (user_id : ℕ) (routing_key : String) (hostname requested : Option String)
    (device_token_hash command_key : String) where
  -- `_pair_host`, from the id of the host on
  unfoldable pub pair_row : ℕ → Request Paired
  unfolding upsert_pairing
  pair_row host_id = do
    existing ← gets (λ db. first (of_user user_id host_id) db.user_hosts)
    labelled ← label_host user_id host_id hostname requested existing
    modify λ db. record db {
      host_pairings =
          upsert_pairing
            (record {
              routing_key = routing_key;
              user_id = user_id;
              host_id = host_id;
              device_token_hash = device_token_hash;
              command_key = command_key;
            })
            db.host_pairings;
    }
    pure (record { host_id = host_id; label = labelled.0; is_new = labelled.1 })

  -- `_pair_host`
  unfoldable pub pair_host_for : Request Paired
  unfolding pair_row
  pair_host_for = do
    row ← gets (λ db. first (has_key routing_key) db.hosts)
    host_id ← host_with routing_key hostname row
    pair_row host_id

abbrev pub is_of_user : ℕ → Environment → Bool
is_of_user user_id e = e.user_id == user_id

module _ (hash_token : List ℕ → String) (authorization : List ℕ) where
  unfoldable pub rename_host : ℕ → String → Request Unit
  unfolding signed_in user_owns_host
  rename_host host_id label = do
    user_id ← signed_in hash_token authorization
    owned ← gets (user_owns_host user_id host_id)
    raise_if (not owned) no_host
    modify λ db. record db {
      user_hosts =
          update (of_user user_id host_id) (λ (h : HostOf). record h { label = label })
            db.user_hosts;
    }

  abbrev pub unpair : ℕ → Option HostRow → Store → Store
  unpair user_id none db = db
  unpair user_id (some h) db = record db {
    host_pairings = select (λ p. not (is_pairing h.routing_key user_id p)) db.host_pairings;
  }

  unfoldable pub forget_host : ℕ → Request Unit
  unfolding signed_in user_owns_host
  forget_host host_id = do
    user_id ← signed_in hash_token authorization
    owned ← gets (user_owns_host user_id host_id)
    raise_if (not owned) no_host
    row ← gets (λ db. first (λ (h : HostRow). h.id == host_id) db.hosts)
    modify λ db. record db {
      environment_hosts =
          select
            (λ (x : EnvironmentHost). not (
              x.host_id == host_id
              && exists (λ (e : Environment). e.id == x.environment_id && e.user_id == user_id)
                  db.environments))
            db.environment_hosts;
    }
    modify (λ db. record db {
      user_hosts = select (λ h. not (of_user user_id host_id h)) db.user_hosts;
    })
    modify (unpair user_id row)
