-- ===== src/Service/Pairings.antt =====
-- Pairing a host again: the same host under the same label, with new credentials.
use doc_chat_template_scc.Common.{
  ℕ, suc, ◌≡◌, refl, sym, ap, ◌∙◌, subst, Bool, true, false, Option, none, some, List, [], ◌∷◌,
  ◌++◌, String, if◌then◌else◌, ◌==◌, ==_refl, is_empty, first, update, eq_iff, Bool-cases,
  Option-cases, inl, inr,
}
use doc_chat_template_scc.Backups.Rows.{map_option}
use doc_chat_template_scc.Service.Data.{HostRow, HostOf, PairingRow, Store, returned}
use doc_chat_template_scc.Service.Hosts.{
  has_key, of_user, is_pairing, given, set_hostname, upsert_pairing, Paired, pair_row,
  pair_host_for,
}

first-append_one :
    {A : Type 0} (p : A → Bool) (x : A) (xs : List A)
    → first p xs ≡ none
    → p x ≡ true
    → first p (xs ++ x ∷ []) ≡ some x
unfolding first
first-append_one p x [] h k = rw k refl
first-append_one p x (y ∷ xs) h k = elim (Bool-cases (p y)) [
  | inl e ↦ absurd (let q : some y ≡ none = rw e at h in cc)
  | inr e ↦ rw e (first-append_one p x xs (rw e at h) k)
]

-- An UPDATE that does not change what a test finds updates it where it meets it.
first-update_others :
    {A : Type 0} (p q : A → Bool) (f : A → A) (xs : List A)
    → ((x : A) → p (f x) ≡ p x)
    → first p (update q f xs) ≡ map_option (λ x. if q x then f x else x) (first p xs)
unfolding first update
first-update_others p q f [] h = refl
first-update_others p q f (x ∷ xs) h = elim (Bool-cases (q x)) [
  | inl e ↦ elim (Bool-cases (p x)) [
    | inl g ↦ let k : p (f x) ≡ true = h x ∙ g in rw e (rw g (rw k (rw e refl)))
    | inr g ↦
        let k : p (f x) ≡ false = h x ∙ g in rw e (rw g (rw k (first-update_others p q f xs h)))
  ]
  | inr e ↦ elim (Bool-cases (p x)) [
    | inl g ↦ rw e (rw g (rw e refl))
    | inr g ↦ rw e (rw g (first-update_others p q f xs h))
  ]
]

is_pairing_refl : (p : PairingRow) → is_pairing p.routing_key p.user_id p ≡ true
is_pairing_refl p = rw ((eq_iff p.routing_key p.routing_key).1 refl) (==_refl p.user_id)

first-upsert_pairing :
    (p : PairingRow) (ps : List PairingRow)
    → first (is_pairing p.routing_key p.user_id) (upsert_pairing p ps) ≡ some p
unfolding first upsert_pairing
first-upsert_pairing p [] = rw (is_pairing_refl p) refl
first-upsert_pairing p (q ∷ ps) = elim (Bool-cases (is_pairing p.routing_key p.user_id q)) [
  | inl e ↦ rw e (rw (is_pairing_refl p) refl)
  | inr e ↦ rw e (rw e (first-upsert_pairing p ps))
]

module _ (user_id : ℕ) (routing_key : String) where
  -- the host with the key has an id, and the user a label for it
  pub record Knows (host_id : ℕ) (label : String) (db : Store) : Type 0 where
    pub host : (h : HostRow) × (first (has_key routing_key) db.hosts ≡ some h) × (h.id ≡ host_id)
    pub labelled :
        (x : HostOf) × (first (of_user user_id host_id) db.user_hosts ≡ some x) × (x.label ≡ label)

  abbrev pub pairing_row : ℕ → String → String → PairingRow
  pairing_row host_id device_token_hash command_key = record {
    routing_key = routing_key;
    user_id = user_id;
    host_id = host_id;
    device_token_hash = device_token_hash;
    command_key = command_key;
  }

  host-set_hostname :
      (hostname : Option String) (h : HostRow) (db : Store)
      → first (has_key routing_key) db.hosts ≡ some h
      → (g : HostRow) × (first (has_key routing_key) (set_hostname h.id hostname db).hosts ≡ some g)
        × (g.id ≡ h.id)
  host-set_hostname none h db e = (h, e, refl)
  host-set_hostname (some name) h db e = elim (Bool-cases (is_empty name)) [
    | inl f ↦ rw f (h, e, refl)
    | inr f ↦
        let u : HostRow → HostRow = λ g. record g { hostname = some name } in
        let k =
          first-update_others (has_key routing_key) (λ (g : HostRow). g.id == h.id) u db.hosts
            (λ g. refl) in
        rw f (u h, k ∙ rw e (rw (==_refl h.id) refl), refl)
  ]

  -- what a pairing leaves
  abbrev pub IsPaired : ℕ → String → String → String → Store → Type 0
  IsPaired host_id label device_token_hash command_key db =
      Knows host_id label db
      × (first (is_pairing routing_key user_id) db.host_pairings
          ≡ some (pairing_row host_id device_token_hash command_key))

  module _ (hostname requested : Option String) (device_token_hash command_key : String) where
    row_labelled :
        (host_id : ℕ) (db : Store) (h : HostRow) (x : HostOf)
        → first (has_key routing_key) db.hosts ≡ some h
        → h.id ≡ host_id
        → first (of_user user_id host_id) db.user_hosts ≡ some x
        → (db' : Store) × (pair_row user_id routing_key hostname requested device_token_hash
              command_key host_id db
            ≡ returned (record { host_id = host_id; label = x.label; is_new = false }, db'))
          × IsPaired host_id x.label device_token_hash command_key db'
    unfolding pair_row
    row_labelled host_id db h x e i k =
        let row = pairing_row host_id device_token_hash command_key in
        (
          record db { host_pairings = upsert_pairing row db.host_pairings },
          rw k refl,
          (
            record { host = (h, e, i); labelled = (x, k, refl) },
            first-upsert_pairing row db.host_pairings,
          ),
        )

    row_any :
        (host_id : ℕ) (db : Store) (h : HostRow)
        → first (has_key routing_key) db.hosts ≡ some h
        → h.id ≡ host_id
        → (r : Paired) × (db' : Store) × (pair_row user_id routing_key hostname requested
              device_token_hash command_key host_id db
            ≡ returned (r, db'))
          × IsPaired r.host_id r.label device_token_hash command_key db'
    unfolding pair_row
    row_any host_id db h e i = elim (Option-cases (first (of_user user_id host_id) db.user_hosts)) [
      | inl k ↦
          let row = pairing_row host_id device_token_hash command_key in
          let label = given requested (given hostname "Unnamed host") in
          let x : HostOf = record { user_id = user_id; host_id = host_id; label = label } in
          let hosts = db.user_hosts ++ x ∷ [] in
          let own : of_user user_id host_id x ≡ true = rw (==_refl user_id) (==_refl host_id) in
          (
            record { host_id = host_id; label = label; is_new = true },
            record db { user_hosts = hosts; host_pairings = upsert_pairing row db.host_pairings },
            rw k refl,
            (
              record {
                host = (h, e, i);
                labelled = (x, first-append_one _ x db.user_hosts k own, refl);
              },
              first-upsert_pairing row db.host_pairings,
            ),
          )
      | inr (x, k) ↦
          let (db', q, p) = row_labelled host_id db h x e i k in
          (record { host_id = host_id; label = x.label; is_new = false }, db', q, p)
    ]

    -- A pairing returns, and leaves the host, its label and its credentials.
    pair_any :
        (db : Store)
        → (r : Paired) × (db' : Store) × (pair_host_for user_id routing_key hostname requested
              device_token_hash command_key db
            ≡ returned (r, db'))
          × IsPaired r.host_id r.label device_token_hash command_key db'
    unfolding pair_host_for
    pair_any db = elim (Option-cases (first (has_key routing_key) db.hosts)) [
      | inl e ↦
          let new : HostRow = record {
            id = suc db.host_seq;
            routing_key = routing_key;
            hostname = hostname;
          } in
          let db1 : Store = record db {
            host_seq = suc db.host_seq;
            hosts = db.hosts ++ new ∷ [];
          } in
          let there =
            first-append_one (has_key routing_key) new db.hosts e
              ((eq_iff routing_key routing_key).1 refl) in
          rw e (row_any (suc db.host_seq) db1 new there refl)
      | inr (h, e) ↦
          let (g, k, i) = host-set_hostname hostname h db e in
          rw e (row_any h.id (set_hostname h.id hostname db) g k i)
    ]

    user_hosts-set_hostname :
        (host_id : ℕ) (name : Option String) (db : Store)
        → (set_hostname host_id name db).user_hosts ≡ db.user_hosts
    user_hosts-set_hostname host_id none db = refl
    user_hosts-set_hostname host_id (some name) db = elim (Bool-cases (is_empty name)) [
      | inl e ↦ rw e refl
      | inr e ↦ rw e refl
    ]

    pair_found :
        (db : Store) (h : HostRow) (x : HostOf)
        → first (has_key routing_key) db.hosts ≡ some h
        → first (of_user user_id h.id) db.user_hosts ≡ some x
        → (db' : Store) × (pair_host_for user_id routing_key hostname requested device_token_hash
              command_key db
            ≡ returned (record { host_id = h.id; label = x.label; is_new = false }, db'))
          × IsPaired h.id x.label device_token_hash command_key db'
    unfolding pair_host_for
    pair_found db h x e k =
        let (g, j, i) = host-set_hostname hostname h db e in
        let k' = ap (first (of_user user_id h.id)) (user_hosts-set_hostname h.id hostname db) ∙ k in
        rw e (row_labelled h.id (set_hostname h.id hostname db) g x j i k')

    pair_known :
        (host_id : ℕ) (label : String) (db : Store)
        → Knows host_id label db
        → (db' : Store) × (pair_host_for user_id routing_key hostname requested device_token_hash
              command_key db
            ≡ returned (record { host_id = host_id; label = label; is_new = false }, db'))
          × IsPaired host_id label device_token_hash command_key db'
    pair_known host_id label db known =
        let (h, e, i) = known.host in
        let (x, k, l) = known.labelled in
        let k' = subst (λ n. first (of_user user_id n) db.user_hosts ≡ some x) (sym i) k in
        rw⁻¹ i (rw⁻¹ l (pair_found db h x e k'))

  -- Pairing returns. Pairing again, with whatever host name and label, keeps the host's id and the
  -- label that the user has for it, is not taken for a new host, and leaves the new credentials in the
  -- row of the user and the key, in place of the old.
  pub pair_host_for-pair_host_for :
      (hostname hostname' requested requested' : Option String)
      (token token' command command' : String) (db : Store)
      → (r : Paired) × (db' : Store) × (db'' : Store) × (pair_host_for user_id routing_key hostname
            requested token command db
          ≡ returned (r, db'))
        × (pair_host_for user_id routing_key hostname' requested' token' command' db'
            ≡ returned (record { host_id = r.host_id; label = r.label; is_new = false }, db''))
        × (first (is_pairing routing_key user_id) db'.host_pairings
            ≡ some (pairing_row r.host_id token command))
        × (first (is_pairing routing_key user_id) db''.host_pairings
            ≡ some (pairing_row r.host_id token' command'))
  pair_host_for-pair_host_for hostname hostname' requested requested' token token' command command'
        db =
      let (r, db', q, (known, row)) = pair_any hostname requested token command db in
      let (db'', q', (known', row')) =
        pair_known hostname' requested' token' command' r.host_id r.label db' known in
      (r, db', db'', q, q', row, row')
