-- ===== src/Mirroring/Granted.antt =====
-- What a Mac holds for others: only what an active grant allows.
use doc_chat_template_scc.Common.{
  ℕ, ◌≡◌, refl, ap, sym, ◌∙◌, ◌⊎◌, inl, inr, Bool, true, ◌&&◌, Option, none, some, List, [], ◌∷◌,
  String, Bool-cases, is_none, ◌==◌,
}
use doc_chat_template_scc.Common.Rows.{Elem, first_found}
use doc_chat_template_scc.Trust.Data.{Tuple, is_active}
use doc_chat_template_scc.Mirroring.{
  Store, Target, Folder, Device, Held, HeldRow, join_row, held_rows, add_held, hold, desired_state,
  active_tuple, is_active_folder, owner_devices_of, held_folder, quota_of,
}

-- a target of this Mac and this user that has not been removed
abbrev pub is_here : ℕ → ℕ → Target → Bool
is_here user_id host_id t =
    t.peer_host_id == host_id && t.peer_owner_user_id == user_id && is_none t.removed_at

abbrev IsJoin : HeldRow → Target → Option Folder → Option Tuple → Type 0
IsJoin row t f rt = (row.target ≡ t) × (f ≡ some row.folder) × (rt ≡ some row.tuple)

Elem-join_row :
    (row : HeldRow) (t : Target) (f : Option Folder) (rt : Option Tuple) (rest : List HeldRow)
    → Elem row (join_row t f rt rest)
    → Elem row rest ⊎ IsJoin row t f rt
Elem-join_row row t none rt rest m = inl m
Elem-join_row row t (some f) none rest m = inl m
Elem-join_row row t (some f) (some rt) rest m = elim (Bool-cases (is_active_folder f)) [
  | inl e ↦ elim (rw e at m) [
    | inl q ↦
        inr (ap (λ r. r.target) q, ap (λ r. some r.folder) (sym q), ap (λ r. some r.tuple) (sym q))
    | inr k ↦ inl k
  ]
  | inr e ↦ inl (rw e at m)
]

-- where a row of the JOIN comes from
abbrev Comes : Store → ℕ → ℕ → HeldRow → List Target → Type 0
Comes db user_id host_id row ts =
    Elem row.target ts
    × (is_here user_id host_id row.target ≡ true)
    × (active_tuple db row.target ≡ some row.tuple)

Comes-skip :
    (db : Store) (u host : ℕ) (row : HeldRow) (t : Target) (ts : List Target)
    → Comes db u host row ts
    → Comes db u host row (t ∷ ts)
Comes-skip db u host row t ts (m, here, a) = (inr m, here, a)

Elem-held_rows :
    (db : Store) (u host : ℕ) (row : HeldRow) (ts : List Target)
    → Elem row (held_rows db u host ts)
    → Comes db u host row ts
unfolding held_rows
Elem-held_rows db u host row [] m = absurd m
Elem-held_rows db u host row (t ∷ ts) m = elim (Bool-cases (is_here u host t)) [
  | inl e ↦ elim (Elem-join_row row t _ _ (held_rows db u host ts) (rw e at m)) [
    | inl k ↦ Comes-skip db u host row t ts (Elem-held_rows db u host row ts k)
    | inr (q, _, a) ↦ (inl q, ap (is_here u host) q ∙ e, ap (active_tuple db) q ∙ a)
  ]
  | inr e ↦ Comes-skip db u host row t ts (Elem-held_rows db u host row ts (rw e at m))
]

module _ (show : ℕ → String) (catcher_device : Option Device) (relay_list : List String) where
  abbrev Shows : Held → HeldRow → Type 0
  Shows h row =
      (h.folder_id ≡ row.target.folder_id)
      × (h.kind ≡ row.target.role)
      × (h.quota_bytes ≡ quota_of row.tuple.edge)

  Elem-add_held :
      (db : Store) (h : Held) (row : HeldRow) (ds : List Device) (rest : List Held)
      → Elem h (add_held show catcher_device relay_list db row ds rest)
      → Elem h rest ⊎ Shows h row
  unfolding held_folder
  Elem-add_held db h row [] rest m = inl m
  Elem-add_held db h row (d ∷ ds) rest (inl q) =
      inr (ap (λ x. x.folder_id) q, ap (λ x. x.kind) q, ap (λ x. x.quota_bytes) q)
  Elem-add_held db h row (d ∷ ds) rest (inr m) = inl m

  Elem-hold :
      (db : Store) (h : Held) (rows : List HeldRow) (peers : List Device)
      → Elem h (hold show catcher_device relay_list db rows peers).0
      → (row : HeldRow) × Elem row rows × Shows h row
  unfolding hold
  Elem-hold db h [] peers m = absurd m
  Elem-hold db h (row ∷ rows) peers m =
      elim (Elem-add_held db h row (owner_devices_of show catcher_device relay_list db row.folder) _
        m) [
          | inl k ↦ let (r, n, s) = Elem-hold db h rows _ k in (r, inr n, s)
          | inr s ↦ (row, inl refl, s)
        ]

  -- A Mac is told to hold a folder only for a target on that very Mac, of the user that it is
  -- paired with, that has not been removed and whose grant is a tuple that has not been revoked;
  -- the role is the target's, and the quota is that of the grant.
  pub desired_state-granted :
      (db : Store) (user_id host_id : ℕ) (h : Held)
      → Elem h (desired_state show catcher_device relay_list db user_id host_id).held
      → (t : Target) × (rt : Tuple) × Elem t db.targets
        × Elem rt db.trust.tuples
        × (is_here user_id host_id t ≡ true)
        × ((rt.id == t.grant_id && is_active rt) ≡ true)
        × (h.folder_id ≡ t.folder_id)
        × (h.kind ≡ t.role)
        × (h.quota_bytes ≡ quota_of rt.edge)
  unfolding desired_state
  desired_state-granted db u host h m =
      let (row, k, (same, role, quota)) = Elem-hold db h (held_rows db u host db.targets) _ m in
      let (here, ok, a) = Elem-held_rows db u host row db.targets k in
      let (live, found) =
        first_found (λ (rt : Tuple). rt.id == row.target.grant_id && is_active rt) db.trust.tuples
          row.tuple a in
      (row.target, row.tuple, here, found, ok, live, same, role, quota)
