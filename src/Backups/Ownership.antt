-- ===== src/Backups/Ownership.antt =====
-- What the owner alone may do with a backup, and when a stored backup is taken off the list.
use doc_chat_template_scc.Common.{
  ℕ, ◌≡◌, refl, ap, ◌∙◌, subst, ◌⊎◌, true, false, and-false, some, String, inl, inr, Option-cases,
  Bool-cases, none, sym, ==_iff, ◌==◌, ◌≢◌,
}
use doc_chat_template_scc.Common.Rows.{Elem}
use doc_chat_template_scc.Trust.Users.{username}
use doc_chat_template_scc.Backups.Data.{
  Config, Action, Response, no_such_backup, complete, deleted, Backup, called, Deps, World, ok,
  problem, attempt, ◌>>=◌, pure, raise, gets, log,
}
use doc_chat_template_scc.Backups.Resolve.{
  to_answer, row, update_row, daemon_call, dest_config, dest_name,
}
use doc_chat_template_scc.Backups.Push.{set_status}
use doc_chat_template_scc.Backups.Manage.{
  is_own, own_row, may_be_stored, cannot_show, cannot_restore, cannot_delete, status_of,
}
use doc_chat_template_scc.Backups.Restore.{
  restore, find_restore, find_delete, delete_from, mark_deleted, delete,
}
use doc_chat_template_scc.Backups.Rows.{map_option, row-update_row, row_congr}
use doc_chat_template_scc.Backups.Effects.{Elem-append_last}

-- there is no backup with the id, or it is another user's, or it is deleted
abbrev pub IsNotOwn : ℕ → String → World → Type 0
IsNotOwn user_id id w =
    (row w id ≡ none)
    ⊎ ((b : Backup) × (row w id ≡ some b) × ((b.owner_user_id ≢ user_id) ⊎ (b.status ≡ deleted)))

is_own_no :
    (user_id : ℕ) (b : Backup)
    → (b.owner_user_id ≢ user_id) ⊎ (b.status ≡ deleted)
    → is_own user_id b ≡ false
is_own_no user_id b (inl foreign) = elim (Bool-cases (b.owner_user_id == user_id)) [
  | inl e ↦ absurd (foreign ((==_iff b.owner_user_id user_id).0 e))
  | inr e ↦ rw e refl
]
is_own_no user_id b (inr gone) = rw gone (and-false (b.owner_user_id == user_id))

IsNotOwn-is_own :
    (user_id : ℕ) (id : String) (w : World) (b : Backup)
    → IsNotOwn user_id id w
    → row w id ≡ some b
    → is_own user_id b ≡ false
IsNotOwn-is_own user_id id w b (inl absent) e =
    absurd (let t : none ≡ some b = sym absent ∙ e in cc)
IsNotOwn-is_own user_id id w b (inr (c, found, why)) e =
    let same : c ≡ b = cc in subst (λ x. is_own user_id x ≡ false) same (is_own_no user_id c why)

own_row-refuses :
    (user_id : ℕ) (id : String) (w : World)
    → ((b : Backup) → row w id ≡ some b → is_own user_id b ≡ false)
    → own_row user_id id w ≡ (problem (no_such_backup id), w)
unfolding own_row raise pure
own_row-refuses user_id id w h = elim (Option-cases (row w id)) [
  | inl e ↦ rw e refl
  | inr (b, e) ↦ rw e (rw (h b e) refl)
]

refused_all :
    (deps : Deps) (user_id : ℕ) (id dest_host : String) (w : World)
    → ((b : Backup) → row w id ≡ some b → is_own user_id b ≡ false)
    → (status_of user_id id w ≡ (ok (cannot_show (no_such_backup id)), w))
      × (restore deps user_id id dest_host w ≡ (ok (cannot_restore (no_such_backup id)), w))
      × (delete deps user_id id w ≡ (ok (cannot_delete (no_such_backup id)), w))
unfolding status_of restore find_restore delete find_delete attempt ◌>>=◌ raise pure
refused_all deps user_id id dest_host w h =
    let e = own_row-refuses user_id id w h in rw e (refl, refl, refl)

-- A backup is its owner's alone, while it is not deleted. Where there is no backup with the id, or it
-- belongs to another than the user, or its status is deleted, he can neither see, restore nor delete
-- it: each of the three answers that there is no such backup, changes nothing and calls no daemon.
pub own_row-isolates :
    (deps : Deps) (user_id : ℕ) (id dest_host : String) (w : World)
    → IsNotOwn user_id id w
    → (status_of user_id id w ≡ (ok (cannot_show (no_such_backup id)), w))
      × (restore deps user_id id dest_host w ≡ (ok (cannot_restore (no_such_backup id)), w))
      × (delete deps user_id id w ≡ (ok (cannot_delete (no_such_backup id)), w))
own_row-isolates deps user_id id dest_host w h =
    refused_all deps user_id id dest_host w (λ b e. IsNotOwn-is_own user_id id w b h e)

module _ (deps : Deps) (user_id : ℕ) (id : String) where
  -- the daemon of a destination has said that it deleted the stored copy
  abbrev pub Confirmed : Config → String → World → Type 0
  Confirmed peer me w =
      (r : Response) × Elem (called peer (Action.delete_stored me id) r) w.events
      × ((to_answer peer r).success ≡ true)

  -- the destination of the backup is reached with `c`, and the daemon there has said that it deleted
  -- the copy
  abbrev pub IsDeletedFrom : Backup → World → World → Type 0
  IsDeletedFrom b v w =
      (c : Config) × (deps.host_config v.events b.dest_owner_user_id b.dest_host_id ≡ some c)
      × Confirmed (record c { label = dest_name v.db b }) (username v.db user_id) w
      × (row w id ≡ some (set_status deleted b))

  -- a delete keeps the table, or has deleted the row with the destination's word for it
  abbrev pub IsSafeDelete : Backup → World → World → Type 0
  IsSafeDelete b v w = (w.backups ≡ v.backups) ⊎ IsDeletedFrom b v w

  delete_from-safe :
      (b : Backup) (c : Config) (w : World)
      → row w id ≡ some b
      → b.status ≡ complete
      → deps.host_config w.events b.dest_owner_user_id b.dest_host_id ≡ some c
      → IsSafeDelete b w
          (delete_from deps user_id id b (some (record c { label = dest_name w.db b })) w).1
  unfolding delete_from mark_deleted ◌>>=◌ raise pure gets daemon_call log update_row row
  delete_from-safe b c w found whole reached =
      let peer : Config = record c { label = dest_name w.db b } in
      let me = username w.db user_id in
      let a = Action.delete_stored me id in
      let r = deps.daemon w.events peer a in
      let v : World = (daemon_call deps peer a w).1 in
      elim (Bool-cases (to_answer peer r).success) [
        | inl e ↦ rw e (
            inr (
              c,
              reached,
              (r, Elem-append_last _ w.events, e),
              row-update_row id (set_status deleted) v (λ x. refl)
                  ∙ ap (map_option (set_status deleted)) (row_congr w v id refl ∙ found),
            ))
        | inr e ↦ rw e (rw whole (inl refl))
      ]

  delete_own-safe :
      (b : Backup) (w : World)
      → row w id ≡ some b
      → b.status ≡ complete
      → is_own user_id b ≡ true
      → IsSafeDelete b w (delete deps user_id id w).1
  unfolding delete find_delete own_row dest_config attempt ◌>>=◌ gets pure raise
  delete_own-safe b w found whole own =
      elim (Option-cases (deps.host_config w.events b.dest_owner_user_id b.dest_host_id)) [
        | inl e ↦ rw found (rw own (rw e (rw whole (inl refl))))
        | inr (c, e) ↦
            let peer : Config = record c { label = dest_name w.db b } in
            let same : (delete deps user_id id w).1
                ≡ (delete_from deps user_id id b (some peer) w).1 =
              rw found (rw own (rw e (rw (and-false (may_be_stored b.status)) refl))) in
            subst (IsSafeDelete b w) (sym same) (delete_from-safe b c w found whole e)
      ]

  -- A complete backup is marked deleted only when the daemon of its destination has said that its copy
  -- is gone: a delete by anyone leaves the table of backups as it was, or the destination host of the
  -- backup is reached, the events end up with a call of its daemon for this backup's deletion that it
  -- answered with success, and the row is the old one, deleted.
  pub delete-IsSafeDelete :
      (b : Backup) (w : World)
      → row w id ≡ some b
      → b.status ≡ complete
      → IsSafeDelete b w (delete deps user_id id w).1
  delete-IsSafeDelete b w found whole = elim (Bool-cases (is_own user_id b)) [
    | inl own ↦ delete_own-safe b w found whole own
    | inr foreign ↦
        let same : (c : Backup) → row w id ≡ some c → is_own user_id c ≡ false =
          λ c k. let e : b ≡ c = cc in subst (λ x. is_own user_id x ≡ false) e foreign in
        let (s, r, d) = refused_all deps user_id id "" w same in inl (ap (λ x. x.1.backups) d)
  ]
