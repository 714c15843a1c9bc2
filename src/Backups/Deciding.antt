-- ===== src/Backups/Deciding.antt =====
-- The decision of the destination's owner is taken once.
use doc_chat_template_scc.Common.{
  ◌≡◌, refl, sym, ap, ◌∙◌, subst, Bool, true, false, some, String, str_eq, Bool-cases, Option-cases,
  inl, inr,
}
use doc_chat_template_scc.Backups.Data.{
  Backup, Deps, World, ok, ◌>>=◌, pure, log, gets, denied, transferring, denied_by_owner,
}
use doc_chat_template_scc.Backups.Resolve.{row, update_row, src_config, labelled}
use doc_chat_template_scc.Trust.Users.{host_label}
use doc_chat_template_scc.Backups.Push.{
  no_longer_waiting, decide_write, decide_row, decide_waiting, is_waiting, set_failed, set_status,
}
use doc_chat_template_scc.Backups.Rows.{map_option, row-update_row, id-row, clean_up_lem}

abbrev decided : Bool → Backup → Backup
decided false b = set_failed denied denied_by_owner b
decided true b = set_status transferring b

decide_waiting-row :
    (deps : Deps) (d : Bool) (b : Backup) (w : World)
    → row w b.id ≡ some b
    → row (decide_waiting deps d b w).1 b.id ≡ some (decided d b)
unfolding decide_waiting src_config row update_row pure ◌>>=◌ log gets
decide_waiting-row deps true b w h =
    row-update_row b.id (set_status transferring) w (λ c. refl)
    ∙ ap (map_option (set_status transferring)) h
decide_waiting-row deps false b w h =
    let f = set_failed denied denied_by_owner in
    let w' = (update_row b.id f w).1 in
    let (es, e) =
      clean_up_lem deps
        (labelled deps (λ v. host_label v.db b.owner_user_id b.source_host_id) w'
          (deps.host_config w'.events b.owner_user_id b.source_host_id))
        b.id w' in
    rw e (row-update_row b.id f w (λ c. refl) ∙ ap (map_option f) h)

decided-is_waiting : (d : Bool) (b : Backup) → is_waiting (decided d b).status ≡ false
decided-is_waiting true b = refl
decided-is_waiting false b = refl

-- an approval of a backup that does not wait changes nothing
decide_row_late :
    (deps : Deps) (d : Bool) (b : Backup) (w : World)
    → is_waiting b.status ≡ false
    → decide_row deps d (some b) w ≡ (ok no_longer_waiting, w)
unfolding decide_row pure
decide_row_late deps d b w h = rw h refl

-- no row of the backup waits for a decision
abbrev Settled : World → String → Type 0
Settled w id = (b : Backup) → row w id ≡ some b → is_waiting b.status ≡ false

decide_write_late :
    (deps : Deps) (id d : String) (w : World)
    → Settled w id
    → decide_write deps id d w ≡ (ok no_longer_waiting, w)
unfolding decide_write decide_row pure
decide_write_late deps id d w h = elim (Option-cases (row w id)) [
  | inl e ↦ rw e refl
  | inr (b, e) ↦ rw e (decide_row_late deps (str_eq d "allow") b w (h b e))
]

decide_write-Settled :
    (deps : Deps) (id d : String) (w : World) → Settled (decide_write deps id d w).1 id
unfolding decide_write decide_row pure
decide_write-Settled deps id d w c k = elim (Option-cases (row w id)) [
  | inl e ↦ let q : row w id ≡ some c = rw e at k in cc
  | inr (b, e) ↦ elim (Bool-cases (is_waiting b.status)) [
    | inl waits ↦
        let same : b.id ≡ id = id-row w id b e in
        let before : row w b.id ≡ some b = subst (λ i. row w i ≡ some b) (sym same) e in
        let after : row (decide_waiting deps (str_eq d "allow") b w).1 id
            ≡ some (decided (str_eq d "allow") b) =
          subst
            (λ i.
              row (decide_waiting deps (str_eq d "allow") b w).1 i
              ≡ some (decided (str_eq d "allow") b))
            same (decide_waiting-row deps (str_eq d "allow") b w before) in
        let q : some c ≡ some (decided (str_eq d "allow") b) =
          sym (rw waits at (rw e at k)) ∙ after in
        let r : c ≡ decided (str_eq d "allow") b = cc in
        rw r (decided-is_waiting (str_eq d "allow") b)
    | inr settled ↦
        let q : row w id ≡ some c = rw settled at (rw e at k) in
        let r : b ≡ c = cc in rw r at settled
  ]
]

-- The decision on a backup is taken once: after any decision, whether it was taken on a backup that
-- waited for one or came too late, another decision on the same backup answers that it is no longer
-- waiting, and changes nothing: no row, no call of a daemon, no transfer, no news.
pub decide_write-decide_write :
    (deps : Deps) (id decision decision' : String) (w : World)
    → decide_write deps id decision' (decide_write deps id decision w).1
      ≡ (ok no_longer_waiting, (decide_write deps id decision w).1)
unfolding decide_write
decide_write-decide_write deps id decision decision' w =
    decide_write_late deps id decision' (decide_write deps id decision w).1
      (decide_write-Settled deps id decision w)
