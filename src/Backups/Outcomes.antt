-- ===== src/Backups/Outcomes.antt =====
-- The good end of a transfer: the row is complete, every chunk of its plan is stored, and the owner is
-- told.
use doc_chat_template_scc.Common.{
  ℕ, zero, suc, ◌+◌, ◌<◌, ◌≡◌, refl, ap, ◌∙◌, Bool, some, String, arith,
}
use doc_chat_template_scc.Common.Rows.{Elem}
use doc_chat_template_scc.Backups.Data.{
  Config, Payload, Answer, complete, Backup, notified, backed_up, Deps, World, pure, log,
}
use doc_chat_template_scc.Backups.Resolve.{row, update_row}
use doc_chat_template_scc.Backups.Transfer.{
  set_done, set_complete, accept_chunk, extra_of, copy_chunk, copy_chunks, finish,
}
use doc_chat_template_scc.Backups.Rows.{map_option, row-update_row, row_congr}
use doc_chat_template_scc.Backups.Effects.{
  Elem-append_last, Grows-log, Grows-gets, Grows-key, Grows-clean_up,
}
use doc_chat_template_scc.Backups.Triples.{
  Triple, Triple-bind, Rests, Rests-bind, Rests-pure, Rests-gets, Rests-key, IsOfRows, IsSteady,
  Triple-Rests, Triple-steady, Triple-raise, Triple-if, Rests-daemon_call, Rests-require_ok,
  Rests-clean_up,
}
use doc_chat_template_scc.Backups.Chunks.{Stored, Stored-Later, copy_chunks-Stored}

-- the row has a plan of `n` chunks
abbrev pub Planned : String → ℕ → World → Type 0
Planned id n w = (c : Backup) × (row w id ≡ some c) × (c.chunk_count ≡ n)

pub Planned-congr : (id : String) (n : ℕ) → IsOfRows (Planned id n)
Planned-congr id n v w e (c, k, h) = (c, row_congr w v id e ∙ k, h)

-- an UPDATE of the row, as a rule
pub Triple-update_row :
    (id : String) (f : Backup → Backup) (P Q : Backup → Type 0)
    → ((b : Backup) → (f b).id ≡ b.id)
    → ((b : Backup) → P b → Q (f b))
    → Triple
        (λ w. (c : Backup) × (row w id ≡ some c) × P c)
        (update_row id f)
        (λ u w. (c : Backup) × (row w id ≡ some c) × Q c)
Triple-update_row id f P Q same keep = record {
  at = λ w u (c, k, p) h. (f c, row-update_row id f w same ∙ ap (map_option f) k, keep c p);
}

-- every chunk of a plan of `n` is stored
abbrev pub AllStored : Config → Config → String → String → Bool → ℕ → World → Type 0
AllStored src dest me id approved n w = (j : ℕ) → j < n → Stored src dest me id approved j w.events

module _ (deps : Deps) (src dest : Config) (me id : String) (approved : Bool) (status : Payload)
    (label : String) where
  Planned-accept_chunk :
      (n i : ℕ) (a : Answer)
      → Triple (Planned id n) (accept_chunk deps approved id i label a) (λ u. Planned id n)
  unfolding accept_chunk
  Planned-accept_chunk n i a = Triple-if _ _ _ (Triple-raise _ _) (
      Triple-update_row id (set_done (suc i)) (λ c. c.chunk_count ≡ n) (λ c. c.chunk_count ≡ n)
        (λ c. refl) (λ c h. h))

  pub Rests-extra_of : (i : ℕ) → Rests (extra_of deps i status)
  Rests-extra_of zero =
      Rests-bind _ _ (Rests-key _) (λ m. Rests-bind _ _ (Rests-key _) (λ s. Rests-pure _))
  Rests-extra_of (suc i) = Rests-pure _

  Planned-copy_chunk :
      (n i : ℕ)
      → Triple
          (Planned id n)
          (copy_chunk deps src dest me id approved status label i)
          (λ u. Planned id n)
  unfolding copy_chunk
  Planned-copy_chunk n i =
      let rest = Planned-congr id n in
      Triple-bind _ _ (Triple-Rests _ rest (Rests-daemon_call deps src _)) λ r.
        Triple-bind _ _ (Triple-Rests _ rest (Rests-require_ok _ r)) λ chunk.
          Triple-bind _ _ (Triple-Rests _ rest (Rests-extra_of i)) λ extra.
            Triple-bind _ _ (Triple-Rests _ rest (Rests-key _)) λ content.
              Triple-bind _ _ (Triple-Rests _ rest (Rests-daemon_call deps dest _))
                λ a. Planned-accept_chunk n i a

  Planned-copy_chunks :
      (n k i : ℕ)
      → Triple
          (Planned id n)
          (copy_chunks deps k i src dest me id approved status label)
          (λ u. Planned id n)
  unfolding copy_chunks
  Planned-copy_chunks n zero i = Triple-Rests _ (Planned-congr id n) (Rests-pure _)
  Planned-copy_chunks n (suc k) i =
      Triple-bind _ _ (Planned-copy_chunk n i) (λ u. Planned-copy_chunks n k (suc i))

  pub copy_chunks-AllStored :
      (n : ℕ)
      → Triple
          (Planned id n)
          (copy_chunks deps n 0 src dest me id approved status label)
          (λ u w. Planned id n w × AllStored src dest me id approved n w)
  copy_chunks-AllStored n = record {
    at = λ w u p h. (
      (Planned-copy_chunks n n 0).at w u p h,
      λ j k.
          let e : 0 + j ≡ j = omega arith in
          rw e at ((copy_chunks-Stored deps src dest me id approved status label n 0 j k).at w u h),
    );
  }

-- the row is complete, and every chunk of it was read from the source and is stored on the
-- destination
abbrev pub Finished : Config → Config → String → String → Bool → World → Type 0
Finished src dest me id approved w =
    (c : Backup) × (row w id ≡ some c)
    × (c.status ≡ complete)
    × ((j : ℕ) → j < c.chunk_count → Stored src dest me id approved j w.events)

Finished-IsSteady :
    (src dest : Config) (me id : String) (approved : Bool)
    → IsSteady (Finished src dest me id approved)
Finished-IsSteady src dest me id approved v w e later (c, k, s, h) =
    (c, row_congr w v id e ∙ k, s, λ j l. Stored-Later src dest me id approved j v w later (h j l))

-- and the owner has been told
abbrev pub Told : ℕ → String → String → World → Type 0
Told owner name label w = (total : ℕ) × Elem (notified owner (backed_up name label total)) w.events

module _ (deps : Deps) (src dest : Config) (me : String) (b : Backup) (approved : Bool)
    (status : Payload) (label : String) where
  set_complete-Finished :
      (n now : ℕ)
      → Triple
          (λ w. Planned b.id n w × AllStored src dest me b.id approved n w)
          (update_row b.id (set_complete now))
          (λ u. Finished src dest me b.id approved)
  unfolding update_row pure
  set_complete-Finished n now = record {
    at = λ w u ((c, k, p), h) e. (
      set_complete now c,
      row-update_row b.id (set_complete now) w (λ x. refl) ∙ ap (map_option (set_complete now)) k,
      refl,
      λ j l. h j (rw p at l),
    );
  }

  Finished-log :
      (total : ℕ)
      → Triple
          (Finished src dest me b.id approved)
          (log (notified b.owner_user_id (backed_up b.name label total)))
          (λ u w. Finished src dest me b.id approved w × Told b.owner_user_id b.name label w)
  unfolding log
  Finished-log total = record {
    at = λ w u f h.
        let e = notified b.owner_user_id (backed_up b.name label total) in
        (
          Finished-IsSteady src dest me b.id approved w (log e w).1 refl ((Grows-log e).at w) f,
          (total, Elem-append_last e w.events),
        );
  }

  pub finish-Finished :
      (n : ℕ)
      → Triple
          (λ w. Planned b.id n w × AllStored src dest me b.id approved n w)
          (finish deps src b label status)
          (λ u w. Finished src dest me b.id approved w × Told b.owner_user_id b.name label w)
  unfolding finish
  finish-Finished n =
      Triple-bind _ _ (Triple-steady _ ready-IsSteady (Rests-gets _) (Grows-gets _)) λ now.
        Triple-bind _ _ (set_complete-Finished n now) λ u.
          Triple-bind _ _
            (Triple-steady _ steady (Rests-clean_up deps _ _) (Grows-clean_up deps _ _))
            λ u.
              Triple-bind _ _ (Triple-steady _ steady (Rests-key _) (Grows-key _))
                λ total. Finished-log total
    where
      steady : IsSteady (Finished src dest me b.id approved)
      steady = Finished-IsSteady src dest me b.id approved

      ready-IsSteady : IsSteady (λ w. Planned b.id n w × AllStored src dest me b.id approved n w)
      ready-IsSteady v w e later (p, h) = (
        Planned-congr b.id n v w e p,
        λ j l. Stored-Later src dest me b.id approved j v w later (h j l),
      )
