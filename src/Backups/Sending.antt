-- ===== src/Backups/Sending.antt =====
-- The body of `transfer`, from the wait for the encryption to the last chunk.
use doc_chat_template_scc.Common.{
  ℕ, zero, suc, ltb, ◌≡◌, refl, ap, ◌∙◌, Bool, Option, none, some, String, inl, inr, Bool-cases,
}
use doc_chat_template_scc.Backups.Data.{
  Config, Action, Payload, Why, too_slow, Backup, slept, Deps, World, M, log, pure, raise,
}
use doc_chat_template_scc.Backups.Resolve.{row, update_row}
use doc_chat_template_scc.Backups.Transfer.{
  set_plan, set_done, wait_on, poll, await_ready, state_is, accept_chunk, copy_chunk, copy_chunks,
  finish, send, online, transfer_body, set_complete,
}
use doc_chat_template_scc.Backups.Rows.{map_option, row-update_row, row_congr}
use doc_chat_template_scc.Backups.Triples.{
  Triple, Triple-bind, Triple-Rests, IsOfRows, Rests, Rests-bind, Rests-pure, Rests-raise,
  Rests-gets, Rests-key, Rests-if, Rests-log, Rests-daemon_call, Rests-require_ok, Rests-clean_up,
  Keeps, Keeps-bind, Keeps-Rests, Keeps-if,
}
use doc_chat_template_scc.Backups.Outcomes.{
  Planned, Finished, Told, Rests-extra_of, copy_chunks-AllStored, finish-Finished,
}

abbrev pub HasRow : String → World → Type 0
HasRow id w = (c : Backup) × (row w id ≡ some c)

pub HasRow-congr : (id : String) → IsOfRows (HasRow id)
HasRow-congr id v w e (c, k) = (c, row_congr w v id e ∙ k)

pub Keeps-update_row :
    (id : String) (f : Backup → Backup)
    → ((b : Backup) → (f b).id ≡ b.id)
    → Keeps (HasRow id) (update_row id f)
Keeps-update_row id f same = record {
  at = λ w (c, k). (f c, row-update_row id f w same ∙ ap (map_option f) k);
}

module _ (deps : Deps) where
  Rests-wait_on :
      (again : M Payload) (deadline : ℕ) → Rests again → Rests (wait_on deps again deadline)
  unfolding wait_on
  Rests-wait_on again deadline more = record {
    at = λ w. elim (Bool-cases (ltb deadline (deps.clock w.events))) [
      | inl e ↦ rw e ((Rests-raise {A = Payload} too_slow).at w)
      | inr e ↦ rw e ((Rests-bind (log slept) (λ u. again) (Rests-log slept) (λ u. more)).at w)
    ];
  }

  Rests-poll :
      (again : M Payload) (deadline : ℕ) (p : Payload)
      → Rests again
      → Rests (poll deps again deadline p)
  unfolding poll
  Rests-poll again deadline p more =
      Rests-if (state_is "ready" p.state) _ _ (Rests-pure _) (
        Rests-if (state_is "failed" p.state) _ _ (Rests-raise _)
          (Rests-wait_on again deadline more))

  Rests-await_ready :
      (fuel : ℕ) (src : Config) (id : String) (deadline : ℕ)
      → Rests (await_ready deps fuel src id deadline)
  unfolding await_ready
  Rests-await_ready zero src id deadline = record { at = λ w. refl }
  Rests-await_ready (suc fuel) src id deadline = record {
    at = λ w.
        (Rests-bind _ _ (Rests-daemon_call deps src (Action.prepare_status id)) λ r.
            Rests-bind _ _ (Rests-require_ok "encrypting" r) λ p.
              Rests-poll (await_ready deps fuel src id deadline) deadline p
                (Rests-await_ready fuel src id deadline)).at
          w;
  }

  module _ (src dest : Config) (me : String) (b : Backup) (approved : Bool) (label : String)
      (status : Payload) where
    set_plan-Planned :
        (total count : ℕ)
        → Triple (HasRow b.id) (update_row b.id (set_plan total count)) (λ u. Planned b.id count)
    set_plan-Planned total count = record {
      at = λ w u (c, k) h.
          let f = set_plan total count in
          (f c, row-update_row b.id f w (λ x. refl) ∙ ap (map_option f) k, refl);
    }

    send-Finished :
        Triple
          (HasRow b.id)
          (send deps src dest me b approved label status)
          (λ u w. Finished src dest me b.id approved w × Told b.owner_user_id b.name label w)
    unfolding send
    send-Finished = Triple-bind _ _ (Triple-Rests _ (HasRow-congr b.id) (Rests-key _)) λ count.
        Triple-bind _ _ (Triple-Rests _ (HasRow-congr b.id) (Rests-key _)) λ total.
          Triple-bind _ _ (set_plan-Planned total count) λ u.
            Triple-bind _ _
              (copy_chunks-AllStored deps src dest me b.id approved status label count)
              λ v. finish-Finished deps src dest me b approved status label count

    Keeps-copy_chunk :
        (i : ℕ) → Keeps (HasRow b.id) (copy_chunk deps src dest me b.id approved status label i)
    unfolding copy_chunk accept_chunk
    Keeps-copy_chunk i =
        let rest = HasRow-congr b.id in
        Keeps-bind _ _ (Keeps-Rests _ rest (Rests-daemon_call deps src _)) λ r.
          Keeps-bind _ _ (Keeps-Rests _ rest (Rests-require_ok _ r)) λ chunk.
            Keeps-bind _ _
              (Keeps-Rests _ rest (Rests-extra_of deps src dest me b.id approved status label i))
              λ extra. Keeps-bind _ _ (Keeps-Rests _ rest (Rests-key _)) λ content.
                Keeps-bind _ _ (Keeps-Rests _ rest (Rests-daemon_call deps dest _)) λ a.
                  Keeps-if _ _ _ (Keeps-Rests _ rest (Rests-raise _))
                    (Keeps-update_row b.id (set_done (suc i)) (λ c. refl))

    Keeps-copy_chunks :
        (n i : ℕ)
        → Keeps (HasRow b.id) (copy_chunks deps n i src dest me b.id approved status label)
    unfolding copy_chunks
    Keeps-copy_chunks zero i = Keeps-Rests _ (HasRow-congr b.id) (Rests-pure _)
    Keeps-copy_chunks (suc n) i =
        Keeps-bind _ _ (Keeps-copy_chunk i) (λ u. Keeps-copy_chunks n (suc i))

    Keeps-send : Keeps (HasRow b.id) (send deps src dest me b approved label status)
    unfolding send finish
    Keeps-send =
        let rest = HasRow-congr b.id in
        Keeps-bind _ _ (Keeps-Rests _ rest (Rests-key _)) λ count.
          Keeps-bind _ _ (Keeps-Rests _ rest (Rests-key _)) λ total.
            Keeps-bind _ _ (Keeps-update_row b.id (set_plan total count) (λ c. refl)) λ u.
              Keeps-bind _ _ (Keeps-copy_chunks count 0) λ u.
                Keeps-bind _ _ (Keeps-Rests _ rest (Rests-gets _)) λ now.
                  Keeps-bind _ _ (Keeps-update_row b.id (set_complete now) (λ c. refl)) λ u.
                    Keeps-bind _ _ (Keeps-Rests _ rest (Rests-clean_up deps _ _))
                      λ u. Keeps-Rests _ rest (Rests-bind _ _ (Rests-key _) (λ t. Rests-log _))

  Rests-online : (c : Option Config) (e : Why) → Rests (online c e)
  Rests-online none e = Rests-raise e
  Rests-online (some c) e = Rests-pure c

  -- the good end of a transfer between two hosts that are reached
  abbrev pub Good : Option Config → Option Config → String → Backup → Bool → String → World → Type 0
  Good src dest me b approved label w =
      (s : Config) × (d : Config) × (src ≡ some s)
      × (dest ≡ some d)
      × Finished s d me b.id approved w
      × Told b.owner_user_id b.name label w

  online-some :
      (id : String) (c : Option Config) (e : Why) (E : Type 0)
      → Triple (λ w. E × HasRow id w) (online c e) (λ s w. ((c ≡ some s) × E) × HasRow id w)
  unfolding pure raise
  online-some id none e E = record { at = λ w s r h. absurd (cc) }
  online-some id (some c) e E = record {
    at = λ w s (x, r) h. let q : c ≡ s = cc in ((ap (λ z. some z) q, x), r);
  }

  module _ (fuel : ℕ) (src dest : Option Config) (me : String) (b : Backup) (approved : Bool)
      (label : String) where
    transfer_body-reached :
        Triple
          (λ w. Unit × HasRow b.id w)
          (transfer_body deps fuel src dest me b approved label)
          (λ u. Good src dest me b approved label)
    unfolding transfer_body
    transfer_body-reached = Triple-bind _ _ (online-some b.id src _ Unit) λ s.
        Triple-bind _ _ (online-some b.id dest _ ((src ≡ some s) × Unit)) λ d.
          let rest : IsOfRows (λ w. ((dest ≡ some d) × ((src ≡ some s) × Unit)) × HasRow b.id w) =
            λ v w e (x, r). (x, HasRow-congr b.id v w e r) in
          Triple-bind _ _ (Triple-Rests _ rest (Rests-gets _)) λ start.
            Triple-bind _ _ (Triple-Rests _ rest (Rests-await_ready fuel s b.id _)) λ status.
              record {
                at = λ w u ((q, (p, _)), h) e.
                    let (f, t) = (send-Finished s d me b approved label status).at w u h e in
                    (s, d, p, q, f, t);
              }

    pub transfer_body-Good :
        Triple
          (HasRow b.id)
          (transfer_body deps fuel src dest me b approved label)
          (λ u. Good src dest me b approved label)
    transfer_body-Good = record { at = λ w u h e. transfer_body-reached.at w u (tt, h) e }

    pub Keeps-transfer_body :
        Keeps (HasRow b.id) (transfer_body deps fuel src dest me b approved label)
    unfolding transfer_body
    Keeps-transfer_body =
        let rest = HasRow-congr b.id in
        Keeps-bind _ _ (Keeps-Rests _ rest (Rests-online src _)) λ s.
          Keeps-bind _ _ (Keeps-Rests _ rest (Rests-online dest _)) λ d.
            Keeps-bind _ _ (Keeps-Rests _ rest (Rests-gets _)) λ start.
              Keeps-bind _ _ (Keeps-Rests _ rest (Rests-await_ready fuel s b.id _))
                λ status. Keeps-send s d me b approved label status
