-- ===== src/Backups/Termination.antt =====
-- That a transfer ends: the loop that waits for the encryption runs into its deadline.
use doc_chat_template_scc.Common.{
  ℕ, zero, suc, ◌+◌, ◌≤◌, ltb, Bool, Option, List, [], ◌∷◌, ◌++◌, String, inl, inr, arith,
  Bool-cases, ltb-false,
}
use doc_chat_template_scc.Backups.Data.{
  Config, Action, Payload, Why, too_slow, encrypting_failed, failed_at, Backup, Event, slept,
  called, Deps, World, M, ◌>>=◌, pure, raise, gets, log,
}
use doc_chat_template_scc.Backups.Resolve.{
  to_answer, row, clean_up, daemon_call, require_ok, src_config, dest_config,
}
use doc_chat_template_scc.Backups.Transfer.{
  wait_on, poll, await_ready, state_is, accept_chunk, copy_chunk, copy_chunks, finish, send,
  transfer_body, give_up, transfer_row, transfer, extra_of, prepare_timeout_seconds,
}
use doc_chat_template_scc.Backups.Rows.{clean_up_lem}
use doc_chat_template_scc.Backups.Runs.{
  Ends, Runs, Ends-ok, Ends-problem, Runs-pure, Runs-raise, Runs-gets, Runs-key, Runs-if, Runs-log,
  Ends-bind, Runs-bind, Runs-attempt, Runs-update_row, Runs-require_ok, Runs-online,
}

-- The clock does not go back, and goes on while the server sleeps.
pub record Ticks (clock : List Event → ℕ) : Type 0 where
  pub mono : (es : List Event) (e : Event) → clock es ≤ clock (es ++ e ∷ [])
  pub sleeps : (es : List Event) → suc (clock es) ≤ clock (es ++ slept ∷ [])

module _ (deps : Deps) where
  Runs-daemon_call : (c : Config) (a : Action) → Runs (daemon_call deps c a)
  unfolding daemon_call ◌>>=◌ log pure
  Runs-daemon_call c a = record { at = λ w. Ends-ok _ }

  Runs-clean_up : (c : Option Config) (id : String) → Runs (clean_up deps c id)
  Runs-clean_up c id = record {
    at = λ w. let (es, e) = clean_up_lem deps c id w in rw e (Ends-ok tt);
  }

  -- rounds enough for the loop to reach its deadline
  abbrev HasRounds : ℕ → ℕ → World → Type 0
  HasRounds fuel deadline w = (1 ≤ fuel) × (2 + deadline ≤ deps.clock w.events + fuel)

  module _ (ticks : Ticks deps.clock) where
    Ends-wait_on :
        (again : M Payload) (fuel deadline : ℕ) (w : World)
        → HasRounds (suc fuel) deadline w
        → ((v : World) → HasRounds fuel deadline v → Ends (again v).0)
        → Ends (wait_on deps again deadline w).0
    unfolding wait_on ◌>>=◌ log raise
    Ends-wait_on again fuel deadline w (k, l) more =
        elim (Bool-cases (ltb deadline (deps.clock w.events))) [
          | inl e ↦ rw e (Ends-problem too_slow)
          | inr e ↦
              let early = ltb-false deadline (deps.clock w.events) e in
              let later = ticks.sleeps w.events in
              let rounds : HasRounds fuel deadline (log slept w).1 = (omega arith, omega arith) in
              rw e (more (log slept w).1 rounds)
        ]

    Ends-poll :
        (again : M Payload) (fuel deadline : ℕ) (p : Payload) (w : World)
        → HasRounds (suc fuel) deadline w
        → ((v : World) → HasRounds fuel deadline v → Ends (again v).0)
        → Ends (poll deps again deadline p w).0
    unfolding poll
    Ends-poll again fuel deadline p w k more = elim (Bool-cases (state_is "ready" p.state)) [
      | inl e ↦ rw e ((Runs-pure p).at w)
      | inr e ↦ elim (Bool-cases (state_is "failed" p.state)) [
        | inl f ↦ rw e (rw f ((Runs-raise (encrypting_failed p.error)).at w))
        | inr f ↦ rw e (rw f (Ends-wait_on again fuel deadline w k more))
      ]
    ]

    -- The loop that waits for the encryption ends, when it has rounds enough.
    pub await_ready-Ends :
        (fuel : ℕ) (src : Config) (id : String) (deadline : ℕ) (w : World)
        → HasRounds fuel deadline w
        → Ends (await_ready deps fuel src id deadline w).0
    unfolding await_ready ◌>>=◌ daemon_call log pure require_ok raise
    await_ready-Ends zero src id deadline w (k, l) = absurd (omega arith)
    await_ready-Ends (suc fuel) src id deadline w (k, l) =
        let a = Action.prepare_status id in
        let v : World = (daemon_call deps src a w).1 in
        let r = to_answer src (deps.daemon w.events src a) in
        let later = ticks.mono w.events (called src a (deps.daemon w.events src a)) in
        let rounds : HasRounds (suc fuel) deadline v = (k, omega arith) in
        elim (Bool-cases r.success) [
          | inl e ↦ rw e (
              Ends-poll (await_ready deps fuel src id deadline) fuel deadline r.payload v rounds
                (await_ready-Ends fuel src id deadline))
          | inr e ↦ rw e (Ends-problem (failed_at "encrypting" r.stderr))
        ]

    Runs-extra_of : (i : ℕ) (p : Payload) → Runs (extra_of deps i p)
    Runs-extra_of zero p =
        Runs-bind _ _ (Runs-key _) (λ m. Runs-bind _ _ (Runs-key _) (λ s. Runs-pure _))
    Runs-extra_of (suc i) p = Runs-pure _

    module _ (src dest : Config) (me : String) (b : Backup) (approved : Bool) (label : String)
        (status : Payload) where
      Runs-copy_chunk : (i : ℕ) → Runs (copy_chunk deps src dest me b.id approved status label i)
      unfolding copy_chunk accept_chunk
      Runs-copy_chunk i = Runs-bind _ _ (Runs-daemon_call src _) λ r.
          Runs-bind _ _ (Runs-require_ok _ r) λ chunk.
            Runs-bind _ _ (Runs-extra_of i status) λ extra. Runs-bind _ _ (Runs-key _) λ content.
              Runs-bind _ _ (Runs-daemon_call dest _)
                λ a. Runs-if _ _ _ (Runs-raise _) (Runs-update_row b.id _)

      Runs-copy_chunks :
          (n i : ℕ) → Runs (copy_chunks deps n i src dest me b.id approved status label)
      unfolding copy_chunks
      Runs-copy_chunks zero i = Runs-pure _
      Runs-copy_chunks (suc n) i =
          Runs-bind _ _ (Runs-copy_chunk i) (λ u. Runs-copy_chunks n (suc i))

      Runs-send : Runs (send deps src dest me b approved label status)
      unfolding send finish
      Runs-send = Runs-bind _ _ (Runs-key _) λ count. Runs-bind _ _ (Runs-key _) λ total.
          Runs-bind _ _ (Runs-update_row b.id _) λ u. Runs-bind _ _ (Runs-copy_chunks count 0) λ u.
            Runs-bind _ _ (Runs-gets _) λ now.
              Runs-bind _ _ (Runs-update_row b.id _) λ u.
                Runs-bind _ _ (Runs-clean_up _ _) λ u. Runs-bind _ _ (Runs-key _) λ t. Runs-log _

    module _ (fuel : ℕ) (enough : 2 + prepare_timeout_seconds ≤ fuel) where
      Runs-wait :
          (src : Config) (id : String) (rest : Payload → M Unit)
          → ((p : Payload) → Runs (rest p))
          → Runs (
              gets (λ w. deps.clock w.events) >>= λ start.
              await_ready deps fuel src id (start + prepare_timeout_seconds) >>= rest)
      unfolding ◌>>=◌ gets
      Runs-wait src id rest more = record {
        at = λ w.
            let deadline = deps.clock w.events + prepare_timeout_seconds in
            Ends-bind (await_ready deps fuel src id deadline) rest w
              (await_ready-Ends fuel src id deadline w (omega arith, omega arith)) more;
      }

      Runs-transfer_body :
          (src dest : Option Config) (me : String) (b : Backup) (approved : Bool) (label : String)
          → Runs (transfer_body deps fuel src dest me b approved label)
      unfolding transfer_body
      Runs-transfer_body src dest me b approved label = Runs-bind _ _ (Runs-online src _) λ s.
          Runs-bind _ _ (Runs-online dest _)
            λ d. Runs-wait s b.id _ (Runs-send s d me b approved label)

      Runs-give_up :
          (src : Option Config) (b : Backup) (label : String) (e : Why)
          → Runs (give_up deps src b label e)
      unfolding give_up
      Runs-give_up src b label e =
          Runs-bind _ _ (Runs-update_row b.id _)
            λ u. Runs-bind _ _ (Runs-clean_up _ _) λ u. Runs-log _

      Runs-transfer_row : (b : Backup) (approved : Bool) → Runs (transfer_row deps fuel b approved)
      unfolding transfer_row src_config dest_config
      Runs-transfer_row b approved = Runs-bind _ _ (Runs-gets _) λ me.
          Runs-bind _ _ (Runs-gets _) λ label. Runs-bind _ _ (Runs-gets _) λ src.
            Runs-bind _ _ (Runs-gets _) λ dest.
              Runs-attempt _ _ _ (Runs-transfer_body src dest me b approved label)
                (Runs-give_up src b label) Runs-pure

      -- With a clock that does not go back and that goes on during a sleep, a transfer ends, whatever
      -- the daemons answer, with as many rounds of waiting as the seconds it may take to encrypt, and
      -- two.
      pub transfer-Ends :
          (id : String) (approved : Bool) (w : World) → Ends (transfer deps fuel id approved w).0
      unfolding transfer
      transfer-Ends id approved w =
          (Runs-bind _ _ (Runs-key (row w id)) (λ b. Runs-transfer_row b approved)).at w
