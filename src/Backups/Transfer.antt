-- ===== src/Backups/Transfer.antt =====
-- Moving the chunks of a backup: `transfer`.
use doc_chat_template_scc.Common.{
  ℕ, zero, suc, ◌+◌, ◌*◌, ltb, Bool, true, false, not, ◌&&◌, ◌||◌, Option, none, some, String,
  str_eq, if◌then◌else◌,
}
use doc_chat_template_scc.Trust.Users.{username}
use doc_chat_template_scc.Backups.Data.{
  Config, Action, Payload, Answer, Why, source_went_offline, dest_went_offline, encrypting_failed,
  too_slow, chunk_refused, because, complete, failed, Backup, notified, backed_up, backup_failed,
  slept, Deps, out_of_fuel, M, attempt, ◌>>=◌, ◌>>◌, pure, raise, gets, key, log,
}
use doc_chat_template_scc.Backups.Resolve.{
  require_ok, row, update_row, dest_name, daemon_call, src_config, dest_config, clean_up,
}
use doc_chat_template_scc.Backups.Push.{set_failed}

abbrev pub prepare_timeout_seconds : ℕ
prepare_timeout_seconds = 30 * 60

-- `if config is None: raise …`
abbrev pub online : Option Config → Why → M Config
online none e = raise e
online (some c) e = pure c

-- the tier with which the destination refuses a chunk
abbrev pub is_refusal : Bool → Option String → Bool
is_refusal approved none = true
is_refusal approved (some tier) = str_eq tier "deny" || str_eq tier "ask" && not approved

-- `status.get("state") == text`
abbrev pub state_is : String → Option String → Bool
state_is text none = false
state_is text (some state) = str_eq state text

abbrev pub set_plan : ℕ → ℕ → Backup → Backup
set_plan total count b = record b { total_bytes = total; chunk_count = count }

abbrev pub set_done : ℕ → Backup → Backup
set_done n b = record b { chunks_done = n }

abbrev pub set_complete : ℕ → Backup → Backup
set_complete now b = record b { status = complete; completed_at = some now }

module _ (deps : Deps) where
  -- the last two tests of a round: the deadline, and another round
  unfoldable pub wait_on : M Payload → ℕ → M Payload
  wait_on again deadline w =
      if ltb deadline (deps.clock w.events) then raise too_slow w else (log slept >> again) w

  -- the tests of a round on what the source's daemon says
  unfoldable pub poll : M Payload → ℕ → Payload → M Payload
  unfolding wait_on
  poll again deadline status =
      if state_is "ready" status.state
      then pure status
      else if state_is "failed" status.state
      then raise (encrypting_failed status.error)
      else wait_on again deadline

  -- the loop that waits for the encryption, with the rounds left
  unfoldable pub await_ready : ℕ → Config → String → ℕ → M Payload
  unfolding poll
  await_ready zero src backup_id deadline w = (out_of_fuel, w)
  await_ready (suc fuel) src backup_id deadline w =
      let again = await_ready fuel src backup_id deadline in
      (daemon_call deps src (Action.prepare_status backup_id) >>= λ r.
      require_ok "encrypting" r >>= poll again deadline)
        w

  -- `{"manifest": status["manifest"], …} if i == 0 else {}`
  abbrev pub extra_of : ℕ → Payload → M (Option (String × String))
  extra_of zero status = do m ← key status.manifest; s ← key status.signature; pure (some (m, s))
  extra_of (suc i) status = pure none

  -- what the destination's answer to a chunk comes to
  unfoldable pub accept_chunk : Bool → String → ℕ → String → Answer → M Unit
  accept_chunk approved backup_id i dest answer =
      if is_refusal approved answer.tier
      then raise (chunk_refused dest answer.payload.reason answer.stderr i)
      else update_row backup_id (set_done (suc i))

  -- one round of the loop over the chunks
  unfoldable pub copy_chunk :
      Config → Config → String → String → Bool → Payload → String → ℕ → M Unit
  unfolding accept_chunk
  copy_chunk src dest me backup_id approved status dest_label i = do
    r ← daemon_call deps src (Action.read_chunk backup_id i)
    chunk ← require_ok "reading" r
    extra ← extra_of i status
    content ← key chunk.content
    answer ← daemon_call deps dest (Action.write_chunk me backup_id i content approved extra)
    accept_chunk approved backup_id i dest_label answer

  -- `for i in range(count)`, from the chunk `i` on
  unfoldable pub copy_chunks :
      ℕ → ℕ → Config → Config → String → String → Bool → Payload → String → M Unit
  unfolding copy_chunk
  copy_chunks zero i src dest me backup_id approved status dest_label = pure tt
  copy_chunks (suc n) i src dest me backup_id approved status dest_label =
      copy_chunk src dest me backup_id approved status dest_label i >>= λ u.
      copy_chunks n (suc i) src dest me backup_id approved status dest_label

  -- the end of `transfer` when every chunk has been stored
  unfoldable pub finish : Config → Backup → String → Payload → M Unit
  finish src b dest_label status = do
    now ← gets (λ w. deps.clock w.events)
    update_row b.id (set_complete now)
    clean_up deps (some src) b.id
    total ← key status.total_bytes
    log (notified b.owner_user_id (backed_up b.name dest_label total))

  -- from the plan on, when the encryption is ready
  unfoldable pub send : Config → Config → String → Backup → Bool → String → Payload → M Unit
  unfolding copy_chunks finish
  send src dest me b approved dest_label status = do
    count ← key status.chunk_count
    total ← key status.total_bytes
    update_row b.id (set_plan total count)
    copy_chunks count 0 src dest me b.id approved status dest_label
    finish src b dest_label status

  -- the body of `try`, with both hosts' configurations
  unfoldable pub transfer_body :
      ℕ → Option Config → Option Config → String → Backup → Bool → String → M Unit
  unfolding await_ready send
  transfer_body fuel src dest me b approved dest_label = do
    s ← online src source_went_offline
    d ← online dest (dest_went_offline dest_label)
    start ← gets (λ w. deps.clock w.events)
    status ← await_ready fuel s b.id (start + prepare_timeout_seconds)
    send s d me b approved dest_label status

  -- `except BackupError`
  unfoldable pub give_up : Option Config → Backup → String → Why → M Unit
  give_up src b dest_label e = do
    update_row b.id (set_failed failed (because e))
    clean_up deps src b.id
    log (notified b.owner_user_id (backup_failed b.name dest_label e))

  unfoldable pub transfer_row : ℕ → Backup → Bool → M Unit
  unfolding transfer_body give_up
  transfer_row fuel b approved = do
    me ← gets (λ w. username w.db b.owner_user_id)
    dest_label ← gets (λ w. dest_name w.db b)
    src ← src_config deps b
    dest ← dest_config deps b
    attempt (transfer_body fuel src dest me b approved dest_label) (give_up src b dest_label) pure

  -- `transfer`: it starts with `b["owner_user_id"]`, so the row has to be there
  unfoldable pub transfer : ℕ → String → Bool → M Unit
  unfolding transfer_row
  transfer fuel backup_id approved w =
      (key (row w backup_id) >>= λ b. transfer_row fuel b approved) w
