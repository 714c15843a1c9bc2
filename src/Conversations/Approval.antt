-- ===== src/Conversations/Approval.antt =====
-- What is sent to a daemon as approved: nothing but the call that the user has just approved.
use doc_chat_template_scc.Common.{
  ℕ, zero, suc, ◌≡◌, refl, inl, inr, Bool, true, false, Option, none, some, List, [], ◌∷◌, String,
  str_eq, Bool-cases,
}
use doc_chat_template_scc.Conversations.Data.{
  Arguments, Call, Config, shell, read_file, write_file, Aggregate, Awaiting, Turn, Event, posted,
  asked_model, storage_read, storage_write, approval_created, Services, M, Context,
}
use doc_chat_template_scc.Conversations.Hosts.{
  get_config?, resolve_host, Resolved, resolved, unresolved,
}
use doc_chat_template_scc.Conversations.Dispatch.{
  Tier, allow, ask, deny, Outcome, dispatch_on, dispatch_shell_command, deliver_to, deliver,
  fetch_from, stored_content, call_transfer_file, dispatch_tool_call, is_storage, read_fetched,
}
use doc_chat_template_scc.Conversations.Turns.{
  Finished, pause, by_tier, end_round, after_response, round, answer_decision, start, drain_calls,
  drain_pending_calls, resume, rounds, run_turn, or_nil,
}
use doc_chat_template_scc.Conversations.Effects.{
  Asks, Asks-pure, Asks-perform, Asks-if, Asks-bind, Extends,
}

-- An event that is no approved shell command.
abbrev pub IsUnapproved : Event → Type 0
IsUnapproved (posted c (shell args true)) = ⊥
IsUnapproved (posted c (shell args false)) = Unit
IsUnapproved (posted c (read_file path)) = Unit
IsUnapproved (posted c (write_file path content)) = Unit
IsUnapproved (asked_model r) = Unit
IsUnapproved (storage_read p) = Unit
IsUnapproved (storage_write p c) = Unit
IsUnapproved (approval_created d t) = Unit

-- What a run may ask: an approved shell command has the arguments of the call that the turn
-- awaits an approval for, and the decision is there and is no denial.
abbrev pub Allowed : Turn → Option String → Event → Type 0
Allowed turn decision (posted c (shell args true)) =
    (p : Awaiting) × (d : String) × (turn.awaiting_approval ≡ some p)
    × (decision ≡ some d)
    × (str_eq d "deny" ≡ false)
    × (args ≡ p.args)
Allowed turn decision e = IsUnapproved e

unapproved-Allowed :
    (turn : Turn) (decision : Option String) (e : Event) → IsUnapproved e → Allowed turn decision e
unapproved-Allowed turn decision (posted c (shell args true)) h = absurd h
unapproved-Allowed turn decision (posted c (shell args false)) h = h
unapproved-Allowed turn decision (posted c (read_file p)) h = h
unapproved-Allowed turn decision (posted c (write_file p x)) h = h
unapproved-Allowed turn decision (asked_model r) h = h
unapproved-Allowed turn decision (storage_read p) h = h
unapproved-Allowed turn decision (storage_write p x) h = h
unapproved-Allowed turn decision (approval_created d t) h = h

module _ (services : Services) (ctx : Context) where
  module _ (P : Event → Type 0) where
    dispatch_on-Asks :
        (args : Arguments) (approved : Bool) (r : Resolved)
        → ((c : Config) → P (posted c (shell args approved)))
        → Asks P (dispatch_on services ctx args approved r)
    unfolding dispatch_on
    dispatch_on-Asks args approved (unresolved e) h = Asks-pure _
    dispatch_on-Asks args approved (resolved host config) h =
        Asks-if ctx.mock _ _ (Asks-pure _)
          (Asks-bind _ _ (Asks-perform _ _ (h config)) (λ r. Asks-pure _))

    dispatch_shell_command-Asks :
        (args : Arguments) (approved : Bool)
        → ((c : Config) → P (posted c (shell args approved)))
        → Asks P (dispatch_shell_command services ctx args approved)
    unfolding dispatch_shell_command
    dispatch_shell_command-Asks args approved h =
        dispatch_on-Asks args approved (resolve_host ctx.configs args.host ctx.default_host) h

    -- what holds of all events but approved shell commands
    module _ (other : (e : Event) → IsUnapproved e → P e) where
      deliver_to-Asks :
          (args : Arguments) (content : Option String) (c : Option Config)
          → Asks P (deliver_to services args content c)
      unfolding deliver_to
      deliver_to-Asks args content none = Asks-pure _
      deliver_to-Asks args content (some config) =
          Asks-bind _ _ (Asks-perform _ _ (other _ tt)) (λ r. Asks-pure _)

      deliver-Asks :
          (args : Arguments) (content : Option String) → Asks P (deliver services ctx args content)
      unfolding deliver
      deliver-Asks args content =
          Asks-if (is_storage args.destination) _ _
            (Asks-bind _ _ (Asks-perform _ _ (other _ tt)) (λ s. Asks-pure _))
            (deliver_to-Asks args content (get_config? ctx.configs args.destination))

      stored_content-Asks :
          (args : Arguments) (content : Option String)
          → Asks P (stored_content services ctx args content)
      unfolding stored_content
      stored_content-Asks args none = Asks-pure _
      stored_content-Asks args (some content) = deliver-Asks args (some content)

      fetch_from-Asks :
          (args : Arguments) (c : Option Config) → Asks P (fetch_from services ctx args c)
      unfolding fetch_from
      fetch_from-Asks args none = Asks-pure _
      fetch_from-Asks args (some config) =
          Asks-bind _ _ (Asks-perform _ _ (other _ tt))
            λ r. Asks-if (read_fetched r).success _ _ (deliver-Asks args _) (Asks-pure _)

      call_transfer_file-Asks : (args : Arguments) → Asks P (call_transfer_file services ctx args)
      unfolding call_transfer_file
      call_transfer_file-Asks args = Asks-if ctx.mock _ _ (Asks-pure _) (
          Asks-if (is_storage args.source) _ _
            (Asks-bind _ _ (Asks-perform _ _ (other _ tt)) (stored_content-Asks args))
            (fetch_from-Asks args (get_config? ctx.configs args.source)))

      dispatch_tool_call-Asks :
          (call : Call) (a : Aggregate) → Asks P (dispatch_tool_call services ctx call a)
      unfolding dispatch_tool_call
      dispatch_tool_call-Asks call a =
          Asks-if (str_eq call.name "transfer_file") _ _
            (Asks-bind _ _ (call_transfer_file-Asks call.arguments) (λ o. Asks-pure _))
            (Asks-pure _)

      by_tier-Asks :
          (go : Turn → M (Bool × Turn)) (turn : Turn) (call : Call) (rest : List Call) (o : Outcome)
          (tier : Tier)
          → ((t : Turn) → Asks P (go t))
          → Asks P (by_tier services ctx go turn call rest o tier)
      unfolding by_tier pause
      by_tier-Asks go turn call rest o ask h =
          Asks-bind _ _ (Asks-bind _ _ (Asks-perform _ _ (other _ tt)) (λ a. Asks-pure _))
            (λ t. Asks-pure _)
      by_tier-Asks go turn call rest o allow h = h _
      by_tier-Asks go turn call rest o deny h = h _

      drain_calls-Asks :
          (calls : List Call) (turn : Turn) → Asks P (drain_calls services ctx calls turn)
      unfolding drain_calls
      drain_calls-Asks [] turn = Asks-pure _
      drain_calls-Asks (call ∷ rest) turn =
          Asks-if (str_eq call.name "run_shell_command") _ _
            (Asks-bind _ _ (dispatch_shell_command-Asks call.arguments false (λ c. other _ tt))
              λ o. by_tier-Asks _ turn call rest o o.tier (drain_calls-Asks rest))
            (Asks-bind _ _ (dispatch_tool_call-Asks call turn.aggregate)
              λ r. drain_calls-Asks rest _)

      drain_pending_calls-Asks : (turn : Turn) → Asks P (drain_pending_calls services ctx turn)
      unfolding drain_pending_calls
      drain_pending_calls-Asks turn = drain_calls-Asks (or_nil turn.pending_calls) turn

      end_round-Asks :
          (go : Turn → M (Option Finished)) (b : Bool) (turn : Turn)
          → ((t : Turn) → Asks P (go t))
          → Asks P (end_round services ctx go b turn)
      unfolding end_round
      end_round-Asks go true turn h = Asks-pure _
      end_round-Asks go false turn h = h _

      after_response-Asks :
          (go : Turn → M (Option Finished)) (turn : Turn) (calls : List Call)
          → ((t : Turn) → Asks P (go t))
          → Asks P (after_response services ctx go turn calls)
      unfolding after_response
      after_response-Asks go turn [] h = Asks-pure _
      after_response-Asks go turn (call ∷ calls) h =
          Asks-bind _ _
            (drain_pending_calls-Asks
              (record turn { pending_calls = some (call ∷ calls); outputs = some [] }))
            (λ r. end_round-Asks go r.0 r.1 h)

      round-Asks :
          (go : Turn → M (Option Finished)) (turn : Turn) (calls : Option (List Call))
          → ((t : Turn) → Asks P (go t))
          → Asks P (round services ctx go turn calls)
      unfolding round
      round-Asks go turn (some calls) h =
          Asks-bind _ _ (drain_pending_calls-Asks turn) (λ r. end_round-Asks go r.0 r.1 h)
      round-Asks go turn none h =
          Asks-bind _ _ (Asks-perform _ _ (other _ tt)) (λ r. after_response-Asks go _ _ h)

      rounds-Asks : (fuel : ℕ) (turn : Turn) → Asks P (rounds services ctx fuel turn)
      unfolding rounds
      rounds-Asks zero turn = Asks-pure _
      rounds-Asks (suc fuel) turn = round-Asks _ turn turn.pending_calls (rounds-Asks fuel)

  resume-Asks :
      (turn : Turn) (paused : Awaiting) (d : String)
      → turn.awaiting_approval ≡ some paused
      → Asks (Allowed turn (some d)) (resume services ctx turn paused d)
  unfolding resume
  resume-Asks turn paused d waits = elim (Bool-cases (str_eq d "deny")) [
    | inl e ↦ rw e (Asks-pure _)
    | inr e ↦ rw e (
        Asks-bind _ _
          (dispatch_shell_command-Asks (Allowed turn (some d)) paused.args true
            (λ c. (paused, d, waits, refl, e, refl)))
          (λ o. Asks-pure _))
  ]

  start-Asks :
      (fuel : ℕ) (turn : Turn) (decision : Option String) (a : Option Awaiting)
      → turn.awaiting_approval ≡ a
      → Asks (Allowed turn decision) (start services ctx fuel turn decision a)
  unfolding start answer_decision
  start-Asks fuel turn decision none e =
      rounds-Asks (Allowed turn decision) (unapproved-Allowed turn decision) fuel turn
  start-Asks fuel turn none (some p) e = Asks-pure _
  start-Asks fuel turn (some d) (some p) e =
      Asks-bind _ _ (resume-Asks turn p d e)
        (rounds-Asks (Allowed turn (some d)) (unapproved-Allowed turn (some d)) fuel)

  -- Whatever the model asks for and the daemons answer, a run of a turn sends a daemon a shell
  -- command as approved only if the turn came in with an approval awaited, the run was given a
  -- decision other than a denial, and the command has the arguments that were awaiting it. Every
  -- other event of the run is no approved command; what had been asked before stays as it was.
  pub run_turn-Asks :
      (fuel : ℕ) (turn : Turn) (decision : Option String) (w : List Event)
      → Extends (Allowed turn decision) w (run_turn services ctx fuel turn decision w).1
  unfolding run_turn
  run_turn-Asks fuel turn decision w =
      (start-Asks fuel turn decision turn.awaiting_approval refl).at w
