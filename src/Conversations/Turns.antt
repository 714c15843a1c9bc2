-- ===== src/Conversations/Turns.antt =====
-- The loop of a turn: `_drain_pending_calls`, `_extract_response` and `run_turn`.
use Prim.Native.String
use doc_chat_template_scc.Common.{
  ℕ, zero, suc, Bool, true, false, not, Option, none, some, List, [], ◌∷◌, ◌++◌, map, String,
  str_eq, is_empty, is_some, if◌then◌else◌,
}
use doc_chat_template_scc.Policy.{CallOption}
use doc_chat_template_scc.Conversations.Data.{
  Arguments, Call, Output, denied_by_user, Item, user_message, function_call_output, Aggregate,
  Awaiting, Turn, ModelRequest, OutputItem, ModelResponse, Description, asked_model,
  approval_created, Services, M, ◌>>=◌, pure, perform, Context,
}
use doc_chat_template_scc.Conversations.Hosts.{build_tools}
use doc_chat_template_scc.Conversations.Dispatch.{
  Tier, allow, ask, deny, Outcome, dispatch_shell_command, dispatch_tool_call,
}

abbrev pub empty_aggregate : Aggregate
empty_aggregate = record {
  searches = [];
  sources = [];
  code_blocks = [];
  transfer_calls = [];
  shell_command_calls = [];
  image = none;
}

unfoldable pub new_turn_from_message : String → Turn
new_turn_from_message message = record {
  input = user_message message ∷ [];
  aggregate = empty_aggregate;
  full_response = "";
  pending_calls = none;
  outputs = none;
  previous_response_id = none;
  awaiting_approval = none;
}

abbrev pub tool_call_message : String → String
tool_call_message name = String.◌++◌ "(tool call: " (String.◌++◌ name ")")

-- `call_id` is the fresh id that the source draws
unfoldable pub new_turn_from_tool_call : String → String → Arguments → Turn
new_turn_from_tool_call fresh_id tool args =
    let call : Call = record { call_id = fresh_id; name = tool; arguments = args } in
    record {
      input = user_message (tool_call_message tool) ∷ [];
      aggregate = empty_aggregate;
      full_response = "";
      pending_calls = some (call ∷ []);
      outputs = some (Item.function_call call ∷ []);
      previous_response_id = none;
      awaiting_approval = none;
    }

abbrev pub is_in_flight_turn : Turn → Bool
is_in_flight_turn turn = if is_some turn.pending_calls then true else is_some turn.awaiting_approval

unfoldable pub is_in_flight : Option Turn → Bool
is_in_flight none = false
is_in_flight (some turn) = is_in_flight_turn turn

abbrev pub or_nil {ℓ} : {A : Type ℓ} → Option (List A) → List A
or_nil none = []
or_nil (some xs) = xs

-- `f"--{long}" if opt.get("long") else f"-{opt.get('short')}"`
abbrev pub short_name : Option String → String
short_name none = "-None"
short_name (some s) = String.◌++◌ "-" s

abbrev pub option_name : Option String → Option String → String
option_name none short = short_name short
option_name (some l) short = if is_empty l then short_name short else String.◌++◌ "--" l

abbrev pub option_part : CallOption → String
option_part o = elim o.value [
  | none ↦ option_name o.long o.short
  | some v ↦ String.◌++◌ (option_name o.long o.short) (String.◌++◌ " " v)
]

abbrev pub describe_positional : List String → List String
describe_positional [] = []
describe_positional (binary ∷ rest) = rest

abbrev pub first_text : List String → String
first_text [] = ""
first_text (binary ∷ rest) = binary

-- `_describe_call_args` and the text around it, by its parts
unfoldable pub describe_call : Arguments → Option String → Description
describe_call args resolved_host = record {
  binary = first_text (or_nil args.positional_args);
  parts =
      describe_positional (or_nil args.positional_args) ++ map option_part (or_nil args.options);
  host = resolved_host;
}

abbrev pub log_shell : Arguments → Output → Aggregate → Aggregate
log_shell args output a = record a {
  shell_command_calls = a.shell_command_calls ++ (args, output) ∷ [];
}

-- what a turn holds when a call has been answered: the rest of the calls, and one more output
abbrev pub answered : Turn → Call → List Call → Output → Turn
answered turn call rest output = record turn {
  pending_calls = some rest;
  outputs = some (or_nil turn.outputs ++ function_call_output call.call_id output ∷ []);
}

-- the turn as it is when `create_pending_approval` takes its snapshot
abbrev pub paused_turn : Turn → Call → Option String → Option String → Turn
paused_turn turn call h approval = record turn {
  awaiting_approval =
      some (record {
        call_id = call.call_id;
        host = h;
        args = call.arguments;
        approval_id = approval;
      });
}

-- `_extract_response`'s metadata
pub record Meta : Type 0 where
  pub searches : List String
  pub sources : List (String × String)
  pub code_blocks : List String
  pub function_calls : List Call
  pub image : Option String

abbrev pub empty_meta : Meta
empty_meta = record {
  searches = [];
  sources = [];
  code_blocks = [];
  function_calls = [];
  image = none;
}

abbrev pub citations : List (Option (String × String)) → List (String × String)
citations [] = []
citations (none ∷ xs) = citations xs
citations (some c ∷ xs) = c ∷ citations xs

-- `getattr(item, …)` with a text that is there and not empty
abbrev pub present : Option String → Bool
present none = false
present (some t) = not (is_empty t)

abbrev pub add_search : Option String → List String → List String
add_search none xs = xs
add_search (some q) xs = xs ++ q ∷ []

abbrev pub add_code : Option String → List String → List String
add_code none xs = xs
add_code (some c) xs = if is_empty c then xs else xs ++ c ∷ []

unfoldable pub add_item : Meta → OutputItem → Meta
add_item m (OutputItem.image_generation_call result) =
    if present result then record m { image = result } else m
add_item m (OutputItem.web_search_call query) = record m { searches = add_search query m.searches }
add_item m (OutputItem.code_interpreter_call source) = record m {
  code_blocks = add_code source m.code_blocks;
}
add_item m (OutputItem.function_call call) = record m {
  function_calls = m.function_calls ++ call ∷ [];
}
add_item m (OutputItem.message annotations) = record m {
  sources = m.sources ++ citations annotations;
}
add_item m OutputItem.other = m

unfoldable pub extract_from : Meta → List OutputItem → Meta
unfolding add_item
extract_from m [] = m
extract_from m (item ∷ items) = extract_from (add_item m item) items

unfoldable pub extract_response : ModelResponse → String × Meta
unfolding extract_from
extract_response r = (r.output_text, extract_from empty_meta r.output)

abbrev pub newer : Option String → Option String → Option String
newer none old = old
newer (some i) old = some i

-- the turn after a response of the model, up to the test for function calls
unfoldable pub absorb : Turn → ModelResponse → Turn
unfolding extract_response
absorb turn response =
    let m = (extract_response response).1 in
    let a = turn.aggregate in
    record turn {
      previous_response_id = some response.id;
      full_response = String.◌++◌ turn.full_response response.output_text;
      aggregate = record a {
        searches = a.searches ++ m.searches;
        sources = a.sources ++ m.sources;
        code_blocks = a.code_blocks ++ m.code_blocks;
        image = newer m.image a.image;
      };
    }

-- the result of `run_turn`: `none` is a pause for an approval
abbrev pub Finished : Type 0
Finished = Option String × Turn

abbrev pub instructions_of : String → Option String
instructions_of prompt = if is_empty prompt then none else some prompt

abbrev pub model_request : Context → Turn → ModelRequest
model_request ctx turn = record {
  input = turn.input;
  instructions = instructions_of ctx.system_prompt;
  previous_response_id = turn.previous_response_id;
  tools = build_tools ctx.configs;
}

-- the end of a round: the outputs are the next input
abbrev pub next_hop : Turn → Turn
next_hop turn = record turn { input = or_nil turn.outputs; pending_calls = none; outputs = none }

module _ (services : Services) (ctx : Context) where
  -- the pause of a call that needs an approval
  unfoldable pub pause : Turn → Call → Option String → M Turn
  unfolding describe_call
  pause turn call resolved_host =
      let snapshot = paused_turn turn call resolved_host none in
      let description = describe_call call.arguments resolved_host in
      perform (approval_created description snapshot)
        (λ w. services.create_approval w description snapshot)
      >>= λ approval_id. pure (paused_turn turn call resolved_host (some approval_id))

  abbrev pub answer_shell : Turn → Call → List Call → Output → Turn
  answer_shell turn call rest output =
      answered (record turn { aggregate = log_shell call.arguments output turn.aggregate }) call
        rest output

  -- a shell command by its tier: a pause, or an answer and the rest of the calls
  unfoldable pub by_tier :
      (Turn → M (Bool × Turn)) → Turn → Call → List Call → Outcome → Tier → M (Bool × Turn)
  unfolding pause
  by_tier go turn call rest o ask = pause turn call o.host >>= λ t. pure (true, t)
  by_tier go turn call rest o allow = go (answer_shell turn call rest o.output)
  by_tier go turn call rest o deny = go (answer_shell turn call rest o.output)

  -- `_drain_pending_calls`, with the pending calls as the argument that falls; `true` is a pause
  unfoldable pub drain_calls : List Call → Turn → M (Bool × Turn)
  unfolding by_tier
  drain_calls [] turn = pure (false, turn)
  drain_calls (call ∷ rest) turn =
      if str_eq call.name "run_shell_command"
      then (dispatch_shell_command services ctx call.arguments false >>= λ o.
          by_tier (drain_calls rest) turn call rest o o.tier)
      else (dispatch_tool_call services ctx call turn.aggregate >>= λ r.
          drain_calls rest (answered (record turn { aggregate = r.1 }) call rest r.0))

  unfoldable pub drain_pending_calls : Turn → M (Bool × Turn)
  unfolding drain_calls
  drain_pending_calls turn = drain_calls (or_nil turn.pending_calls) turn

  abbrev pub drop_first : List Call → List Call
  drop_first [] = []
  drop_first (call ∷ rest) = rest

  -- the turn when a paused call has been answered
  unfoldable pub resolve_paused : Turn → Awaiting → Output → Turn
  resolve_paused turn paused output = record turn {
    awaiting_approval = none;
    aggregate = log_shell paused.args output turn.aggregate;
    outputs = some (or_nil turn.outputs ++ function_call_output paused.call_id output ∷ []);
    pending_calls = some (drop_first (or_nil turn.pending_calls));
  }

  -- the branch for a decision: a denial, or the same call sent again as approved
  unfoldable pub resume : Turn → Awaiting → String → M Turn
  unfolding resolve_paused
  resume turn paused decision =
      if str_eq decision "deny"
      then pure (resolve_paused turn paused denied_by_user)
      else (dispatch_shell_command services ctx paused.args true >>= λ o.
          pure (resolve_paused turn paused o.output))

  -- the end of a round: a pause returns, and else the outputs are the next input
  unfoldable pub end_round : (Turn → M (Option Finished)) → Bool → Turn → M (Option Finished)
  end_round go true turn = pure (some (none, turn))
  end_round go false turn = go (next_hop turn)

  -- the test for function calls in the response of the model
  unfoldable pub after_response :
      (Turn → M (Option Finished)) → Turn → List Call → M (Option Finished)
  unfolding drain_pending_calls end_round
  after_response go turn [] = pure (some (some turn.full_response, turn))
  after_response go turn (call ∷ calls) =
      drain_pending_calls (record turn { pending_calls = some (call ∷ calls); outputs = some [] })
      >>= λ r. end_round go r.0 r.1

  unfoldable pub round :
      (Turn → M (Option Finished)) → Turn → Option (List Call) → M (Option Finished)
  unfolding after_response absorb
  round go turn (some calls) = drain_pending_calls turn >>= λ r. end_round go r.0 r.1
  round go turn none =
      perform (asked_model (model_request ctx turn))
        (λ w. services.model w (model_request ctx turn))
      >>= λ response.
          after_response go (absorb turn response) (extract_response response).1.function_calls

  -- the rounds of `while True` when no approval is awaited; `none` is out of fuel
  unfoldable pub rounds : ℕ → Turn → M (Option Finished)
  unfolding round
  rounds zero turn = pure none
  rounds (suc fuel) turn = round (λ t. rounds fuel t) turn turn.pending_calls

  unfoldable pub answer_decision : ℕ → Turn → Awaiting → Option String → M (Option Finished)
  unfolding resume rounds
  answer_decision fuel turn paused none = pure (some (none, turn))
  answer_decision fuel turn paused (some d) = resume turn paused d >>= rounds fuel

  unfoldable pub start : ℕ → Turn → Option String → Option Awaiting → M (Option Finished)
  unfolding answer_decision
  start fuel turn decision none = rounds fuel turn
  start fuel turn decision (some paused) = answer_decision fuel turn paused decision

  -- `run_turn`. An approval is awaited only in the first round: a pause returns.
  unfoldable pub run_turn : ℕ → Turn → Option String → M (Option Finished)
  unfolding start
  run_turn fuel turn decision = start fuel turn decision turn.awaiting_approval
