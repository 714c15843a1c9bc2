-- ===== src/Conversations/Examples.antt =====
-- A turn that waits for an approval, on a machine that allows everything.
use doc_chat_template_scc.Common.{◌≡◌, refl, true, false, Option, none, some, List, [], ◌∷◌}
use doc_chat_template_scc.Conversations.Data.{
  Arguments, Config, Reply, replied, shell, Turn, ModelResponse, Event, posted, Services, Context,
  ◌>>=◌, pure, perform,
}
use doc_chat_template_scc.Conversations.Hosts.{resolve_host}
use doc_chat_template_scc.Conversations.Dispatch.{dispatch_shell_command}
use doc_chat_template_scc.Conversations.Turns.{empty_aggregate, run_turn}
use doc_chat_template_scc.Conversations.Effects.{Extends}
use doc_chat_template_scc.Conversations.Approval.{Allowed, run_turn-Asks}

abbrev allowed : Reply
allowed = record {
  status_code = 200;
  detail = none;
  tier = some "allow";
  success = true;
  stdout = some "done";
  stderr = none;
  text = "done";
}

abbrev finished : ModelResponse
finished = record { id = "r1"; output = []; output_text = "Finished." }

abbrev services : Services
services = record {
  daemon = λ w c r. replied allowed;
  model = λ w r. finished;
  read_storage = λ w path. none;
  write_storage = λ w name content. (none, 0);
  create_approval = λ w d t. "a1";
}

abbrev laptop : Config
laptop = record { url = "http://laptop"; api_key = "key"; policy_layers = [] }

abbrev one_machine : Context
one_machine = record {
  configs = ("laptop", laptop) ∷ [];
  default_host = none;
  mock = false;
  system_prompt = "";
  mock_tier = "allow";
}

abbrev remove_notes : Arguments
remove_notes = record {
  positional_args = some ("rm" ∷ "notes" ∷ []);
  options = none;
  path = none;
  host = none;
  source = none;
  source_path = none;
  destination = none;
  destination_path = none;
}

abbrev waiting : Turn
waiting = record {
  input = [];
  aggregate = empty_aggregate;
  full_response = "";
  pending_calls =
      some ((record { call_id = "c1"; name = "run_shell_command"; arguments = remove_notes }) ∷ []);
  outputs = some [];
  previous_response_id = none;
  awaiting_approval = some (record {
    call_id = "c1";
    host = some "laptop";
    args = remove_notes;
    approval_id = some "a1";
  });
}

-- the approved call is sent first
first_event : List Event → Option Event
first_event [] = none
first_event (e ∷ es) = some e

approved_test :
    first_event (run_turn services one_machine 5 waiting (some "approve") []).1
    ≡ some (posted laptop (shell remove_notes true))
unfolding first_event run_turn ◌>>=◌ pure perform dispatch_shell_command resolve_host
approved_test = refl

run_turn-Asks_example :
    Extends
      (Allowed waiting (some "approve"))
      []
      (run_turn services one_machine 5 waiting (some "approve") []).1
run_turn-Asks_example = run_turn-Asks services one_machine 5 waiting (some "approve") []
