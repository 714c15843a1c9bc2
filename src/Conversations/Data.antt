-- ===== src/Conversations/Data.antt =====
-- The data of a turn, the requests that it makes of the world, and the monad of its effects.
-- Texts that the code formats from parts (messages, JSON) are constructors over the parts. The
-- arguments of a tool call are those that its JSON text decodes to, under the two tools' schemas.
use doc_chat_template_scc.Common.{ℕ, Bool, Option, List, [], ◌∷◌, ◌++◌, String}
use doc_chat_template_scc.Policy.{CallOption, Layers, Policy}

-- the arguments of `run_shell_command` and `transfer_file`
pub record Arguments : Type 0 where
  pub positional_args : Option (List String)
  pub options : Option (List CallOption)
  pub path : Option String
  pub host : Option String
  pub source : Option String
  pub source_path : Option String
  pub destination : Option String
  pub destination_path : Option String

pub record Call : Type 0 where
  pub call_id : String
  pub name : String
  pub arguments : Arguments

-- an entry of the `configs` dictionary
pub record Config : Type 0 where
  pub url : String
  pub api_key : String
  pub policy_layers : Layers

abbrev pub Configs : Type 0
Configs = List (String × Config)

-- the error texts of `resolve_host`
pub data HostError : Type 0 where
  no_machines : HostError
  several_machines : List String → HostError
  unknown_host : Option String → List String → HostError

-- The Result of a daemon, as far as the code reads it, and its whole text.
pub record Reply : Type 0 where
  pub status_code : ℕ
  pub detail : Option String
  pub tier : Option String
  pub success : Bool
  pub stdout : Option String
  pub stderr : Option String
  pub text : String

-- an answer to a POST: it failed on the way, or there is a reply
pub data Response : Type 0 where
  unreachable : String → Response
  replied : Reply → Response

-- what is sent to a daemon
pub data Request : Type 0 where
  shell : (args : Arguments) (approved : Bool) → Request
  read_file : (path : Option String) → Request
  write_file : (path : Option String) (content : Option String) → Request

pub data ShellError : Type 0 where
  bad_host : HostError → ShellError
  request_failed : String → ShellError
  invalid_key : ShellError
  http_error : String → ShellError

pub data TransferError : Type 0 where
  not_in_storage unknown_source unknown_destination : Option String → TransferError
  source_failed destination_failed : Option String → Option String → TransferError
  storage_refused : String → String → TransferError

-- the text that answers a tool call
pub data Output : Type 0 where
  shell_error : ShellError → Output
  denied_by_policy denied_by_user : Output
  mock_shell mock_transfer : Arguments → Output
  shell_result : String → Output
  blank : Output
  transfer_error : TransferError → Output
  transferred : Arguments → Output
  unknown_tool : String → Output

-- entries of `input` and `outputs`
pub data Item : Type 0 where
  user_message : String → Item
  function_call : Call → Item
  function_call_output : (call_id : String) → Output → Item

pub record Aggregate : Type 0 where
  pub searches : List String
  pub sources : List (String × String)
  pub code_blocks : List String
  pub transfer_calls : List (Arguments × Output)
  pub shell_command_calls : List (Arguments × Output)
  pub image : Option String

pub record Awaiting : Type 0 where
  pub call_id : String
  pub host : Option String
  pub args : Arguments
  pub approval_id : Option String

pub record Turn : Type 0 where
  pub input : List Item
  pub aggregate : Aggregate
  pub full_response : String
  pub pending_calls : Option (List Call)
  pub outputs : Option (List Item)
  pub previous_response_id : Option String
  pub awaiting_approval : Option Awaiting

-- what `build_tools` offers: the built-in tools, the transfer tool with its places, and the shell
-- tool with each host's composed policy
pub data Tool : Type 0 where
  web_search code_interpreter image_generation : Tool
  transfer_file : List String → Tool
  run_shell_command : List String → List (String × Policy) → Tool

pub record ModelRequest : Type 0 where
  pub input : List Item
  pub instructions : Option String
  pub previous_response_id : Option String
  pub tools : List Tool

-- an item of a response's `output`; fields that may be absent are read with `getattr`
pub data OutputItem : Type 0 where
  image_generation_call : Option String → OutputItem
  web_search_call : Option String → OutputItem
  code_interpreter_call : Option String → OutputItem
  function_call : Call → OutputItem
  message : List (Option (String × String)) → OutputItem
  other : OutputItem

pub record ModelResponse : Type 0 where
  pub id : String
  pub output : List OutputItem
  pub output_text : String

-- the parts of the description of a pending approval
pub record Description : Type 0 where
  pub binary : String
  pub parts : List String
  pub host : Option String

-- What a turn asks of the world.
pub data Event : Type 0 where
  posted : Config → Request → Event
  asked_model : ModelRequest → Event
  storage_read : Option String → Event
  storage_write : String → Option String → Event
  approval_created : Description → Turn → Event

-- The world answers by what it has been asked so far: it may change its mind at any time.
pub record Services : Type 0 where
  pub daemon : List Event → Config → Request → Response
  pub model : List Event → ModelRequest → ModelResponse
  pub read_storage : List Event → Option String → Option String
  pub write_storage : List Event → String → Option String → Option String × ℕ
  pub create_approval : List Event → Description → Turn → String

-- An effect: the events so far, and those after it.
abbrev pub M : Type 0 → Type 0
M A = List Event → A × List Event

infixl 5 ◌>>=◌ ◌>>◌
unfoldable pub ◌>>=◌ : {A B : Type 0} → M A → (A → M B) → M B
◌>>=◌ m f w = let (a, w') = m w in f a w'

abbrev pub ◌>>◌ : {A B : Type 0} → M A → M B → M B
m >> k = m >>= λ _. k

unfoldable pub pure : {A : Type 0} → A → M A
pure a w = (a, w)

-- one question to the world
unfoldable pub perform : {A : Type 0} → Event → (List Event → A) → M A
perform e answer w = (answer w, w ++ e ∷ [])

-- `DispatchContext`; the callbacks are in `Services`
pub record Context : Type 0 where
  pub configs : Configs
  pub default_host : Option String
  pub mock : Bool
  pub system_prompt : String
  pub mock_tier : String
