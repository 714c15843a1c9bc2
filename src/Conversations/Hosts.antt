-- ===== src/Conversations/Hosts.antt =====
-- Which host a call runs on, and which tools the model is offered.
use doc_chat_template_scc.Common.{
  Option, none, some, is_some, List, [], ◌∷◌, ◌++◌, map, String, str_eq, if◌then◌else◌,
}
use doc_chat_template_scc.Policy.{Policy, compose_policy}
use doc_chat_template_scc.Conversations.Data.{
  Config, Configs, HostError, no_machines, several_machines, unknown_host, Tool, web_search,
  code_interpreter, image_generation, transfer_file, run_shell_command,
}

-- `configs.get(host)`
unfoldable pub get_config : Configs → String → Option Config
get_config [] host = none
get_config ((label, config) ∷ configs) host =
    if str_eq label host then some config else get_config configs host

abbrev pub labels : Configs → List String
labels configs = map (λ c. c.0) configs

-- `configs.get(host)` where the host may be missing
abbrev pub get_config? : Configs → Option String → Option Config
get_config? configs none = none
get_config? configs (some host) = get_config configs host

pub data Resolved : Type 0 where
  resolved : String → Config → Resolved
  unresolved : HostError → Resolved

-- the end of `resolve_host`, with a host that was named or chosen
unfoldable pub look_up : Configs → String → Resolved
unfolding get_config
look_up configs host = elim (get_config configs host) [
  | none ↦ unresolved (unknown_host (some host) (labels configs))
  | some config ↦ resolved host config
]

abbrev pub with_default : Configs → Option String → Resolved
with_default configs default_host = elim default_host [
  | none ↦ unresolved (several_machines (labels configs))
  | some host ↦
      if is_some (get_config configs host)
      then look_up configs host
      else unresolved (several_machines (labels configs))
]

unfoldable pub resolve_host : Configs → Option String → Option String → Resolved
unfolding look_up
resolve_host [] host default_host = unresolved no_machines
resolve_host ((label, config) ∷ configs) (some host) default_host =
    look_up ((label, config) ∷ configs) host
resolve_host ((label, config) ∷ []) none default_host = look_up ((label, config) ∷ []) label
resolve_host ((label, config) ∷ c ∷ configs) none default_host =
    with_default ((label, config) ∷ c ∷ configs) default_host

-- the hosts that have a policy, with it: the lines of the shell tool's description
unfoldable pub policy_lines : Configs → List (String × Policy)
policy_lines [] = []
policy_lines ((host, config) ∷ configs) =
    let rest = policy_lines configs in
    elim (compose_policy config.policy_layers) [
      | [] ↦ rest
      | rule ∷ rules ↦ (host, rule ∷ rules) ∷ rest
    ]

-- `_build_shell_tool`, as the tools that it adds
unfoldable pub shell_tools : Configs → List Tool
unfolding policy_lines
shell_tools configs = elim (policy_lines configs) [
  | [] ↦ []
  | line ∷ lines ↦ run_shell_command (labels configs) (line ∷ lines) ∷ []
]

abbrev pub transfer_tools : Configs → List Tool
transfer_tools [] = []
transfer_tools (c ∷ configs) = transfer_file (labels (c ∷ configs) ++ "server storage" ∷ []) ∷ []

unfoldable pub build_tools : Configs → List Tool
unfolding shell_tools
build_tools configs =
    (web_search ∷ code_interpreter ∷ image_generation ∷ [])
    ++ (transfer_tools configs ++ shell_tools configs)
