-- ===== src/Conversations/Dispatch.antt =====
-- One tool call: a shell command or a file transfer.
use Prim.Native.String
use Prim.Native.Char.{code}
use doc_chat_template_scc.Common.{
  ℕ, Bool, false, not, ◌&&◌, ◌||◌, Option, none, some, [], ◌∷◌, ◌++◌, String, str_eq, if◌then◌else◌,
  ◌==◌, leb, is_empty, show_nat,
}
use doc_chat_template_scc.Conversations.Data.{
  Arguments, Call, Config, Reply, Response, unreachable, replied, Request, shell, read_file,
  write_file, bad_host, request_failed, invalid_key, http_error, not_in_storage, unknown_source,
  unknown_destination, source_failed, destination_failed, storage_refused, Output, shell_error,
  denied_by_policy, mock_shell, mock_transfer, shell_result, blank, transfer_error, transferred,
  unknown_tool, Aggregate, posted, storage_read, storage_write, Services, M, ◌>>=◌, pure, perform,
  Context,
}
use doc_chat_template_scc.Conversations.Hosts.{
  get_config?, Resolved, resolved, unresolved, resolve_host,
}

pub data Tier : Type 0 where
  allow ask deny : Tier

-- the triple that `_dispatch_shell_command` returns
pub record Outcome : Type 0 where
  pub tier : Tier
  pub output : Output
  pub host : Option String

-- the branch of a mocked call
unfoldable pub mock_outcome : String → Bool → Arguments → String → Outcome
mock_outcome mock_tier approved args host =
    if str_eq mock_tier "deny"
    then record { tier = deny; output = denied_by_policy; host = some host }
    else if str_eq mock_tier "ask" && not approved
    then record { tier = ask; output = blank; host = some host }
    else record { tier = allow; output = mock_shell args; host = some host }

-- `result.get("tier") or "deny"`
abbrev pub tier_text : Option String → String
tier_text none = "deny"
tier_text (some t) = if is_empty t then "deny" else t

-- `daemon_error_detail`
unfoldable pub daemon_error_detail : Option String → String → String
daemon_error_detail none fallback = fallback
daemon_error_detail (some detail) fallback = if is_empty detail then fallback else detail

abbrev pub http_text : ℕ → String
http_text status = String.◌++◌ "HTTP " (show_nat status)

-- what the daemon's reply comes to
unfoldable pub read_reply : Bool → String → Reply → Outcome
unfolding daemon_error_detail
read_reply approved host r =
    if r.status_code == 401
    then record { tier = deny; output = shell_error invalid_key; host = some host }
    else if leb 400 r.status_code
    then record {
      tier = deny;
      output = shell_error (http_error (daemon_error_detail r.detail (http_text r.status_code)));
      host = some host;
    }
    else if str_eq (tier_text r.tier) "deny"
    then record { tier = deny; output = denied_by_policy; host = some host }
    else if str_eq (tier_text r.tier) "ask" && not approved
    then record { tier = ask; output = blank; host = some host }
    else record { tier = allow; output = shell_result r.text; host = some host }

unfoldable pub read_response : Bool → String → Response → Outcome
unfolding read_reply
read_response approved host (unreachable why) = record {
  tier = deny;
  output = shell_error (request_failed why);
  host = some host;
}
read_response approved host (replied r) = read_reply approved host r

abbrev pub or_text : Option String → Option String
or_text none = some ""
or_text (some t) = some t

-- a reply of `_fetch_local_json`: the daemon's Result, or an error in the same shape
pub record Fetched : Type 0 where
  pub success : Bool
  pub stdout : Option String
  pub stderr : Option String

abbrev pub failed : Option String → Fetched
failed why = record { success = false; stdout = some ""; stderr = why }

unfoldable pub read_fetched : Response → Fetched
unfolding daemon_error_detail
read_fetched (unreachable why) = failed (some why)
read_fetched (replied r) =
    if r.status_code == 401
    then failed (some "Invalid API key.")
    else if leb 400 r.status_code
    then failed (some (daemon_error_detail r.detail (http_text r.status_code)))
    else record { success = r.success; stdout = r.stdout; stderr = r.stderr }

-- `path.replace("\\", "/").rsplit("/", 1)[-1]`, from the text read so far since a separator
unfoldable pub basename_from : String → String → String
basename_from acc String.[] = acc
basename_from acc (String.◌∷◌ c s) =
    basename_from
      (if code c == b'/' || code c == 92 then "" else String.◌++◌ acc (String.◌∷◌ c String.[])) s

abbrev pub basename : Option String → String
basename none = ""
basename (some path) = basename_from "" path

-- `source == SERVER_STORAGE`
abbrev pub is_storage : Option String → Bool
is_storage none = false
is_storage (some place) = str_eq place "server storage"

-- `if error:` on what `write_server_storage` returns
abbrev pub storage_output : Arguments → Option String → Output
storage_output args none = transferred args
storage_output args (some why) =
    if is_empty why
    then transferred args
    else transfer_error (storage_refused (basename args.destination_path) why)

module _ (services : Services) where
  abbrev pub post : Config → Request → M Response
  post config request = perform (posted config request) (λ w. services.daemon w config request)

  -- `_dispatch_shell_command`, with the host that it resolved
  unfoldable pub dispatch_on : Context → Arguments → Bool → Resolved → M Outcome
  unfolding mock_outcome read_response
  dispatch_on ctx args approved (unresolved e) =
      pure (record { tier = deny; output = shell_error (bad_host e); host = none })
  dispatch_on ctx args approved (resolved host config) =
      if ctx.mock
      then pure (mock_outcome ctx.mock_tier approved args host)
      else (post config (shell args approved) >>= λ r. pure (read_response approved host r))

  -- `_dispatch_shell_command`
  unfoldable pub dispatch_shell_command : Context → Arguments → Bool → M Outcome
  unfolding dispatch_on
  dispatch_shell_command ctx args approved =
      dispatch_on ctx args approved (resolve_host ctx.configs args.host ctx.default_host)

  -- `_call_transfer_file`, its write to the destination's machine
  unfoldable pub deliver_to : Arguments → Option String → Option Config → M Output
  unfolding read_fetched
  deliver_to args content none = pure (transfer_error (unknown_destination args.destination))
  deliver_to args content (some config) =
      post config (write_file args.destination_path content) >>= λ r. pure (
        if (read_fetched r).success
        then transferred args
        else transfer_error (destination_failed args.destination (read_fetched r).stderr))

  -- the destination's half of `_call_transfer_file`, with the content that was read
  unfoldable pub deliver : Context → Arguments → Option String → M Output
  unfolding deliver_to basename_from
  deliver ctx args content =
      if is_storage args.destination
      then (perform (storage_write (basename args.destination_path) content)
            (λ w. services.write_storage w (basename args.destination_path) content)
          >>= λ stored. pure (storage_output args stored.0))
      else deliver_to args content (get_config? ctx.configs args.destination)

  -- what follows a read from server storage
  unfoldable pub stored_content : Context → Arguments → Option String → M Output
  unfolding deliver
  stored_content ctx args none = pure (transfer_error (not_in_storage args.source_path))
  stored_content ctx args (some content) = deliver ctx args (some content)

  -- `_call_transfer_file`, its read from the source's machine
  unfoldable pub fetch_from : Context → Arguments → Option Config → M Output
  unfolding deliver read_fetched
  fetch_from ctx args none = pure (transfer_error (unknown_source args.source))
  fetch_from ctx args (some config) = post config (read_file args.source_path) >>= λ r.
      if (read_fetched r).success
      then deliver ctx args (or_text (read_fetched r).stdout)
      else pure (transfer_error (source_failed args.source (read_fetched r).stderr))

  -- `_call_transfer_file`
  unfoldable pub call_transfer_file : Context → Arguments → M Output
  unfolding stored_content fetch_from
  call_transfer_file ctx args =
      if ctx.mock
      then pure (mock_transfer args)
      else if is_storage args.source
      then (perform (storage_read args.source_path) (λ w. services.read_storage w args.source_path)
          >>= stored_content ctx args)
      else fetch_from ctx args (get_config? ctx.configs args.source)

  -- `_dispatch_tool_call`: every call but a shell command
  unfoldable pub dispatch_tool_call : Context → Call → Aggregate → M (Output × Aggregate)
  unfolding call_transfer_file
  dispatch_tool_call ctx call aggregate =
      if str_eq call.name "transfer_file"
      then (call_transfer_file ctx call.arguments >>= λ output. pure (
        output,
        record aggregate {
          transfer_calls = aggregate.transfer_calls ++ (call.arguments, output) ∷ [];
        },
      ))
      else pure (unknown_tool call.name, aggregate)
