-- ===== src/Agent/Calls/Caps.antt =====
-- internal/agent/run_state.go: how often a call may be repeated, and under which key it is cached.
use mathlib.Core.List.{reverse}
use openclawssy.Base.{
  ℕ, Bool, ◌&&◌, ◌||◌, not, Option, none, some, List, [], ◌∷◌, ◌++◌, drop, Text, codes, text_eq,
  ◌==◌, trim, to_lower, has_prefix, contains_text, contains, if◌then◌else◌, Map, lookup, length,
}
use openclawssy.Agent.Calls.Keys.{
  ToolCallRequest, Value, string, null, other, Library, parse_tool_args, first_trimmed, first_n,
  has_suffix, normalize_task_id_for_repetition, one_shot_mutation_repetition_key,
}

abbrev bar : Text → Text → Text
bar a b = a ++ (b'|' ∷ b)

-- A key with the number of attempts that it allows.
abbrev pub Capped : Type 0
Capped = Option (Text × ℕ)

message_of : Map Text Value → Text
message_of args =
    first_trimmed args
      (codes "message" ∷ codes "content" ∷ codes "text" ∷ codes "body" ∷ codes "prompt" ∷ [])

-- The keys of agent.message.send and of agent.run: by the task, or else by the message.
by_task : Library → Text → Text → Map Text Value → Capped
unfolding message_of
by_task lib name agent_id args =
    let task_id =
      normalize_task_id_for_repetition lib
        (first_trimmed args (codes "task_id" ∷ codes "taskId" ∷ [])) in
    if agent_id == []
    then none
    else if not (task_id == [])
    then some (bar name (bar agent_id task_id), 1)
    else if message_of args == []
    then none
    else some (bar name (bar agent_id (first_n 80 (to_lower (message_of args)))), 1)

unfoldable pub normalized_memory_write_key : Library → Text → Option Text
normalized_memory_write_key lib arguments = elim (parse_tool_args lib arguments) [
  | none ↦ none
  | some payload ↦
      let title = first_trimmed payload (codes "title" ∷ codes "name" ∷ codes "key" ∷ []) in
      let content =
        first_trimmed payload
          (codes "content" ∷ codes "summary" ∷ codes "text" ∷ codes "value" ∷ []) in
      let kind = first_trimmed payload (codes "kind" ∷ codes "type" ∷ []) in
      if title == [] && content == []
      then none
      else some (bar (to_lower kind) (bar (to_lower title) (first_n 160 (to_lower content))))
]

unfoldable pub extract_path_from_tool_args : Library → Text → Text
extract_path_from_tool_args lib arguments = elim (parse_tool_args lib arguments) [
  | none ↦ []
  | some payload ↦
      first_trimmed payload (codes "path" ∷ codes "file" ∷ codes "target" ∷ codes "filename" ∷ [])
]

unfoldable pub repetition_cap_for_tool_path : Text → Text → Option ℕ
repetition_cap_for_tool_path tool path =
    let lower = to_lower (trim path) in
    let journal = contains_text lower (codes "journal") || contains_text lower (codes "diary") in
    let build_log = contains_text lower (codes "build_log") in
    let spec = has_suffix lower (codes "_spec.md") || has_suffix lower (codes "/spec.md") in
    if tool == codes "fs.append"
    then some (if build_log then 16 else if journal then 24 else 16)
    else if tool == codes "fs.write"
    then some (if build_log then 6 else if journal then 4 else 12)
    else if tool == codes "fs.read"
    then some (if build_log then 6 else if spec then 6 else if journal then 4 else 6)
    else none

unfoldable pub state_readers : List Text
state_readers =
    codes "scheduler.list"
    ∷ codes "policy.list"
    ∷ codes "config.get"
    ∷ codes "session.list"
    ∷ codes "agent.list"
    ∷ codes "run.list"
    ∷ codes "run.get"
    ∷ codes "metrics.get"
    ∷ []

or_here : Text → Text
or_here path = if path == [] then codes "." else path

becomussy_cap : Text → ℕ
becomussy_cap name =
    if has_suffix name (codes ".create")
      || has_suffix name (codes ".propose")
      || has_suffix name (codes ".reinforce")
    then 2
    else 6

shell_key : Library → Text → Map Text Value → Capped
shell_key lib name args =
    let command = first_trimmed args (codes "command" ∷ codes "cmd" ∷ []) in
    let encoded : Text = elim (lookup (codes "args") args) [
      | none ↦ []
      | some value ↦ elim value [
        | string t ↦ lib.marshal_string t
        | null ↦ codes "null"
        | other t ↦ t
      ]
    ] in
    some (bar name (bar command (first_n 120 encoded)), 3)

path_key : Library → Text → Text → Capped
unfolding repetition_cap_for_tool_path
path_key lib name arguments =
    let path = extract_path_from_tool_args lib arguments in
    if path == [] then none else elim (repetition_cap_for_tool_path name path) [
      | none ↦ none
      | some limit ↦ some (bar name path, limit)
    ]

-- The cases of the calls that are no mutations of the first kind, by name.
capped_call : Library → Text → Text → Capped
unfolding by_task normalized_memory_write_key state_readers or_here becomussy_cap shell_key path_key
capped_call lib name arguments =
    let args = parse_tool_args lib arguments in
    if name == codes "agent.message.send"
    then elim args [
      | none ↦ none
      | some args ↦
          by_task lib name
            (first_trimmed args (
              codes "to_agent_id"
              ∷ codes "agent_id"
              ∷ codes "target_agent"
              ∷ codes "targetAgent"
              ∷ codes "agentId"
              ∷ []))
            args
    ]
    else if name == codes "agent.message.inbox"
    then elim args [
      | none ↦ none
      | some args ↦
          let agent_id = first_trimmed args (codes "agent_id" ∷ codes "id" ∷ codes "agent" ∷ []) in
          some (bar name (if agent_id == [] then codes "self" else agent_id), 2)
    ]
    else if name == codes "agent.run"
    then elim args [
      | none ↦ none
      | some args ↦
          by_task lib name
            (first_trimmed args (
              codes "agent_id"
              ∷ codes "to_agent_id"
              ∷ codes "target_agent"
              ∷ codes "targetAgent"
              ∷ codes "agentId"
              ∷ []))
            args
    ]
    else if name == codes "memory.write"
    then elim (normalized_memory_write_key lib arguments) [
      | none ↦ none
      | some key ↦ some (bar name key, 2)
    ]
    else if contains state_readers name
    then some (name, 3)
    else if has_prefix name (codes "becomussy.")
    then some (bar name arguments, becomussy_cap name)
    else if name == codes "fs.list"
    then some (bar name (or_here (extract_path_from_tool_args lib arguments)), 4)
    else if name == codes "fs.mkdir"
    then some (bar name (or_here (extract_path_from_tool_args lib arguments)), 1)
    else if name == codes "shell.exec"
    then elim args [ none ↦ none | some args ↦ shell_key lib name args ]
    else if name == codes "fs.write" || name == codes "fs.append" || name == codes "fs.read"
    then path_key lib name arguments
    else none

unfoldable pub repeated_call_repetition_key : Library → ToolCallRequest → Capped
unfolding capped_call
repeated_call_repetition_key lib call =
    let name = trim call.name in
    elim (one_shot_mutation_repetition_key lib name call.arguments) [
      | some key ↦ some (key, if name == codes "agent.identity.set" then 2 else 1)
      | none ↦ capped_call lib name call.arguments
    ]

-- The port that a scheme implies is left out.
without_port : Text → Text → Text → Text → Text
without_port scheme host named port =
    if has_suffix host port && scheme == named
    then reverse (drop (length port) (reverse host))
    else host

unfoldable pub normalize_request_url : Library → Text → Text
unfolding without_port
normalize_request_url lib raw =
    let trimmed = trim raw in
    if trimmed == [] then [] else elim (lib.parse_url trimmed) [
      | none ↦ to_lower trimmed
      | some url ↦
          let scheme = to_lower url.scheme in
          let host = without_port scheme (to_lower url.host) (codes "http") (codes ":80") in
          let host' = without_port scheme host (codes "https") (codes ":443") in
          lib.print_url (record url {
            scheme = scheme;
            host = host';
            path = if url.path == [] then codes "/" else url.path;
            fragment = [];
          })
    ]

unfoldable pub normalized_http_request_cache_key : Library → Text → Option Text
unfolding normalize_request_url
normalized_http_request_cache_key lib arguments = elim (parse_tool_args lib arguments) [
  | none ↦ none
  | some payload ↦
      let raw_url = first_trimmed payload (codes "url" ∷ codes "uri" ∷ codes "endpoint" ∷ []) in
      let method = lib.to_upper (first_trimmed payload (codes "method" ∷ [])) in
      let body = first_trimmed payload (codes "body" ∷ codes "data" ∷ codes "payload" ∷ []) in
      if raw_url == []
      then none
      else some (
          bar (if method == [] then codes "GET" else method)
            (bar (normalize_request_url lib raw_url) (first_n 200 body)))
]

unfoldable pub is_uncacheable : Text → Bool
unfolding state_readers
is_uncacheable name =
    name == codes "fs.list"
    || name == codes "fs.read"
    || contains state_readers name
    || has_prefix name (codes "becomussy.")

-- The key "|" says that a call is not cached.
unfoldable pub tool_call_cache_key : Library → ToolCallRequest → Text
unfolding is_uncacheable normalized_http_request_cache_key normalized_memory_write_key
tool_call_cache_key lib call =
    let name = trim call.name in
    let plain = bar call.name call.arguments in
    let memory : Text =
      if name == codes "memory.write"
      then elim (normalized_memory_write_key lib call.arguments) [
        | none ↦ plain
        | some key ↦ bar (codes "memory.write") key
      ]
      else plain in
    if is_uncacheable name
    then codes "|"
    else if name == codes "http.request" || name == codes "net.fetch"
    then elim (normalized_http_request_cache_key lib call.arguments) [
      | none ↦ memory
      | some key ↦ bar (codes "http.request") key
    ]
    else memory
