-- ===== src/Stream/Codex.antt =====
-- codexChunkState of internal/relay/codex.go: the events of a Responses upstream (Codex, Grok) become chat
-- chunks, and `bridgeCodexSSEToMessages` of internal/relay/stream_bridge.go feeds them to the emitter of the
-- Messages entry. The id and the time of the chunks are left out, and so is what is accounted.
pub mod Ending
mod Examples
use keygrid.Prelude.{
  ℕ, ℤ, pos, suc, zero, ◌-◌, ◌==◌, Bool, true, false, ◌&&◌, ◌||◌, List, [], ◌∷◌, ◌++◌, Option, none,
  some, if◌then◌else◌,
}
use keygrid.Failure.Message.{Runes, codes, take}
use keygrid.Json.{
  Json, Items, Fields, num, str, arr, obj, string_at, nil, cons, end, field, get, as_object,
  fields_of, text_of, int_num, is_blank, Finish, stop, length, tool_calls, first_non_empty, Usage,
}
use keygrid.Stream.{same}
use keygrid.Convert.{stringify_arg}
use keygrid.Stream.Messages
use keygrid.Stream.Messages.{OutState, feed, finish_stream, new_out_state}

-- codexChunkState. `args_emitted` holds the indices that are set in the map argsEmittedIdx.
pub record ChunkState : Type 0 where
  pub model : Runes
  pub role_sent : Bool
  pub tool_index : ℕ
  pub tool_idx_by_item : List (Runes × ℕ)
  pub args_emitted : List ℕ
  pub tool_type_by_idx : List (ℕ × Runes)
  pub finish_reason : Finish
  pub finish_sent : Bool

unfoldable pub new_chunk_state : ChunkState
new_chunk_state = record {
  model = [];
  role_sent = false;
  tool_index = 0;
  tool_idx_by_item = [];
  args_emitted = [];
  tool_type_by_idx = [];
  finish_reason = stop;
  finish_sent = false;
}

abbrev reason_text : Finish → Runes
reason_text stop = codes "stop"
reason_text length = codes "length"
reason_text tool_calls = codes "tool_calls"

unfoldable pub codex_chunk : Runes → Fields → Option Runes → Fields
codex_chunk model delta finish = field "model" (str model) (
    field "choices"
      (arr (
        cons
          (obj (
            field "index" (num (pos 0) [])
              (field "delta" (obj delta) (field "finish_reason" (string_at finish) end))))
          nil))
      end)

-- The results of `convertCodexEvent`, with the state that it leaves.
pub record Converted : Type 0 where
  pub state : ChunkState
  pub chunk : Option Fields
  pub usage : Option Usage
  pub fin : Bool

abbrev quiet : ChunkState → Converted
quiet s = record { state = s; chunk = none; usage = none; fin = false }

abbrev role_if : Bool → Fields → Fields
role_if true delta = delta
role_if false delta = field "role" (str (codes "assistant")) delta

-- A chunk whose delta goes through `withRole`.
unfoldable pub chunk_with_role : Fields → Option Runes → Bool → ChunkState → Converted
chunk_with_role delta finish fin s = record {
  state = record s { role_sent = true };
  chunk = some (codex_chunk s.model (role_if s.role_sent delta) finish);
  usage = none;
  fin = fin;
}

abbrev piece : Runes → (Runes → Fields) → ChunkState → Converted
piece [] delta s = quiet s
piece (c ∷ d) delta s = chunk_with_role (delta (c ∷ d)) none false s

abbrev index_of : Runes → List (Runes × ℕ) → Option ℕ
index_of iid [] = none
index_of iid ((jid, i) ∷ m) = let rest = index_of iid m in if same jid iid then some i else rest

abbrev type_of : ℕ → List (ℕ × Runes) → Runes
type_of i [] = []
type_of i ((j, t) ∷ m) = let rest = type_of i m in if j == i then t else rest

abbrev emitted : ℕ → List ℕ → Bool
emitted i [] = false
emitted i (j ∷ js) = j == i || emitted i js

abbrev item_event_id : Fields → Fields → Runes
item_event_id ev item = first_non_empty (text_of (get "id" item)) (text_of (get "item_id" ev))

abbrev or_latest : Option ℕ → ℕ → ℕ
or_latest (some i) n = i
or_latest none n = n - 1

abbrev known_index : Runes → List (Runes × ℕ) → Option ℕ
known_index [] m = none
known_index (c ∷ iid) m = index_of (c ∷ iid) m

-- `toolIndexFor`: the index of the event's item, or else the latest.
unfoldable pub tool_index_for : Fields → ChunkState → ℕ
tool_index_for ev s =
    or_latest (known_index (item_event_id ev (fields_of (get "item" ev))) s.tool_idx_by_item)
      s.tool_index

unfoldable pub is_tool_call_item : Fields → Bool
is_tool_call_item item =
    same (text_of (get "type" item)) (codes "function_call")
    || same (text_of (get "type" item)) (codes "custom_tool_call")

abbrev but_last : Runes → Runes
but_last [] = []
but_last (c ∷ []) = []
but_last (c ∷ d ∷ s) = c ∷ but_last (d ∷ s)

abbrev inner : Runes → Runes
inner [] = []
inner (c ∷ s) = but_last s

-- `jsonStringFragment`: the encoded text without its quotes.
unfoldable pub json_string_fragment : (Json → Runes) → Runes → Runes
json_string_fragment marshal value = inner (marshal (str value))

abbrev call_delta : ℕ → Fields → Fields
call_delta i rest =
    field "tool_calls" (arr (cons (obj (field "index" (num (pos i) []) rest)) nil)) end

abbrev arguments_delta : ℕ → Runes → Fields
arguments_delta i args =
    call_delta i (field "function" (obj (field "arguments" (str args) end)) end)

abbrev note_item : Runes → ℕ → List (Runes × ℕ) → List (Runes × ℕ)
note_item [] i m = m
note_item (c ∷ iid) i m = (c ∷ iid, i) ∷ m

-- The delta that announces the item, and the state that knows it.
abbrev added_delta : Runes → Fields → ℕ → Fields
added_delta made_up item i =
    let args =
      if same (text_of (get "type" item)) (codes "custom_tool_call")
      then codes "{\"input\":\""
      else [] in
    let fn =
      field "name" (str (take 128 (text_of (get "name" item))))
        (field "arguments" (str args) end) in
    call_delta i (
      field "id" (str (first_non_empty (text_of (get "call_id" item)) made_up))
        (field "type" (str (codes "function")) (field "function" (obj fn) end)))

abbrev with_tool : Fields → Fields → ChunkState → ChunkState
with_tool ev item s = record s {
  tool_index = suc s.tool_index;
  tool_idx_by_item = note_item (item_event_id ev item) s.tool_index s.tool_idx_by_item;
  finish_reason = tool_calls;
  tool_type_by_idx = (s.tool_index, text_of (get "type" item)) ∷ s.tool_type_by_idx;
}

unfoldable pub on_item_added : Runes → Fields → ChunkState → Converted
on_item_added made_up ev s =
    let item = fields_of (get "item" ev) in
    let added =
      chunk_with_role (added_delta made_up item s.tool_index) none false (with_tool ev item s) in
    if is_tool_call_item item then added else quiet s

-- The piece of a custom tool's input is a piece of a JSON text; whether it is empty is asked before.
abbrev arguments_piece : (Json → Runes) → Bool → Fields → Runes → ChunkState → Converted
arguments_piece marshal custom ev [] s = quiet s
arguments_piece marshal custom ev (c ∷ d) s =
    let i = tool_index_for ev s in
    let args = if custom then json_string_fragment marshal (c ∷ d) else c ∷ d in
    chunk_with_role (arguments_delta i args) none false
      (record s { args_emitted = i ∷ s.args_emitted })

abbrev or_input : (Json → Runes) → Fields → Runes → Runes
or_input marshal item [] = stringify_arg marshal (get "input" item)
or_input marshal item (c ∷ args) = c ∷ args

unfoldable pub on_item_done : (Json → Runes) → Fields → ChunkState → Converted
on_item_done marshal ev s =
    let item = fields_of (get "item" ev) in
    let args = or_input marshal item (text_of (get "arguments" item)) in
    let i = tool_index_for ev s in
    let t = record s { args_emitted = i ∷ s.args_emitted } in
    let whole = codes "{\"input\":\"" ++ (json_string_fragment marshal args ++ codes "\"}") in
    let custom = if emitted i s.args_emitted then codes "\"}" else whole in
    let closed = chunk_with_role (arguments_delta i custom) none false t in
    let full = chunk_with_role (arguments_delta i args) none false t in
    let late = if is_blank args || emitted i s.args_emitted then quiet s else full in
    let done =
      if same (type_of i s.tool_type_by_idx) (codes "custom_tool_call") then closed else late in
    if is_tool_call_item item then done else quiet s

abbrev usage_of : Option Fields → Option Usage
usage_of none = none
usage_of (some u) = some (record {
  prompt_tokens = int_num (get "input_tokens" u);
  completion_tokens = int_num (get "output_tokens" u);
})

abbrev complete_if : Bool → Option Usage → ChunkState → Converted
complete_if true usage s = record { state = s; chunk = none; usage = usage; fin = false }
complete_if false usage s = record {
  state = record s { finish_sent = true };
  chunk = some (codex_chunk s.model end (some (reason_text s.finish_reason)));
  usage = usage;
  fin = true;
}

unfoldable pub on_completed : Fields → ChunkState → Converted
on_completed ev s =
    complete_if s.finish_sent (usage_of (as_object (get "usage" (fields_of (get "response" ev))))) s

-- `codexErrorMessage`
unfoldable pub codex_error_message : Fields → Runes
codex_error_message ev = first_non_empty (text_of (get "message" ev)) (
    first_non_empty (text_of (get "message" (fields_of (get "error" ev)))) (
      first_non_empty
        (text_of (get "message" (fields_of (get "error" (fields_of (get "response" ev))))))
        (codes "codex upstream error")))

abbrev fail_if : Bool → Fields → ChunkState → Converted
fail_if true ev s = quiet s
fail_if false ev s =
    chunk_with_role (field "content" (str (codes "[Error] " ++ codex_error_message ev)) end)
      (some (codes "stop")) true (record s { finish_sent = true })

unfoldable pub on_failed : Fields → ChunkState → Converted
on_failed ev s = fail_if s.finish_sent ev s

abbrev note_model : Runes → Fields → ChunkState → ChunkState
note_model [] ev s = record s { model = text_of (get "model" (fields_of (get "response" ev))) }
note_model (c ∷ m) ev s = s

unfoldable pub convert_codex_event :
    (Json → Runes) → Runes → Runes → Fields → ChunkState → Converted
convert_codex_event marshal made_up kind ev before =
    let s = note_model before.model ev before in
    let d = text_of (get "delta" ev) in
    if same kind (codes "response.output_text.delta")
    then piece d (λ t. field "content" (str t) end) s
    else if same kind (codes "response.reasoning_summary_text.delta")
    then piece d (λ t. field "reasoning_content" (str t) end) s
    else if same kind (codes "response.output_item.added")
    then on_item_added made_up ev s
    else if same kind (codes "response.function_call_arguments.delta")
    then arguments_piece marshal false ev d s
    else if same kind (codes "response.custom_tool_call_input.delta")
    then arguments_piece marshal true ev d s
    else if same kind (codes "response.output_item.done")
    then on_item_done marshal ev s
    else if same kind (codes "response.completed") || same kind (codes "response.done")
    then on_completed ev s
    else if same kind (codes "response.failed") || same kind (codes "error")
    then on_failed ev s
    else quiet s

abbrev feed_if : Runes → Option Fields → OutState → OutState
feed_if made_up none out = out
feed_if made_up (some chunk) out = feed made_up chunk out

-- The callback of `bridgeCodexSSEToMessages`; the event that finishes the stream ends the scan.
unfoldable pub scan_codex : (Json → Runes) → Runes → List Fields → ChunkState → OutState → OutState
scan_codex marshal made_up [] s out = out
scan_codex marshal made_up (ev ∷ evs) s out =
    let c = convert_codex_event marshal made_up (text_of (get "type" ev)) ev s in
    let fed = feed_if made_up c.chunk out in
    let rest = scan_codex marshal made_up evs c.state fed in
    if c.fin then finish_stream fed else rest

unfoldable pub bridge_codex_to_messages :
    (Json → Runes) → Runes → Runes → List Fields → List Messages.Event
bridge_codex_to_messages marshal made_up model evs =
    (finish_stream (scan_codex marshal made_up evs new_chunk_state (new_out_state model))).written
