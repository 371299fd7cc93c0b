-- ===== src/Stream/Responses.antt =====
-- responsesOutState of internal/relay/stream_bridge.go: chat chunks become the events of the Responses
-- protocol. Each output item has the index that it is given when it is announced. The ids "msg_<index>",
-- "rs_<index>" and "fc_<tool>" follow from the numbers, and are left out, as are the id of the response
-- and the sum of the tokens.
pub mod Projection
pub mod Kept
pub mod Tools
pub mod Whole
pub mod Unread
pub mod Sent
mod Examples
use keygrid.Prelude.{
  ℕ, ℤ, pos, suc, zero, Bool, true, false, not, List, [], ◌∷◌, ◌++◌, Option, none, some,
  if◌then◌else◌, eqb_ℤ, ◌==◌,
}
use keygrid.Failure.Message.{Runes, take}
use keygrid.Json.{
  Json, Items, Fields, nil, cons, get, as_object, fields_of, items_of, text_of, int_num, Finish,
  stop, length, tool_calls, Usage, usage_from_any, first_non_empty,
}
use keygrid.Stream.{finish_from_openai_finish, choice_of, finish_reason, delta_of}

pub data Item : Type 0 where
  message reasoning : (text : Runes) → Item
  function_call : (call_id name arguments : Runes) → Item

pub data Event : Type 0 where
  created : Event
  output_item_added : (output_index : ℕ) → Item → Event
  content_part_added : (output_index : ℕ) → Event
  output_text_delta reasoning_delta arguments_delta : (output_index : ℕ) → Runes → Event
  output_text_done content_part_done arguments_done : (output_index : ℕ) → Runes → Event
  output_item_done : (output_index : ℕ) → Item → Event
  completed : (incomplete : Bool) (output : List Item) (input_tokens output_tokens : ℤ) → Event

-- respOutTool; `number` is its key in the map of the tools.
pub record Tool : Type 0 where
  pub number : ℤ
  pub call_id : Runes
  pub name : Runes
  pub arguments : Runes
  pub output_index : ℕ

-- responsesOutState with what it has written. `message_at` and `reasoning_at` are the indices of the open
-- items, `tools` those of `tools` in the order of `toolOrder`.
pub record OutState : Type 0 where
  pub model : Runes
  pub started : Bool
  pub message_at : Option ℕ
  pub text_buf : Runes
  pub reasoning_at : Option ℕ
  pub reason_buf : Runes
  pub tools : List Tool
  pub item_index : ℕ
  pub finish : Finish
  pub finish_sent : Bool
  pub prompt_tok : ℤ
  pub compl_tok : ℤ
  pub written : List Event

unfoldable pub new_out_state : Runes → OutState
new_out_state model = record {
  model = model;
  started = false;
  message_at = none;
  text_buf = [];
  reasoning_at = none;
  reason_buf = [];
  tools = [];
  item_index = 0;
  finish = stop;
  finish_sent = false;
  prompt_tok = pos 0;
  compl_tok = pos 0;
  written = [];
}

abbrev pub or_zero : Option ℕ → ℕ
or_zero none = 0
or_zero (some i) = i

unfoldable pub emit : Event → OutState → OutState
emit e s = record s { written = s.written ++ e ∷ [] }

abbrev started_if : Bool → OutState → OutState
started_if true s = s
started_if false s = emit created (record s { started = true })

unfoldable pub start_response : OutState → OutState
start_response s = started_if s.started s

abbrev message_if : Option ℕ → OutState → OutState
message_if (some i) s = s
message_if none s = emit (content_part_added s.item_index) (
    emit (output_item_added s.item_index (message []))
      (record s { message_at = some s.item_index; item_index = suc s.item_index }))

unfoldable pub feed_text : Runes → OutState → OutState
feed_text [] s = s
feed_text (c ∷ t) s =
    let m = message_if s.message_at s in
    emit (output_text_delta (or_zero m.message_at) (c ∷ t))
      (record m { text_buf = m.text_buf ++ c ∷ t })

abbrev reasoning_if : Option ℕ → OutState → OutState
reasoning_if (some i) s = s
reasoning_if none s =
    emit (output_item_added s.item_index (reasoning []))
      (record s { reasoning_at = some s.item_index; item_index = suc s.item_index })

unfoldable pub feed_reasoning : Runes → OutState → OutState
feed_reasoning [] s = s
feed_reasoning (c ∷ t) s =
    let m = reasoning_if s.reasoning_at s in
    emit (reasoning_delta (or_zero m.reasoning_at) (c ∷ t))
      (record m { reason_buf = m.reason_buf ++ c ∷ t })

-- The tool of a number.
abbrev pub tool_at : ℤ → List Tool → Option Tool
tool_at n [] = none
tool_at n (t ∷ ts) = let rest = tool_at n ts in if eqb_ℤ t.number n then some t else rest

abbrev tool_if : Runes → ℤ → Runes → Runes → Option Tool → OutState → OutState
tool_if fresh n id name (some t) s = s
tool_if fresh n id name none s =
    let t : Tool = record {
      number = n;
      call_id = first_non_empty id fresh;
      name = take 128 name;
      arguments = [];
      output_index = s.item_index;
    } in
    emit (output_item_added t.output_index (function_call t.call_id t.name []))
      (record s { tools = s.tools ++ t ∷ []; item_index = suc s.item_index })

abbrev pub add_arguments : ℤ → Runes → List Tool → List Tool
add_arguments n args [] = []
add_arguments n args (t ∷ ts) =
    let rest = add_arguments n args ts in
    if eqb_ℤ t.number n then record t { arguments = t.arguments ++ args } ∷ ts else t ∷ rest

abbrev pub index_of : Option Tool → ℕ
index_of none = 0
index_of (some t) = t.output_index

abbrev arguments_to : ℤ → Runes → OutState → OutState
arguments_to n [] s = s
arguments_to n (c ∷ args) s =
    emit (arguments_delta (index_of (tool_at n s.tools)) (c ∷ args))
      (record s { tools = add_arguments n (c ∷ args) s.tools })

-- One tool call; `fresh` is the id that is made up where it has none.
unfoldable pub feed_tool : Runes → Fields → OutState → OutState
feed_tool fresh tc s =
    let fn = fields_of (get "function" tc) in
    let n = int_num (get "index" tc) in
    arguments_to n (text_of (get "arguments" fn))
      (tool_if fresh n (text_of (get "id" tc)) (text_of (get "name" fn)) (tool_at n s.tools) s)

abbrev feed_item : Runes → Option Fields → OutState → OutState
feed_item fresh none s = s
feed_item fresh (some tc) s = feed_tool fresh tc s

unfoldable pub feed_tools : Runes → Items → OutState → OutState
feed_tools fresh nil s = s
feed_tools fresh (cons tc tcs) s = feed_tools fresh tcs (feed_item fresh (as_object tc) s)

-- The map `output`, the newest entry first, and the events that close the open items.
pub record Closing : Type 0 where
  pub output : List (ℕ × Item)
  pub events : List Event

abbrev close_reasoning : Option ℕ → Runes → Closing → Closing
close_reasoning none t c = c
close_reasoning (some i) t c = record {
  output = (i, reasoning t) ∷ c.output;
  events = c.events ++ output_item_done i (reasoning t) ∷ [];
}

abbrev close_message : Option ℕ → Runes → Closing → Closing
close_message none t c = c
close_message (some i) t c = record {
  output = (i, message t) ∷ c.output;
  events =
      c.events
      ++ output_text_done i t ∷ content_part_done i t ∷ output_item_done i (message t) ∷ [];
}

abbrev close_tools : List Tool → Closing → Closing
close_tools [] c = c
close_tools (t ∷ ts) c =
    let item = function_call t.call_id t.name t.arguments in
    close_tools ts (record {
      output = (t.output_index, item) ∷ c.output;
      events =
          c.events
          ++ arguments_done t.output_index t.arguments ∷ output_item_done t.output_index item ∷ [];
    })

abbrev pub item_at : ℕ → List (ℕ × Item) → Option Item
item_at i [] = none
item_at i ((j, item) ∷ out) = let rest = item_at i out in if j == i then some item else rest

abbrev with_item : Option Item → List Item → List Item
with_item none items = items
with_item (some item) items = item ∷ items

-- `completedOutput`: the items at the `left` indices from `i` on.
abbrev pub output_from : ℕ → ℕ → List (ℕ × Item) → List Item
output_from i zero out = []
output_from i (suc left) out = with_item (item_at i out) (output_from (suc i) left out)

unfoldable pub close_items : OutState → Closing
close_items s = close_tools s.tools (
    close_message s.message_at s.text_buf
      (close_reasoning s.reasoning_at s.reason_buf (record { output = []; events = [] })))

abbrev is_length : Finish → Bool
is_length length = true
is_length stop = false
is_length tool_calls = false

abbrev finished_if : Bool → OutState → OutState
finished_if true s = s
finished_if false s =
    let t = start_response (record s { finish_sent = true }) in
    let c = close_items t in
    record t {
      message_at = none;
      reasoning_at = none;
      written =
          t.written
          ++ (c.events
              ++ completed (is_length t.finish) (output_from 0 t.item_index c.output) t.prompt_tok
                  t.compl_tok
                ∷ []);
    }

unfoldable pub finish_stream : OutState → OutState
finish_stream s = finished_if s.finish_sent s

abbrev finish_on : Runes → OutState → OutState
finish_on [] s = s
finish_on (c ∷ fr) s = finish_stream s

abbrev note_finish : Runes → OutState → OutState
note_finish [] s = s
note_finish (c ∷ fr) s = record s { finish = finish_from_openai_finish (c ∷ fr) }

unfoldable pub feed_delta : Runes → Fields → OutState → OutState
feed_delta fresh delta s = feed_tools fresh (items_of (get "tool_calls" delta)) (
    feed_reasoning (text_of (get "reasoning_content" delta))
      (feed_text (text_of (get "content" delta)) s))

abbrev feed_choice : Runes → Option Fields → OutState → OutState
feed_choice fresh none s = s
feed_choice fresh (some ch) s =
    finish_on (finish_reason ch)
      (feed_delta fresh (delta_of ch) (start_response (note_finish (finish_reason ch) s)))

abbrev note_model : Runes → OutState → OutState
note_model [] s = s
note_model (c ∷ m) s = record s { model = c ∷ m }

abbrev note_usage : Option Usage → OutState → OutState
note_usage none s = s
note_usage (some u) s = record s { prompt_tok = u.prompt_tokens; compl_tok = u.completion_tokens }

unfoldable pub feed : Runes → Fields → OutState → OutState
feed fresh chunk s =
    feed_choice fresh (choice_of chunk)
      (note_usage (usage_from_any (get "usage" chunk)) (note_model (text_of (get "model" chunk)) s))

unfoldable pub feed_all : Runes → List Fields → OutState → OutState
feed_all fresh [] s = s
feed_all fresh (chunk ∷ chunks) s = feed_all fresh chunks (feed fresh chunk s)

unfoldable pub bridge_to_responses : Runes → Runes → List Fields → List Event
bridge_to_responses fresh model chunks =
    (finish_stream (feed_all fresh chunks (new_out_state model))).written
