-- ===== src/Stream/Messages.antt =====
-- anthropicOutState of internal/relay/stream_bridge.go: chat chunks become the events of the Anthropic
-- protocol. The blocks are numbered in the order in which they are opened, and one is open at a time.
pub mod Grammar
pub mod Filling
pub mod Complete
pub mod Unread
mod Examples
use keygrid.Prelude.{
  ℕ, ℤ, pos, suc, negsuc, Bool, true, false, not, List, [], ◌∷◌, ◌++◌, Option, none, some,
  if◌then◌else◌,
}
use keygrid.Failure.Message.{Runes, take}
use keygrid.Json.{
  Json, Items, Fields, nil, cons, get, as_object, fields_of, items_of, text_of, int_num, is_blank,
  Finish, stop, length, tool_calls, Usage, usage_from_any, first_non_empty,
}
use keygrid.Stream.{finish_from_openai_finish, choice_of, finish_reason, delta_of}

-- `curKind`
pub data BlockKind : Type 0 where
  no_block text thinking tool : BlockKind

pub data Block : Type 0 where
  text_block thinking_block : Block
  tool_block : (id name : Runes) → Block

pub data Delta : Type 0 where
  text_delta thinking_delta input_json_delta : Runes → Delta

pub data StopReason : Type 0 where
  max_tokens tool_use end_turn : StopReason

unfoldable pub anthropic_stop_from_finish : Finish → StopReason
anthropic_stop_from_finish length = max_tokens
anthropic_stop_from_finish tool_calls = tool_use
anthropic_stop_from_finish stop = end_turn

pub data Event : Type 0 where
  message_start : (model : Runes) (input_tokens : ℤ) → Event
  content_block_start : (index : ℕ) → Block → Event
  content_block_delta : (index : ℕ) → Delta → Event
  content_block_stop : (index : ℕ) → Event
  message_delta : (stop_reason : StopReason) (input_tokens output_tokens : ℤ) → Event
  message_stop : Event

-- anthropicOutState, less its message id, with what it has written. `cur_tool_idx` and `tool_blocks` are
-- only kept.
pub record OutState : Type 0 where
  pub model : Runes
  pub started : Bool
  pub block_index : ℕ
  pub cur_kind : BlockKind
  pub cur_tool_idx : ℤ
  pub tool_blocks : List (ℤ × ℕ)
  pub finish : Finish
  pub finish_sent : Bool
  pub prompt_tok : ℤ
  pub compl_tok : ℤ
  pub written : List Event

unfoldable pub new_out_state : Runes → OutState
new_out_state model = record {
  model = model;
  started = false;
  block_index = 0;
  cur_kind = no_block;
  cur_tool_idx = negsuc 0;
  tool_blocks = [];
  finish = stop;
  finish_sent = false;
  prompt_tok = pos 0;
  compl_tok = pos 0;
  written = [];
}

abbrev started_if : Bool → OutState → OutState
started_if true s = s
started_if false s = record s {
  started = true;
  written = s.written ++ message_start s.model s.prompt_tok ∷ [];
}

unfoldable pub start_message : OutState → OutState
start_message s = started_if s.started s

abbrev close_kind : BlockKind → OutState → OutState
close_kind no_block s = s
close_kind k s = record s {
  block_index = suc s.block_index;
  cur_kind = no_block;
  cur_tool_idx = negsuc 0;
  written = s.written ++ content_block_stop s.block_index ∷ [];
}

unfoldable pub close_block : OutState → OutState
close_block s = close_kind s.cur_kind s

-- `openBlock`, with the kind that is set before it.
unfoldable pub open_block : BlockKind → Block → OutState → OutState
open_block k block s = record s {
  cur_kind = k;
  written = s.written ++ content_block_start s.block_index block ∷ [];
}

unfoldable pub block_delta : Delta → OutState → OutState
block_delta d s = record s { written = s.written ++ content_block_delta s.block_index d ∷ [] }

abbrev same_kind : BlockKind → BlockKind → Bool
same_kind no_block no_block = true
same_kind text text = true
same_kind thinking thinking = true
same_kind tool tool = true
same_kind j k = false

-- A block of the kind, the open one if it is of that kind.
unfoldable pub enter : BlockKind → Block → OutState → OutState
enter k block s = if same_kind s.cur_kind k then s else open_block k block (close_block s)

unfoldable pub feed_text : BlockKind → Block → (Runes → Delta) → Runes → OutState → OutState
feed_text k block delta [] s = s
feed_text k block delta (c ∷ t) s = block_delta (delta (c ∷ t)) (enter k block s)

abbrev open_tool : Runes → ℤ → Runes → Runes → OutState → OutState
open_tool fresh idx id [] s = s
open_tool fresh idx id (c ∷ name) s =
    let t = close_block s in
    open_block tool (tool_block (first_non_empty id fresh) (take 128 (c ∷ name)))
      (record t { cur_tool_idx = idx; tool_blocks = (idx, t.block_index) ∷ t.tool_blocks })

abbrev arguments_to : Runes → OutState → OutState
arguments_to [] s = s
arguments_to (c ∷ args) s = block_delta (input_json_delta (c ∷ args)) s

abbrev pub name_of : Fields → Runes
name_of tc = text_of (get "name" (fields_of (get "function" tc)))

abbrev pub arguments_of : Fields → Runes
arguments_of tc = text_of (get "arguments" (fields_of (get "function" tc)))

-- One tool call; `fresh` is the id that is made up where it has none.
unfoldable pub feed_tool : Runes → Fields → OutState → OutState
feed_tool fresh tc s =
    arguments_to (arguments_of tc)
      (open_tool fresh (int_num (get "index" tc)) (text_of (get "id" tc)) (name_of tc) s)

abbrev feed_item : Runes → Option Fields → OutState → OutState
feed_item fresh none s = s
feed_item fresh (some tc) s = feed_tool fresh tc s

unfoldable pub feed_tools : Runes → Items → OutState → OutState
feed_tools fresh nil s = s
feed_tools fresh (cons tc tcs) s = feed_tools fresh tcs (feed_item fresh (as_object tc) s)

abbrev finished_if : Bool → OutState → OutState
finished_if true s = s
finished_if false s =
    let t = close_block (start_message (record s { finish_sent = true })) in
    record t {
      written =
          t.written
          ++ message_delta (anthropic_stop_from_finish t.finish) t.prompt_tok t.compl_tok
            ∷ message_stop
            ∷ [];
    }

unfoldable pub finish_stream : OutState → OutState
finish_stream s = finished_if s.finish_sent s

abbrev finish_on : Runes → OutState → OutState
finish_on [] s = s
finish_on (c ∷ fr) s = finish_stream s

abbrev note_finish : Runes → OutState → OutState
note_finish [] s = s
note_finish (c ∷ fr) s = record s { finish = finish_from_openai_finish (c ∷ fr) }

unfoldable pub feed_delta : Runes → Fields → OutState → OutState
feed_delta fresh delta s = feed_tools fresh (items_of (get "tool_calls" delta)) (
    feed_text thinking thinking_block thinking_delta (text_of (get "reasoning_content" delta))
      (feed_text text text_block text_delta (text_of (get "content" delta)) s))

abbrev feed_choice : Runes → Option Fields → OutState → OutState
feed_choice fresh none s = s
feed_choice fresh (some ch) s =
    finish_on (finish_reason ch)
      (feed_delta fresh (delta_of ch) (start_message (note_finish (finish_reason ch) s)))

abbrev note_model : Runes → OutState → OutState
note_model [] s = s
note_model (c ∷ m) s = record s { model = c ∷ m }

abbrev note_usage : Option Usage → OutState → OutState
note_usage none s = s
note_usage (some u) s = record s { prompt_tok = u.prompt_tokens; compl_tok = u.completion_tokens }

unfoldable pub feed : Runes → Fields → OutState → OutState
feed fresh chunk s =
    feed_choice fresh (choice_of chunk)
      (note_usage (usage_from_any (get "usage" chunk)) (note_model (text_of (get "model" chunk)) s))

-- The chunks of a stream, one after the other; `bridgeChatChunksToEntry` finishes it after the last.
unfoldable pub feed_all : Runes → List Fields → OutState → OutState
feed_all fresh [] s = s
feed_all fresh (chunk ∷ chunks) s = feed_all fresh chunks (feed fresh chunk s)

unfoldable pub bridge_to_messages : Runes → Runes → List Fields → List Event
bridge_to_messages fresh model chunks =
    (finish_stream (feed_all fresh chunks (new_out_state model))).written
