-- ===== src/Stream/Anthropic.antt =====
-- anthropicInState of internal/relay/stream_bridge.go: the events of an Anthropic upstream become chat
-- chunks, which `bridgeAnthropicSSEToEntry` writes to the client of the chat entry, or hands to the emitter
-- of the Responses entry. The id and the time of the chunks are left out.
pub mod Flow
pub mod Pieces
pub mod Chat
pub mod Through
pub mod Heard
pub mod Carried
mod Examples
use keygrid.Prelude.{
  String, ◌&&◌, ℕ, ℤ, pos, suc, Bool, true, false, List, [], ◌∷◌, ◌++◌, Option, none, some,
  if◌then◌else◌, eqb_ℤ,
}
use keygrid.Failure.Message.{is_space, Runes, codes, take}
use keygrid.Json.{
  Fields, num, str, arr, obj, string_at, nil, cons, end, field, get, as_object, fields_of, text_of,
  int_num, Finish, stop, length, tool_calls, first_non_empty,
}
use keygrid.Stream.{same}
use keygrid.Stream.Responses
use keygrid.Stream.Responses.{OutState, feed_all, finish_stream, new_out_state}

-- anthropicInState with the chunks it has passed on. `last_tool_idx` is none for -1.
pub record InState : Type 0 where
  pub role_sent : Bool
  pub tool_idx : ℕ
  pub block_to_tool : List (ℤ × ℕ)
  pub last_tool_idx : Option ℕ
  pub finish : Finish
  pub finish_sent : Bool
  pub prompt_tok : ℤ
  pub compl_tok : ℤ
  pub model : Runes
  pub passed : List Fields

unfoldable pub new_in_state : Runes → InState
new_in_state model = record {
  role_sent = false;
  tool_idx = 0;
  block_to_tool = [];
  last_tool_idx = none;
  finish = stop;
  finish_sent = false;
  prompt_tok = pos 0;
  compl_tok = pos 0;
  model = model;
  passed = [];
}

-- The texts of a finish reason.
abbrev pub finish_text : Finish → Runes
finish_text stop = codes "stop"
finish_text length = codes "length"
finish_text tool_calls = codes "tool_calls"

unfoldable pub finish_from_anthropic_stop : Runes → Finish
finish_from_anthropic_stop sr =
    if same sr (codes "max_tokens")
    then length
    else if same sr (codes "tool_use")
    then tool_calls
    else stop

unfoldable pub chunk_base : Runes → Fields → Option Runes → Fields
chunk_base model delta finish = field "model" (str model) (
    field "choices"
      (arr (
        cons
          (obj (
            field "index" (num (pos 0) [])
              (field "delta" (obj delta) (field "finish_reason" (string_at finish) end))))
          nil))
      end)

abbrev pass : Fields → Option Runes → InState → InState
pass delta finish s = record s { passed = s.passed ++ chunk_base s.model delta finish ∷ [] }

abbrev pub the_role : Fields → Fields
the_role delta = field "role" (str (codes "assistant")) delta

abbrev role_if : Bool → Fields → Fields
role_if true delta = delta
role_if false delta = the_role delta

-- A chunk whose delta goes through `withRole`.
unfoldable pub pass_with_role : Fields → Option Runes → InState → InState
pass_with_role delta finish s = record (pass (role_if s.role_sent delta) finish s) {
  role_sent = true;
}

abbrev note_input : Option Fields → InState → InState
note_input none s = s
note_input (some u) s = record s { prompt_tok = int_num (get "input_tokens" u) }

abbrev pub pass_role : Bool → InState → InState
pass_role true s = s
pass_role false s = pass (the_role end) none (record s { role_sent = true })

unfoldable pub on_message_start : Fields → InState → InState
on_message_start ev s =
    let t = note_input (as_object (get "usage" (fields_of (get "message" ev)))) s in
    pass_role t.role_sent t

abbrev pub tool_call : ℕ → Fields → Fields
tool_call idx rest =
    field "tool_calls" (arr (cons (obj (field "index" (num (pos idx) []) rest)) nil)) end

abbrev pub announcement : Runes → Fields → Fields
announcement fresh block = field "id" (str (first_non_empty (text_of (get "id" block)) fresh)) (
    field "type" (str (codes "function")) (
      field "function"
        (obj (
          field "name" (str (take 128 (text_of (get "name" block))))
            (field "arguments" (str []) end)))
        end))

-- `fresh` is the id that is made up where the block has none.
unfoldable pub on_block_start : Runes → Fields → InState → InState
on_block_start fresh ev s =
    let block = fields_of (get "content_block" ev) in
    let t = pass_with_role (tool_call s.tool_idx (announcement fresh block)) none (record s {
      tool_idx = suc s.tool_idx;
      block_to_tool = (int_num (get "index" ev), s.tool_idx) ∷ s.block_to_tool;
      last_tool_idx = some s.tool_idx;
      finish = tool_calls;
    }) in
    if same (text_of (get "type" block)) (codes "tool_use") then t else s

abbrev pub lookup : ℤ → List (ℤ × ℕ) → Option ℕ
lookup i [] = none
lookup i ((j, n) ∷ ps) = let rest = lookup i ps in if eqb_ℤ j i then some n else rest

abbrev pub or_last : Option ℕ → Option ℕ → ℕ
or_last (some n) last = n
or_last none (some n) = n
or_last none none = 0

abbrev piece : String → Runes → InState → InState
piece k [] s = s
piece k (c ∷ t) s = pass_with_role (field k (str (c ∷ t)) end) none s

abbrev arguments : ℤ → Runes → InState → InState
arguments i [] s = s
arguments i (c ∷ t) s =
    pass_with_role
      (tool_call (or_last (lookup i s.block_to_tool) s.last_tool_idx)
        (field "function" (obj (field "arguments" (str (c ∷ t)) end)) end))
      none s

abbrev block_delta : ℤ → Option Fields → InState → InState
block_delta i none s = s
block_delta i (some delta) s =
    let t = text_of (get "type" delta) in
    if same t (codes "text_delta")
    then piece "content" (text_of (get "text" delta)) s
    else if same t (codes "thinking_delta")
    then piece "reasoning_content" (text_of (get "thinking" delta)) s
    else if same t (codes "input_json_delta")
    then arguments i (text_of (get "partial_json" delta)) s
    else s

unfoldable pub on_block_delta : Fields → InState → InState
on_block_delta ev s = block_delta (int_num (get "index" ev)) (as_object (get "delta" ev)) s

abbrev note_stop : Runes → InState → InState
note_stop [] s = s
note_stop (c ∷ sr) s = record s { finish = finish_from_anthropic_stop (c ∷ sr) }

-- The larger-than-0 test of a count.
abbrev positive : ℤ → ℤ → ℤ
positive (pos (suc n)) old = pos (suc n)
positive n old = old

abbrev note_output : Option Fields → InState → InState
note_output none s = s
note_output (some u) s = record s {
  compl_tok = int_num (get "output_tokens" u);
  prompt_tok = positive (int_num (get "input_tokens" u)) s.prompt_tok;
}

unfoldable pub on_message_delta : Fields → InState → InState
on_message_delta ev s =
    note_output (as_object (get "usage" ev))
      (note_stop (text_of (get "stop_reason" (fields_of (get "delta" ev)))) s)

abbrev finalize_if : Bool → InState → InState
finalize_if true s = s
finalize_if false s = pass end (some (finish_text s.finish)) (record s { finish_sent = true })

-- `finalize`, and the case of message_stop.
unfoldable pub finalize : InState → InState
finalize s = finalize_if s.finish_sent s

abbrev pub or_text : Runes → Runes → Runes
or_text [] t = t
or_text (c ∷ s) t = c ∷ s

abbrev error_if : Bool → Fields → InState → InState
error_if true ev s = s
error_if false ev s =
    let message =
      or_text (text_of (get "message" (fields_of (get "error" ev)))) (codes "upstream error") in
    pass_with_role (field "content" (str (codes "[Error] " ++ message)) end) (some (codes "stop"))
      (record s { finish_sent = true })

unfoldable pub on_error : Fields → InState → InState
on_error ev s = error_if s.finish_sent ev s

abbrev note_model : Runes → InState → InState
note_model [] s = s
note_model (c ∷ m) s = record s { model = c ∷ m }

unfoldable pub feed_anthropic_event : Runes → Runes → Fields → InState → InState
feed_anthropic_event fresh kind ev before =
    let s = note_model (text_of (get "model" ev)) before in
    if same kind (codes "message_start")
    then on_message_start ev s
    else if same kind (codes "content_block_start")
    then on_block_start fresh ev s
    else if same kind (codes "content_block_delta")
    then on_block_delta ev s
    else if same kind (codes "message_delta")
    then on_message_delta ev s
    else if same kind (codes "message_stop")
    then finalize s
    else if same kind (codes "error")
    then on_error ev s
    else s

abbrev all_blank : Runes → Bool
all_blank [] = true
all_blank (c ∷ s) = is_space c && all_blank s

-- The callback of `scanAnthropicSSE`, which passes over an event whose type is blank.
unfoldable pub scan_event : Runes → Fields → InState → InState
scan_event fresh ev s =
    let kind = text_of (get "type" ev) in
    if all_blank kind then s else feed_anthropic_event fresh kind ev s

unfoldable pub scan : Runes → List Fields → InState → InState
scan fresh [] s = s
scan fresh (ev ∷ evs) s = scan fresh evs (scan_event fresh ev s)

-- `bridgeAnthropicSSEToEntry` for the chat entry: the chunks before the line that ends the stream.
unfoldable pub bridge_to_chat : Runes → Runes → List Fields → List Fields
bridge_to_chat fresh model evs = (finalize (scan fresh evs (new_in_state model))).passed

-- And for the Responses entry: what an event passes on is fed to the emitter at once.
unfoldable pub scan_through : Runes → List Fields → InState → OutState → OutState
scan_through fresh [] s out = out
scan_through fresh (ev ∷ evs) s out =
    let t = scan_event fresh ev (record s { passed = [] }) in
    scan_through fresh evs t (feed_all fresh t.passed out)

unfoldable pub bridge_anthropic_to_responses : Runes → Runes → List Fields → List Responses.Event
bridge_anthropic_to_responses fresh model evs =
    (finish_stream (scan_through fresh evs (new_in_state model) (new_out_state model))).written
