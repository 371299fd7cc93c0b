-- ===== src/Convert/Outbound.antt =====
-- `pivotToAnthropicRequest`: a request of the chat protocol as one of the Anthropic protocol.
use keygrid.Prelude.{pos, Bool, ◌||◌, List, [], ◌∷◌, ◌++◌, Option, none, some, if◌then◌else◌}
use keygrid.Failure.Message.{Runes, codes, take}
use keygrid.Access.Lists.{trim_space}
use keygrid.Json.{
  Json, Items, Fields, bool, num, str, arr, obj, nil, cons, end, field, find, get, fields_of,
  items_of, text_of, bool_of, int_num, first_non_empty,
}
use keygrid.Stream.{same}
use keygrid.Convert.{
  is_tag, append, with_item, with_field, some_text, some_items, ensure_object_schema, joined,
  texts_of,
}
use keygrid.Convert.Images.{pivot_image_to_anthropic}
use keygrid.Convert.Inbound.{gather, choice_if, anthropic_block_content_text}

-- What the code takes from elsewhere: json.Marshal of a value; json.Unmarshal of a text into a map, none for an error
-- and null for the nil map; the test of a float64 for being above 0; and the id that is made up from the clock.
pub record Codec : Type 0 where
  pub marshal : Json → Runes
  pub parse : Runes → Option Json
  pub above_zero : Json → Bool
  pub made_up : Runes

-- `joinMessageText`
unfoldable pub join_message_text : Json → Runes
join_message_text (str s) = s
join_message_text (arr vs) = joined (codes "\n") (texts_of vs)
join_message_text v = []

abbrev or_else : Option Json → Json → Json
or_else none v = v
or_else (some w) v = w

abbrev parsed : Codec → Runes → Json
parsed cd [] = obj end
parsed cd (c ∷ s) = or_else (cd.parse (c ∷ s)) (obj end)

-- `jsonRawObject`
unfoldable pub json_raw_object : Codec → Json → Json
json_raw_object cd (str s) = parsed cd s
json_raw_object cd (obj fs) = obj fs
json_raw_object cd v = obj end

abbrev limit_in : Codec → Option Json → Json → Json
limit_in cd none rest = rest
limit_in cd (some v) rest = if cd.above_zero v then num (int_num v) [] else rest

unfoldable pub anthropic_max_tokens : Codec → Fields → Json
anthropic_max_tokens cd req =
    limit_in cd (find "max_tokens" req)
      (limit_in cd (find "max_completion_tokens" req) (num (pos 4096) []))

abbrev pub text_block : Runes → Option Json
text_block [] = none
text_block (c ∷ s) = some (obj (field "type" (str (codes "text")) (field "text" (str (c ∷ s)) end)))

abbrev pub block_part : Fields → Option Json
block_part pm =
    if is_tag pm (codes "text")
    then text_block (text_of (get "text" pm))
    else if is_tag pm (codes "image_url")
    then some (pivot_image_to_anthropic (get "image_url" pm))
    else none

unfoldable pub pivot_content_to_anthropic_blocks : Json → Items
pivot_content_to_anthropic_blocks (str s) = with_item (text_block s) nil
pivot_content_to_anthropic_blocks (arr vs) = gather block_part vs
pivot_content_to_anthropic_blocks v = nil

-- A call of a tool, unless its name is blank.
abbrev pub call_block : Codec → Runes → Fields → Fields → Option Json
call_block cd [] tc fn = none
call_block cd (c ∷ name) tc fn = some (
    obj (
      field "type" (str (codes "tool_use")) (
        field "id" (str (first_non_empty (text_of (get "id" tc)) cd.made_up)) (
          field "name" (str (take 128 (c ∷ name)))
            (field "input" (json_raw_object cd (get "arguments" fn)) end)))))

abbrev pub call_of : Codec → Fields → Option Json
call_of cd tc =
    let fn = fields_of (get "function" tc) in
    call_block cd (trim_space (text_of (get "name" fn))) tc fn

abbrev pub result_block : Codec → Fields → Json
result_block cd m = obj (
    field "type" (str (codes "tool_result")) (
      field "tool_use_id" (str (first_non_empty (text_of (get "tool_call_id" m)) cd.made_up))
        (field "content" (str (anthropic_block_content_text cd.marshal (get "content" m))) end)))

-- What the loop over the messages has so far.
pub record Draft : Type 0 where
  pub system_parts : List Runes
  pub messages : Items
  pub pending_user_blocks : Items

abbrev pub message : Runes → Items → Json
message role blocks = obj (field "role" (str role) (field "content" (arr blocks) end))

abbrev pub flush_blocks : Items → Draft → Draft
flush_blocks nil d = d
flush_blocks (cons b bs) d = record d {
  messages = append d.messages (cons (message (codes "user") (cons b bs)) nil);
  pending_user_blocks = nil;
}

unfoldable pub flush_pending : Draft → Draft
flush_pending d = flush_blocks d.pending_user_blocks d

abbrev pub note_system : Runes → Draft → Draft
note_system [] d = d
note_system (c ∷ t) d = record d { system_parts = d.system_parts ++ (c ∷ t) ∷ [] }

abbrev pub add_message : Json → Draft → Draft
add_message m d = record d { messages = append d.messages (cons m nil) }

-- An empty message of the assistant would be refused.
abbrev pub add_assistant : Items → Draft → Draft
add_assistant nil d = d
add_assistant (cons b bs) d = add_message (message (codes "assistant") (cons b bs)) d

abbrev pub assistant_blocks : Codec → Fields → Items
assistant_blocks cd m =
    append (pivot_content_to_anthropic_blocks (get "content" m))
      (gather (call_of cd) (items_of (get "tool_calls" m)))

unfoldable pub take_message : Codec → Fields → Draft → Draft
take_message cd m d =
    let role = text_of (get "role" m) in
    let user =
      add_message (message (codes "user") (pivot_content_to_anthropic_blocks (get "content" m)))
        (flush_pending d) in
    let assistant = add_assistant (assistant_blocks cd m) (flush_pending d) in
    let tool = record d {
      pending_user_blocks = append d.pending_user_blocks (cons (result_block cd m) nil);
    } in
    if same role (codes "system") || same role (codes "developer")
    then note_system (join_message_text (get "content" m)) d
    else if same role (codes "user")
    then user
    else if same role (codes "assistant")
    then assistant
    else if same role (codes "tool")
    then tool
    else d

unfoldable pub take_messages : Codec → Items → Draft → Draft
take_messages cd nil d = d
take_messages cd (cons v vs) d = take_messages cd vs (take_message cd (fields_of v) d)

-- The messages of the request, the last results flushed.
unfoldable pub draft : Codec → Fields → Draft
draft cd req = flush_pending (
    take_messages cd (items_of (get "messages" req))
      (record { system_parts = []; messages = nil; pending_user_blocks = nil }))

abbrev pub anthropic_tool : Runes → Fields → Option Json
anthropic_tool [] fn = none
anthropic_tool (c ∷ name) fn = some (
    obj (
      field "name" (str (take 128 (c ∷ name))) (
        field "input_schema" (ensure_object_schema (get "parameters" fn))
          (with_field "description" (some_text (text_of (get "description" fn))) end))))

abbrev pub tool_of : Fields → Option Json
tool_of t =
    let fn = fields_of (get "function" t) in
    anthropic_tool (trim_space (text_of (get "name" fn))) fn

unfoldable pub anthropic_tools : Json → Option Json
anthropic_tools tools = some_items (gather tool_of (items_of tools))

abbrev choice_named : Runes → Option Json
choice_named [] = none
choice_named (c ∷ name) =
    some (obj (field "type" (str (codes "tool")) (field "name" (str (c ∷ name)) end)))

unfoldable pub anthropic_tool_choice : Json → Option Json
anthropic_tool_choice (str s) =
    if same s (codes "auto")
    then some (obj (field "type" (str (codes "auto")) end))
    else if same s (codes "required")
    then some (obj (field "type" (str (codes "any")) end))
    else none
anthropic_tool_choice (obj tc) = choice_named (text_of (get "name" (fields_of (get "function" tc))))
anthropic_tool_choice v = none

abbrev pub some_system : List Runes → Option Json
some_system [] = none
some_system (t ∷ ts) = some (str (joined (codes "\n\n") (t ∷ ts)))

unfoldable pub pivot_to_anthropic_request : Codec → Fields → Runes → Fields
pivot_to_anthropic_request cd req up_model =
    let d = draft cd req in
    let tools = anthropic_tools (get "tools" req) in
    field "model" (str up_model) (
      field "max_tokens" (anthropic_max_tokens cd req) (
        field "stream" (bool (bool_of (get "stream" req))) (
          field "messages" (arr d.messages) (
            with_field "system" (some_system d.system_parts) (
              with_field "tools" tools (
                with_field "tool_choice"
                  (choice_if tools (anthropic_tool_choice (get "tool_choice" req)))
                  (with_field "temperature" (find "temperature" req) (
                    with_field "top_p" (find "top_p" req) (
                      with_field "stop_sequences" (some_items (items_of (get "stop" req)))
                        end)))))))))
