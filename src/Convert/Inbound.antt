-- ===== src/Convert/Inbound.antt =====
-- `anthropicToPivotRequest`: a request of the Anthropic protocol as one of the chat protocol.
use keygrid.Prelude.{
  Bool, true, false, not, ◌||◌, ◌&&◌, List, [], ◌∷◌, ◌++◌, Option, none, some, if◌then◌else◌,
}
use keygrid.Failure.Message.{Runes, codes, take}
use keygrid.Access.Lists.{trim_space}
use keygrid.Json.{
  Json, Items, Fields, null, bool, str, arr, obj, nil, cons, end, field, find, get, fields_of,
  items_of, text_of, bool_of, is_blank,
}
use keygrid.Stream.{same}
use keygrid.Convert.{
  is_tag, append, with_item, with_field, some_text, some_items, stringify_arg, ensure_object_schema,
  joined, texts_of,
}
use keygrid.Convert.Images.{anthropic_image_to_pivot}

unfoldable pub anthropic_system_text : Json → Runes
anthropic_system_text (str s) = s
anthropic_system_text (arr vs) = joined (codes "\n\n") (texts_of vs)
anthropic_system_text v = []

-- The text of a block that is a text, and "[image]" for one that is an image.
abbrev shown : Fields → List Runes
shown bm =
    if is_tag bm (codes "text")
    then text_of (get "text" bm) ∷ []
    else if is_tag bm (codes "image")
    then codes "[image]" ∷ []
    else []

abbrev shown_all : Items → List Runes
shown_all nil = []
shown_all (cons v vs) = shown (fields_of v) ++ shown_all vs

unfoldable pub anthropic_block_content_text : (Json → Runes) → Json → Runes
anthropic_block_content_text marshal (str s) = s
anthropic_block_content_text marshal (arr vs) = joined (codes "\n") (shown_all vs)
anthropic_block_content_text marshal v = stringify_arg marshal v

-- What each block adds to `texts`, `toolCalls`, `out` and `reasoning`.
abbrev text_part : Fields → Option Json
text_part bm =
    if is_tag bm (codes "text")
    then some
        (obj (field "type" (str (codes "text")) (field "text" (str (text_of (get "text" bm))) end)))
    else if is_tag bm (codes "image")
    then anthropic_image_to_pivot (get "source" bm)
    else none

abbrev call_part : (Json → Runes) → Fields → Option Json
call_part marshal bm =
    let fn =
      field "name" (str (take 128 (text_of (get "name" bm))))
        (field "arguments" (str (stringify_arg marshal (get "input" bm))) end) in
    if is_tag bm (codes "tool_use")
    then some (
        obj (
          field "id" (str (text_of (get "id" bm)))
            (field "type" (str (codes "function")) (field "function" (obj fn) end))))
    else none

abbrev result_message : (Json → Runes) → Fields → Option Json
result_message marshal bm =
    if is_tag bm (codes "tool_result")
    then some (
        obj (
          field "role" (str (codes "tool")) (
            field "tool_call_id" (str (text_of (get "tool_use_id" bm))) (
              field "content" (str (anthropic_block_content_text marshal (get "content" bm)))
                end))))
    else none

abbrev thought : Fields → List Runes
thought bm =
    if is_tag bm (codes "thinking") && not (is_blank (text_of (get "thinking" bm)))
    then text_of (get "thinking" bm) ∷ []
    else []

-- The blocks, one after the other; what is no object has no type.
abbrev pub gather : (Fields → Option Json) → Items → Items
gather f nil = nil
gather f (cons v vs) = with_item (f (fields_of v)) (gather f vs)

abbrev thoughts : Items → List Runes
thoughts nil = []
thoughts (cons v vs) = thought (fields_of v) ++ thoughts vs

-- A single text stands for itself, and so does a single image.
abbrev message_content : Items → Json
message_content nil = null
message_content (cons v nil) =
    if is_tag (fields_of v) (codes "text") then get "text" (fields_of v) else v
message_content (cons v (cons w vs)) = arr (cons v (cons w vs))

abbrev is_nil : Items → Bool
is_nil nil = true
is_nil (cons v vs) = false

abbrev own_message : Runes → Items → Items → Runes → Items
own_message role texts calls reasoning =
    if is_nil calls && is_nil texts && is_blank reasoning
    then nil
    else cons
        (obj (
          field "role" (str role) (
            field "content" (message_content texts) (
              with_field "tool_calls" (some_items calls)
                (with_field "reasoning_content" (some_text reasoning) end)))))
        nil

unfoldable pub anthropic_message_to_pivot : (Json → Runes) → Runes → Json → Items
anthropic_message_to_pivot marshal role (str s) =
    cons (obj (field "role" (str role) (field "content" (str s) end))) nil
anthropic_message_to_pivot marshal role (arr vs) = append (gather (result_message marshal) vs) (
    own_message role (gather text_part vs) (gather (call_part marshal) vs)
      (joined (codes "\n") (thoughts vs)))
anthropic_message_to_pivot marshal role v = nil

abbrev is_role : Runes → Bool
is_role role = same role (codes "user") || same role (codes "assistant")

unfoldable pub pivot_messages : (Json → Runes) → Items → Items
pivot_messages marshal nil = nil
pivot_messages marshal (cons v vs) =
    let role = text_of (get "role" (fields_of v)) in
    let rest = pivot_messages marshal vs in
    if is_role role
    then append (anthropic_message_to_pivot marshal role (get "content" (fields_of v))) rest
    else rest

-- A tool; its description goes beside the function, not into it.
abbrev pub pivot_tool : Runes → Fields → Option Json
pivot_tool [] t = none
pivot_tool (c ∷ name) t = some (
    obj (
      field "type" (str (codes "function")) (
        field "function"
          (obj (
            field "name" (str (take 128 (c ∷ name)))
              (field "parameters" (ensure_object_schema (get "input_schema" t)) end)))
          (with_field "description" (some_text (text_of (get "description" t))) end))))

unfoldable pub pivot_tools : Json → Option Json
pivot_tools tools =
    some_items (gather (λ t. pivot_tool (trim_space (text_of (get "name" t))) t) (items_of tools))

abbrev named_choice : Runes → Option Json
named_choice [] = none
named_choice (c ∷ name) = some (
    obj (
      field "type" (str (codes "function"))
        (field "function" (obj (field "name" (str (c ∷ name)) end)) end)))

unfoldable pub pivot_tool_choice : Json → Option Json
pivot_tool_choice (str s) = some_text s
pivot_tool_choice (obj tc) =
    if is_tag tc (codes "auto")
    then some (str (codes "auto"))
    else if is_tag tc (codes "any")
    then some (str (codes "required"))
    else if is_tag tc (codes "tool")
    then named_choice (text_of (get "name" tc))
    else none
pivot_tool_choice v = none

-- A choice of tools is only kept where there are tools.
abbrev pub choice_if : Option Json → Option Json → Option Json
choice_if none choice = none
choice_if (some tools) choice = choice

unfoldable pub anthropic_params_to_pivot : Fields → Fields → Fields
anthropic_params_to_pivot req out =
    let tools = pivot_tools (get "tools" req) in
    with_field "max_tokens" (find "max_tokens" req) (
      with_field "temperature" (find "temperature" req) (
        with_field "top_p" (find "top_p" req) (
          with_field "stop" (some_items (items_of (get "stop_sequences" req))) (
            with_field "tools" tools (
              with_field "tool_choice" (choice_if tools (pivot_tool_choice (get "tool_choice" req)))
                out)))))

abbrev pub system_message : Runes → Items
system_message [] = nil
system_message (c ∷ s) =
    cons (obj (field "role" (str (codes "system")) (field "content" (str (c ∷ s)) end))) nil

-- The request on the pivot, or none where the model is missing.
abbrev pub request_for : (Json → Runes) → Fields → Runes → Option Fields
request_for marshal req [] = none
request_for marshal req (c ∷ model) = some (
    anthropic_params_to_pivot req (
      field "model" (str (c ∷ model)) (
        field "messages"
          (arr (
            append (system_message (anthropic_system_text (get "system" req)))
              (pivot_messages marshal (items_of (get "messages" req)))))
          (field "stream" (bool (bool_of (get "stream" req))) end))))

unfoldable pub anthropic_to_pivot_request : (Json → Runes) → Fields → Option Fields
anthropic_to_pivot_request marshal req =
    request_for marshal req (trim_space (text_of (get "model" req)))
