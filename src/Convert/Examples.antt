-- ===== src/Convert/Examples.antt =====
-- Requests that go from one protocol to the other.
use keygrid.Prelude.{◌≡◌, refl, true, [], ◌∷◌, some}
use keygrid.Failure.Message.{codes, is_space}
use keygrid.Access.Lists.{trim_space, trim_left, trim_right}
use keygrid.Json.{
  Json, Items, Fields, null, str, arr, obj, nil, cons, end, field, find, get, fields_of, items_of,
  first_non_empty,
}
use keygrid.Convert.Images.{
  base64_image, back, anthropic_image_to_pivot, pivot_image_to_anthropic-anthropic_image_to_pivot,
}
use keygrid.Convert.Inbound.{anthropic_to_pivot_request, anthropic_message_to_pivot}
use keygrid.Convert.Outbound.{Codec, pivot_to_anthropic_request, pivot_content_to_anthropic_blocks}
use keygrid.Convert.Turns.{used, answered, chat_turns, anthropic_turns}
use keygrid.Convert.Exchange.{pivot_to_anthropic_request-turns}
use keygrid.Convert.Params.{
  ChoosesFromTools, IfSome, Nameable, choice_needs_tools, descriptions_lost,
}

abbrev plain : Codec
plain = record {
  marshal = λ v. codes "{}";
  parse = λ s. some (obj end);
  above_zero = λ v. true;
  made_up = codes "call_1";
}

abbrev a_call : Json
a_call = obj (
    field "id" (str (codes "a")) (
      field "function"
        (obj (field "name" (str (codes "f")) (field "arguments" (str (codes "{}")) end))) end))

abbrev nameless : Json
nameless = obj (field "id" (str (codes "b")) end)

abbrev dialogue : Fields
dialogue =
    field "messages"
      (arr (
        cons
          (obj (
            field "role" (str (codes "assistant"))
              (field "tool_calls" (arr (cons a_call (cons nameless nil))) end)))
          (cons
            (obj (
              field "role" (str (codes "tool"))
                (field "tool_call_id" (str (codes "a")) (field "content" (str (codes "4")) end))))
            (cons (obj (field "role" (str (codes "user")) (field "content" (str (codes "hi")) end)))
              nil))))
      (field "tool_choice" (str (codes "auto")) end)

pivot_to_anthropic_request-turns_example :
    anthropic_turns
      (items_of (get "messages" (pivot_to_anthropic_request plain dialogue (codes "m"))))
    ≡ chat_turns plain (items_of (get "messages" dialogue))
pivot_to_anthropic_request-turns_example =
    pivot_to_anthropic_request-turns plain dialogue (codes "m")

dialogue_turns :
    chat_turns plain (items_of (get "messages" dialogue))
    ≡ used (codes "a") ∷ answered (codes "a") ∷ []
unfolding trim_space trim_left trim_right is_space first_non_empty
dialogue_turns = refl

choice_needs_tools_example :
    ChoosesFromTools (pivot_to_anthropic_request plain dialogue (codes "m"))
    × IfSome ChoosesFromTools (anthropic_to_pivot_request plain.marshal dialogue)
choice_needs_tools_example = choice_needs_tools plain dialogue (codes "m")

abbrev asked : Fields
asked = field "model" (str (codes "m")) (
    field "tools"
      (arr (
        cons (obj (field "name" (str (codes "f")) (field "description" (str (codes "add")) end)))
          nil))
      end)

descriptions_lost_example :
    IfSome
      (λ pivot. Nameable (find "tools" (pivot_to_anthropic_request plain pivot (codes "m"))))
      (anthropic_to_pivot_request plain.marshal asked)
descriptions_lost_example = descriptions_lost plain asked (codes "m")

pivot_image_to_anthropic-anthropic_image_to_pivot_example :
    back (
      anthropic_image_to_pivot
        (get "source" (fields_of (base64_image (codes "image/png") (codes "AAAA")))))
    ≡ some (base64_image (codes "image/png") (codes "AAAA"))
pivot_image_to_anthropic-anthropic_image_to_pivot_example =
    pivot_image_to_anthropic-anthropic_image_to_pivot 105 65 (codes "mage/png") (codes "AAA")
      (refl, (refl, (refl, (refl, (refl, (refl, (refl, (refl, (refl, tt)))))))))

-- The content of the first message.
abbrev first_content : Items → Json
first_content nil = null
first_content (cons v vs) = get "content" (fields_of v)

-- A message that is one image is empty when it is sent to an Anthropic upstream.
lone_image :
    pivot_content_to_anthropic_blocks (
      first_content (
        anthropic_message_to_pivot
          (λ v. [])
          (codes "user")
          (arr (cons (base64_image (codes "image/png") (codes "AAAA")) nil))))
    ≡ nil
unfolding pivot_content_to_anthropic_blocks anthropic_message_to_pivot anthropic_image_to_pivot
lone_image = refl
