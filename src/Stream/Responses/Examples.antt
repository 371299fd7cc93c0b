-- ===== src/Stream/Responses/Examples.antt =====
-- A stream that is bridged to the Responses entry.
use keygrid.Prelude.{refl, pos, List, [], ◌∷◌}
use keygrid.Failure.Message.{codes}
use keygrid.Json.{Json, Fields, null, num, str, arr, obj, nil, cons, end, field}
use keygrid.Stream.{choice_of, Closes}
use keygrid.Stream.Responses.{bridge_to_responses}
use keygrid.Stream.Responses.Whole.{IsComplete, bridge_to_responses-IsComplete}

-- A chunk with a choice: its delta and its finish reason.
abbrev chunk : Fields → Json → Fields
chunk delta reason =
    field "choices"
      (arr (cons (obj (field "delta" (obj delta) (field "finish_reason" reason end))) nil)) end

abbrev said : Fields
said = field "content" (str (codes "hi")) end

abbrev called : Fields
called =
    field "tool_calls"
      (arr (
        cons
          (obj (
            field "index" (num (pos 0) []) (
              field "function"
                (obj (field "name" (str (codes "f")) (field "arguments" (str (codes "{}")) end)))
                end)))
          nil))
      end

abbrev counted : Fields
counted =
    field "usage"
      (obj
        (field "prompt_tokens" (num (pos 7) []) (field "completion_tokens" (num (pos 9) []) end)))
      end

abbrev talk : List Fields
talk = chunk said null ∷ chunk called null ∷ chunk end (str (codes "tool_calls")) ∷ counted ∷ []

talk-Closes : Closes talk
unfolding choice_of
talk-Closes = (refl, tt)

bridge_to_responses-IsComplete_example :
    IsComplete (bridge_to_responses (codes "call_1") (codes "m") talk)
bridge_to_responses-IsComplete_example =
    bridge_to_responses-IsComplete (codes "call_1") (codes "m") talk talk-Closes
