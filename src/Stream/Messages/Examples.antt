-- ===== src/Stream/Messages/Examples.antt =====
-- Streams that are bridged to the Messages entry.
use keygrid.Prelude.{◌≡◌, refl, false, pos, List, [], ◌∷◌, some, none}
use keygrid.Failure.Message.{codes}
use keygrid.Json.{
  Json, Fields, null, num, str, arr, obj, nil, cons, end, field, usage_from_any, first_non_empty,
}
use keygrid.Stream.{choice_of, finish_from_openai_finish}
use keygrid.Stream.Messages.{
  message_start, content_block_start, content_block_delta, content_block_stop, message_delta,
  message_stop, text_block, tool_block, text_delta, input_json_delta, tool_use, bridge_to_messages,
  new_out_state, feed_all, feed, feed_delta, feed_tools, feed_tool, feed_text, enter, open_block,
  block_delta, close_block, start_message, finish_stream, anthropic_stop_from_finish,
}
use keygrid.Stream.Messages.Grammar.{trace, over}
use keygrid.Stream.Messages.Filling.{Orderly}
use keygrid.Stream.Messages.Complete.{bridge_to_messages-trace}

-- A chunk with a choice: its delta and its finish reason.
abbrev chunk : Fields → Json → Fields
chunk delta reason =
    field "choices"
      (arr (cons (obj (field "delta" (obj delta) (field "finish_reason" reason end))) nil)) end

abbrev said : Fields
said = field "content" (str (codes "hi")) end

abbrev called : Fields
called =
    field "tool_calls"
      (arr (
        cons
          (obj (
            field "index" (num (pos 0) []) (
              field "function"
                (obj (field "name" (str (codes "f")) (field "arguments" (str (codes "{}")) end)))
                end)))
          nil))
      end

-- Arguments of a call without its name.
abbrev orphan : Fields
orphan =
    field "tool_calls"
      (arr (
        cons
          (obj (
            field "index" (num (pos 0) [])
              (field "function" (obj (field "arguments" (str (codes "{}")) end)) end)))
          nil))
      end

abbrev counted : Fields
counted =
    field "usage"
      (obj
        (field "prompt_tokens" (num (pos 7) []) (field "completion_tokens" (num (pos 9) []) end)))
      end

abbrev talk : List Fields
talk = chunk said null ∷ chunk called null ∷ chunk end (str (codes "tool_calls")) ∷ counted ∷ []

-- The usage comes after the chunk that finishes the stream, so the message ends with no tokens counted.
talk_events :
    bridge_to_messages (codes "call_1") (codes "m") talk
    ≡ message_start (codes "m") (pos 0)
      ∷ content_block_start 0 text_block
      ∷ content_block_delta 0 (text_delta (codes "hi"))
      ∷ content_block_stop 0
      ∷ content_block_start 1 (tool_block (codes "call_1") (codes "f"))
      ∷ content_block_delta 1 (input_json_delta (codes "{}"))
      ∷ content_block_stop 1
      ∷ message_delta tool_use (pos 0) (pos 0)
      ∷ message_stop
      ∷ []
unfolding bridge_to_messages new_out_state feed_all feed feed_delta feed_tools feed_tool feed_text
    enter open_block block_delta close_block start_message finish_stream anthropic_stop_from_finish
    choice_of finish_from_openai_finish usage_from_any first_non_empty
talk_events = refl

-- Arguments without a name go to a block that was never opened.
orphan_events :
    trace (bridge_to_messages (codes "call_1") (codes "m") (chunk orphan null ∷ [])) ≡ none
unfolding bridge_to_messages new_out_state feed_all feed feed_delta feed_tools feed_tool feed_text
    enter open_block block_delta close_block start_message finish_stream anthropic_stop_from_finish
    choice_of finish_from_openai_finish usage_from_any
orphan_events = refl

talk-Orderly : Orderly talk false
unfolding choice_of
talk-Orderly = (tt, ((tt, tt), (tt, (refl, tt))))

bridge_to_messages-trace_example :
    trace (bridge_to_messages (codes "call_1") (codes "m") talk) ≡ some over
bridge_to_messages-trace_example =
    bridge_to_messages-trace (codes "call_1") (codes "m") talk talk-Orderly
