-- ===== src/Stream/Codex/Examples.antt =====
-- A Responses stream in which a tool is called.
use keygrid.Prelude.{◌≡◌, refl, pos, List, [], ◌∷◌}
use keygrid.Failure.Message.{Runes, codes}
use keygrid.Json.{Fields, num, str, obj, end, field, usage_from_any, first_non_empty}
use keygrid.Stream.{choice_of}
use keygrid.Stream.Messages.{
  message_start, content_block_start, content_block_delta, content_block_stop, message_delta,
  message_stop, end_turn, tool_block, input_json_delta, new_out_state, feed, feed_delta, feed_tools,
  feed_tool, feed_text, open_block, block_delta, close_block, start_message, finish_stream,
  anthropic_stop_from_finish,
}
use keygrid.Stream.Messages.Unread.{IsForgetful}
use keygrid.Stream.Codex.{
  bridge_codex_to_messages, scan_codex, convert_codex_event, new_chunk_state, codex_chunk,
  chunk_with_role, on_item_added, on_completed, tool_index_for, is_tool_call_item,
}
use keygrid.Stream.Codex.Ending.{bridge_codex_to_messages-IsForgetful}

abbrev event : Runes → Fields → Fields
event kind fs = field "type" (str kind) fs

abbrev call : List Fields
call =
    event (codes "response.output_item.added") (
      field "item"
        (obj (
          field "type" (str (codes "function_call")) (
            field "id" (str (codes "fc"))
              (field "call_id" (str (codes "a")) (field "name" (str (codes "f")) end)))))
        end)
    ∷ event (codes "response.function_call_arguments.delta")
        (field "item_id" (str (codes "fc")) (field "delta" (str (codes "{}")) end))
    ∷ event (codes "response.completed") (
        field "response"
          (obj (
            field "usage"
              (obj (
                field "input_tokens" (num (pos 7) []) (field "output_tokens" (num (pos 9) []) end)))
              end))
          end)
    ∷ []

-- The client is told that the turn has ended, although a tool was called, and that no token was used.
call_events :
    bridge_codex_to_messages (λ v. []) (codes "call_1") (codes "m") call
    ≡ message_start (codes "m") (pos 0)
      ∷ content_block_start 0 (tool_block (codes "a") (codes "f"))
      ∷ content_block_delta 0 (input_json_delta (codes "{}"))
      ∷ content_block_stop 0
      ∷ message_delta end_turn (pos 0) (pos 0)
      ∷ message_stop
      ∷ []
unfolding bridge_codex_to_messages scan_codex convert_codex_event new_chunk_state codex_chunk
    chunk_with_role on_item_added on_completed tool_index_for is_tool_call_item choice_of
    usage_from_any first_non_empty new_out_state feed feed_delta feed_tools feed_tool feed_text
    open_block block_delta close_block start_message finish_stream anthropic_stop_from_finish
call_events = refl

bridge_codex_to_messages-IsForgetful_example :
    IsForgetful (bridge_codex_to_messages (λ v. []) (codes "call_1") (codes "m") call)
bridge_codex_to_messages-IsForgetful_example =
    bridge_codex_to_messages-IsForgetful (λ v. []) (codes "call_1") (codes "m") call
