-- ===== src/Stream/Anthropic/Examples.antt =====
-- An Anthropic stream that is cut off at the limit of tokens, for both entries.
use keygrid.Prelude.{◌≡◌, refl, false, pos, List, [], ◌∷◌, none, some}
use keygrid.Failure.Message.{Runes, codes, is_space}
use keygrid.Json.{Fields, num, str, obj, end, field, usage_from_any}
use keygrid.Stream.{choice_of, finish_from_openai_finish}
use keygrid.Stream.Responses.{
  new_out_state, feed_all, feed, feed_delta, feed_tools, feed_tool, feed_text, feed_reasoning,
  start_response, emit, finish_stream, close_items, message, created, output_item_added,
  content_part_added, output_text_delta, output_text_done, content_part_done, output_item_done,
  completed,
}
use keygrid.Stream.Responses.Unread.{IsForgetful}
use keygrid.Stream.Anthropic.{
  bridge_to_chat, bridge_anthropic_to_responses, the_role, chunk_base, new_in_state, scan,
  scan_through, scan_event, feed_anthropic_event, on_message_start, on_block_start, on_block_delta,
  on_message_delta, finalize, on_error, pass_with_role, finish_from_anthropic_stop,
}
use keygrid.Stream.Anthropic.Chat.{IsChat, bridge_to_chat-IsChat}
use keygrid.Stream.Responses.Sent.{text_piece}
use keygrid.Stream.Anthropic.Heard.{of_events}
use keygrid.Stream.Anthropic.Through.{bridge_anthropic_to_responses-IsForgetful}

abbrev event : Runes → Fields → Fields
event kind fs = field "type" (str kind) fs

abbrev cut : List Fields
cut =
    event (codes "message_start") (
      field "message" (obj (field "usage" (obj (field "input_tokens" (num (pos 7) []) end)) end))
        end)
    ∷ event (codes "content_block_delta") (
        field "delta"
          (obj (field "type" (str (codes "text_delta")) (field "text" (str (codes "hi")) end))) end)
    ∷ event (codes "message_delta") (
        field "delta" (obj (field "stop_reason" (str (codes "max_tokens")) end))
          (field "usage" (obj (field "output_tokens" (num (pos 9) []) end)) end))
    ∷ event (codes "message_stop") end
    ∷ []

cut_chat :
    bridge_to_chat (codes "call_1") (codes "m") cut
    ≡ chunk_base (codes "m") (the_role end) none
      ∷ chunk_base (codes "m") (field "content" (str (codes "hi")) end) none
      ∷ chunk_base (codes "m") end (some (codes "length"))
      ∷ []
unfolding bridge_to_chat new_in_state scan scan_event feed_anthropic_event on_message_start
    on_block_start on_block_delta on_message_delta finalize on_error pass_with_role
    finish_from_anthropic_stop is_space
cut_chat = refl

cut_response :
    bridge_anthropic_to_responses (codes "call_1") (codes "m") cut
    ≡ created
      ∷ output_item_added 0 (message [])
      ∷ content_part_added 0
      ∷ output_text_delta 0 (codes "hi")
      ∷ output_text_done 0 (codes "hi")
      ∷ content_part_done 0 (codes "hi")
      ∷ output_item_done 0 (message (codes "hi"))
      ∷ completed false (message (codes "hi") ∷ []) (pos 0) (pos 0)
      ∷ []
unfolding bridge_anthropic_to_responses new_in_state scan_through scan_event feed_anthropic_event
    on_message_start on_block_start on_block_delta on_message_delta finalize on_error pass_with_role
    finish_from_anthropic_stop is_space chunk_base new_out_state feed_all feed feed_delta feed_tools
    feed_tool feed_text feed_reasoning start_response emit finish_stream close_items choice_of
    usage_from_any finish_from_openai_finish
cut_response = refl

bridge_to_chat-IsChat_example : IsChat (bridge_to_chat (codes "call_1") (codes "m") cut)
bridge_to_chat-IsChat_example = bridge_to_chat-IsChat (codes "call_1") (codes "m") cut

bridge_anthropic_to_responses-IsForgetful_example :
    IsForgetful (bridge_anthropic_to_responses (codes "call_1") (codes "m") cut)
bridge_anthropic_to_responses-IsForgetful_example =
    bridge_anthropic_to_responses-IsForgetful (codes "call_1") (codes "m") cut

-- Its one piece is the text.
cut_pieces : of_events false cut ≡ text_piece (codes "hi") ∷ []
unfolding of_events is_space
cut_pieces = refl
