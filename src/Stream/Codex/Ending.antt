-- ===== src/Stream/Codex/Ending.antt =====
-- How a message ends whose upstream is a Responses one. A chunk that the code builds has its finish reason as
-- a *string, which the emitter does not read, and no usage.
use keygrid.Prelude.{
  if_both, refl, Bool, true, false, ◌||◌, List, [], ◌∷◌, ◌++◌, Option, none, some, if◌then◌else◌,
}
use keygrid.Failure.Message.{Runes, codes}
use keygrid.Json.{
  Json, Fields, str, end, field, get, as_object, fields_of, text_of, is_blank, Usage,
  usage_from_any,
}
use keygrid.Stream.{same, choice_of}
use keygrid.Stream.Messages.{OutState, finish_stream, new_out_state}
use keygrid.Stream.Messages.Unread.{
  Untold, feed-Untold, new_out_state-Untold, IsForgetful, IsEnded, finish_stream-IsEnded,
  stay-IsEnded,
}
use keygrid.Stream.Responses.Unread.{Unread}
use keygrid.Stream.Codex.{
  ChunkState, new_chunk_state, reason_text, codex_chunk, Converted, quiet, role_if, chunk_with_role,
  piece, tool_index_for, is_tool_call_item, json_string_fragment, arguments_delta, on_item_added,
  arguments_piece, or_input, on_item_done, usage_of, complete_if, on_completed, codex_error_message,
  fail_if, on_failed, note_model, convert_codex_event, feed_if, scan_codex,
  bridge_codex_to_messages, added_delta, with_tool, emitted, type_of,
}

codex_chunk-Unread :
    (m : Runes) (delta : Fields) (o : Option Runes) → Unread (codex_chunk m delta o)
unfolding codex_chunk choice_of usage_from_any
codex_chunk-Unread m delta o = (refl, refl)

abbrev AllUnread : Option Fields → Type 0
AllUnread none = Unit
AllUnread (some chunk) = Unread chunk

-- An event passes on nothing, or a chunk of that kind.
abbrev Passes : Converted → Type 0
Passes c = AllUnread c.chunk

choose : (b : Bool) (c d : Converted) → Passes c → Passes d → Passes (if b then c else d)
choose b c d v w = if_both (λ u. Passes u) b c d v w

role-Passes :
    (delta : Fields) (o : Option Runes) (b : Bool) (s : ChunkState)
    → Passes (chunk_with_role delta o b s)
unfolding chunk_with_role
role-Passes delta o b s = codex_chunk-Unread s.model (role_if s.role_sent delta) o

piece-Passes : (d : Runes) (delta : Runes → Fields) (s : ChunkState) → Passes (piece d delta s)
piece-Passes [] delta s = tt
piece-Passes (c ∷ d) delta s = role-Passes (delta (c ∷ d)) none false s

arguments-Passes :
    (marshal : Json → Runes) (custom : Bool) (ev : Fields) (d : Runes) (s : ChunkState)
    → Passes (arguments_piece marshal custom ev d s)
arguments-Passes marshal custom ev [] s = tt
arguments-Passes marshal custom ev (c ∷ d) s =
    let i = tool_index_for ev s in
    role-Passes (arguments_delta i (if custom then json_string_fragment marshal (c ∷ d) else c ∷ d))
      none false (record s { args_emitted = i ∷ s.args_emitted })

added-Passes :
    (made_up : Runes) (ev : Fields) (s : ChunkState) → Passes (on_item_added made_up ev s)
unfolding on_item_added
added-Passes made_up ev s =
    let item = fields_of (get "item" ev) in
    choose (is_tool_call_item item)
      (chunk_with_role (added_delta made_up item s.tool_index) none false (with_tool ev item s))
      (quiet s)
      (role-Passes (added_delta made_up item s.tool_index) none false (with_tool ev item s)) tt

done-Passes :
    (marshal : Json → Runes) (ev : Fields) (s : ChunkState) → Passes (on_item_done marshal ev s)
unfolding on_item_done
done-Passes marshal ev s =
    let item = fields_of (get "item" ev) in
    let args = or_input marshal item (text_of (get "arguments" item)) in
    let i = tool_index_for ev s in
    let t = record s { args_emitted = i ∷ s.args_emitted } in
    let whole = codes "{\"input\":\"" ++ (json_string_fragment marshal args ++ codes "\"}") in
    let custom = if emitted i s.args_emitted then codes "\"}" else whole in
    let closed = chunk_with_role (arguments_delta i custom) none false t in
    let full = chunk_with_role (arguments_delta i args) none false t in
    let late = if is_blank args || emitted i s.args_emitted then quiet s else full in
    let done =
      if same (type_of i s.tool_type_by_idx) (codes "custom_tool_call") then closed else late in
    choose (is_tool_call_item item) done (quiet s)
      (choose (same (type_of i s.tool_type_by_idx) (codes "custom_tool_call")) closed late
        (role-Passes (arguments_delta i custom) none false t)
        (choose (is_blank args || emitted i s.args_emitted) (quiet s) full tt
          (role-Passes (arguments_delta i args) none false t)))
      tt

completed-Passes : (ev : Fields) (s : ChunkState) → Passes (on_completed ev s)
unfolding on_completed
completed-Passes ev s =
    go s.finish_sent (usage_of (as_object (get "usage" (fields_of (get "response" ev)))))
  where
    go : (b : Bool) (u : Option Usage) → Passes (complete_if b u s)
    go true u = tt
    go false u = codex_chunk-Unread s.model end (some (reason_text s.finish_reason))

failed-Passes : (ev : Fields) (s : ChunkState) → Passes (on_failed ev s)
unfolding on_failed
failed-Passes ev s = go s.finish_sent
  where
    go : (b : Bool) → Passes (fail_if b ev s)
    go true = tt
    go false =
        role-Passes (field "content" (str (codes "[Error] " ++ codex_error_message ev)) end)
          (some (codes "stop")) true (record s { finish_sent = true })

convert-Passes :
    (marshal : Json → Runes) (made_up kind : Runes) (ev : Fields) (s : ChunkState)
    → Passes (convert_codex_event marshal made_up kind ev s)
unfolding convert_codex_event
convert-Passes marshal made_up kind ev before =
    let s = note_model before.model ev before in
    let d = text_of (get "delta" ev) in
    let is : Runes → Bool = λ k. same kind k in
    let to_text = piece d (λ t. field "content" (str t) end) s in
    let to_thought = piece d (λ t. field "reasoning_content" (str t) end) s in
    let e1 =
      if is (codes "response.failed") || is (codes "error") then on_failed ev s else quiet s in
    let e2 =
      if is (codes "response.completed") || is (codes "response.done")
      then on_completed ev s
      else e1 in
    let e3 = if is (codes "response.output_item.done") then on_item_done marshal ev s else e2 in
    let e4 =
      if is (codes "response.custom_tool_call_input.delta")
      then arguments_piece marshal true ev d s
      else e3 in
    let e5 =
      if is (codes "response.function_call_arguments.delta")
      then arguments_piece marshal false ev d s
      else e4 in
    let e6 = if is (codes "response.output_item.added") then on_item_added made_up ev s else e5 in
    let e7 = if is (codes "response.reasoning_summary_text.delta") then to_thought else e6 in
    choose (is (codes "response.output_text.delta")) to_text e7
      (piece-Passes d (λ t. field "content" (str t) end) s)
      (choose (is (codes "response.reasoning_summary_text.delta")) to_thought e6
        (piece-Passes d (λ t. field "reasoning_content" (str t) end) s)
        (choose (is (codes "response.output_item.added")) (on_item_added made_up ev s) e5
          (added-Passes made_up ev s)
          (choose (is (codes "response.function_call_arguments.delta"))
            (arguments_piece marshal false ev d s) e4 (arguments-Passes marshal false ev d s)
            (choose (is (codes "response.custom_tool_call_input.delta"))
              (arguments_piece marshal true ev d s) e3 (arguments-Passes marshal true ev d s)
              (choose (is (codes "response.output_item.done")) (on_item_done marshal ev s) e2
                (done-Passes marshal ev s)
                (choose (is (codes "response.completed") || is (codes "response.done"))
                  (on_completed ev s) e1 (completed-Passes ev s)
                  (choose (is (codes "response.failed") || is (codes "error")) (on_failed ev s)
                    (quiet s) (failed-Passes ev s) tt)))))))

feed_if-Untold :
    (made_up : Runes) (o : Option Fields) (out : OutState)
    → AllUnread o
    → Untold out
    → Untold (feed_if made_up o out)
feed_if-Untold made_up none out h v = v
feed_if-Untold made_up (some chunk) out h v = feed-Untold made_up chunk out h v

-- The scan leaves the message open, or ended by the event that finished the stream; then its end is written.
scan-IsEnded :
    (marshal : Json → Runes) (made_up : Runes) (evs : List Fields) (s : ChunkState) (out : OutState)
    → Untold out
    → IsEnded (finish_stream (scan_codex marshal made_up evs s out))
unfolding scan_codex
scan-IsEnded marshal made_up [] s out v = finish_stream-IsEnded out v
scan-IsEnded marshal made_up (ev ∷ evs) s out v =
    let c = convert_codex_event marshal made_up (text_of (get "type" ev)) ev s in
    let fed = feed_if made_up c.chunk out in
    let w =
      feed_if-Untold made_up c.chunk out
        (convert-Passes marshal made_up (text_of (get "type" ev)) ev s) v in
    let rest = scan_codex marshal made_up evs c.state fed in
    either c.fin (finish_stream fed) rest
      (stay-IsEnded (finish_stream fed) (finish_stream-IsEnded fed w))
      (scan-IsEnded marshal made_up evs c.state fed w)
  where
    either :
        (b : Bool) (x y : OutState)
        → IsEnded (finish_stream x)
        → IsEnded (finish_stream y)
        → IsEnded (finish_stream (if b then x else y))
    either true x y p q = p
    either false x y p q = q

-- Whatever events a Responses upstream sends, and wherever they break off, the message to a client of the Messages
-- entry is ended once, at its end; and it is ended as one that ended its turn and cost no token, whether or not the
-- upstream called tools and sent a usage.
pub bridge_codex_to_messages-IsForgetful :
    (marshal : Json → Runes) (made_up model : Runes) (evs : List Fields)
    → IsForgetful (bridge_codex_to_messages marshal made_up model evs)
unfolding bridge_codex_to_messages
bridge_codex_to_messages-IsForgetful marshal made_up model evs =
    (scan-IsEnded marshal made_up evs new_chunk_state (new_out_state model)
      (new_out_state-Untold model)).ended
