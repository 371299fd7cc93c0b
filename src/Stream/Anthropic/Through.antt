-- ===== src/Stream/Anthropic/Through.antt =====
-- The events of an Anthropic upstream, handed through to a client of the Responses entry. A chunk that the
-- code builds has its finish reason as a *string, which the emitter does not read, and no usage.
use keygrid.Prelude.{
  if_both, suc, String, refl, ℤ, Bool, true, false, List, [], ◌∷◌, ◌++◌, Option, none, some,
  if◌then◌else◌, All,
}
use keygrid.Failure.Message.{Runes, codes}
use keygrid.Json.{
  Fields, tool_calls, str, obj, end, field, get, as_object, fields_of, text_of, int_num,
  usage_from_any,
}
use keygrid.Stream.{same, choice_of}
use keygrid.Stream.Responses.{OutState, new_out_state, feed_all}
use keygrid.Stream.Responses.Unread.{
  Unread, IsUntold, feed_all-IsUntold, new_out_state-IsUntold, IsForgetful,
  finish_stream-IsForgetful,
}
use keygrid.Stream.Anthropic.{
  InState, new_in_state, finish_text, chunk_base, the_role, role_if, pass_with_role, note_input,
  pass_role, on_message_start, tool_call, announcement, on_block_start, lookup, or_last, piece,
  arguments, block_delta, on_block_delta, note_stop, note_output, on_message_delta, finalize_if,
  finalize, or_text, error_if, on_error, note_model, feed_anthropic_event, all_blank, scan_event,
  scan_through, bridge_anthropic_to_responses,
}

chunk_base-Unread : (m : Runes) (delta : Fields) (o : Option Runes) → Unread (chunk_base m delta o)
unfolding chunk_base choice_of usage_from_any
chunk_base-Unread m delta o = (refl, refl)

All-snoc : (xs : List Fields) (x : Fields) → All Unread xs → Unread x → All Unread (xs ++ x ∷ [])
All-snoc [] x h k = (k, tt)
All-snoc (y ∷ xs) x h k = (h.0, All-snoc xs x h.1 k)

pass-AllUnread :
    (s : InState) (m : Runes) (delta : Fields) (o : Option Runes)
    → All Unread s.passed
    → All Unread (s.passed ++ chunk_base m delta o ∷ [])
pass-AllUnread s m delta o v =
    All-snoc s.passed (chunk_base m delta o) v (chunk_base-Unread m delta o)

message_start-AllUnread :
    (ev : Fields) (s : InState) → All Unread s.passed → All Unread (on_message_start ev s).passed
unfolding on_message_start
message_start-AllUnread ev s v =
    let o = as_object (get "usage" (fields_of (get "message" ev))) in
    go (note_input o s).role_sent (note_input o s) (noted o)
  where
    noted : (o : Option Fields) → All Unread (note_input o s).passed
    noted none = v
    noted (some u) = v

    go : (b : Bool) (t : InState) → All Unread t.passed → All Unread (pass_role b t).passed
    go true t w = w
    go false t w = pass-AllUnread t t.model (the_role end) none w

-- Either way of a test.
choose :
    (b : Bool) (s t : InState)
    → All Unread s.passed
    → All Unread t.passed
    → All Unread (if b then s else t).passed
choose b s t v w = if_both (λ u. All Unread u.passed) b s t v w

block_start-AllUnread :
    (fresh : Runes) (ev : Fields) (s : InState)
    → All Unread s.passed
    → All Unread (on_block_start fresh ev s).passed
unfolding on_block_start pass_with_role
block_start-AllUnread fresh ev s v =
    let block = fields_of (get "content_block" ev) in
    let t = pass_with_role (tool_call s.tool_idx (announcement fresh block)) none (record s {
      tool_idx = suc s.tool_idx;
      block_to_tool = (int_num (get "index" ev), s.tool_idx) ∷ s.block_to_tool;
      last_tool_idx = some s.tool_idx;
      finish = tool_calls;
    }) in
    choose (same (text_of (get "type" block)) (codes "tool_use")) t s
      (pass-AllUnread s s.model
        (role_if s.role_sent (tool_call s.tool_idx (announcement fresh block))) none v)
      v

piece-AllUnread :
    (k : String) (t : Runes) (s : InState) → All Unread s.passed → All Unread (piece k t s).passed
unfolding pass_with_role
piece-AllUnread k [] s v = v
piece-AllUnread k (c ∷ t) s v =
    pass-AllUnread s s.model (role_if s.role_sent (field k (str (c ∷ t)) end)) none v

arguments-AllUnread :
    (i : ℤ) (t : Runes) (s : InState) → All Unread s.passed → All Unread (arguments i t s).passed
unfolding pass_with_role
arguments-AllUnread i [] s v = v
arguments-AllUnread i (c ∷ t) s v =
    let k = or_last (lookup i s.block_to_tool) s.last_tool_idx in
    pass-AllUnread s s.model
      (role_if s.role_sent
        (tool_call k (field "function" (obj (field "arguments" (str (c ∷ t)) end)) end)))
      none v

delta-AllUnread :
    (i : ℤ) (o : Option Fields) (s : InState)
    → All Unread s.passed
    → All Unread (block_delta i o s).passed
delta-AllUnread i none s v = v
delta-AllUnread i (some delta) s v =
    let t = text_of (get "type" delta) in
    let text = piece "content" (text_of (get "text" delta)) s in
    let thinking = piece "reasoning_content" (text_of (get "thinking" delta)) s in
    let args = arguments i (text_of (get "partial_json" delta)) s in
    let to_args = if same t (codes "input_json_delta") then args else s in
    let to_thinking = if same t (codes "thinking_delta") then thinking else to_args in
    choose (same t (codes "text_delta")) text to_thinking
      (piece-AllUnread "content" (text_of (get "text" delta)) s v)
      (choose (same t (codes "thinking_delta")) thinking to_args
        (piece-AllUnread "reasoning_content" (text_of (get "thinking" delta)) s v)
        (choose (same t (codes "input_json_delta")) args s
          (arguments-AllUnread i (text_of (get "partial_json" delta)) s v) v))

finalize-AllUnread : (s : InState) → All Unread s.passed → All Unread (finalize s).passed
unfolding finalize
finalize-AllUnread s v = go s.finish_sent
  where
    go : (b : Bool) → All Unread (finalize_if b s).passed
    go true = v
    go false = pass-AllUnread s s.model end (some (finish_text s.finish)) v

error-AllUnread :
    (ev : Fields) (s : InState) → All Unread s.passed → All Unread (on_error ev s).passed
unfolding on_error pass_with_role
error-AllUnread ev s v = go s.finish_sent
  where
    go : (b : Bool) → All Unread (error_if b ev s).passed
    go true = v
    go false =
        let m =
          or_text (text_of (get "message" (fields_of (get "error" ev)))) (codes "upstream error") in
        pass-AllUnread s s.model
          (role_if s.role_sent (field "content" (str (codes "[Error] " ++ m)) end))
          (some (codes "stop")) v

model-AllUnread :
    (m : Runes) (s : InState) → All Unread s.passed → All Unread (note_model m s).passed
model-AllUnread [] s v = v
model-AllUnread (c ∷ m) s v = v

message_delta-AllUnread :
    (ev : Fields) (s : InState) → All Unread s.passed → All Unread (on_message_delta ev s).passed
unfolding on_message_delta
message_delta-AllUnread ev s v = output (as_object (get "usage" ev)) (note_stop sr s) (stopped sr)
  where
    sr : Runes
    sr = text_of (get "stop_reason" (fields_of (get "delta" ev)))

    stopped : (sr : Runes) → All Unread (note_stop sr s).passed
    stopped [] = v
    stopped (c ∷ sr) = v

    output :
        (o : Option Fields) (t : InState)
        → All Unread t.passed
        → All Unread (note_output o t).passed
    output none t w = w
    output (some u) t w = w

pub event-AllUnread :
    (fresh : Runes) (ev : Fields) (s : InState)
    → All Unread s.passed
    → All Unread (scan_event fresh ev s).passed
unfolding scan_event feed_anthropic_event on_block_delta
event-AllUnread fresh ev s v =
    let kind = text_of (get "type" ev) in
    let t = note_model (text_of (get "model" ev)) s in
    let w = model-AllUnread (text_of (get "model" ev)) s v in
    let is : Runes → Bool = λ k. same kind k in
    let e1 = if is (codes "error") then on_error ev t else t in
    let e2 = if is (codes "message_stop") then finalize t else e1 in
    let e3 = if is (codes "message_delta") then on_message_delta ev t else e2 in
    let e4 = if is (codes "content_block_delta") then on_block_delta ev t else e3 in
    let e5 = if is (codes "content_block_start") then on_block_start fresh ev t else e4 in
    choose (all_blank kind) s (feed_anthropic_event fresh kind ev s) v (
      choose (is (codes "message_start")) (on_message_start ev t) e5
        (message_start-AllUnread ev t w)
        (choose (is (codes "content_block_start")) (on_block_start fresh ev t) e4
          (block_start-AllUnread fresh ev t w)
          (choose (is (codes "content_block_delta")) (on_block_delta ev t) e3
            (delta-AllUnread (int_num (get "index" ev)) (as_object (get "delta" ev)) t w)
            (choose (is (codes "message_delta")) (on_message_delta ev t) e2
              (message_delta-AllUnread ev t w)
              (choose (is (codes "message_stop")) (finalize t) e1 (finalize-AllUnread t w)
                (choose (is (codes "error")) (on_error ev t) t (error-AllUnread ev t w) w))))))

scan_through-IsUntold :
    (fresh : Runes) (evs : List Fields) (s : InState) (out : OutState)
    → IsUntold out
    → IsUntold (scan_through fresh evs s out)
unfolding scan_through
scan_through-IsUntold fresh [] s out v = v
scan_through-IsUntold fresh (ev ∷ evs) s out v =
    let t = scan_event fresh ev (record s { passed = [] }) in
    scan_through-IsUntold fresh evs t (feed_all fresh t.passed out) (
      feed_all-IsUntold fresh t.passed out (event-AllUnread fresh ev (record s { passed = [] }) tt)
        v)

-- The response to a client of the Responses entry whose upstream is Anthropic ends as one that was not cut off and
-- that cost no token, whatever stop reason and usage the upstream sent.
pub bridge_anthropic_to_responses-IsForgetful :
    (fresh model : Runes) (evs : List Fields)
    → IsForgetful (bridge_anthropic_to_responses fresh model evs)
unfolding bridge_anthropic_to_responses
bridge_anthropic_to_responses-IsForgetful fresh model evs =
    finish_stream-IsForgetful (scan_through fresh evs (new_in_state model) (new_out_state model)) (
      scan_through-IsUntold fresh evs (new_in_state model) (new_out_state model)
        (new_out_state-IsUntold model))
