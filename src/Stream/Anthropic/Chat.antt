-- ===== src/Stream/Anthropic/Chat.antt =====
-- The chunks that a client of the chat entry is sent, whatever events the Anthropic upstream sends.
use keygrid.Prelude.{
  if_both, ap, ◌∙◌, ℕ, ◌≡◌, refl, Bool, true, false, List, [], ◌∷◌, ◌++◌, some, if◌then◌else◌, inl,
  inr, ◌⊎◌, arith, length, each, append-nil,
}
use keygrid.Failure.Message.{Runes, codes}
use keygrid.Json.{Fields, str, end, field, get, as_object, fields_of, text_of, int_num}
use keygrid.Stream.{same}
use keygrid.Stream.Anthropic.{
  InState, new_in_state, finish_text, pass_with_role, on_message_start, on_block_start,
  on_block_delta, note_stop, on_message_delta, finalize_if, finalize, or_text, error_if, on_error,
  note_model, feed_anthropic_event, all_blank, scan_event, scan, bridge_to_chat,
}
use keygrid.Stream.Anthropic.Flow.{
  finishes, roles, calls, numbered, snoc-IsFlow, assistant, role_list, sent,
}
use keygrid.Stream.Anthropic.Pieces.{
  IsChatting, pass_with_role-IsFlow, on_message_start-IsChatting, on_block_start-IsChatting,
  delta-IsChatting, stop-IsChatting, output-IsChatting, model-IsChatting, unsent-IsFlow,
}

-- The end of a chat is passed on if it has not been.
finalize-IsChatting :
    (s : InState) → IsChatting s → IsChatting (finalize s) × ((finalize s).finish_sent ≡ true)
unfolding finalize
finalize-IsChatting s v = go s.finish_sent refl
  where
    go :
        (b : Bool)
        → s.finish_sent ≡ b
        → IsChatting (finalize_if b s) × ((finalize_if b s).finish_sent ≡ true)
    go true e = (v, e)
    go false e = (
      record {
        flow =
            snoc-IsFlow s.passed s.model end (some (finish_text s.finish)) s.tool_idx s.tool_idx 0 1
              (role_list s.role_sent) (role_list s.role_sent) refl (omega arith)
              (append-nil (role_list s.role_sent)) (unsent-IsFlow s e v);
        known = v.known;
        latest = v.latest;
      },
      refl,
    )

on_error-IsChatting : (ev : Fields) (s : InState) → IsChatting s → IsChatting (on_error ev s)
unfolding on_error pass_with_role
on_error-IsChatting ev s v = go s.finish_sent refl
  where
    go : (b : Bool) → s.finish_sent ≡ b → IsChatting (error_if b ev s)
    go true e = v
    go false e =
        let m =
          or_text (text_of (get "message" (fields_of (get "error" ev)))) (codes "upstream error") in
        record {
          flow =
              pass_with_role-IsFlow (field "content" (str (codes "[Error] " ++ m)) end)
                (some (codes "stop")) (record s { finish_sent = true }) s.tool_idx 0 1 refl refl
                (omega arith) (unsent-IsFlow s e v);
          known = v.known;
          latest = v.latest;
        }

feed-IsChatting :
    (fresh kind : Runes) (ev : Fields) (s : InState)
    → IsChatting s
    → IsChatting (feed_anthropic_event fresh kind ev s)
unfolding feed_anthropic_event on_message_delta on_block_delta
feed-IsChatting fresh kind ev s v =
    let t = note_model (text_of (get "model" ev)) s in
    let w = model-IsChatting (text_of (get "model" ev)) s v in
    let sr = text_of (get "stop_reason" (fields_of (get "delta" ev))) in
    let is : Runes → Bool = λ k. same kind k in
    let e1 = if is (codes "error") then on_error ev t else t in
    let e2 = if is (codes "message_stop") then finalize t else e1 in
    let e3 = if is (codes "message_delta") then on_message_delta ev t else e2 in
    let e4 = if is (codes "content_block_delta") then on_block_delta ev t else e3 in
    let e5 = if is (codes "content_block_start") then on_block_start fresh ev t else e4 in
    if_both IsChatting (is (codes "message_start")) (on_message_start ev t) e5
      (on_message_start-IsChatting ev t w)
      (if_both IsChatting (is (codes "content_block_start")) (on_block_start fresh ev t) e4
        (on_block_start-IsChatting fresh ev t w)
        (if_both IsChatting (is (codes "content_block_delta")) (on_block_delta ev t) e3
          (delta-IsChatting (int_num (get "index" ev)) (as_object (get "delta" ev)) t w)
          (if_both IsChatting (is (codes "message_delta")) (on_message_delta ev t) e2
            (output-IsChatting (as_object (get "usage" ev)) (note_stop sr t)
              (stop-IsChatting sr t w))
            (if_both IsChatting (is (codes "message_stop")) (finalize t) e1
              (finalize-IsChatting t w).0
              (if_both IsChatting (is (codes "error")) (on_error ev t) t
                (on_error-IsChatting ev t w) w)))))

scan-IsChatting :
    (fresh : Runes) (evs : List Fields) (s : InState) → IsChatting s → IsChatting (scan fresh evs s)
unfolding scan scan_event
scan-IsChatting fresh [] s v = v
scan-IsChatting fresh (ev ∷ evs) s v =
    let kind = text_of (get "type" ev) in
    scan-IsChatting fresh evs (scan_event fresh ev s) (
      if_both IsChatting (all_blank kind) s (feed_anthropic_event fresh kind ev s) v
        (feed-IsChatting fresh kind ev s v))

-- A whole answer of the chat protocol, in chunks.
pub record IsChat (chunks : List Fields) : Type 0 where
  pub tools : ℕ
  pub announced : numbered (some 0) (each calls chunks) ≡ some tools
  pub finished : length (each finishes chunks) ≡ 1
  pub named : (each roles chunks ≡ []) ⊎ (each roles chunks ≡ assistant)

role_list-cases : (b : Bool) (r : List Runes) → r ≡ role_list b → (r ≡ []) ⊎ (r ≡ assistant)
role_list-cases true r h = inr h
role_list-cases false r h = inl h

-- Whatever events an Anthropic upstream sends, and wherever they break off, the client of the chat entry is sent one
-- finish reason, the role at most once, and tool calls that are announced with the numbers 0, 1, 2 and so on, each
-- before it gets arguments, but for arguments before the first call, which go to number 0.
pub bridge_to_chat-IsChat :
    (fresh model : Runes) (evs : List Fields) → IsChat (bridge_to_chat fresh model evs)
unfolding bridge_to_chat new_in_state
bridge_to_chat-IsChat fresh model evs =
    let s = scan fresh evs (new_in_state model) in
    let v = finalize-IsChatting s (
      scan-IsChatting fresh evs (new_in_state model) (record {
        flow = record { called = refl; finished = refl; named = refl };
        known = λ i k h. absurd (ground (arith, h));
        latest = λ k h. absurd (ground (arith, h));
      })) in
    record {
      tools = (finalize s).tool_idx;
      announced = v.0.flow.called;
      finished = v.0.flow.finished ∙ ap sent v.1;
      named =
          role_list-cases (finalize s).role_sent (each roles (finalize s).passed) v.0.flow.named;
    }
