-- ===== src/Stream/Anthropic/Heard.antt =====
-- The pieces of text, of reasoning and of arguments in the events of an Anthropic upstream, and in the chunks that
-- each handler passes on.
use keygrid.Prelude.{
  ap, sym, ◌∙◌, ◌≡◌, refl, suc, ℤ, Bool, true, false, List, [], ◌∷◌, ◌++◌, append_assoc, append-nil,
  Option, none, some, if◌then◌else◌,
}
use keygrid.Failure.Message.{Runes, codes}
use keygrid.Json.{
  Fields, tool_calls, str, obj, end, field, get, as_object, fields_of, text_of, int_num,
}
use keygrid.Stream.{same, choice_of}
use keygrid.Stream.Responses.Sent.{
  Piece, text_piece, thought_piece, argument_piece, piece_if, brought, brought_all, delta_pieces,
}
use keygrid.Stream.Anthropic.{
  InState, finish_text, chunk_base, the_role, role_if, pass_with_role, note_input, pass_role,
  on_message_start, tool_call, announcement, on_block_start, lookup, or_last, piece, arguments,
  block_delta, note_stop, note_output, on_message_delta, finalize_if, finalize, or_text, error_if,
  on_error, all_blank,
}

-- The piece of a delta, by its type.
abbrev pub in_delta : Option Fields → List Piece
in_delta none = []
in_delta (some delta) =
    let t = text_of (get "type" delta) in
    if same t (codes "text_delta")
    then piece_if text_piece (text_of (get "text" delta))
    else if same t (codes "thinking_delta")
    then piece_if thought_piece (text_of (get "thinking" delta))
    else if same t (codes "input_json_delta")
    then piece_if argument_piece (text_of (get "partial_json" delta))
    else []

-- An error is told as a text, unless the message has ended before.
abbrev pub in_error : Bool → Fields → List Piece
in_error true ev = []
in_error false ev =
    let message =
      or_text (text_of (get "message" (fields_of (get "error" ev)))) (codes "upstream error") in
    text_piece (codes "[Error] " ++ message) ∷ []

-- The pieces of an event, and whether the message has ended with it; `ended` is whether it has ended before.
abbrev pub of_kind : Runes → Bool → Fields → List Piece × Bool
of_kind kind ended ev =
    if same kind (codes "message_start")
    then ([], ended)
    else if same kind (codes "content_block_start")
    then ([], ended)
    else if same kind (codes "content_block_delta")
    then (in_delta (as_object (get "delta" ev)), ended)
    else if same kind (codes "message_delta")
    then ([], ended)
    else if same kind (codes "message_stop")
    then ([], true)
    else if same kind (codes "error")
    then (in_error ended ev, true)
    else ([], ended)

abbrev pub of_event : Bool → Fields → List Piece × Bool
of_event ended ev =
    let kind = text_of (get "type" ev) in
    if all_blank kind then ([], ended) else of_kind kind ended ev

-- The pieces of the events of an upstream.
unfoldable pub of_events : Bool → List Fields → List Piece
of_events ended [] = []
of_events ended (ev ∷ evs) = (of_event ended ev).0 ++ of_events (of_event ended ev).1 evs

-- From `s` to `t` these pieces are passed on, and the message has ended or not.
abbrev pub Moves : InState → InState → List Piece × Bool → Type 0
Moves s t p = (brought_all t.passed ≡ brought_all s.passed ++ p.0) × (t.finish_sent ≡ p.1)

pub rests :
    (s t : InState)
    → t.passed ≡ s.passed
    → t.finish_sent ≡ s.finish_sent
    → Moves s t ([], s.finish_sent)
rests s t h k = (ap brought_all h ∙ sym (append-nil (brought_all s.passed)), k)

pub pick :
    (s t u : InState) (p q : List Piece × Bool) (b : Bool)
    → Moves s t p
    → Moves s u q
    → Moves s (if b then t else u) (if b then p else q)
pick s t u p q true v w = v
pick s t u p q false v w = w

brought_all-snoc :
    (xs : List Fields) (x : Fields) → brought_all (xs ++ x ∷ []) ≡ brought_all xs ++ brought x
brought_all-snoc [] x = append-nil (brought x)
brought_all-snoc (y ∷ xs) x =
    ap (λ z. brought y ++ z) (brought_all-snoc xs x)
    ∙ sym (append_assoc (brought y) (brought_all xs) (brought x))

passed-brought :
    (xs : List Fields) (m : Runes) (delta : Fields) (o : Option Runes)
    → brought_all (xs ++ chunk_base m delta o ∷ []) ≡ brought_all xs ++ delta_pieces delta
unfolding chunk_base choice_of
passed-brought xs m delta o = brought_all-snoc xs (chunk_base m delta o)

-- A role before a delta brings nothing.
role-pieces : (b : Bool) (delta : Fields) → delta_pieces (role_if b delta) ≡ delta_pieces delta
role-pieces true delta = refl
role-pieces false delta = refl

with_role-brought :
    (delta : Fields) (o : Option Runes) (s : InState)
    → brought_all (pass_with_role delta o s).passed ≡ brought_all s.passed ++ delta_pieces delta
unfolding pass_with_role
with_role-brought delta o s =
    passed-brought s.passed s.model (role_if s.role_sent delta) o
    ∙ ap (λ x. brought_all s.passed ++ x) (role-pieces s.role_sent delta)

pub message_start-Moves :
    (ev : Fields) (s : InState) → Moves s (on_message_start ev s) ([], s.finish_sent)
unfolding on_message_start
message_start-Moves ev s = noted (as_object (get "usage" (fields_of (get "message" ev))))
  where
    go :
        (b : Bool) (t : InState)
        → t.passed ≡ s.passed
        → t.finish_sent ≡ s.finish_sent
        → Moves s (pass_role b t) ([], s.finish_sent)
    go true t h k = rests s t h k
    go false t h k =
        (passed-brought t.passed t.model (the_role end) none ∙ ap (λ x. brought_all x ++ []) h, k)

    noted :
        (o : Option Fields)
        → Moves s (pass_role (note_input o s).role_sent (note_input o s)) ([], s.finish_sent)
    noted none = go s.role_sent s refl refl
    noted (some u) = go s.role_sent (note_input (some u) s) refl refl

pub block_start-Moves :
    (fresh : Runes) (ev : Fields) (s : InState)
    → Moves s (on_block_start fresh ev s) ([], s.finish_sent)
unfolding on_block_start pass_with_role
block_start-Moves fresh ev s =
    let block = fields_of (get "content_block" ev) in
    let u = record s {
      tool_idx = suc s.tool_idx;
      block_to_tool = (int_num (get "index" ev), s.tool_idx) ∷ s.block_to_tool;
      last_tool_idx = some s.tool_idx;
      finish = tool_calls;
    } in
    let call = tool_call s.tool_idx (announcement fresh block) in
    go (same (text_of (get "type" block)) (codes "tool_use")) (pass_with_role call none u)
      (with_role-brought call none u, refl)
  where
    go :
        (b : Bool) (t : InState)
        → Moves s t ([], s.finish_sent)
        → Moves s (if b then t else s) ([], s.finish_sent)
    go true t v = v
    go false t v = rests s s refl refl

text-Moves :
    (t : Runes) (s : InState) → Moves s (piece "content" t s) (piece_if text_piece t, s.finish_sent)
unfolding pass_with_role
text-Moves [] s = rests s s refl refl
text-Moves (c ∷ t) s = (with_role-brought (field "content" (str (c ∷ t)) end) none s, refl)

thought-Moves :
    (t : Runes) (s : InState)
    → Moves s (piece "reasoning_content" t s) (piece_if thought_piece t, s.finish_sent)
unfolding pass_with_role
thought-Moves [] s = rests s s refl refl
thought-Moves (c ∷ t) s =
    (with_role-brought (field "reasoning_content" (str (c ∷ t)) end) none s, refl)

arguments-Moves :
    (i : ℤ) (t : Runes) (s : InState)
    → Moves s (arguments i t s) (piece_if argument_piece t, s.finish_sent)
unfolding pass_with_role
arguments-Moves i [] s = rests s s refl refl
arguments-Moves i (c ∷ t) s = (
  with_role-brought
      (tool_call (or_last (lookup i s.block_to_tool) s.last_tool_idx)
        (field "function" (obj (field "arguments" (str (c ∷ t)) end)) end))
      none s,
  refl,
)

pub delta-Moves :
    (i : ℤ) (o : Option Fields) (s : InState)
    → Moves s (block_delta i o s) (in_delta o, s.finish_sent)
delta-Moves i none s = rests s s refl refl
delta-Moves i (some delta) s =
    let t = text_of (get "type" delta) in
    go (piece "content" (text_of (get "text" delta)) s)
      (piece "reasoning_content" (text_of (get "thinking" delta)) s)
      (arguments i (text_of (get "partial_json" delta)) s)
      (piece_if text_piece (text_of (get "text" delta)))
      (piece_if thought_piece (text_of (get "thinking" delta)))
      (piece_if argument_piece (text_of (get "partial_json" delta))) (same t (codes "text_delta"))
      (same t (codes "thinking_delta")) (same t (codes "input_json_delta"))
      (text-Moves (text_of (get "text" delta)) s) (thought-Moves (text_of (get "thinking" delta)) s)
      (arguments-Moves i (text_of (get "partial_json" delta)) s)
  where
    go :
        (t u v : InState) (p q r : List Piece) (a b c : Bool)
        → Moves s t (p, s.finish_sent)
        → Moves s u (q, s.finish_sent)
        → Moves s v (r, s.finish_sent)
        → Moves s
            (if a then t else if b then u else if c then v else s)
            ((if a then p else if b then q else if c then r else []), s.finish_sent)
    go t u v p q r true b c x y z = x
    go t u v p q r false true c x y z = y
    go t u v p q r false false true x y z = z
    go t u v p q r false false false x y z = rests s s refl refl

pub message_delta-Moves :
    (ev : Fields) (s : InState) → Moves s (on_message_delta ev s) ([], s.finish_sent)
unfolding on_message_delta
message_delta-Moves ev s =
    go (text_of (get "stop_reason" (fields_of (get "delta" ev)))) (as_object (get "usage" ev))
  where
    go :
        (sr : Runes) (o : Option Fields)
        → Moves s (note_output o (note_stop sr s)) ([], s.finish_sent)
    go [] none = rests s s refl refl
    go [] (some u) = rests s (note_output (some u) s) refl refl
    go (c ∷ sr) none = rests s (note_stop (c ∷ sr) s) refl refl
    go (c ∷ sr) (some u) = rests s (note_output (some u) (note_stop (c ∷ sr) s)) refl refl

pub finalize-Moves : (s : InState) → Moves s (finalize s) ([], true)
unfolding finalize
finalize-Moves s = go s.finish_sent refl
  where
    go : (b : Bool) → s.finish_sent ≡ b → Moves s (finalize_if b s) ([], true)
    go true e = (sym (append-nil (brought_all s.passed)), e)
    go false e = (passed-brought s.passed s.model end (some (finish_text s.finish)), refl)

pub error-Moves :
    (ev : Fields) (s : InState) → Moves s (on_error ev s) (in_error s.finish_sent ev, true)
unfolding on_error pass_with_role
error-Moves ev s = go s.finish_sent refl
  where
    go : (b : Bool) → s.finish_sent ≡ b → Moves s (error_if b ev s) (in_error b ev, true)
    go true e = (sym (append-nil (brought_all s.passed)), e)
    go false e =
        let message =
          or_text (text_of (get "message" (fields_of (get "error" ev)))) (codes "upstream error") in
        (
          with_role-brought (field "content" (str (codes "[Error] " ++ message)) end)
              (some (codes "stop")) (record s { finish_sent = true }),
          refl,
        )
