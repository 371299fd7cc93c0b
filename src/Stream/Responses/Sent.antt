-- ===== src/Stream/Responses/Sent.antt =====
-- The pieces of text, of reasoning and of arguments that a stream of chunks brings, and those that are sent.
use keygrid.Prelude.{
  ap, sym, ◌∙◌, ◌≡◌, refl, ℤ, Bool, true, false, List, [], ◌∷◌, ◌++◌, append_assoc, append-nil,
  Option, none, some, arith, All, ℕ, suc,
}
use keygrid.Failure.Message.{Runes, take}
use keygrid.Json.{
  Items, Fields, nil, cons, get, as_object, fields_of, items_of, text_of, int_num, Usage,
  usage_from_any, first_non_empty,
}
use keygrid.Stream.{choice_of, finish_reason, delta_of}
use keygrid.Stream.Responses.{
  OutState, Tool, Event, Closing, created, output_item_added, content_part_added, output_text_delta,
  reasoning_delta, arguments_delta, message, reasoning, function_call, start_response, started_if,
  feed_text, message_if, feed_reasoning, reasoning_if, tool_at, tool_if, arguments_to,
  add_arguments, index_of, or_zero, feed_tool, feed_item, feed_tools, feed_delta, feed_choice, feed,
  feed_all, note_model, note_usage, note_finish, finish_on, finished_if, finish_stream, close_items,
  close_reasoning, close_message, close_tools, emit, completed, is_length, output_from,
}
use keygrid.Stream.Responses.Unread.{Unended, Unread}

pub data Piece : Type 0 where
  text_piece thought_piece argument_piece : Runes → Piece

-- A text that is not empty, as one piece.
abbrev pub piece_if : (Runes → Piece) → Runes → List Piece
piece_if k [] = []
piece_if k (c ∷ t) = k (c ∷ t) ∷ []

abbrev pub sent : Event → List Piece
sent (output_text_delta i t) = text_piece t ∷ []
sent (reasoning_delta i t) = thought_piece t ∷ []
sent (arguments_delta i t) = argument_piece t ∷ []
sent e = []

abbrev pub sent_all : List Event → List Piece
sent_all [] = []
sent_all (e ∷ es) = sent e ++ sent_all es

abbrev pub item_pieces : Option Fields → List Piece
item_pieces none = []
item_pieces (some tc) =
    piece_if argument_piece (text_of (get "arguments" (fields_of (get "function" tc))))

abbrev pub call_pieces : Items → List Piece
call_pieces nil = []
call_pieces (cons v vs) = item_pieces (as_object v) ++ call_pieces vs

abbrev pub delta_pieces : Fields → List Piece
delta_pieces delta =
    piece_if text_piece (text_of (get "content" delta))
    ++ (piece_if thought_piece (text_of (get "reasoning_content" delta))
        ++ call_pieces (items_of (get "tool_calls" delta)))

abbrev pub choice_pieces : Option Fields → List Piece
choice_pieces none = []
choice_pieces (some ch) = delta_pieces (delta_of ch)

-- The pieces of a chunk, and of chunks.
abbrev pub brought : Fields → List Piece
brought chunk = choice_pieces (choice_of chunk)

abbrev pub brought_all : List Fields → List Piece
brought_all [] = []
brought_all (chunk ∷ chunks) = brought chunk ++ brought_all chunks

abbrev pub said : OutState → List Piece
said s = sent_all s.written

sent_all-append : (xs ys : List Event) → sent_all (xs ++ ys) ≡ sent_all xs ++ sent_all ys
sent_all-append [] ys = refl
sent_all-append (x ∷ xs) ys =
    ap (λ zs. sent x ++ zs) (sent_all-append xs ys)
    ∙ sym (append_assoc (sent x) (sent_all xs) (sent_all ys))

said-emit : (e : Event) (s : OutState) → said (emit e s) ≡ said s ++ sent e
unfolding emit
said-emit e s = sent_all-append s.written (e ∷ []) ∙ ap (λ x. said s ++ x) (append-nil (sent e))

quiet : (e : Event) (s : OutState) → sent e ≡ [] → said (emit e s) ≡ said s
quiet e s h = said-emit e s ∙ ap (λ x. said s ++ x) h ∙ append-nil (said s)

start_response-said : (s : OutState) → said (start_response s) ≡ said s
unfolding start_response
start_response-said s = go s.started
  where
    go : (b : Bool) → said (started_if b s) ≡ said s
    go true = refl
    go false = quiet created (record s { started = true }) refl

text-said : (t : Runes) (s : OutState) → said (feed_text t s) ≡ said s ++ piece_if text_piece t
unfolding feed_text
text-said [] s = sym (append-nil (said s))
text-said (c ∷ t) s =
    let m = message_if s.message_at s in
    said-emit (output_text_delta (or_zero m.message_at) (c ∷ t))
      (record m { text_buf = m.text_buf ++ c ∷ t })
    ∙ ap (λ x. x ++ piece_if text_piece (c ∷ t)) (opened s.message_at)
  where
    opened : (o : Option ℕ) → said (message_if o s) ≡ said s
    opened (some i) = refl
    opened none =
        let t = record s { message_at = some s.item_index; item_index = suc s.item_index } in
        quiet (content_part_added s.item_index)
          (emit (output_item_added s.item_index (message [])) t) refl
        ∙ quiet (output_item_added s.item_index (message [])) t refl

reasoning-said :
    (t : Runes) (s : OutState) → said (feed_reasoning t s) ≡ said s ++ piece_if thought_piece t
unfolding feed_reasoning
reasoning-said [] s = sym (append-nil (said s))
reasoning-said (c ∷ t) s =
    let m = reasoning_if s.reasoning_at s in
    said-emit (reasoning_delta (or_zero m.reasoning_at) (c ∷ t))
      (record m { reason_buf = m.reason_buf ++ c ∷ t })
    ∙ ap (λ x. x ++ piece_if thought_piece (c ∷ t)) (opened s.reasoning_at)
  where
    opened : (o : Option ℕ) → said (reasoning_if o s) ≡ said s
    opened (some i) = refl
    opened none =
        quiet (output_item_added s.item_index (reasoning []))
          (record s { reasoning_at = some s.item_index; item_index = suc s.item_index }) refl

arguments-said :
    (n : ℤ) (t : Runes) (s : OutState)
    → said (arguments_to n t s) ≡ said s ++ piece_if argument_piece t
arguments-said n [] s = sym (append-nil (said s))
arguments-said n (c ∷ t) s =
    said-emit (arguments_delta (index_of (tool_at n s.tools)) (c ∷ t))
      (record s { tools = add_arguments n (c ∷ t) s.tools })

tool-said :
    (fresh : Runes) (n : ℤ) (id name : Runes) (o : Option Tool) (s : OutState)
    → said (tool_if fresh n id name o s) ≡ said s
tool-said fresh n id name (some t) s = refl
tool-said fresh n id name none s =
    let t : Tool = record {
      number = n;
      call_id = first_non_empty id fresh;
      name = take 128 name;
      arguments = [];
      output_index = s.item_index;
    } in
    quiet (output_item_added t.output_index (function_call t.call_id t.name []))
      (record s { tools = s.tools ++ t ∷ []; item_index = suc s.item_index }) refl

item-said :
    (fresh : Runes) (o : Option Fields) (s : OutState)
    → said (feed_item fresh o s) ≡ said s ++ item_pieces o
unfolding feed_tool
item-said fresh none s = sym (append-nil (said s))
item-said fresh (some tc) s =
    let fn = fields_of (get "function" tc) in
    let n = int_num (get "index" tc) in
    arguments-said n (text_of (get "arguments" fn))
      (tool_if fresh n (text_of (get "id" tc)) (text_of (get "name" fn)) (tool_at n s.tools) s)
    ∙ ap (λ x. x ++ item_pieces (some tc))
        (tool-said fresh n (text_of (get "id" tc)) (text_of (get "name" fn)) (tool_at n s.tools) s)

tools-said :
    (fresh : Runes) (vs : Items) (s : OutState)
    → said (feed_tools fresh vs s) ≡ said s ++ call_pieces vs
unfolding feed_tools
tools-said fresh nil s = sym (append-nil (said s))
tools-said fresh (cons v vs) s =
    tools-said fresh vs (feed_item fresh (as_object v) s)
    ∙ ap (λ x. x ++ call_pieces vs) (item-said fresh (as_object v) s)
    ∙ append_assoc (said s) (item_pieces (as_object v)) (call_pieces vs)

delta-said :
    (fresh : Runes) (delta : Fields) (s : OutState)
    → said (feed_delta fresh delta s) ≡ said s ++ delta_pieces delta
unfolding feed_delta
delta-said fresh delta s =
    let a = text_of (get "content" delta) in
    let b = text_of (get "reasoning_content" delta) in
    let p = piece_if text_piece a in
    let q = piece_if thought_piece b in
    let r = call_pieces (items_of (get "tool_calls" delta)) in
    tools-said fresh (items_of (get "tool_calls" delta)) (feed_reasoning b (feed_text a s))
    ∙ ap (λ x. x ++ r) (reasoning-said b (feed_text a s) ∙ ap (λ x. x ++ q) (text-said a s))
    ∙ append_assoc (said s ++ p) q r
    ∙ append_assoc (said s) p (q ++ r)

choice-said :
    (fresh : Runes) (o : Option Fields) (s : OutState)
    → Unended o
    → said (feed_choice fresh o s) ≡ said s ++ choice_pieces o
choice-said fresh none s e = sym (append-nil (said s))
choice-said fresh (some ch) s e = go (finish_reason ch) e
  where
    go :
        (fr : Runes)
        → fr ≡ []
        → said (finish_on fr (feed_delta fresh (delta_of ch) (start_response (note_finish fr s))))
          ≡ said s ++ choice_pieces (some ch)
    go (c ∷ fr) h = absurd (ground (arith, h))
    go [] h =
        delta-said fresh (delta_of ch) (start_response s)
        ∙ ap (λ x. x ++ choice_pieces (some ch)) (start_response-said s)

feed-said :
    (fresh : Runes) (chunk : Fields) (s : OutState)
    → Unread chunk
    → said (feed fresh chunk s) ≡ said s ++ brought chunk
unfolding feed
feed-said fresh chunk s u =
    choice-said fresh (choice_of chunk)
      (note_usage (usage_from_any (get "usage" chunk)) (note_model (text_of (get "model" chunk)) s))
      u.0
    ∙ ap (λ x. x ++ brought chunk)
        (usage (usage_from_any (get "usage" chunk)) (note_model (text_of (get "model" chunk)) s)
          ∙ model (text_of (get "model" chunk)))
  where
    usage : (o : Option Usage) (t : OutState) → said (note_usage o t) ≡ said t
    usage none t = refl
    usage (some u) t = refl

    model : (m : Runes) → said (note_model m s) ≡ said s
    model [] = refl
    model (c ∷ m) = refl

pub feed_all-said :
    (fresh : Runes) (chunks : List Fields) (s : OutState)
    → All Unread chunks
    → said (feed_all fresh chunks s) ≡ said s ++ brought_all chunks
unfolding feed_all
feed_all-said fresh [] s a = sym (append-nil (said s))
feed_all-said fresh (chunk ∷ chunks) s a =
    feed_all-said fresh chunks (feed fresh chunk s) a.1
    ∙ ap (λ x. x ++ brought_all chunks) (feed-said fresh chunk s a.0)
    ∙ append_assoc (said s) (brought chunk) (brought_all chunks)

still : (xs ys : List Event) → sent_all xs ≡ [] → sent_all ys ≡ [] → sent_all (xs ++ ys) ≡ []
still xs ys h k = sent_all-append xs ys ∙ ap (λ x. x ++ sent_all ys) h ∙ k

close_items-still : (s : OutState) → sent_all (close_items s).events ≡ []
unfolding close_items
close_items-still s =
    tools s.tools
      (close_message s.message_at s.text_buf
        (close_reasoning s.reasoning_at s.reason_buf (record { output = []; events = [] })))
      (text s.message_at
        (close_reasoning s.reasoning_at s.reason_buf (record { output = []; events = [] }))
        (thought s.reasoning_at))
  where
    thought :
        (o : Option ℕ)
        → sent_all (close_reasoning o s.reason_buf (record { output = []; events = [] })).events
          ≡ []
    thought none = refl
    thought (some i) = refl

    text :
        (o : Option ℕ) (c : Closing)
        → sent_all c.events ≡ []
        → sent_all (close_message o s.text_buf c).events ≡ []
    text none c h = h
    text (some i) c h = sent_all-append c.events _ ∙ ap (λ x. x ++ []) h

    tools :
        (ts : List Tool) (c : Closing)
        → sent_all c.events ≡ []
        → sent_all (close_tools ts c).events ≡ []
    tools [] c h = h
    tools (t ∷ ts) c h = tools ts _ (sent_all-append c.events _ ∙ ap (λ x. x ++ []) h)

pub finish_stream-said : (s : OutState) → said (finish_stream s) ≡ said s
unfolding finish_stream
finish_stream-said s = go s.finish_sent
  where
    go : (b : Bool) → said (finished_if b s) ≡ said s
    go true = refl
    go false =
        let t = start_response (record s { finish_sent = true }) in
        let c = close_items t in
        let last =
          completed (is_length t.finish) (output_from 0 t.item_index c.output) t.prompt_tok
            t.compl_tok in
        sent_all-append t.written (c.events ++ last ∷ [])
        ∙ ap (λ x. said t ++ x) (still c.events (last ∷ []) (close_items-still t) refl)
        ∙ append-nil (said t)
        ∙ start_response-said (record s { finish_sent = true })
