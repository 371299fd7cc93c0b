-- ===== src/Stream/Responses/Unread.antt =====
-- Chunks in which the emitter reads neither a finish reason nor a usage: the response stays open, and at its
-- end it is neither cut off nor has it cost a token.
use keygrid.Prelude.{
  ap, sym, ◌∙◌, ◌≡◌, refl, ℤ, pos, Bool, true, false, List, [], ◌∷◌, ◌++◌, append_assoc, Option,
  none, some, arith, All, ℕ,
}
use keygrid.Failure.Message.{Runes}
use keygrid.Json.{
  Items, Fields, Finish, stop, nil, cons, get, as_object, fields_of, items_of, text_of, int_num,
  Usage, usage_from_any,
}
use keygrid.Stream.{choice_of, finish_reason, delta_of}
use keygrid.Stream.Responses.{
  OutState, Tool, Event, completed, new_out_state, start_response, started_if, feed_text,
  message_if, feed_reasoning, reasoning_if, tool_at, tool_if, arguments_to, feed_tool, feed_item,
  feed_tools, feed_delta, feed_choice, feed, feed_all, note_model, note_usage, note_finish,
  finish_on, finished_if, finish_stream, close_items, output_from, Item, emit, is_length,
}
use keygrid.Stream.Responses.Kept.{IsOpen, start_response-IsOpen}
use keygrid.Stream.Responses.Tools.{delta-IsOpen}
use keygrid.Stream.Responses.Whole.{model-IsOpen}

-- A choice without a finish reason that the emitter reads.
abbrev pub Unended : Option Fields → Type 0
Unended none = Unit
Unended (some ch) = finish_reason ch ≡ []

abbrev pub Unread : Fields → Type 0
Unread chunk = Unended (choice_of chunk) × (usage_from_any (get "usage" chunk) ≡ none)

-- What the response says of its end: why it finished, and the tokens.
abbrev pub told : OutState → Finish × (ℤ × ℤ)
told s = (s.finish, (s.prompt_tok, s.compl_tok))

start_response-told : (s : OutState) → told (start_response s) ≡ told s
unfolding start_response emit
start_response-told s = go s.started
  where
    go : (b : Bool) → told (started_if b s) ≡ told s
    go true = refl
    go false = refl

text-told : (t : Runes) (s : OutState) → told (feed_text t s) ≡ told s
unfolding feed_text emit
text-told [] s = refl
text-told (c ∷ t) s = go s.message_at
  where
    go : (o : Option ℕ) → told (message_if o s) ≡ told s
    go none = refl
    go (some i) = refl

reasoning-told : (t : Runes) (s : OutState) → told (feed_reasoning t s) ≡ told s
unfolding feed_reasoning emit
reasoning-told [] s = refl
reasoning-told (c ∷ t) s = go s.reasoning_at
  where
    go : (o : Option ℕ) → told (reasoning_if o s) ≡ told s
    go none = refl
    go (some i) = refl

arguments-told : (n : ℤ) (t : Runes) (s : OutState) → told (arguments_to n t s) ≡ told s
unfolding emit
arguments-told n [] s = refl
arguments-told n (c ∷ t) s = refl

tool-told :
    (fresh : Runes) (n : ℤ) (id name : Runes) (o : Option Tool) (s : OutState)
    → told (tool_if fresh n id name o s) ≡ told s
unfolding emit
tool-told fresh n id name none s = refl
tool-told fresh n id name (some t) s = refl

item-told : (fresh : Runes) (o : Option Fields) (s : OutState) → told (feed_item fresh o s) ≡ told s
unfolding feed_tool
item-told fresh none s = refl
item-told fresh (some tc) s =
    let fn = fields_of (get "function" tc) in
    let n = int_num (get "index" tc) in
    arguments-told n (text_of (get "arguments" fn))
      (tool_if fresh n (text_of (get "id" tc)) (text_of (get "name" fn)) (tool_at n s.tools) s)
    ∙ tool-told fresh n (text_of (get "id" tc)) (text_of (get "name" fn)) (tool_at n s.tools) s

tools-told : (fresh : Runes) (vs : Items) (s : OutState) → told (feed_tools fresh vs s) ≡ told s
unfolding feed_tools
tools-told fresh nil s = refl
tools-told fresh (cons v vs) s =
    tools-told fresh vs (feed_item fresh (as_object v) s) ∙ item-told fresh (as_object v) s

delta-told :
    (fresh : Runes) (delta : Fields) (s : OutState) → told (feed_delta fresh delta s) ≡ told s
unfolding feed_delta
delta-told fresh delta s =
    let t = feed_text (text_of (get "content" delta)) s in
    tools-told fresh (items_of (get "tool_calls" delta))
      (feed_reasoning (text_of (get "reasoning_content" delta)) t)
    ∙ reasoning-told (text_of (get "reasoning_content" delta)) t
    ∙ text-told (text_of (get "content" delta)) s

-- A response that is open, and of whose end nothing has been told.
pub record IsUntold (s : OutState) : Type 0 where
  pub still_open : IsOpen false s
  pub nothing : told s ≡ (stop, (pos 0, pos 0))

choice-IsUntold :
    (fresh : Runes) (o : Option Fields) (s : OutState)
    → Unended o
    → IsUntold s
    → IsUntold (feed_choice fresh o s)
choice-IsUntold fresh none s e v = v
choice-IsUntold fresh (some ch) s e v = go (finish_reason ch) e
  where
    go :
        (fr : Runes)
        → fr ≡ []
        → IsUntold
            (finish_on fr (feed_delta fresh (delta_of ch) (start_response (note_finish fr s))))
    go (c ∷ fr) h = absurd (ground (arith, h))
    go [] h = record {
      still_open =
          delta-IsOpen false fresh (delta_of ch) (start_response s)
            (start_response-IsOpen false s v.still_open);
      nothing =
          delta-told fresh (delta_of ch) (start_response s) ∙ start_response-told s ∙ v.nothing;
    }

model-told : (m : Runes) (s : OutState) → told (note_model m s) ≡ told s
model-told [] s = refl
model-told (c ∷ m) s = refl

usage-IsUntold :
    (u : Option Usage) (s : OutState) → u ≡ none → IsUntold s → IsUntold (note_usage u s)
usage-IsUntold none s e v = v
usage-IsUntold (some u) s e v = absurd (ground (arith, e))

feed-IsUntold :
    (fresh : Runes) (chunk : Fields) (s : OutState)
    → Unread chunk
    → IsUntold s
    → IsUntold (feed fresh chunk s)
unfolding feed
feed-IsUntold fresh chunk s e v =
    let m = text_of (get "model" chunk) in
    let u = usage_from_any (get "usage" chunk) in
    choice-IsUntold fresh (choice_of chunk) (note_usage u (note_model m s)) e.0 (
      usage-IsUntold u (note_model m s) e.1 (record {
        still_open = model-IsOpen m s v.still_open;
        nothing = model-told m s ∙ v.nothing;
      }))

pub feed_all-IsUntold :
    (fresh : Runes) (chunks : List Fields) (s : OutState)
    → All Unread chunks
    → IsUntold s
    → IsUntold (feed_all fresh chunks s)
unfolding feed_all
feed_all-IsUntold fresh [] s e v = v
feed_all-IsUntold fresh (chunk ∷ chunks) s e v =
    feed_all-IsUntold fresh chunks (feed fresh chunk s) e.1 (feed-IsUntold fresh chunk s e.0 v)

pub new_out_state-IsUntold : (model : Runes) → IsUntold (new_out_state model)
unfolding new_out_state
new_out_state-IsUntold model = record {
  still_open = record {
    ended = refl;
    indices = refl;
    texts = refl;
    undone = refl;
    incomplete = refl;
    covered = λ i h. absurd (omega (arith, h));
    blank = λ h. refl;
  };
  nothing = refl;
}

-- A response that ends as one that was not cut off and cost no token.
pub record IsForgetful (events : List Event) : Type 0 where
  pub before : List Event
  pub output : List Item
  pub last : events ≡ before ++ completed false output (pos 0) (pos 0) ∷ []

pub finish_stream-IsForgetful : (s : OutState) → IsUntold s → IsForgetful (finish_stream s).written
unfolding finish_stream
finish_stream-IsForgetful s v = go s.finish_sent v.still_open.ended
  where
    go : (b : Bool) → b ≡ false → IsForgetful (finished_if b s).written
    go true e = absurd (ground (arith, e))
    go false e =
        let t = start_response (record s { finish_sent = true }) in
        let c = close_items t in
        let out = output_from 0 t.item_index c.output in
        record {
          before = t.written ++ c.events;
          output = out;
          last =
              sym (
                append_assoc t.written c.events
                  (completed (is_length t.finish) out t.prompt_tok t.compl_tok ∷ []))
              ∙ ap (λ q. (t.written ++ c.events) ++ completed (is_length q.0) out q.1.0 q.1.1 ∷ [])
                  (start_response-told (record s { finish_sent = true }) ∙ v.nothing);
        }
