-- ===== src/Stream/Messages/Unread.antt =====
-- Chunks in which the emitter reads neither a finish reason nor a usage: the message stays open, and it ends
-- as one that ended its turn and cost no token.
use keygrid.Prelude.{
  ap, ◌∙◌, ◌≡◌, refl, ℤ, pos, Bool, true, false, List, [], ◌∷◌, ◌++◌, Option, none, some,
  if◌then◌else◌, arith, each, each_same,
}
use keygrid.Failure.Message.{Runes, take}
use keygrid.Json.{
  Items, Fields, Finish, stop, nil, cons, get, as_object, items_of, text_of, int_num, Usage,
  usage_from_any, first_non_empty,
}
use keygrid.Stream.{choice_of, finish_reason, delta_of}
use keygrid.Stream.Messages.{
  BlockKind, no_block, text, thinking, tool, Block, text_block, thinking_block, tool_block,
  input_json_delta, Delta, text_delta, thinking_delta, Event, content_block_start,
  content_block_delta, content_block_stop, message_start, message_delta, message_stop, end_turn,
  OutState, new_out_state, started_if, start_message, close_kind, close_block, open_block,
  block_delta, same_kind, enter, feed_text, open_tool, arguments_to, name_of, arguments_of,
  feed_item, feed_tool, feed_tools, finished_if, finish_stream, finish_on, note_finish, feed_delta,
  feed_choice, note_model, note_usage, feed, anthropic_stop_from_finish,
}
use keygrid.Stream.Responses.Unread.{Unended, Unread}

-- The end of a message.
abbrev pub stops : Event → List Event
stops message_stop = message_stop ∷ []
stops e = []

-- What the emitter has of the message's end: the reason, whether it is written, the tokens, and the ends written.
abbrev told : OutState → Finish × (Bool × (ℤ × (ℤ × List Event)))
told s = (s.finish, (s.finish_sent, (s.prompt_tok, (s.compl_tok, each stops s.written))))

wrote :
    (s : OutState) (e : Event)
    → stops e ≡ []
    → told (record s { written = s.written ++ e ∷ [] }) ≡ told s
wrote s e h =
    ap (λ w. (s.finish, (s.finish_sent, (s.prompt_tok, (s.compl_tok, w)))))
      (each_same stops s.written e (each stops s.written) h refl)

start-told : (s : OutState) → told (start_message s) ≡ told s
unfolding start_message
start-told s = go s.started
  where
    go : (b : Bool) → told (started_if b s) ≡ told s
    go true = refl
    go false = wrote s (message_start s.model s.prompt_tok) refl

close-told : (s : OutState) → told (close_block s) ≡ told s
unfolding close_block
close-told s = go s.cur_kind
  where
    go : (k : BlockKind) → told (close_kind k s) ≡ told s
    go no_block = refl
    go text = wrote s (content_block_stop s.block_index) refl
    go thinking = wrote s (content_block_stop s.block_index) refl
    go tool = wrote s (content_block_stop s.block_index) refl

open-told : (k : BlockKind) (block : Block) (s : OutState) → told (open_block k block s) ≡ told s
unfolding open_block
open-told k block s = wrote s (content_block_start s.block_index block) refl

delta-told : (d : Delta) (s : OutState) → told (block_delta d s) ≡ told s
unfolding block_delta
delta-told d s = wrote s (content_block_delta s.block_index d) refl

enter-told : (k : BlockKind) (block : Block) (s : OutState) → told (enter k block s) ≡ told s
unfolding enter
enter-told k block s = go (same_kind s.cur_kind k)
  where
    go : (b : Bool) → told (if b then s else open_block k block (close_block s)) ≡ told s
    go true = refl
    go false = open-told k block (close_block s) ∙ close-told s

text-told :
    (k : BlockKind) (block : Block) (delta : Runes → Delta) (t : Runes) (s : OutState)
    → told (feed_text k block delta t s) ≡ told s
unfolding feed_text
text-told k block delta [] s = refl
text-told k block delta (c ∷ t) s =
    delta-told (delta (c ∷ t)) (enter k block s) ∙ enter-told k block s

tool-told :
    (fresh : Runes) (i : ℤ) (id name : Runes) (s : OutState)
    → told (open_tool fresh i id name s) ≡ told s
unfolding open_block
tool-told fresh i id [] s = refl
tool-told fresh i id (c ∷ name) s =
    wrote (close_block s)
      (content_block_start (close_block s).block_index
        (tool_block (first_non_empty id fresh) (take 128 (c ∷ name))))
      refl
    ∙ close-told s

arguments-told : (t : Runes) (s : OutState) → told (arguments_to t s) ≡ told s
arguments-told [] s = refl
arguments-told (c ∷ t) s = delta-told (input_json_delta (c ∷ t)) s

item-told : (fresh : Runes) (o : Option Fields) (s : OutState) → told (feed_item fresh o s) ≡ told s
unfolding feed_tool
item-told fresh none s = refl
item-told fresh (some tc) s =
    arguments-told (arguments_of tc)
      (open_tool fresh (int_num (get "index" tc)) (text_of (get "id" tc)) (name_of tc) s)
    ∙ tool-told fresh (int_num (get "index" tc)) (text_of (get "id" tc)) (name_of tc) s

tools-told : (fresh : Runes) (vs : Items) (s : OutState) → told (feed_tools fresh vs s) ≡ told s
unfolding feed_tools
tools-told fresh nil s = refl
tools-told fresh (cons v vs) s =
    tools-told fresh vs (feed_item fresh (as_object v) s) ∙ item-told fresh (as_object v) s

fed-told :
    (fresh : Runes) (delta : Fields) (s : OutState) → told (feed_delta fresh delta s) ≡ told s
unfolding feed_delta
fed-told fresh delta s =
    let t = feed_text text text_block text_delta (text_of (get "content" delta)) s in
    tools-told fresh (items_of (get "tool_calls" delta))
      (feed_text thinking thinking_block thinking_delta (text_of (get "reasoning_content" delta)) t)
    ∙ text-told thinking thinking_block thinking_delta (text_of (get "reasoning_content" delta)) t
    ∙ text-told text text_block text_delta (text_of (get "content" delta)) s

-- A message whose end is neither written nor told.
abbrev pub Untold : OutState → Type 0
Untold s = told s ≡ (stop, (false, (pos 0, (pos 0, []))))

choice-Untold :
    (fresh : Runes) (o : Option Fields) (s : OutState)
    → Unended o
    → Untold s
    → Untold (feed_choice fresh o s)
choice-Untold fresh none s e v = v
choice-Untold fresh (some ch) s e v = go (finish_reason ch) e
  where
    go :
        (fr : Runes)
        → fr ≡ []
        → Untold (finish_on fr (feed_delta fresh (delta_of ch) (start_message (note_finish fr s))))
    go (c ∷ fr) h = absurd (ground (arith, h))
    go [] h = fed-told fresh (delta_of ch) (start_message s) ∙ start-told s ∙ v

model-told : (m : Runes) (s : OutState) → told (note_model m s) ≡ told s
model-told [] s = refl
model-told (c ∷ m) s = refl

usage-Untold : (u : Option Usage) (s : OutState) → u ≡ none → Untold s → Untold (note_usage u s)
usage-Untold none s e v = v
usage-Untold (some u) s e v = absurd (ground (arith, e))

pub feed-Untold :
    (fresh : Runes) (chunk : Fields) (s : OutState)
    → Unread chunk
    → Untold s
    → Untold (feed fresh chunk s)
unfolding feed
feed-Untold fresh chunk s e v =
    let m = text_of (get "model" chunk) in
    let u = usage_from_any (get "usage" chunk) in
    choice-Untold fresh (choice_of chunk) (note_usage u (note_model m s)) e.0
      (usage-Untold u (note_model m s) e.1 (model-told m s ∙ v))

pub new_out_state-Untold : (model : Runes) → Untold (new_out_state model)
unfolding new_out_state
new_out_state-Untold model = refl

-- A message that ends once, as one that ended its turn and cost no token.
pub record IsForgetful (events : List Event) : Type 0 where
  pub before : List Event
  pub last : events ≡ before ++ message_delta end_turn (pos 0) (pos 0) ∷ message_stop ∷ []
  pub once : each stops before ≡ []

pub record IsEnded (s : OutState) : Type 0 where
  pub sent : s.finish_sent ≡ true
  pub ended : IsForgetful s.written

pub finish_stream-IsEnded : (s : OutState) → Untold s → IsEnded (finish_stream s)
unfolding finish_stream anthropic_stop_from_finish
finish_stream-IsEnded s v = go s.finish_sent (ap (λ t. t.1.0) v)
  where
    go : (b : Bool) → b ≡ false → IsEnded (finished_if b s)
    go true e = absurd (ground (arith, e))
    go false e =
        let m = record s { finish_sent = true } in
        let t = close_block (start_message m) in
        let q : told t ≡ (stop, (true, (pos 0, (pos 0, [])))) =
          close-told (start_message m) ∙ start-told m ∙ ap (λ x. (x.0, (true, x.1.1))) v in
        record {
          sent = ap (λ x. x.1.0) q;
          ended = record {
            before = t.written;
            last =
                ap
                  (λ x.
                    t.written
                    ++ message_delta (anthropic_stop_from_finish x.0) x.1.1.0 x.1.1.1.0
                      ∷ message_stop
                      ∷ [])
                  q;
            once = ap (λ x. x.1.1.1.1) q;
          };
        }

pub stay-IsEnded : (s : OutState) → IsEnded s → IsEnded (finish_stream s)
unfolding finish_stream
stay-IsEnded s v = go s.finish_sent v.sent
  where
    go : (b : Bool) → b ≡ true → IsEnded (finished_if b s)
    go true e = v
    go false e = absurd (ground (arith, e))
