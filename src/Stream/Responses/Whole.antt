-- ===== src/Stream/Responses/Whole.antt =====
-- The events of a response agree with the response that completes it.
use keygrid.Prelude.{
  each, each_snoc, upto, each-append, length, ap, ap₂, sym, ◌∙◌, ℕ, ◌≡◌, refl, Bool, true, false,
  List, [], ◌∷◌, ◌++◌, Option, none, some, append-nil, arith,
}
use keygrid.Failure.Message.{Runes}
use keygrid.Json.{Fields, get, text_of, Usage, usage_from_any}
use keygrid.Stream.{Rest, RestOf, Closes, choice_of, finish_reason, delta_of, Silent}
use keygrid.Stream.Responses.{
  Item, message, reasoning, function_call, Event, output_text_done, content_part_done,
  arguments_done, output_item_done, completed, Tool, OutState, new_out_state, start_response,
  feed_delta, feed_choice, feed, feed_all, note_model, note_usage, note_finish, finish_on,
  finished_if, finish_stream, Closing, close_tools, close_message, close_reasoning, close_items,
  output_from, bridge_to_responses, is_length,
}
use keygrid.Stream.Responses.Projection.{index_added, text_sent, text_done, output_sent}
use keygrid.Stream.Responses.Kept.{IsOpen, start_response-IsOpen}
use keygrid.Stream.Responses.Tools.{delta-IsOpen, found-close_items, length-output_from}

-- A projection that sees nothing of the events that close an item.
module _ {ℓ} {A : Type ℓ} (f : Event → List A)
    (arguments_quiet : (i : ℕ) (t : Runes) → f (arguments_done i t) ≡ [])
    (item_quiet : (i : ℕ) (item : Item) → f (output_item_done i item) ≡ []) where
  each-close_tools :
      (ts : List Tool) (c : Closing) → each f (close_tools ts c).events ≡ each f c.events
  each-close_tools [] c = refl
  each-close_tools (t ∷ ts) c =
      let item = function_call t.call_id t.name t.arguments in
      let two =
        arguments_done t.output_index t.arguments ∷ output_item_done t.output_index item ∷ [] in
      let d : Closing = record {
        output = (t.output_index, item) ∷ c.output;
        events = c.events ++ two;
      } in
      each-close_tools ts d
      ∙ each-append f c.events two
      ∙ ap (λ r. each f c.events ++ r)
          (ap₂ (λ x y. x ++ (y ++ [])) (arguments_quiet t.output_index t.arguments)
            (item_quiet t.output_index item))
      ∙ append-nil (each f c.events)

  each-close_reasoning :
      (o : Option ℕ) (t : Runes)
      → each f (close_reasoning o t (record { output = []; events = [] })).events ≡ []
  each-close_reasoning none t = refl
  each-close_reasoning (some i) t = ap (λ r. r ++ []) (item_quiet i (reasoning t))

  -- What it sees of the message's end.
  abbrev seen_done : Option ℕ → Runes → List A
  seen_done none t = []
  seen_done (some i) t = f (output_text_done i t) ++ f (content_part_done i t)

  each-close_message :
      (o : Option ℕ) (t : Runes) (c : Closing)
      → each f c.events ≡ []
      → each f (close_message o t c).events ≡ seen_done o t
  each-close_message none t c h = h
  each-close_message (some i) t c h =
      let three =
        output_text_done i t ∷ content_part_done i t ∷ output_item_done i (message t) ∷ [] in
      each-append f c.events three
      ∙ ap (λ r. r ++ each f three) h
      ∙ ap (λ r. f (output_text_done i t) ++ (f (content_part_done i t) ++ (r ++ [])))
          (item_quiet i (message t))
      ∙ ap (λ r. f (output_text_done i t) ++ r) (append-nil (f (content_part_done i t)))

  each-close_items :
      (s : OutState) → each f (close_items s).events ≡ seen_done s.message_at s.text_buf
  unfolding close_items
  each-close_items s =
      let r : Closing =
        close_reasoning s.reasoning_at s.reason_buf (record { output = []; events = [] }) in
      each-close_tools s.tools (close_message s.message_at s.text_buf r)
      ∙ each-close_message s.message_at s.text_buf r
          (each-close_reasoning s.reasoning_at s.reason_buf)

  each-finished :
      (s : OutState) (e : Event)
      → each f (s.written ++ ((close_items s).events ++ e ∷ []))
        ≡ each f s.written ++ (seen_done s.message_at s.text_buf ++ f e)
  each-finished s e =
      each-append f s.written ((close_items s).events ++ e ∷ [])
      ∙ ap (λ r. each f s.written ++ r)
          (each_snoc f (close_items s).events e (seen_done s.message_at s.text_buf)
            (each-close_items s))

-- A response that has been completed: the items were announced with the indices 0, 1, 2 and so on, as many as there
-- are in the one output that was sent, and the text that was sent in pieces is the one that was sent whole.
pub record IsComplete (events : List Event) : Type 0 where
  pub output : List Item
  pub once : each output_sent events ≡ output ∷ []
  pub announced : each index_added events ≡ upto (length output)
  pub agreed : each text_done events ≡ each text_sent events

pub record IsClosed (s : OutState) : Type 0 where
  pub sent : s.finish_sent ≡ true
  pub complete : IsComplete s.written

index_none :
    (o : Option ℕ) (t : Runes) → seen_done index_added (λ i t. refl) (λ i item. refl) o t ≡ []
index_none none t = refl
index_none (some i) t = refl

text_none : (o : Option ℕ) (t : Runes) → seen_done text_sent (λ i t. refl) (λ i item. refl) o t ≡ []
text_none none t = refl
text_none (some i) t = refl

output_none :
    (o : Option ℕ) (t : Runes) → seen_done output_sent (λ i t. refl) (λ i item. refl) o t ≡ []
output_none none t = refl
output_none (some i) t = refl

done_text :
    (o : Option ℕ) (t : Runes)
    → (o ≡ none → t ≡ [])
    → seen_done text_done (λ i t. refl) (λ i item. refl) o t ≡ t
done_text none t h = sym (h refl)
done_text (some i) t h = append-nil t

closed-IsClosed :
    (t : OutState)
    → IsOpen true t
    → IsComplete (
        t.written
        ++ ((close_items t).events
            ++ completed
                (is_length t.finish)
                (output_from 0 t.item_index (close_items t).output)
                t.prompt_tok
                t.compl_tok
              ∷ []))
closed-IsClosed t v =
    let out = output_from 0 t.item_index (close_items t).output in
    let e = completed (is_length t.finish) out t.prompt_tok t.compl_tok in
    let l =
      length-output_from 0 t.item_index (close_items t).output
        (λ j h. found-close_items t j ∙ v.covered j (omega (arith, h))) in
    record {
      output = out;
      once =
          each-finished output_sent (λ i t. refl) (λ i item. refl) t e
          ∙ ap₂ (λ x y. x ++ (y ++ out ∷ [])) v.incomplete (output_none t.message_at t.text_buf);
      announced =
          each-finished index_added (λ i t. refl) (λ i item. refl) t e
          ∙ ap₂ (λ x y. x ++ (y ++ [])) v.indices (index_none t.message_at t.text_buf)
          ∙ append-nil (upto t.item_index)
          ∙ ap upto (sym l);
      agreed =
          each-finished text_done (λ i t. refl) (λ i item. refl) t e
          ∙ ap₂ (λ x y. x ++ (y ++ [])) v.undone (done_text t.message_at t.text_buf v.blank)
          ∙ append-nil t.text_buf
          ∙ sym (
              each-finished text_sent (λ i t. refl) (λ i item. refl) t e
              ∙ ap₂ (λ x y. x ++ (y ++ [])) v.texts (text_none t.message_at t.text_buf)
              ∙ append-nil t.text_buf);
    }

finished-IsClosed : (s : OutState) → IsOpen false s → IsClosed (finished_if false s)
finished-IsClosed s v =
    let m = record s { finish_sent = true } in
    let u = start_response-IsOpen true m (record {
      ended = refl;
      indices = v.indices;
      texts = v.texts;
      undone = v.undone;
      incomplete = v.incomplete;
      covered = v.covered;
      blank = v.blank;
    }) in
    record { sent = u.ended; complete = closed-IsClosed (start_response m) u }

pub finish_stream-IsClosed : (s : OutState) → IsOpen false s → IsClosed (finish_stream s)
unfolding finish_stream
finish_stream-IsClosed s v = go s.finish_sent v.ended
  where
    go : (k : Bool) → k ≡ false → IsClosed (finished_if k s)
    go true e = absurd (ground (arith, e))
    go false e = finished-IsClosed s v

stay-IsClosed : (s : OutState) → IsClosed s → IsClosed (finish_stream s)
unfolding finish_stream
stay-IsClosed s v = go s.finish_sent v.sent
  where
    go : (k : Bool) → k ≡ true → IsClosed (finished_if k s)
    go true e = v
    go false e = absurd (ground (arith, e))

pub model-IsOpen : (m : Runes) (s : OutState) → IsOpen false s → IsOpen false (note_model m s)
model-IsOpen [] s v = v
model-IsOpen (c ∷ m) s v = record {
  ended = v.ended;
  indices = v.indices;
  texts = v.texts;
  undone = v.undone;
  incomplete = v.incomplete;
  covered = v.covered;
  blank = v.blank;
}

usage-IsOpen : (u : Option Usage) (s : OutState) → IsOpen false s → IsOpen false (note_usage u s)
usage-IsOpen none s v = v
usage-IsOpen (some u) s v = record {
  ended = v.ended;
  indices = v.indices;
  texts = v.texts;
  undone = v.undone;
  incomplete = v.incomplete;
  covered = v.covered;
  blank = v.blank;
}

finish-IsOpen : (fr : Runes) (s : OutState) → IsOpen false s → IsOpen false (note_finish fr s)
finish-IsOpen [] s v = v
finish-IsOpen (c ∷ fr) s v = record {
  ended = v.ended;
  indices = v.indices;
  texts = v.texts;
  undone = v.undone;
  incomplete = v.incomplete;
  covered = v.covered;
  blank = v.blank;
}

Silent-IsClosed :
    (fresh : Runes) (chunks : List Fields) (s : OutState)
    → Silent chunks
    → IsClosed s
    → IsClosed (feed_all fresh chunks s)
unfolding feed_all feed
Silent-IsClosed fresh [] s q v = v
Silent-IsClosed fresh (chunk ∷ chunks) s q v =
    let m = note_model (text_of (get "model" chunk)) s in
    let u = usage_from_any (get "usage" chunk) in
    Silent-IsClosed fresh chunks (feed_choice fresh (choice_of chunk) (note_usage u m)) q.1 (
      choiceless (choice_of chunk) (note_usage u m) q.0
        (usage u m (model (text_of (get "model" chunk)))))
  where
    model : (m : Runes) → IsClosed (note_model m s)
    model [] = v
    model (c ∷ m) = record { sent = v.sent; complete = v.complete }

    usage : (u : Option Usage) (t : OutState) → IsClosed t → IsClosed (note_usage u t)
    usage none t w = w
    usage (some u) t w = record { sent = w.sent; complete = w.complete }

    choiceless :
        (o : Option Fields) (t : OutState)
        → o ≡ none
        → IsClosed t
        → IsClosed (feed_choice fresh o t)
    choiceless none t e w = w
    choiceless (some ch) t e w = absurd (ground (arith, e))

-- What the rest of a stream does with a response that is open.
abbrev Ends : Runes → List Fields → Type 0
Ends fresh chunks =
    (s : OutState)
    → IsOpen false s
    → Closes chunks
    → IsClosed (finish_stream (feed_all fresh chunks s))

rest-Ends :
    (fresh : Runes) (chunks : List Fields)
    → Ends fresh chunks
    → (fr : Runes) (s : OutState) → Rest fr (Closes chunks) (Silent chunks)
    → IsOpen false s
    → IsClosed (finish_stream (feed_all fresh chunks (finish_on fr s)))
rest-Ends fresh chunks ends [] s r v = ends s v r
rest-Ends fresh chunks ends (c ∷ fr) s r v =
    stay-IsClosed (feed_all fresh chunks (finish_stream s))
      (Silent-IsClosed fresh chunks (finish_stream s) r (finish_stream-IsClosed s v))

choice-Ends :
    (fresh : Runes) (chunks : List Fields)
    → Ends fresh chunks
    → (o : Option Fields) (s : OutState) → RestOf o (Closes chunks) (Silent chunks)
    → IsOpen false s
    → IsClosed (finish_stream (feed_all fresh chunks (feed_choice fresh o s)))
choice-Ends fresh chunks ends none s r v = ends s v r
choice-Ends fresh chunks ends (some ch) s r v =
    let n = note_finish (finish_reason ch) s in
    rest-Ends fresh chunks ends (finish_reason ch)
      (feed_delta fresh (delta_of ch) (start_response n)) r
      (delta-IsOpen false fresh (delta_of ch) (start_response n)
        (start_response-IsOpen false n (finish-IsOpen (finish_reason ch) s v)))

chunks-Ends : (fresh : Runes) (chunks : List Fields) → Ends fresh chunks
unfolding feed_all feed
chunks-Ends fresh [] s v r = finish_stream-IsClosed s v
chunks-Ends fresh (chunk ∷ chunks) s v r =
    let m = note_model (text_of (get "model" chunk)) s in
    choice-Ends fresh chunks (chunks-Ends fresh chunks) (choice_of chunk)
      (note_usage (usage_from_any (get "usage" chunk)) m) r
      (usage-IsOpen (usage_from_any (get "usage" chunk)) m
        (model-IsOpen (text_of (get "model" chunk)) s v))

-- A client of the Responses entry is sent a response that agrees with its pieces: its items are announced with the
-- indices 0, 1, 2 and so on, the response is completed once, with as many items as were announced, and the text of
-- the message at its end is the pieces that were sent of it. The chunks may be any, and the stream may break off
-- anywhere, as long as no choice comes after the one with the finish reason.
pub bridge_to_responses-IsComplete :
    (fresh model : Runes) (chunks : List Fields)
    → Closes chunks
    → IsComplete (bridge_to_responses fresh model chunks)
unfolding bridge_to_responses new_out_state
bridge_to_responses-IsComplete fresh model chunks r =
    (chunks-Ends fresh chunks (new_out_state model)
      (record {
        ended = refl;
        indices = refl;
        texts = refl;
        undone = refl;
        incomplete = refl;
        covered = λ i h. absurd (omega (arith, h));
        blank = λ h. refl;
      })
      r).complete
