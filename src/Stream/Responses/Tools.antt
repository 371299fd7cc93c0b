-- ===== src/Stream/Responses/Tools.antt =====
-- The tool calls of a response are kept, and every item that is kept is found in its output.
use keygrid.Prelude.{
  each_snoc, each_same, upto, length, ap, sym, ◌∙◌, ℕ, ℤ, suc, zero, ◌<◌, ◌+◌, ◌≡◌, refl, Bool,
  true, false, ◌||◌, List, [], ◌∷◌, ◌++◌, Option, none, some, if◌then◌else◌, ◌==◌, eqb_ℤ, arith,
}
use keygrid.Failure.Message.{Runes, take}
use keygrid.Json.{
  Items, Fields, nil, cons, get, as_object, fields_of, items_of, text_of, int_num, first_non_empty,
}
use keygrid.Stream.Responses.{
  Item, message, reasoning, function_call, output_item_added, arguments_delta, arguments_done,
  output_item_done, Tool, OutState, emit, feed_text, feed_reasoning, tool_at, tool_if,
  add_arguments, arguments_to, feed_tool, feed_item, feed_tools, feed_delta, Closing, close_tools,
  close_message, close_reasoning, close_items, item_at, with_item, output_from, index_of,
}
use keygrid.Stream.Responses.Projection.{index_added, text_sent, text_done, output_sent}
use keygrid.Stream.Responses.Kept.{
  is_at, has_tool, held, IsOpen, emit-IsOpen, covered_more, or_left, feed_text-IsOpen,
  feed_reasoning-IsOpen, quiet, same_index,
}

has_tool_more :
    (ts : List Tool) (t : Tool) (i : ℕ) → has_tool ts i ≡ true → has_tool (ts ++ t ∷ []) i ≡ true
has_tool_more [] t i h = absurd (ground (arith, h))
has_tool_more (u ∷ ts) t i h = go (u.output_index == i) (has_tool_more ts t i) h
  where
    go :
        (k : Bool)
        → (has_tool ts i ≡ true → has_tool (ts ++ t ∷ []) i ≡ true)
        → (k || has_tool ts i) ≡ true
        → (k || has_tool (ts ++ t ∷ []) i) ≡ true
    go true f h = refl
    go false f h = f h

has_tool_last : (ts : List Tool) (t : Tool) → has_tool (ts ++ t ∷ []) t.output_index ≡ true
has_tool_last [] t =
    or_left (t.output_index == t.output_index) false (same_index t.output_index t.output_index refl)
has_tool_last (u ∷ ts) t = go (u.output_index == t.output_index) (has_tool_last ts t)
  where
    go :
        (k : Bool)
        → has_tool (ts ++ t ∷ []) t.output_index ≡ true
        → (k || has_tool (ts ++ t ∷ []) t.output_index) ≡ true
    go true h = refl
    go false h = h

has_tool-add_arguments :
    (n : ℤ) (args : Runes) (ts : List Tool) (i : ℕ)
    → has_tool (add_arguments n args ts) i ≡ has_tool ts i
has_tool-add_arguments n args [] i = refl
has_tool-add_arguments n args (t ∷ ts) i =
    go (eqb_ℤ t.number n) (has_tool-add_arguments n args ts i)
  where
    go :
        (k : Bool)
        → has_tool (add_arguments n args ts) i ≡ has_tool ts i
        → has_tool
            (if k
              then record t { arguments = t.arguments ++ args } ∷ ts
              else t ∷ add_arguments n args ts)
            i
          ≡ ((t.output_index == i) || has_tool ts i)
    go true h = refl
    go false h = ap (λ r. (t.output_index == i) || r) h

or_after : (a b k : Bool) → (b ≡ true → k ≡ true) → (a || b) ≡ true → (a || k) ≡ true
or_after true b k f h = refl
or_after false b k f h = f h

tool-IsOpen :
    (b : Bool) (fresh : Runes) (n : ℤ) (id name : Runes) (o : Option Tool) (s : OutState)
    → IsOpen b s
    → IsOpen b (tool_if fresh n id name o s)
unfolding emit
tool-IsOpen b fresh n id name (some t) s v = v
tool-IsOpen b fresh n id name none s v =
    let t : Tool = record {
      number = n;
      call_id = first_non_empty id fresh;
      name = take 128 name;
      arguments = [];
      output_index = s.item_index;
    } in
    let added = output_item_added s.item_index (function_call t.call_id t.name []) in
    let others : ℕ → Bool = λ i. is_at s.message_at i || is_at s.reasoning_at i in
    record {
      ended = v.ended;
      indices = each_snoc index_added s.written added (upto s.item_index) v.indices;
      texts = each_same text_sent s.written added s.text_buf refl v.texts;
      undone = each_same text_done s.written added [] refl v.undone;
      incomplete = each_same output_sent s.written added [] refl v.incomplete;
      covered =
          covered_more s.item_index (held s) (λ i. others i || has_tool (s.tools ++ t ∷ []) i)
            v.covered
            (λ i h.
              or_after (others i) (has_tool s.tools i) (has_tool (s.tools ++ t ∷ []) i)
                (has_tool_more s.tools t i) h)
            (last (others s.item_index) (has_tool (s.tools ++ t ∷ []) s.item_index)
              (has_tool_last s.tools t));
      blank = v.blank;
    }
  where
    last : (a k : Bool) → k ≡ true → (a || k) ≡ true
    last true k h = refl
    last false k h = h

arguments-IsOpen :
    (b : Bool) (n : ℤ) (args : Runes) (s : OutState) → IsOpen b s → IsOpen b (arguments_to n args s)
arguments-IsOpen b n [] s v = v
arguments-IsOpen b n (c ∷ args) s v =
    let e = arguments_delta (index_of (tool_at n s.tools)) (c ∷ args) in
    emit-IsOpen b e (record s { tools = add_arguments n (c ∷ args) s.tools })
      (quiet e refl refl refl refl)
      (record {
        ended = v.ended;
        indices = v.indices;
        texts = v.texts;
        undone = v.undone;
        incomplete = v.incomplete;
        covered = λ i h.
            ap (λ r. (is_at s.message_at i || is_at s.reasoning_at i) || r)
              (has_tool-add_arguments n (c ∷ args) s.tools i)
            ∙ v.covered i h;
        blank = v.blank;
      })

item-IsOpen :
    (b : Bool) (fresh : Runes) (o : Option Fields) (s : OutState)
    → IsOpen b s
    → IsOpen b (feed_item fresh o s)
unfolding feed_tool
item-IsOpen b fresh none s v = v
item-IsOpen b fresh (some tc) s v =
    let fn = fields_of (get "function" tc) in
    let n = int_num (get "index" tc) in
    arguments-IsOpen b n (text_of (get "arguments" fn))
      (tool_if fresh n (text_of (get "id" tc)) (text_of (get "name" fn)) (tool_at n s.tools) s)
      (tool-IsOpen b fresh n (text_of (get "id" tc)) (text_of (get "name" fn)) (tool_at n s.tools) s
        v)

items-IsOpen :
    (b : Bool) (fresh : Runes) (vs : Items) (s : OutState)
    → IsOpen b s
    → IsOpen b (feed_tools fresh vs s)
unfolding feed_tools
items-IsOpen b fresh nil s v = v
items-IsOpen b fresh (cons tc tcs) s v =
    items-IsOpen b fresh tcs (feed_item fresh (as_object tc) s)
      (item-IsOpen b fresh (as_object tc) s v)

pub delta-IsOpen :
    (b : Bool) (fresh : Runes) (delta : Fields) (s : OutState)
    → IsOpen b s
    → IsOpen b (feed_delta fresh delta s)
unfolding feed_delta
delta-IsOpen b fresh delta s v =
    let t = feed_text (text_of (get "content" delta)) s in
    items-IsOpen b fresh (items_of (get "tool_calls" delta))
      (feed_reasoning (text_of (get "reasoning_content" delta)) t)
      (feed_reasoning-IsOpen b (text_of (get "reasoning_content" delta)) t
        (feed_text-IsOpen b (text_of (get "content" delta)) s v))

-- The items that are kept are found in the output.
abbrev pub found : Option Item → Bool
found none = false
found (some item) = true

found_cons :
    (j i : ℕ) (item : Item) (out : List (ℕ × Item))
    → found (item_at i ((j, item) ∷ out)) ≡ ((j == i) || found (item_at i out))
found_cons j i item out = go (j == i)
  where
    go : (k : Bool) → found (if k then some item else item_at i out) ≡ (k || found (item_at i out))
    go true = refl
    go false = refl

or_mid : (a b c : Bool) → (b || (a || c)) ≡ ((a || b) || c)
or_mid true true c = refl
or_mid true false c = refl
or_mid false b c = refl

found-close_tools :
    (ts : List Tool) (c : Closing) (i : ℕ)
    → found (item_at i (close_tools ts c).output) ≡ (has_tool ts i || found (item_at i c.output))
found-close_tools [] c i = refl
found-close_tools (t ∷ ts) c i =
    let item = function_call t.call_id t.name t.arguments in
    let d : Closing = record {
      output = (t.output_index, item) ∷ c.output;
      events =
          c.events
          ++ arguments_done t.output_index t.arguments ∷ output_item_done t.output_index item ∷ [];
    } in
    found-close_tools ts d i
    ∙ ap (λ r. has_tool ts i || r) (found_cons t.output_index i item c.output)
    ∙ or_mid (t.output_index == i) (has_tool ts i) (found (item_at i c.output))

found-close_message :
    (o : Option ℕ) (t : Runes) (c : Closing) (i : ℕ)
    → found (item_at i (close_message o t c).output) ≡ (is_at o i || found (item_at i c.output))
found-close_message none t c i = refl
found-close_message (some j) t c i = found_cons j i (message t) c.output

found-close_reasoning :
    (o : Option ℕ) (t : Runes) (c : Closing) (i : ℕ)
    → found (item_at i (close_reasoning o t c).output) ≡ (is_at o i || found (item_at i c.output))
found-close_reasoning none t c i = refl
found-close_reasoning (some j) t c i = found_cons j i (reasoning t) c.output

reordered : (m r t : Bool) → ((m || r) || t) ≡ (t || (m || (r || false)))
reordered true r true = refl
reordered true r false = refl
reordered false true true = refl
reordered false true false = refl
reordered false false true = refl
reordered false false false = refl

pub found-close_items : (s : OutState) (i : ℕ) → found (item_at i (close_items s).output) ≡ held s i
unfolding close_items
found-close_items s i =
    let r : Closing =
      close_reasoning s.reasoning_at s.reason_buf (record { output = []; events = [] }) in
    found-close_tools s.tools (close_message s.message_at s.text_buf r) i
    ∙ ap (λ x. has_tool s.tools i || x)
        (found-close_message s.message_at s.text_buf r i
          ∙ ap (λ x. is_at s.message_at i || x)
              (found-close_reasoning s.reasoning_at s.reason_buf
                (record { output = []; events = [] }) i))
    ∙ sym (reordered (is_at s.message_at i) (is_at s.reasoning_at i) (has_tool s.tools i))

length-with_item :
    (o : Option Item) (items : List Item)
    → found o ≡ true
    → length (with_item o items) ≡ suc (length items)
length-with_item none items h = absurd (ground (arith, h))
length-with_item (some item) items h = refl

pub length-output_from :
    (i left : ℕ) (out : List (ℕ × Item))
    → ((j : ℕ) → j < i + left → found (item_at j out) ≡ true)
    → length (output_from i left out) ≡ left
length-output_from i zero out h = refl
length-output_from i (suc left) out h =
    length-with_item (item_at i out) (output_from (suc i) left out) (h i (omega arith))
    ∙ ap suc (length-output_from (suc i) left out (λ j k. h j (omega (arith, k))))
