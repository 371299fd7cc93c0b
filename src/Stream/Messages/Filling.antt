-- ===== src/Stream/Messages/Filling.antt =====
-- The state of the emitter while the chunks of a stream whose tool calls are in order are fed to it.
use keygrid.Prelude.{ℤ, ◌≡◌, refl, Bool, true, false, List, [], ◌∷◌, Option, none, some, arith}
use keygrid.Failure.Message.{Runes, take}
use keygrid.Json.{
  Items, Fields, nil, cons, get, as_object, items_of, text_of, int_num, first_non_empty,
}
use keygrid.Stream.{Rest, Silent, choice_of, finish_reason, delta_of}
use keygrid.Stream.Messages.{
  text, thinking, tool, Block, text_block, thinking_block, tool_block, Delta, text_delta,
  thinking_delta, input_json_delta, OutState, close_block, open_block, block_delta, feed_text,
  open_tool, arguments_to, name_of, arguments_of, feed_tool, feed_item, feed_tools, feed_delta,
}
use keygrid.Stream.Messages.Grammar.{
  block_kind, delta_kind, IsLive, close_block-IsLive, open_block-IsLive, block_delta-IsLive,
  feed_text-IsLive,
}

-- Arguments of a tool call come with the call's name, or while the call's block is open.
abbrev pub ToolFits : Bool → Runes → Runes → Type 0
ToolFits held (c ∷ name) args = Unit
ToolFits held [] [] = Unit
ToolFits held [] (c ∷ args) = held ≡ true

abbrev pub tool_after : Bool → Runes → Bool
tool_after held [] = held
tool_after held (c ∷ name) = true

abbrev pub ItemFits : Bool → Option Fields → Type 0
ItemFits held none = Unit
ItemFits held (some tc) = ToolFits held (name_of tc) (arguments_of tc)

abbrev pub item_after : Bool → Option Fields → Bool
item_after held none = held
item_after held (some tc) = tool_after held (name_of tc)

abbrev pub ItemsFit : Bool → Items → Type 0
ItemsFit held nil = Unit
ItemsFit held (cons v vs) =
    ItemFits held (as_object v) × ItemsFit (item_after held (as_object v)) vs

abbrev pub items_after : Bool → Items → Bool
items_after held nil = held
items_after held (cons v vs) = items_after (item_after held (as_object v)) vs

-- A text closes the block of a tool call.
abbrev pub text_after : Bool → Runes → Bool
text_after held [] = held
text_after held (c ∷ t) = false

abbrev pub open_before_tools : Bool → Fields → Bool
open_before_tools held delta =
    text_after (text_after held (text_of (get "content" delta)))
      (text_of (get "reasoning_content" delta))

abbrev pub DeltaFits : Bool → Fields → Type 0
DeltaFits held delta = ItemsFit (open_before_tools held delta) (items_of (get "tool_calls" delta))

abbrev pub delta_after : Bool → Fields → Bool
delta_after held delta =
    items_after (open_before_tools held delta) (items_of (get "tool_calls" delta))

-- The chunks of a stream whose tool calls are in order, and that has no choice after the one that finishes it.
abbrev pub ChoiceFits : Option Fields → Bool → (Bool → Type 0) → Type 0 → Type 0
ChoiceFits none held more silent = more held
ChoiceFits (some ch) held more silent =
    DeltaFits held (delta_of ch)
    × Rest (finish_reason ch) (more (delta_after held (delta_of ch))) silent

abbrev pub Orderly : List Fields → Bool → Type 0
Orderly [] held = Unit
Orderly (chunk ∷ chunks) held =
    ChoiceFits (choice_of chunk) held (λ b. Orderly chunks b) (Silent chunks)

-- Where a tool call may be continued, its block is open.
abbrev pub InTool : Bool → OutState → Type 0
InTool held s = held ≡ true → s.cur_kind ≡ tool

pub record IsFilling (held : Bool) (s : OutState) : Type 0 where
  pub live : IsLive false s
  pub tools : held ≡ true → s.cur_kind ≡ tool

pub opened-IsFilling :
    (fresh : Runes) (idx : ℤ) (id name : Runes) (held : Bool) (s : OutState)
    → IsFilling held s
    → IsFilling (tool_after held name) (open_tool fresh idx id name s)
unfolding open_block
opened-IsFilling fresh idx id [] held s v = v
opened-IsFilling fresh idx id (c ∷ name) held s v =
    let q = close_block-IsLive false s v.live in
    let t = close_block s in
    let u = record t { cur_tool_idx = idx; tool_blocks = (idx, t.block_index) ∷ t.tool_blocks } in
    record {
      live =
          open_block-IsLive false (tool_block (first_non_empty id fresh) (take 128 (c ∷ name))) u
            q.1 (record { begun = q.0.begun; ended = q.0.ended; traced = q.0.traced });
      tools = λ h. refl;
    }

pub arguments-IsFilling :
    (name args : Runes) (held : Bool) (s : OutState)
    → ToolFits held name args
    → IsFilling (tool_after held name) s
    → IsFilling (tool_after held name) (arguments_to args s)
unfolding block_delta
arguments-IsFilling name [] held s f v = v
arguments-IsFilling [] (c ∷ args) held s f v = record {
  live = block_delta-IsLive false (input_json_delta (c ∷ args)) s (v.tools f) v.live;
  tools = v.tools;
}
arguments-IsFilling (d ∷ name) (c ∷ args) held s f v = record {
  live = block_delta-IsLive false (input_json_delta (c ∷ args)) s (v.tools refl) v.live;
  tools = v.tools;
}

pub item-IsFilling :
    (fresh : Runes) (o : Option Fields) (held : Bool) (s : OutState)
    → ItemFits held o
    → IsFilling held s
    → IsFilling (item_after held o) (feed_item fresh o s)
unfolding feed_tool
item-IsFilling fresh none held s f v = v
item-IsFilling fresh (some tc) held s f v =
    arguments-IsFilling (name_of tc) (arguments_of tc) held
      (open_tool fresh (int_num (get "index" tc)) (text_of (get "id" tc)) (name_of tc) s) f
      (opened-IsFilling fresh (int_num (get "index" tc)) (text_of (get "id" tc)) (name_of tc) held s
        v)

pub items-IsFilling :
    (fresh : Runes) (vs : Items) (held : Bool) (s : OutState)
    → ItemsFit held vs
    → IsFilling held s
    → IsFilling (items_after held vs) (feed_tools fresh vs s)
unfolding feed_tools
items-IsFilling fresh nil held s f v = v
items-IsFilling fresh (cons tc tcs) held s f v =
    items-IsFilling fresh tcs (item_after held (as_object tc)) (feed_item fresh (as_object tc) s)
      f.1 (item-IsFilling fresh (as_object tc) held s f.0 v)

pub text-IsFilling :
    (block : Block) (delta : Runes → Delta) (t : Runes) (held : Bool) (s : OutState)
    → ((u : Runes) → delta_kind (delta u) ≡ block_kind block)
    → IsFilling held s
    → IsFilling (text_after held t) (feed_text (block_kind block) block delta t s)
text-IsFilling block delta [] held s h v = unfold feed_text in v
text-IsFilling block delta (c ∷ t) held s h v = record {
  live = feed_text-IsLive false block delta (c ∷ t) s h v.live;
  tools = λ e. absurd (ground (arith, e));
}

pub delta-IsFilling :
    (fresh : Runes) (delta : Fields) (held : Bool) (s : OutState)
    → DeltaFits held delta
    → IsFilling held s
    → IsFilling (delta_after held delta) (feed_delta fresh delta s)
unfolding feed_delta
delta-IsFilling fresh delta held s f v =
    let s1 = feed_text text text_block text_delta (text_of (get "content" delta)) s in
    let v1 =
      text-IsFilling text_block text_delta (text_of (get "content" delta)) held s (λ u. refl) v in
    let s2 =
      feed_text thinking thinking_block thinking_delta (text_of (get "reasoning_content" delta))
        s1 in
    items-IsFilling fresh (items_of (get "tool_calls" delta)) (open_before_tools held delta) s2 f (
      text-IsFilling thinking_block thinking_delta (text_of (get "reasoning_content" delta))
        (text_after held (text_of (get "content" delta))) s1 (λ u. refl) v1)
