-- ===== src/Convert/Turns.antt =====
-- The calls of tools and their results in the messages of both protocols, and in the blocks that are made.
use keygrid.Prelude.{
  if_cases, ap, ap₂, sym, ◌∙◌, ◌≡◌, refl, List, [], ◌∷◌, ◌++◌, append-nil, append_assoc, Option,
  none, some, inl, inr, ◌⊎◌, if◌then◌else◌,
}
use keygrid.Failure.Message.{Runes, codes}
use keygrid.Access.Lists.{trim_space}
use keygrid.Json.{
  Json, Items, Fields, null, bool, num, str, arr, obj, string_at, nil, cons, get, fields_of,
  items_of, text_of, first_non_empty,
}
use keygrid.Stream.{same}
use keygrid.Convert.{is_tag, tag, append, with_item}
use keygrid.Convert.Images.{pivot_image_to_anthropic, pivot_image_to_anthropic-tag}
use keygrid.Convert.Inbound.{gather}
use keygrid.Convert.Outbound.{
  Codec, pivot_content_to_anthropic_blocks, block_part, text_block, call_block, call_of,
}

pub data Turn : Type 0 where
  used answered : (id : Runes) → Turn

-- The calls of an assistant's message, but for those without a name.
abbrev pub call_turn : Codec → Runes → Fields → List Turn
call_turn cd [] tc = []
call_turn cd (c ∷ name) tc = used (first_non_empty (text_of (get "id" tc)) cd.made_up) ∷ []

abbrev pub call_turns : Codec → Items → List Turn
call_turns cd nil = []
call_turns cd (cons v vs) =
    call_turn cd (trim_space (text_of (get "name" (fields_of (get "function" (fields_of v))))))
      (fields_of v)
    ++ call_turns cd vs

-- The turns of a chat message in a role.
abbrev pub turns_as : Codec → Fields → Runes → List Turn
turns_as cd m role =
    if same role (codes "assistant")
    then call_turns cd (items_of (get "tool_calls" m))
    else if same role (codes "tool")
    then answered (first_non_empty (text_of (get "tool_call_id" m)) cd.made_up) ∷ []
    else []

abbrev pub chat_turns : Codec → Items → List Turn
chat_turns cd nil = []
chat_turns cd (cons v vs) =
    turns_as cd (fields_of v) (text_of (get "role" (fields_of v))) ++ chat_turns cd vs

-- The turns in the blocks of an Anthropic message.
abbrev pub block_turn : Fields → List Turn
block_turn b =
    if is_tag b (codes "tool_use")
    then used (text_of (get "id" b)) ∷ []
    else if is_tag b (codes "tool_result")
    then answered (text_of (get "tool_use_id" b)) ∷ []
    else []

abbrev pub block_turns : Items → List Turn
block_turns nil = []
block_turns (cons v vs) = block_turn (fields_of v) ++ block_turns vs

abbrev pub anthropic_turns : Items → List Turn
anthropic_turns nil = []
anthropic_turns (cons v vs) =
    block_turns (items_of (get "content" (fields_of v))) ++ anthropic_turns vs

pub block_turns-append :
    (vs ws : Items) → block_turns (append vs ws) ≡ block_turns vs ++ block_turns ws
block_turns-append nil ws = refl
block_turns-append (cons v vs) ws =
    ap (λ r. block_turn (fields_of v) ++ r) (block_turns-append vs ws)
    ∙ sym (append_assoc (block_turn (fields_of v)) (block_turns vs) (block_turns ws))

pub anthropic_turns-append :
    (vs ws : Items) → anthropic_turns (append vs ws) ≡ anthropic_turns vs ++ anthropic_turns ws
anthropic_turns-append nil ws = refl
anthropic_turns-append (cons v vs) ws =
    let b = block_turns (items_of (get "content" (fields_of v))) in
    ap (λ r. b ++ r) (anthropic_turns-append vs ws)
    ∙ sym (append_assoc b (anthropic_turns vs) (anthropic_turns ws))

-- The turn of a block with this type.
abbrev pub tagged_turn : Fields → Runes → List Turn
tagged_turn b t =
    if same t (codes "tool_use")
    then used (text_of (get "id" b)) ∷ []
    else if same t (codes "tool_result")
    then answered (text_of (get "tool_use_id" b)) ∷ []
    else []

-- Blocks of texts and images are no turns.
pub tagged_quiet :
    (b : Fields) → (tag b ≡ codes "image") ⊎ (tag b ≡ codes "text") → block_turn b ≡ []
tagged_quiet b (inl h) = ap (tagged_turn b) h
tagged_quiet b (inr h) = ap (tagged_turn b) h

abbrev pub Quiet : Option Json → Type 0
Quiet o = block_turns (with_item o nil) ≡ []

pub text_block-Quiet : (t : Runes) → Quiet (text_block t)
text_block-Quiet [] = refl
text_block-Quiet (c ∷ t) = refl

pub part-Quiet : (pm : Fields) → Quiet (block_part pm)
part-Quiet pm =
    let image = pivot_image_to_anthropic (get "image_url" pm) in
    let to_image : Option Json = if is_tag pm (codes "image_url") then some image else none in
    if_cases Quiet (is_tag pm (codes "text")) (text_block (text_of (get "text" pm))) to_image
      (λ h. text_block-Quiet (text_of (get "text" pm)))
      (λ h.
        if_cases Quiet (is_tag pm (codes "image_url")) (some image) none
          (λ k.
            append-nil (block_turn (fields_of image))
            ∙ tagged_quiet (fields_of image) (pivot_image_to_anthropic-tag (get "image_url" pm)))
          (λ k. refl))

pub with_item-turns :
    (o : Option Json) (vs : Items)
    → block_turns (with_item o vs) ≡ block_turns (with_item o nil) ++ block_turns vs
with_item-turns none vs = refl
with_item-turns (some v) vs =
    ap (λ r. r ++ block_turns vs) (sym (append-nil (block_turn (fields_of v))))

pub parts_turnless : (vs : Items) → block_turns (gather block_part vs) ≡ []
parts_turnless nil = refl
parts_turnless (cons v vs) =
    with_item-turns (block_part (fields_of v)) (gather block_part vs)
    ∙ ap₂ (λ x y. x ++ y) (part-Quiet (fields_of v)) (parts_turnless vs)

pub content_turnless : (v : Json) → block_turns (pivot_content_to_anthropic_blocks v) ≡ []
unfolding pivot_content_to_anthropic_blocks
content_turnless (str s) = text_block-Quiet s
content_turnless (arr vs) = parts_turnless vs
content_turnless null = refl
content_turnless (bool b) = refl
content_turnless (num n t) = refl
content_turnless (obj fs) = refl
content_turnless (string_at o) = refl

pub call_block-turn :
    (cd : Codec) (name : Runes) (tc fn : Fields)
    → block_turns (with_item (call_block cd name tc fn) nil) ≡ call_turn cd name tc
call_block-turn cd [] tc fn = refl
call_block-turn cd (c ∷ name) tc fn = refl

pub calls-turns :
    (cd : Codec) (vs : Items) → block_turns (gather (call_of cd) vs) ≡ call_turns cd vs
calls-turns cd nil = refl
calls-turns cd (cons v vs) =
    let fn = fields_of (get "function" (fields_of v)) in
    with_item-turns (call_of cd (fields_of v)) (gather (call_of cd) vs)
    ∙ ap₂ (λ x y. x ++ y)
        (call_block-turn cd (trim_space (text_of (get "name" fn))) (fields_of v) fn)
        (calls-turns cd vs)
