-- ===== src/Convert/Params.antt =====
-- The tools of a request on their way between the protocols.
use keygrid.Prelude.{ap, sym, subst, ◌∙◌, ◌≡◌, refl, [], ◌∷◌, Option, none, some}
use keygrid.Failure.Message.{Runes, take}
use keygrid.Access.Lists.{trim_space}
use keygrid.Json.{
  Json, Items, Fields, null, bool, str, arr, nil, cons, end, field, find, get, or_null, fields_of,
  items_of, text_of, bool_of,
}
use keygrid.Convert.{with_item, with_field, some_text, some_items, append, ensure_object_schema}
use keygrid.Convert.Inbound.{
  gather, pivot_tool, pivot_tools, pivot_tool_choice, anthropic_params_to_pivot, request_for,
  anthropic_to_pivot_request, system_message, anthropic_system_text, pivot_messages,
}
use keygrid.Convert.Outbound.{
  Codec, tool_of, anthropic_tool, anthropic_tools, anthropic_tool_choice,
  pivot_to_anthropic_request,
}
use keygrid.Convert.Tools.{
  or_found, choice-none, outbound-tools, outbound-choice, inbound-tools, inbound-choice,
}

-- A request without tools chooses none.
abbrev pub ChoosesFromTools : Fields → Type 0
ChoosesFromTools req = find "tools" req ≡ none → find "tool_choice" req ≡ none

params-ChoosesFromTools :
    (req out : Fields)
    → find "tools" out ≡ none
    → find "tool_choice" out ≡ none
    → ChoosesFromTools (anthropic_params_to_pivot req out)
params-ChoosesFromTools req out h k e =
    inbound-choice req out k
    ∙ choice-none (pivot_tools (get "tools" req)) (pivot_tool_choice (get "tool_choice" req)) none
        refl (sym (inbound-tools req out h) ∙ e)

abbrev pub IfSome : (Fields → Type 0) → Option Fields → Type 0
IfSome P none = Unit
IfSome P (some fs) = P fs

request-Chooses :
    (marshal : Json → Runes) (req : Fields) (m : Runes)
    → IfSome ChoosesFromTools (request_for marshal req m)
request-Chooses marshal req [] = tt
request-Chooses marshal req (c ∷ m) =
    params-ChoosesFromTools req
      (field "model" (str (c ∷ m)) (
        field "messages"
          (arr (
            append (system_message (anthropic_system_text (get "system" req)))
              (pivot_messages marshal (items_of (get "messages" req)))))
          (field "stream" (bool (bool_of (get "stream" req))) end)))
      refl refl

-- A request that is converted, in either direction, has a tool_choice only where it has tools, which the upstreams
-- require, even when none of the tools that were sent has a name.
pub choice_needs_tools :
    (cd : Codec) (req : Fields) (up_model : Runes)
    → ChoosesFromTools (pivot_to_anthropic_request cd req up_model)
      × IfSome ChoosesFromTools (anthropic_to_pivot_request cd.marshal req)
unfolding anthropic_to_pivot_request
choice_needs_tools cd req m = (
  λ e.
      outbound-choice cd req m
      ∙ choice-none (anthropic_tools (get "tools" req))
          (anthropic_tool_choice (get "tool_choice" req)) none refl
          (sym (outbound-tools cd req m) ∙ e),
  request-Chooses cd.marshal req (trim_space (text_of (get "model" req))),
)

-- Tools that say nothing of what they are for.
abbrev pub Undescribed : Items → Type 0
Undescribed nil = Unit
Undescribed (cons v vs) = (find "description" (fields_of v) ≡ none) × Undescribed vs

abbrev pub Nameable : Option Json → Type 0
Nameable none = Unit
Nameable (some tools) = Undescribed (items_of tools)

with_item-Undescribed :
    (o : Option Json) (vs : Items)
    → Undescribed (with_item o nil)
    → Undescribed vs
    → Undescribed (with_item o vs)
with_item-Undescribed none vs h k = k
with_item-Undescribed (some v) vs h k = (h.0, k)

some_items-Nameable : (vs : Items) → Undescribed vs → Nameable (some_items vs)
some_items-Nameable nil h = tt
some_items-Nameable (cons v vs) h = h

named-Undescribed :
    (name : Runes) (fn : Fields)
    → get "description" fn ≡ null
    → Undescribed (with_item (anthropic_tool name fn) nil)
named-Undescribed [] fn h = tt
named-Undescribed (c ∷ name) fn h =
    (ap (λ d. find "description" (with_field "description" (some_text (text_of d)) end)) h, tt)

-- A tool that came in through the Anthropic protocol.
tool-Undescribed :
    (name : Runes) (t : Fields) (vs : Items)
    → Undescribed (gather tool_of vs)
    → Undescribed (gather tool_of (with_item (pivot_tool name t) vs))
tool-Undescribed [] t vs h = h
tool-Undescribed (c ∷ name) t vs h =
    let fn =
      field "name" (str (take 128 (c ∷ name)))
        (field "parameters" (ensure_object_schema (get "input_schema" t)) end) in
    with_item-Undescribed (anthropic_tool (trim_space (take 128 (c ∷ name))) fn) (gather tool_of vs)
      (named-Undescribed (trim_space (take 128 (c ∷ name))) fn refl) h

tools-Undescribed :
    (ts : Items)
    → Undescribed
        (gather tool_of (gather (λ t. pivot_tool (trim_space (text_of (get "name" t))) t) ts))
tools-Undescribed nil = tt
tools-Undescribed (cons v vs) =
    let t = fields_of v in
    tool-Undescribed (trim_space (text_of (get "name" t))) t
      (gather (λ t. pivot_tool (trim_space (text_of (get "name" t))) t) vs) (tools-Undescribed vs)

items-some_items : (vs : Items) → items_of (or_null (or_found (some_items vs) none)) ≡ vs
items-some_items nil = refl
items-some_items (cons v vs) = refl

or_found-none : (o : Option Json) → or_found o none ≡ o
or_found-none none = refl
or_found-none (some v) = refl

params-Undescribed :
    (cd : Codec) (req out : Fields) (m : Runes)
    → find "tools" out ≡ none
    → Nameable (find "tools" (pivot_to_anthropic_request cd (anthropic_params_to_pivot req out) m))
unfolding anthropic_tools pivot_tools
params-Undescribed cd req out m h =
    let named : Items =
      gather (λ t. pivot_tool (trim_space (text_of (get "name" t))) t)
        (items_of (get "tools" req)) in
    let e : items_of (get "tools" (anthropic_params_to_pivot req out)) ≡ named =
      ap (λ o. items_of (or_null o)) (inbound-tools req out h) ∙ items-some_items named in
    subst Nameable
      (sym (
        outbound-tools cd (anthropic_params_to_pivot req out) m
        ∙ ap (λ vs. or_found (some_items (gather tool_of vs)) none) e
        ∙ or_found-none (some_items (gather tool_of named))))
      (some_items-Nameable (gather tool_of named) (tools-Undescribed (items_of (get "tools" req))))

request-Undescribed :
    (cd : Codec) (req : Fields) (model m : Runes)
    → IfSome
        (λ out. Nameable (find "tools" (pivot_to_anthropic_request cd out m)))
        (request_for cd.marshal req model)
request-Undescribed cd req [] m = tt
request-Undescribed cd req (c ∷ model) m =
    params-Undescribed cd req
      (field "model" (str (c ∷ model)) (
        field "messages"
          (arr (
            append (system_message (anthropic_system_text (get "system" req)))
              (pivot_messages cd.marshal (items_of (get "messages" req)))))
          (field "stream" (bool (bool_of (get "stream" req))) end)))
      m refl

-- No tool of a request that came in through the Anthropic protocol has a description when it is sent to an Anthropic
-- upstream.
pub descriptions_lost :
    (cd : Codec) (req : Fields) (up_model : Runes)
    → IfSome
        (λ pivot. Nameable (find "tools" (pivot_to_anthropic_request cd pivot up_model)))
        (anthropic_to_pivot_request cd.marshal req)
unfolding anthropic_to_pivot_request
descriptions_lost cd req up_model =
    request-Undescribed cd req (trim_space (text_of (get "model" req))) up_model
