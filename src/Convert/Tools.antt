-- ===== src/Convert/Tools.antt =====
-- The tools, and the choice among them, of a request on their way between the protocols.
use keygrid.Prelude.{
  ap, ◌∙◌, ◌≡◌, refl, true, false, Option, none, some, if◌then◌else◌, String, str_eq, arith,
}
use keygrid.Failure.Message.{Runes}
use keygrid.Json.{Json, Fields, end, find, get, items_of}
use keygrid.Convert.{with_field, some_items}
use keygrid.Convert.Inbound.{choice_if, pivot_tools, pivot_tool_choice, anthropic_params_to_pivot}
use keygrid.Convert.Outbound.{
  Codec, draft, anthropic_tools, anthropic_tool_choice, some_system, pivot_to_anthropic_request,
}

-- A field that is set is found, and hides no other.
pub find-with_field :
    (k : String) (o : Option Json) (j : String) (fs : Fields)
    → str_eq j k ≡ false
    → find k (with_field j o fs) ≡ find k fs
find-with_field k none j fs h = refl
find-with_field k (some v) j fs h = ap (λ b. if b then some v else find k fs) h

abbrev pub or_found : Option Json → Option Json → Option Json
or_found none o = o
or_found (some v) o = some v

pub find-with_field_same :
    (k : String) (o : Option Json) (fs : Fields)
    → str_eq k k ≡ true
    → find k (with_field k o fs) ≡ or_found o (find k fs)
find-with_field_same k none fs h = refl
find-with_field_same k (some v) fs h = ap (λ b. if b then some v else find k fs) h

-- The fields that both conversions add around the tools, and what the choice is when there are none.
pub choice-none :
    (tools choice rest : Option Json)
    → rest ≡ none
    → or_found tools none ≡ none
    → or_found (choice_if tools choice) rest ≡ none
choice-none none choice rest h e = h
choice-none (some t) choice rest h e = absurd (ground (arith, e))

abbrev pub tail_fields : Fields → Fields
tail_fields req = with_field "temperature" (find "temperature" req) (
    with_field "top_p" (find "top_p" req)
      (with_field "stop_sequences" (some_items (items_of (get "stop" req))) end))

pub find-tail_fields :
    (k : String) (req : Fields)
    → str_eq "temperature" k ≡ false
    → str_eq "top_p" k ≡ false
    → str_eq "stop_sequences" k ≡ false
    → find k (tail_fields req) ≡ none
find-tail_fields k req a b c =
    let stop = some_items (items_of (get "stop" req)) in
    find-with_field k (find "temperature" req) "temperature"
      (with_field "top_p" (find "top_p" req) (with_field "stop_sequences" stop end)) a
    ∙ find-with_field k (find "top_p" req) "top_p" (with_field "stop_sequences" stop end) b
    ∙ find-with_field k stop "stop_sequences" end c

pub outbound-tools :
    (cd : Codec) (req : Fields) (m : Runes)
    → find "tools" (pivot_to_anthropic_request cd req m)
      ≡ or_found (anthropic_tools (get "tools" req)) none
unfolding pivot_to_anthropic_request
outbound-tools cd req m =
    let tools = anthropic_tools (get "tools" req) in
    let choice = choice_if tools (anthropic_tool_choice (get "tool_choice" req)) in
    let rest = with_field "tool_choice" choice (tail_fields req) in
    find-with_field "tools" (some_system (draft cd req).system_parts) "system"
      (with_field "tools" tools rest) refl
    ∙ find-with_field_same "tools" tools rest refl
    ∙ ap (or_found tools) (
        find-with_field "tools" choice "tool_choice" (tail_fields req) refl
        ∙ find-tail_fields "tools" req refl refl refl)

pub outbound-choice :
    (cd : Codec) (req : Fields) (m : Runes)
    → find "tool_choice" (pivot_to_anthropic_request cd req m)
      ≡ or_found
          (choice_if
            (anthropic_tools (get "tools" req))
            (anthropic_tool_choice (get "tool_choice" req)))
          none
unfolding pivot_to_anthropic_request
outbound-choice cd req m =
    let tools = anthropic_tools (get "tools" req) in
    let choice = choice_if tools (anthropic_tool_choice (get "tool_choice" req)) in
    let rest = with_field "tool_choice" choice (tail_fields req) in
    find-with_field "tool_choice" (some_system (draft cd req).system_parts) "system"
      (with_field "tools" tools rest) refl
    ∙ find-with_field "tool_choice" tools "tools" rest refl
    ∙ find-with_field_same "tool_choice" choice (tail_fields req) refl
    ∙ ap (or_found choice) (find-tail_fields "tool_choice" req refl refl refl)

-- What stands around the tools of a chat request.
pub inbound-field :
    (k : String) (req rest : Fields)
    → str_eq "max_tokens" k ≡ false
    → str_eq "temperature" k ≡ false
    → str_eq "top_p" k ≡ false
    → str_eq "stop" k ≡ false
    → find k (
        with_field "max_tokens" (find "max_tokens" req) (
          with_field "temperature" (find "temperature" req) (
            with_field "top_p"
              (find "top_p" req)
              (with_field "stop" (some_items (items_of (get "stop_sequences" req))) rest))))
      ≡ find k rest
inbound-field k req rest a b c d =
    let stop = some_items (items_of (get "stop_sequences" req)) in
    let r3 = with_field "stop" stop rest in
    let r2 = with_field "top_p" (find "top_p" req) r3 in
    let r1 = with_field "temperature" (find "temperature" req) r2 in
    find-with_field k (find "max_tokens" req) "max_tokens" r1 a
    ∙ find-with_field k (find "temperature" req) "temperature" r2 b
    ∙ find-with_field k (find "top_p" req) "top_p" r3 c
    ∙ find-with_field k stop "stop" rest d

pub inbound-tools :
    (req out : Fields)
    → find "tools" out ≡ none
    → find "tools" (anthropic_params_to_pivot req out)
      ≡ or_found (pivot_tools (get "tools" req)) none
unfolding anthropic_params_to_pivot
inbound-tools req out h =
    let tools = pivot_tools (get "tools" req) in
    let choice = choice_if tools (pivot_tool_choice (get "tool_choice" req)) in
    let rest = with_field "tool_choice" choice out in
    inbound-field "tools" req (with_field "tools" tools rest) refl refl refl refl
    ∙ find-with_field_same "tools" tools rest refl
    ∙ ap (or_found tools) (find-with_field "tools" choice "tool_choice" out refl ∙ h)

pub inbound-choice :
    (req out : Fields)
    → find "tool_choice" out ≡ none
    → find "tool_choice" (anthropic_params_to_pivot req out)
      ≡ or_found
          (choice_if (pivot_tools (get "tools" req)) (pivot_tool_choice (get "tool_choice" req)))
          none
unfolding anthropic_params_to_pivot
inbound-choice req out h =
    let tools = pivot_tools (get "tools" req) in
    let choice = choice_if tools (pivot_tool_choice (get "tool_choice" req)) in
    let rest = with_field "tool_choice" choice out in
    inbound-field "tool_choice" req (with_field "tools" tools rest) refl refl refl refl
    ∙ find-with_field "tool_choice" tools "tools" rest refl
    ∙ find-with_field_same "tool_choice" choice out refl
    ∙ ap (or_found choice) h
