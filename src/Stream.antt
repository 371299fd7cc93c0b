-- ===== src/Stream.antt =====
-- The stream bridges of internal/relay/stream_bridge.go: an upstream's stream, as chunks of the chat
-- protocol, is written to the client in the protocol of its entry. The chunks are JSON values, and what
-- is written is a list of events. A write that fails is the client's leaving: it has then seen a first
-- part of what is written here.
pub mod Messages
pub mod Responses
pub mod Anthropic
pub mod Codex
use keygrid.Prelude.{
  Bool, true, false, if◌then◌else◌, Option, none, some, ◌||◌, List, [], ◌∷◌, ℕ, ◌&&◌, ◌==◌, ◌≡◌,
}
use keygrid.Failure.Message.{Runes, codes}
use keygrid.Json.{
  Json, Items, Fields, nil, cons, get, as_object, fields_of, items_of, text_of, is_blank, Finish,
  stop, length, tool_calls,
}

-- The equality of texts.
abbrev pub same : Runes → Runes → Bool
same [] [] = true
same [] (d ∷ t) = false
same (c ∷ s) [] = false
same (c ∷ s) (d ∷ t) = c == d && same s t

unfoldable pub finish_from_openai_finish : Runes → Finish
finish_from_openai_finish fr =
    if same fr (codes "length")
    then length
    else if same fr (codes "tool_calls") || same fr (codes "function_call")
    then tool_calls
    else stop

-- The first choice of a chunk, if it is an object.
abbrev first_item : Items → Option Fields
first_item nil = none
first_item (cons v vs) = as_object v

unfoldable pub choice_of : Fields → Option Fields
choice_of chunk = first_item (items_of (get "choices" chunk))

-- The reading of a choice that both emitters share.
abbrev pub finish_reason : Fields → Runes
finish_reason ch = text_of (get "finish_reason" ch)

abbrev pub delta_of : Fields → Fields
delta_of ch = fields_of (get "delta" ch)

-- The chunks after the one that finishes a stream have no choice, as those that only bring the usage.
abbrev pub Silent : List Fields → Type 0
Silent [] = Unit
Silent (chunk ∷ chunks) = (choice_of chunk ≡ none) × Silent chunks

-- What may follow a choice with a finish reason, or without.
abbrev pub Rest : Runes → Type 0 → Type 0 → Type 0
Rest [] more silent = more
Rest (c ∷ fr) more silent = silent

abbrev pub RestOf : Option Fields → Type 0 → Type 0 → Type 0
RestOf none more silent = more
RestOf (some ch) more silent = Rest (finish_reason ch) more silent

-- A stream that has no choice after the one that finishes it.
abbrev pub Closes : List Fields → Type 0
Closes [] = Unit
Closes (chunk ∷ chunks) = RestOf (choice_of chunk) (Closes chunks) (Silent chunks)
