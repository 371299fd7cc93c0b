-- ===== src/Convert.antt =====
-- The conversion of requests between the Anthropic protocol and the chat protocol, which is the pivot of the
-- relay (internal/relay/anthropic.go). Requests are JSON values; `marshal` and `parse` are encoding/json's.
pub mod Images
pub mod Inbound
pub mod Outbound
pub mod Turns
pub mod Exchange
pub mod Tools
pub mod Params
mod Examples
use keygrid.Prelude.{
  ℕ, Bool, true, false, ◌&&◌, List, [], ◌∷◌, ◌++◌, Option, none, some, String, str_eq,
  if◌then◌else◌,
}
use keygrid.Failure.Message.{Runes, codes}
use keygrid.Json.{
  Json, Items, Fields, null, str, arr, obj, nil, cons, end, field, find, get, as_object, fields_of,
  items_of, text_of, is_blank,
}
use keygrid.Stream.{same}

-- The type of a block, or the like.
abbrev pub tag : Fields → Runes
tag fs = text_of (get "type" fs)

abbrev pub is_tag : Fields → Runes → Bool
is_tag fs t = same (tag fs) t

abbrev pub append : Items → Items → Items
append nil ws = ws
append (cons v vs) ws = cons v (append vs ws)

abbrev pub with_item : Option Json → Items → Items
with_item none vs = vs
with_item (some v) vs = cons v vs

-- A field that is only set if there is a value.
abbrev pub with_field : String → Option Json → Fields → Fields
with_field k none fs = fs
with_field k (some v) fs = field k v fs

abbrev pub some_text : Runes → Option Json
some_text [] = none
some_text (c ∷ s) = some (str (c ∷ s))

abbrev pub some_items : Items → Option Json
some_items nil = none
some_items (cons v vs) = some (arr (cons v vs))

-- m[k] = v
abbrev pub put : String → Json → Fields → Fields
put k v end = field k v end
put k v (field j w fs) =
    let rest = put k v fs in if str_eq j k then field k v fs else field j w rest

-- `stringifyArg`
unfoldable pub stringify_arg : (Json → Runes) → Json → Runes
stringify_arg marshal (str s) = s
stringify_arg marshal null = []
stringify_arg marshal v = marshal v

abbrev has_object : Option Fields → Bool
has_object none = false
has_object (some fs) = true

abbrev with_properties : Fields → Fields
with_properties fs =
    if has_object (as_object (get "properties" fs)) then fs else put "properties" (obj end) fs

abbrev object_schema : Option Fields → Fields
object_schema none = field "type" (str (codes "object")) (field "properties" (obj end) end)
object_schema (some fs) =
    if is_tag fs (codes "object") && has_object (as_object (get "properties" fs))
    then fs
    else with_properties (put "type" (str (codes "object")) fs)

-- `ensureObjectSchema`
unfoldable pub ensure_object_schema : Json → Json
ensure_object_schema v = obj (object_schema (as_object v))

-- Texts with a text between them.
abbrev pub joined : Runes → List Runes → Runes
joined sep [] = []
joined sep (t ∷ []) = t
joined sep (t ∷ u ∷ ts) = t ++ (sep ++ joined sep (u ∷ ts))

abbrev pub add_text : Runes → List Runes → List Runes
add_text [] ts = ts
add_text (c ∷ s) ts = (c ∷ s) ∷ ts

-- The texts of the blocks, less the empty ones.
abbrev pub texts_of : Items → List Runes
texts_of nil = []
texts_of (cons v vs) = add_text (text_of (get "text" (fields_of v))) (texts_of vs)
