-- ===== src/Json.antt =====
-- JSON values as encoding/json decodes them into `any`, and the ways in which internal/relay reads them.
-- An object is the list of its fields; a key that stands twice is its first field. A number has its
-- integral part, which is what the code reads, and its literal, which is empty for one that the code builds.
-- `string_at` is a *string in a map that the code builds: it is written as the text or null, but an
-- assertion to a string fails.
use keygrid.Prelude.{
  ℤ, pos, Bool, true, false, [], ◌∷◌, Option, none, some, if◌then◌else◌, String, str_eq, eqb_ℤ,
  ◌&&◌,
}
use keygrid.Failure.Message.{Runes}

mutual
  pub data Json : Type 0 where
    null : Json
    bool : Bool → Json
    num : (whole : ℤ) (literal : Runes) → Json
    str : Runes → Json
    arr : Items → Json
    string_at : Option Runes → Json
    obj : Fields → Json

  pub data Items : Type 0 where
    nil : Items
    cons : Json → Items → Items

  pub data Fields : Type 0 where
    end : Fields
    field : String → Json → Fields → Fields

abbrev pub is_blank : Runes → Bool
is_blank [] = true
is_blank (c ∷ s) = false

-- m[k] of a map, and whether it is there.
abbrev pub find : String → Fields → Option Json
find k end = none
find k (field j v fs) = let rest = find k fs in if str_eq j k then some v else rest

abbrev pub or_null : Option Json → Json
or_null none = null
or_null (some v) = v

-- m[k], which is nil where there is none.
abbrev pub get : String → Fields → Json
get k fs = or_null (find k fs)

-- v.(map[string]any); a failed assertion gives the nil map, which has no keys.
abbrev pub as_object : Json → Option Fields
as_object (obj fs) = some fs
as_object v = none

abbrev pub or_end : Option Fields → Fields
or_end none = end
or_end (some fs) = fs

abbrev pub fields_of : Json → Fields
fields_of v = or_end (as_object v)

-- v.([]any), and nil where it is none.
abbrev pub as_array : Json → Option Items
as_array (arr vs) = some vs
as_array v = none

abbrev pub or_nil : Option Items → Items
or_nil none = nil
or_nil (some vs) = vs

abbrev pub items_of : Json → Items
items_of v = or_nil (as_array v)

-- `str`, and v.(string) where a failed assertion is as good as the empty text.
abbrev pub text_of : Json → Runes
text_of (str s) = s
text_of v = []

abbrev pub bool_of : Json → Bool
bool_of (bool b) = b
bool_of v = false

-- `intNum`
abbrev pub int_num : Json → ℤ
int_num (num n literal) = n
int_num v = pos 0

-- UsageRecord, as far as streams fill it.
pub record Usage : Type 0 where
  pub prompt_tokens : ℤ
  pub completion_tokens : ℤ

-- The first of two counts that is not 0.
abbrev either_count : ℤ → ℤ → ℤ
either_count p q = if eqb_ℤ p (pos 0) then q else p

abbrev counted : ℤ → ℤ → Option Usage
counted p c =
    if eqb_ℤ p (pos 0) && eqb_ℤ c (pos 0)
    then none
    else some (record { prompt_tokens = p; completion_tokens = c })

abbrev usage_of : Option Fields → Option Usage
usage_of none = none
usage_of (some u) =
    counted (either_count (int_num (get "prompt_tokens" u)) (int_num (get "input_tokens" u)))
      (either_count (int_num (get "completion_tokens" u)) (int_num (get "output_tokens" u)))

unfoldable pub usage_from_any : Json → Option Usage
usage_from_any v = usage_of (as_object v)

unfoldable pub first_non_empty : Runes → Runes → Runes
first_non_empty [] v = v
first_non_empty (c ∷ u) v = c ∷ u

-- The three values of finish_reason that the code tells apart.
pub data Finish : Type 0 where
  stop length tool_calls : Finish
