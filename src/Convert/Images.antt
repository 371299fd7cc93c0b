-- ===== src/Convert/Images.antt =====
-- Images in messages, in both directions.
use keygrid.Prelude.{
  ap, ap₂, ◌∙◌, ℕ, ◌==◌, ◌≡◌, refl, true, false, [], ◌∷◌, ◌++◌, Option, none, some, if◌then◌else◌,
  All, inl, inr, ◌⊎◌, arith,
}
use keygrid.Failure.Message.{Runes, codes}
use keygrid.Json.{Json, Fields, str, obj, end, field, get, as_object, fields_of, text_of}
use keygrid.Convert.{tag, is_tag}

abbrev image_part : Runes → Json
image_part u =
    obj (
      field "type" (str (codes "image_url"))
        (field "image_url" (obj (field "url" (str u) end)) end))

-- The image of a text that must not be empty.
abbrev some_image : Runes → Option Json
some_image [] = none
some_image (c ∷ u) = some (image_part (c ∷ u))

abbrev data_image : Runes → Runes → Option Json
data_image [] content = none
data_image (c ∷ media) [] = none
data_image (c ∷ media) (d ∷ content) =
    some (image_part (codes "data:" ++ ((c ∷ media) ++ (codes ";base64," ++ d ∷ content))))

abbrev source_image : Option Fields → Option Json
source_image none = none
source_image (some sm) =
    if is_tag sm (codes "base64")
    then data_image (text_of (get "media_type" sm)) (text_of (get "data" sm))
    else if is_tag sm (codes "url")
    then some_image (text_of (get "url" sm))
    else none

unfoldable pub anthropic_image_to_pivot : Json → Option Json
anthropic_image_to_pivot source = source_image (as_object source)

-- strings.CutPrefix: what follows the prefix.
unfoldable pub cut_prefix : Runes → Runes → Option Runes
cut_prefix [] s = some s
cut_prefix (c ∷ p) [] = none
cut_prefix (c ∷ p) (d ∷ s) = let rest = cut_prefix p s in if c == d then rest else none

abbrev add_before : ℕ → Option (Runes × Runes) → Option (Runes × Runes)
add_before c none = none
add_before c (some (a, b)) = some (c ∷ a, b)

abbrev cut_here : ℕ → Option Runes → Option (Runes × Runes) → Option (Runes × Runes)
cut_here c (some b) later = some ([], b)
cut_here c none later = add_before c later

-- strings.Cut: what stands before and after the first occurrence, for a separator that is not empty.
unfoldable pub cut : Runes → Runes → Option (Runes × Runes)
cut sep [] = none
cut sep (c ∷ s) = cut_here c (cut_prefix sep (c ∷ s)) (cut sep s)

abbrev url_image : Runes → Json
url_image u = obj (
    field "type" (str (codes "image"))
      (field "source" (obj (field "type" (str (codes "url")) (field "url" (str u) end))) end))

abbrev pub base64_image : Runes → Runes → Json
base64_image media content = obj (
    field "type" (str (codes "image")) (
      field "source"
        (obj (
          field "type" (str (codes "base64"))
            (field "media_type" (str media) (field "data" (str content) end))))
        end))

abbrev parted_image : Runes → Option (Runes × Runes) → Json
parted_image u none = url_image u
parted_image u (some ([], content)) = url_image u
parted_image u (some (c ∷ media, [])) = url_image u
parted_image u (some (c ∷ media, d ∷ content)) = base64_image (c ∷ media) (d ∷ content)

abbrev data_url_image : Runes → Option Runes → Json
data_url_image u none = url_image u
data_url_image u (some rest) = parted_image u (cut (codes ";base64,") rest)

abbrev text_image : Runes → Json
text_image [] =
    obj (field "type" (str (codes "text")) (field "text" (str (codes "[unsupported image]")) end))
text_image (c ∷ u) = data_url_image (c ∷ u) (cut_prefix (codes "data:") (c ∷ u))

abbrev url_of : Json → Runes
url_of (str u) = u
url_of (obj fs) = text_of (get "url" fs)
url_of v = []

unfoldable pub pivot_image_to_anthropic : Json → Json
pivot_image_to_anthropic v = text_image (url_of v)

-- A text whose first character is not the prefix's does not have the prefix.
cut_prefix-other : (c d : ℕ) (p s : Runes) → (c == d) ≡ false → cut_prefix (c ∷ p) (d ∷ s) ≡ none
unfolding cut_prefix
cut_prefix-other c d p s h = ap (λ b. if b then cut_prefix p s else none) h

cut_prefix-append : (p s : Runes) → cut_prefix p (p ++ s) ≡ some s
unfolding cut_prefix
cut_prefix-append [] s = refl
cut_prefix-append (c ∷ p) s =
    let h : (c == c) ≡ true = ground arith in
    ap (λ b. if b then cut_prefix p (p ++ s) else none) h ∙ cut_prefix-append p s

-- A text before the separator that lacks its first character is cut off whole.
cut-append :
    (c : ℕ) (sep before after : Runes)
    → All (λ d. (c == d) ≡ false) before
    → cut (c ∷ sep) (before ++ ((c ∷ sep) ++ after)) ≡ some (before, after)
unfolding cut
cut-append c sep [] after h =
    ap (λ o. cut_here c o (cut (c ∷ sep) (sep ++ after))) (cut_prefix-append (c ∷ sep) after)
cut-append c sep (d ∷ before) after h =
    ap₂ (λ o q. cut_here d o q) (cut_prefix-other c d sep (before ++ ((c ∷ sep) ++ after)) h.0)
      (cut-append c sep before after h.1)

-- An image part of a chat message on its way to an Anthropic upstream.
abbrev pub back : Option Json → Option Json
back none = none
back (some part) = some (pivot_image_to_anthropic (get "image_url" (fields_of part)))

-- The conversion of one image block with data to a part of a chat message, followed by the conversion of that part
-- back, gives the same block, if its media type and its data are not empty and the media type has no semicolon.
pub pivot_image_to_anthropic-anthropic_image_to_pivot :
    (m d : ℕ) (media content : Runes)
    → All (λ c. (59 == c) ≡ false) (m ∷ media)
    → back (
        anthropic_image_to_pivot
          (get "source" (fields_of (base64_image (m ∷ media) (d ∷ content)))))
      ≡ some (base64_image (m ∷ media) (d ∷ content))
unfolding anthropic_image_to_pivot pivot_image_to_anthropic
pivot_image_to_anthropic-anthropic_image_to_pivot m d media content h =
    let u = (m ∷ media) ++ (codes ";base64," ++ d ∷ content) in
    ap (λ o. some (data_url_image (codes "data:" ++ u) o)) (cut_prefix-append (codes "data:") u)
    ∙ ap (λ o. some (parted_image (codes "data:" ++ u) o))
        (cut-append 59 (codes "base64,") (m ∷ media) (d ∷ content) h)

-- What becomes of an image is an image, or a text that says that it is none.
pub pivot_image_to_anthropic-tag :
    (v : Json)
    → (tag (fields_of (pivot_image_to_anthropic v)) ≡ codes "image")
      ⊎ (tag (fields_of (pivot_image_to_anthropic v)) ≡ codes "text")
unfolding pivot_image_to_anthropic
pivot_image_to_anthropic-tag v = text (url_of v)
  where
    Tagged : Json → Type 0
    Tagged b = (tag (fields_of b) ≡ codes "image") ⊎ (tag (fields_of b) ≡ codes "text")

    parted : (u : Runes) (o : Option (Runes × Runes)) → Tagged (parted_image u o)
    parted u none = inl refl
    parted u (some ([], content)) = inl refl
    parted u (some (c ∷ media, [])) = inl refl
    parted u (some (c ∷ media, d ∷ content)) = inl refl

    url : (u : Runes) (o : Option Runes) → Tagged (data_url_image u o)
    url u none = inl refl
    url u (some rest) = parted u (cut (codes ";base64,") rest)

    text : (u : Runes) → Tagged (text_image u)
    text [] = inr refl
    text (c ∷ u) = url (c ∷ u) (cut_prefix (codes "data:") (c ∷ u))
