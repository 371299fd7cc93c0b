-- ===== src/Failure/Message.antt =====
-- The text of a diagnosis: blanks squeezed, and cut to what a table cell may hold
-- (`normalizeErrWhitespace` and `truncateErrMessage` of internal/relay/reqerr.go).
--
-- A text is the list of its code points (`[]rune`); it holds no bytes that are not UTF-8.
use Prim.Native.Char.{code}
use Prim.Native.String.{String}
use keygrid.Prelude.{
  ℕ, zero, suc, ◌≤◌, ◌≡◌, ◌≢◌, refl, sym, ap, append-nil, leb→le, ◌∙◌, ◌⊎◌, inl, inr, Bool, true,
  false, ◌||◌, ◌&&◌, ◌==◌, leb, if◌then◌else◌, List, [], ◌∷◌, ◌++◌, arith, length, All, Bool-cases,
  length-append, append_assoc,
}

abbrev pub Runes : Type 0
Runes = List ℕ

-- unicode.IsSpace
unfoldable pub is_space : ℕ → Bool
is_space c =
    (leb 9 c && leb c 13)
    || c == 32
    || c == 0x85
    || c == 0xA0
    || c == 0x1680
    || (leb 0x2000 c && leb c 0x200a)
    || c == 0x2028
    || c == 0x2029
    || c == 0x202f
    || c == 0x205f
    || c == 0x3000

abbrev pub flush : Runes → List Runes → List Runes
flush [] ws = ws
flush (c ∷ w) ws = (c ∷ w) ∷ ws

-- strings.Fields: the runs of characters that are no spaces; `w` is the run being read.
unfoldable pub fields_from : Runes → Runes → List Runes
fields_from w [] = flush w []
fields_from w (c ∷ s) =
    let next = fields_from [] s in
    let more = fields_from (w ++ c ∷ []) s in if is_space c then flush w next else more

-- strings.Join(words, " ")
unfoldable pub join_words : List Runes → Runes
join_words [] = []
join_words (w ∷ []) = w
join_words (w ∷ v ∷ ws) = w ++ 32 ∷ join_words (v ∷ ws)

unfoldable pub normalize_err_whitespace : Runes → Runes
normalize_err_whitespace s = join_words (fields_from [] s)

-- The runes of a text.
abbrev pub codes : String → Runes
codes String.[] = []
codes (String.◌∷◌ c s) = code c ∷ codes s

abbrev pub max_err_message_len : ℕ
max_err_message_len = 512

abbrev pub take : ℕ → Runes → Runes
take zero s = []
take (suc n) [] = []
take (suc n) (c ∷ s) = c ∷ take n s

-- The ellipsis "…" is one rune.
unfoldable pub truncate_err_message : Runes → Runes
truncate_err_message s =
    if leb (length s) max_err_message_len then s else take max_err_message_len s ++ 0x2026 ∷ []

length-take-le : (n : ℕ) (s : Runes) → length (take n s) ≤ n
length-take-le zero s = omega arith
length-take-le (suc n) [] = omega arith
length-take-le (suc n) (c ∷ s) = omega (arith, length-take-le n s)

abbrev Solid : Runes → Type 0
Solid = All (λ c. is_space c ≡ false)

Solid-snoc : (w : Runes) (c : ℕ) → Solid w → is_space c ≡ false → Solid (w ++ c ∷ [])
Solid-snoc [] c h k = (k, tt)
Solid-snoc (x ∷ w) c h k = (h.0, Solid-snoc w c h.1 k)

-- A word is not empty and holds no space.
abbrev Word : Runes → Type 0
Word [] = ⊥
Word (c ∷ w) = Solid (c ∷ w)

flush-Word : (w : Runes) (ws : List Runes) → Solid w → All Word ws → All Word (flush w ws)
flush-Word [] ws h k = k
flush-Word (c ∷ w) ws h k = (h, k)

fields_from-Word : (w s : Runes) → Solid w → All Word (fields_from w s)
unfolding fields_from
fields_from-Word w [] h = flush-Word w [] h tt
fields_from-Word w (c ∷ s) h = elim (Bool-cases (is_space c)) [
  | inl e ↦ rw e (flush-Word w (fields_from [] s) h (fields_from-Word [] s tt))
  | inr e ↦ rw e (fields_from-Word (w ++ c ∷ []) s (Solid-snoc w c h e))
]

-- One line: no space but single blanks, each between two characters that are no spaces.
abbrev pub Tidy : Runes → Type 0
Tidy [] = Unit
Tidy (c ∷ []) = is_space c ≡ false
Tidy (c ∷ d ∷ s) =
    (is_space c ≡ false) × (((is_space d ≡ false) × Tidy (d ∷ s)) ⊎ ((d ≡ 32) × (s ≢ []) × Tidy s))

Tidy-join : (w t : Runes) → Word w → Tidy t → t ≢ [] → Tidy (w ++ 32 ∷ t)
Tidy-join [] t h k n = absurd h
Tidy-join (c ∷ []) t h k n = (h.0, inr (refl, n, k))
Tidy-join (c ∷ d ∷ w) t h k n = (h.0, inl (h.1.0, Tidy-join (d ∷ w) t h.1 k n))

Word-Tidy : (w : Runes) → Word w → Tidy w
Word-Tidy [] h = tt
Word-Tidy (c ∷ []) h = h.0
Word-Tidy (c ∷ d ∷ w) h = (h.0, inl (h.1.0, Word-Tidy (d ∷ w) h.1))

join_words-ne-nil : (w : Runes) (ws : List Runes) → Word w → join_words (w ∷ ws) ≢ []
unfolding join_words
join_words-ne-nil [] ws h e = h
join_words-ne-nil (c ∷ w) [] h e = cc
join_words-ne-nil (c ∷ w) (v ∷ ws) h e = cc

join_words-Tidy : (ws : List Runes) → All Word ws → Tidy (join_words ws)
unfolding join_words
join_words-Tidy [] h = tt
join_words-Tidy (w ∷ []) h = Word-Tidy w h.0
join_words-Tidy (w ∷ v ∷ ws) h =
    Tidy-join w (join_words (v ∷ ws)) h.0 (join_words-Tidy (v ∷ ws) h.1)
      (join_words-ne-nil v ws h.1.0)

fields_from-Solid : (u w s : Runes) → Solid w → fields_from u (w ++ s) ≡ fields_from (u ++ w) s
unfolding fields_from
fields_from-Solid u [] s h = rw append-nil
fields_from-Solid u (c ∷ w) s h = rw (h.0) (
    fields_from-Solid (u ++ c ∷ []) w s h.1 ∙ ap (λ v. fields_from v s) (append_assoc u (c ∷ []) w))

Word-Solid : (w : Runes) → Word w → Solid w
Word-Solid [] h = tt
Word-Solid (c ∷ w) h = h

flush-cons : (w : Runes) (ws : List Runes) → Word w → flush w ws ≡ w ∷ ws
flush-cons [] ws h = absurd h
flush-cons (c ∷ w) ws h = refl

-- Splitting a joined list of words gives the words back.
fields-join : (ws : List Runes) → All Word ws → fields_from [] (join_words ws) ≡ ws
unfolding fields_from join_words is_space
fields-join [] h = refl
fields-join (w ∷ []) h =
    ap (fields_from []) (sym (append-nil w))
    ∙ fields_from-Solid [] w [] (Word-Solid w h.0)
    ∙ flush-cons w [] h.0
fields-join (w ∷ v ∷ ws) h =
    fields_from-Solid [] w (32 ∷ join_words (v ∷ ws)) (Word-Solid w h.0)
    ∙ flush-cons w (fields_from [] (join_words (v ∷ ws))) h.0
    ∙ ap (λ vs. w ∷ vs) (fields-join (v ∷ ws) h.1)

-- Squeezing blanks leaves one line of words with single blanks between them, and squeezing again
-- changes nothing.
pub normalize_err_whitespace_lem :
    (s : Runes)
    → Tidy (normalize_err_whitespace s)
      × (normalize_err_whitespace (normalize_err_whitespace s) ≡ normalize_err_whitespace s)
unfolding normalize_err_whitespace
normalize_err_whitespace_lem s = (
  join_words-Tidy (fields_from [] s) (fields_from-Word [] s tt),
  ap join_words (fields-join (fields_from [] s) (fields_from-Word [] s tt)),
)

abbrev pub Plain : Runes → Type 0
Plain = All (λ c. is_space c ≡ true → c ≡ 32)

Tidy-Plain : (s : Runes) → Tidy s → Plain s
Tidy-Plain [] h = tt
Tidy-Plain (c ∷ []) h = (λ e. cc, tt)
Tidy-Plain (c ∷ d ∷ s) (k, inl (e, t)) = (λ f. cc, Tidy-Plain (d ∷ s) t)
Tidy-Plain (c ∷ d ∷ s) (k, inr (e, n, t)) = (λ f. cc, (λ f. e, Tidy-Plain s t))

Plain-take : (n : ℕ) (s : Runes) → Plain s → Plain (take n s)
Plain-take zero s h = tt
Plain-take (suc n) [] h = tt
Plain-take (suc n) (c ∷ s) h = (h.0, Plain-take n s h.1)

Plain-snoc : (s : Runes) → Plain s → Plain (s ++ 0x2026 ∷ [])
unfolding is_space
Plain-snoc [] h = (λ e. cc e, tt)
Plain-snoc (c ∷ s) h = (h.0, Plain-snoc s h.1)

Plain-truncate : (s : Runes) → Plain s → Plain (truncate_err_message s)
unfolding truncate_err_message
Plain-truncate s h = elim (Bool-cases (leb (length s) max_err_message_len)) [
  | inl e ↦ rw e h
  | inr e ↦ rw e (Plain-snoc (take max_err_message_len s) (Plain-take max_err_message_len s h))
]

length-truncate : (s : Runes) → length (truncate_err_message s) ≤ suc max_err_message_len
unfolding truncate_err_message
length-truncate s = elim (Bool-cases (leb (length s) max_err_message_len)) [
  | inl e ↦ rw e (omega (arith, leb→le (length s) max_err_message_len e))
  | inr e ↦ rw e (
      omega (
        arith,
        length-append (take max_err_message_len s) (0x2026 ∷ []),
        length-take-le max_err_message_len s,
      ))
]

-- What is stored of any message fits a table cell: it is at most 512 runes and an ellipsis long,
-- and its only white space is the blank; a message that is already tidy and short is stored as it
-- is.
pub stored_message_fits :
    (s : Runes)
    → (length (truncate_err_message (normalize_err_whitespace s)) ≤ 513)
      × Plain (truncate_err_message (normalize_err_whitespace s))
      × (normalize_err_whitespace s ≡ s
          → length s ≤ 512
          → truncate_err_message (normalize_err_whitespace s) ≡ s)
stored_message_fits s = (
  length-truncate (normalize_err_whitespace s),
  Plain-truncate (normalize_err_whitespace s)
      (Tidy-Plain (normalize_err_whitespace s) (normalize_err_whitespace_lem s).0),
  λ e h. rw e (short s h),
)
  where
    short : (t : Runes) → length t ≤ 512 → truncate_err_message t ≡ t
    short t h = unfold truncate_err_message in ground arith
