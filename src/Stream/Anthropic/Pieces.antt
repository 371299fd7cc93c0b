-- ===== src/Stream/Anthropic/Pieces.antt =====
-- What each event of an Anthropic upstream but its last keeps of a chat.
use keygrid.Prelude.{
  if_both, ap, subst, ◌∙◌, ℕ, suc, ◌+◌, ◌<◌, ltb, ◌==◌, ◌≡◌, refl, ℤ, eqb_ℤ, Bool, true, false,
  ◌||◌, [], ◌∷◌, ◌++◌, Option, none, some, if◌then◌else◌, inl, inr, ◌⊎◌, arith, String,
}
use keygrid.Failure.Message.{Runes, codes}
use keygrid.Json.{
  Fields, tool_calls, str, obj, end, field, get, as_object, fields_of, text_of, int_num,
}
use keygrid.Stream.{same}
use keygrid.Stream.Anthropic.{
  InState, the_role, role_if, pass_with_role, note_input, pass_role, on_message_start, tool_call,
  announcement, on_block_start, lookup, or_last, piece, arguments, block_delta, note_stop,
  note_output, note_model,
}
use keygrid.Stream.Anthropic.Flow.{
  role_in, calls_in, call_step, numbered, IsFlow, reasons, snoc-IsFlow, assistant, role_list, sent,
  announce, argue,
}

-- What holds of the state between two events: the tools that blocks stand for have been announced.
pub record IsChatting (s : InState) : Type 0 where
  pub flow : IsFlow s.passed s.tool_idx (sent s.finish_sent) (role_list s.role_sent)
  pub known : (i : ℤ) (k : ℕ) → lookup i s.block_to_tool ≡ some k → k < s.tool_idx
  pub latest : (k : ℕ) → s.last_tool_idx ≡ some k → k < s.tool_idx

pub roled :
    (b : Bool) (delta : Fields)
    → role_in delta ≡ []
    → role_list b ++ role_in (role_if b delta) ≡ assistant
roled true delta h = ap (λ r. assistant ++ r) h
roled false delta h = refl

pub role_if-calls : (b : Bool) (delta : Fields) → calls_in (role_if b delta) ≡ calls_in delta
role_if-calls true delta = refl
role_if-calls false delta = refl

-- A chunk whose delta goes through `withRole` has the role if none had it before.
pub pass_with_role-IsFlow :
    (delta : Fields) (o : Option Runes) (s : InState) (n f f2 : ℕ)
    → role_in delta ≡ []
    → numbered (some n) (calls_in delta) ≡ some s.tool_idx
    → f + reasons o ≡ f2
    → IsFlow s.passed n f (role_list s.role_sent)
    → IsFlow (pass_with_role delta o s).passed s.tool_idx f2 assistant
unfolding pass_with_role
pass_with_role-IsFlow delta o s n f f2 h c k v =
    snoc-IsFlow s.passed s.model (role_if s.role_sent delta) o n s.tool_idx f f2
      (role_list s.role_sent) assistant
      (ap (numbered (some n)) (role_if-calls s.role_sent delta) ∙ c) k (roled s.role_sent delta h) v

-- A chunk that is passed on in a chat, and announces no tool.
pub passed-IsChatting :
    (delta : Fields) (s : InState)
    → role_in delta ≡ []
    → numbered (some s.tool_idx) (calls_in delta) ≡ some s.tool_idx
    → IsChatting s
    → IsChatting (pass_with_role delta none s)
unfolding pass_with_role
passed-IsChatting delta s h c v = record {
  flow =
      pass_with_role-IsFlow delta none s s.tool_idx (sent s.finish_sent) (sent s.finish_sent) h c
        (omega arith) v.flow;
  known = v.known;
  latest = v.latest;
}

pub note_input-IsChatting :
    (o : Option Fields) (s : InState) → IsChatting s → IsChatting (note_input o s)
note_input-IsChatting none s v = v
note_input-IsChatting (some u) s v = record { flow = v.flow; known = v.known; latest = v.latest }

pub on_message_start-IsChatting :
    (ev : Fields) (s : InState) → IsChatting s → IsChatting (on_message_start ev s)
unfolding on_message_start
on_message_start-IsChatting ev s v =
    let o = as_object (get "usage" (fields_of (get "message" ev))) in
    go (note_input o s).role_sent refl (note_input-IsChatting o s v)
  where
    go : (b : Bool) {t : InState} → t.role_sent ≡ b → IsChatting t → IsChatting (pass_role b t)
    go true {t} e w = w
    go false {t} e w = record {
      flow =
          snoc-IsFlow t.passed t.model (the_role end) none t.tool_idx t.tool_idx
            (sent t.finish_sent) (sent t.finish_sent) [] assistant refl (omega arith) refl
            (subst (λ b. IsFlow t.passed t.tool_idx (sent t.finish_sent) (role_list b)) e w.flow);
      known = w.known;
      latest = w.latest;
    }

pub next_number : (n : ℕ) → call_step (some n) (announce n) ≡ some (suc n)
next_number n =
    let h : (n == n) ≡ true = ground arith in ap (λ b. if b then some (suc n) else none) h

pub the_number : (k : ℕ) {n : ℕ} → some n ≡ some k → n ≡ k
the_number k h = ground (arith, h)

pub started-IsChatting :
    (fresh : Runes) (block : Fields) (i : ℤ) (s : InState)
    → IsChatting s
    → IsChatting (
        pass_with_role (tool_call s.tool_idx (announcement fresh block)) none (record s {
          tool_idx = suc s.tool_idx;
          block_to_tool = (i, s.tool_idx) ∷ s.block_to_tool;
          last_tool_idx = some s.tool_idx;
          finish = tool_calls;
        }))
unfolding pass_with_role
started-IsChatting fresh block i s v =
    let u = record s {
      tool_idx = suc s.tool_idx;
      block_to_tool = (i, s.tool_idx) ∷ s.block_to_tool;
      last_tool_idx = some s.tool_idx;
      finish = tool_calls;
    } in
    record {
      flow =
          pass_with_role-IsFlow (tool_call s.tool_idx (announcement fresh block)) none u s.tool_idx
            (sent s.finish_sent) (sent s.finish_sent) refl (next_number s.tool_idx) (omega arith)
            v.flow;
      known = λ j k h. entry j k (eqb_ℤ i j) h;
      latest = λ k h. omega (arith, the_number k h);
    }
  where
    entry :
        (j : ℤ) (k : ℕ) (b : Bool)
        → (if b then some s.tool_idx else lookup j s.block_to_tool) ≡ some k
        → k < suc s.tool_idx
    entry j k true h = omega (arith, the_number k h)
    entry j k false h = omega (arith, v.known j k h)

pub on_block_start-IsChatting :
    (fresh : Runes) (ev : Fields) (s : InState)
    → IsChatting s
    → IsChatting (on_block_start fresh ev s)
unfolding on_block_start
on_block_start-IsChatting fresh ev s v =
    let block = fields_of (get "content_block" ev) in
    if_both IsChatting (same (text_of (get "type" block)) (codes "tool_use"))
      (pass_with_role (tool_call s.tool_idx (announcement fresh block)) none (record s {
        tool_idx = suc s.tool_idx;
        block_to_tool = (int_num (get "index" ev), s.tool_idx) ∷ s.block_to_tool;
        last_tool_idx = some s.tool_idx;
        finish = tool_calls;
      }))
      s (started-IsChatting fresh block (int_num (get "index" ev)) s v) v

pub piece-IsChatting :
    (k : String) (t : Runes) (s : InState)
    → ((u : Runes) → role_in (field k (str u) end) ≡ [])
    → ((u : Runes) → calls_in (field k (str u) end) ≡ [])
    → IsChatting s
    → IsChatting (piece k t s)
piece-IsChatting k [] s h c v = v
piece-IsChatting k (d ∷ t) s h c v =
    passed-IsChatting (field k (str (d ∷ t)) end) s (h (d ∷ t))
      (ap (numbered (some s.tool_idx)) (c (d ∷ t))) v

pub argued : (n k : ℕ) → (k < n) ⊎ (k ≡ 0) → call_step (some n) (argue k) ≡ some n
argued n k h =
    let e : (ltb k n || k == 0) ≡ true = ground (arith, h) in ap (λ b. if b then some n else none) e

-- Arguments go to the tool of their block, or to the last one.
pub addressed :
    (i : ℤ) (s : InState)
    → IsChatting s
    → (or_last (lookup i s.block_to_tool) s.last_tool_idx < s.tool_idx)
      ⊎ (or_last (lookup i s.block_to_tool) s.last_tool_idx ≡ 0)
addressed i s v = go (lookup i s.block_to_tool) s.last_tool_idx (v.known i) v.latest
  where
    go :
        (o l : Option ℕ)
        → ((k : ℕ) → o ≡ some k → k < s.tool_idx)
        → ((k : ℕ) → l ≡ some k → k < s.tool_idx)
        → (or_last o l < s.tool_idx) ⊎ (or_last o l ≡ 0)
    go (some n) l h g = inl (h n refl)
    go none (some n) h g = inl (g n refl)
    go none none h g = inr refl

pub arguments-IsChatting :
    (i : ℤ) (t : Runes) (s : InState) → IsChatting s → IsChatting (arguments i t s)
arguments-IsChatting i [] s v = v
arguments-IsChatting i (c ∷ t) s v =
    let k = or_last (lookup i s.block_to_tool) s.last_tool_idx in
    passed-IsChatting
      (tool_call k (field "function" (obj (field "arguments" (str (c ∷ t)) end)) end)) s refl
      (argued s.tool_idx k (addressed i s v)) v

pub delta-IsChatting :
    (i : ℤ) (o : Option Fields) (s : InState) → IsChatting s → IsChatting (block_delta i o s)
delta-IsChatting i none s v = v
delta-IsChatting i (some delta) s v =
    let t = text_of (get "type" delta) in
    let text = piece "content" (text_of (get "text" delta)) s in
    let thinking = piece "reasoning_content" (text_of (get "thinking" delta)) s in
    let args = arguments i (text_of (get "partial_json" delta)) s in
    let to_args = if same t (codes "input_json_delta") then args else s in
    let to_thinking = if same t (codes "thinking_delta") then thinking else to_args in
    if_both IsChatting (same t (codes "text_delta")) text to_thinking
      (piece-IsChatting "content" (text_of (get "text" delta)) s (λ u. refl) (λ u. refl) v)
      (if_both IsChatting (same t (codes "thinking_delta")) thinking to_args
        (piece-IsChatting "reasoning_content" (text_of (get "thinking" delta)) s (λ u. refl)
          (λ u. refl) v)
        (if_both IsChatting (same t (codes "input_json_delta")) args s
          (arguments-IsChatting i (text_of (get "partial_json" delta)) s v) v))

pub stop-IsChatting : (sr : Runes) (s : InState) → IsChatting s → IsChatting (note_stop sr s)
stop-IsChatting [] s v = v
stop-IsChatting (c ∷ sr) s v = record { flow = v.flow; known = v.known; latest = v.latest }

pub output-IsChatting :
    (o : Option Fields) (s : InState) → IsChatting s → IsChatting (note_output o s)
output-IsChatting none s v = v
output-IsChatting (some u) s v = record { flow = v.flow; known = v.known; latest = v.latest }

pub model-IsChatting : (m : Runes) (s : InState) → IsChatting s → IsChatting (note_model m s)
model-IsChatting [] s v = v
model-IsChatting (c ∷ m) s v = record { flow = v.flow; known = v.known; latest = v.latest }

pub unsent-IsFlow :
    (s : InState)
    → s.finish_sent ≡ false
    → IsChatting s
    → IsFlow s.passed s.tool_idx 0 (role_list s.role_sent)
unsent-IsFlow s e v =
    subst (λ b. IsFlow s.passed s.tool_idx (sent b) (role_list s.role_sent)) e v.flow
