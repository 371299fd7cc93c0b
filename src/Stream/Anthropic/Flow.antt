-- ===== src/Stream/Anthropic/Flow.antt =====
-- What chunks of the chat protocol say: the finish reasons, the roles and the tool calls, in their order.
use keygrid.Prelude.{
  ap, ap₂, ◌∙◌, ℕ, suc, ◌+◌, ltb, ◌==◌, ◌≡◌, refl, ℤ, pos, negsuc, Bool, true, false, ◌||◌, List,
  [], ◌∷◌, ◌++◌, Option, none, some, if◌then◌else◌, length, each, each_snoc, length-append,
}
use keygrid.Failure.Message.{Runes, codes}
use keygrid.Json.{
  Json, Items, Fields, str, string_at, nil, cons, end, find, get, fields_of, items_of, int_num,
}
use keygrid.Stream.{choice_of, delta_of}
use keygrid.Stream.Anthropic.{chunk_base}

-- The finish reason of a chunk, if it has one.
abbrev pub reason : Json → List Runes
reason (str r) = r ∷ []
reason (string_at (some r)) = r ∷ []
reason v = []

abbrev pub or_empty : Option Fields → Fields
or_empty none = end
or_empty (some ch) = ch

abbrev pub the_choice : Fields → Fields
the_choice chunk = or_empty (choice_of chunk)

abbrev pub finishes : Fields → List Runes
finishes chunk = reason (get "finish_reason" (the_choice chunk))

-- The role in a delta.
abbrev pub role_in : Fields → List Runes
role_in delta = reason (get "role" delta)

abbrev pub roles : Fields → List Runes
roles chunk = role_in (delta_of (the_choice chunk))

-- A tool call with an id announces a tool, one without brings arguments of one that was announced.
pub data Call : Type 0 where
  announce argue : (index : ℕ) → Call
  broken : Call

abbrev pub call_of : Option Json → ℤ → Call
call_of o (negsuc n) = broken
call_of none (pos n) = argue n
call_of (some v) (pos n) = announce n

abbrev pub calls_of : Items → List Call
calls_of nil = []
calls_of (cons v vs) =
    call_of (find "id" (fields_of v)) (int_num (get "index" (fields_of v))) ∷ calls_of vs

abbrev pub calls_in : Fields → List Call
calls_in delta = calls_of (items_of (get "tool_calls" delta))

abbrev pub calls : Fields → List Call
calls chunk = calls_in (delta_of (the_choice chunk))

-- The number of tools announced after a call, if the call fits: a tool is announced with the next number, and
-- arguments are for one that was announced, or for the first.
abbrev pub call_step : Option ℕ → Call → Option ℕ
call_step none c = none
call_step (some n) (announce i) = if i == n then some (suc n) else none
call_step (some n) (argue i) = if ltb i n || i == 0 then some n else none
call_step (some n) broken = none

abbrev pub numbered : Option ℕ → List Call → Option ℕ
numbered o [] = o
numbered o (c ∷ cs) = numbered (call_step o c) cs

numbered-append :
    (o : Option ℕ) (cs ds : List Call) → numbered o (cs ++ ds) ≡ numbered (numbered o cs) ds
numbered-append o [] ds = refl
numbered-append o (c ∷ cs) ds = numbered-append (call_step o c) cs ds

-- Chunks with so many tools announced, so many finish reasons, and these roles.
pub record IsFlow (chunks : List Fields) (n f : ℕ) (r : List Runes) : Type 0 where
  pub called : numbered (some 0) (each calls chunks) ≡ some n
  pub finished : length (each finishes chunks) ≡ f
  pub named : each roles chunks ≡ r

abbrev pub reasons : Option Runes → ℕ
reasons none = 0
reasons (some r) = 1

length-reason : (o : Option Runes) → length (reason (string_at o)) ≡ reasons o
length-reason none = refl
length-reason (some r) = refl

pub snoc-IsFlow :
    (chunks : List Fields) (m : Runes) (delta : Fields) (o : Option Runes) (n n2 f f2 : ℕ)
    (r r2 : List Runes)
    → numbered (some n) (calls_in delta) ≡ some n2
    → f + reasons o ≡ f2
    → r ++ role_in delta ≡ r2
    → IsFlow chunks n f r
    → IsFlow (chunks ++ chunk_base m delta o ∷ []) n2 f2 r2
unfolding chunk_base choice_of
snoc-IsFlow chunks m delta o n n2 f f2 r r2 c k q v =
    let d = chunk_base m delta o in
    record {
      called =
          ap (numbered (some 0)) (each_snoc calls chunks d (each calls chunks) refl)
          ∙ numbered-append (some 0) (each calls chunks) (calls_in delta)
          ∙ ap (λ x. numbered x (calls_in delta)) v.called
          ∙ c;
      finished =
          ap length (each_snoc finishes chunks d (each finishes chunks) refl)
          ∙ length-append (each finishes chunks) (reason (string_at o))
          ∙ ap₂ (λ x y. x + y) v.finished (length-reason o)
          ∙ k;
      named = each_snoc roles chunks d r v.named ∙ q;
    }

abbrev pub assistant : List Runes
assistant = codes "assistant" ∷ []

abbrev pub role_list : Bool → List Runes
role_list true = assistant
role_list false = []

abbrev pub sent : Bool → ℕ
sent true = 1
sent false = 0
