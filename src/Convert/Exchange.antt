-- ===== src/Convert/Exchange.antt =====
-- The calls of tools and their results in the messages of a request, in their order.
use keygrid.Prelude.{
  if_cases, ap, ap₂, sym, subst, ◌∙◌, ◌≡◌, refl, Bool, true, false, ◌||◌, List, [], ◌∷◌, ◌++◌,
  append-nil, append_assoc, if◌then◌else◌, arith,
}
use keygrid.Failure.Message.{Runes, codes}
use keygrid.Json.{Items, Fields, nil, cons, get, fields_of, items_of, text_of, first_non_empty}
use keygrid.Stream.{same}
use keygrid.Convert.{append}
use keygrid.Convert.Inbound.{gather}
use keygrid.Convert.Outbound.{
  Codec, pivot_content_to_anthropic_blocks, call_of, result_block, Draft, message, flush_blocks,
  flush_pending, note_system, add_message, add_assistant, assistant_blocks, join_message_text,
  take_message, take_messages, draft, pivot_to_anthropic_request,
}
use keygrid.Convert.Turns.{
  Turn, call_turns, turns_as, chat_turns, block_turns, anthropic_turns, block_turns-append,
  anthropic_turns-append, content_turnless, calls-turns, answered,
}

-- The turns so far are in the messages, and the last results in the blocks that wait.
abbrev Says : List Turn → Draft → Type 0
Says ts d = anthropic_turns d.messages ++ block_turns d.pending_user_blocks ≡ ts

-- A draft in which nothing waits.
record IsFlushed (ts : List Turn) (d : Draft) : Type 0 where
  says : anthropic_turns d.messages ≡ ts
  waits : d.pending_user_blocks ≡ nil

add_message-turns :
    (d : Draft) (role : Runes) (bs : Items)
    → anthropic_turns (append d.messages (cons (message role bs) nil))
      ≡ anthropic_turns d.messages ++ block_turns bs
add_message-turns d role bs =
    anthropic_turns-append d.messages (cons (message role bs) nil)
    ∙ ap (λ r. anthropic_turns d.messages ++ r) (append-nil (block_turns bs))

flush-IsFlushed : (ts : List Turn) (d : Draft) → Says ts d → IsFlushed ts (flush_pending d)
unfolding flush_pending
flush-IsFlushed ts d v = go d.pending_user_blocks refl
  where
    go : (bs : Items) → d.pending_user_blocks ≡ bs → IsFlushed ts (flush_blocks bs d)
    go nil e = record {
      says =
          sym (append-nil (anthropic_turns d.messages))
          ∙ ap (λ p. anthropic_turns d.messages ++ block_turns p) (sym e)
          ∙ v;
      waits = e;
    }
    go (cons b bs) e = record {
      says =
          add_message-turns d (codes "user") (cons b bs)
          ∙ ap (λ p. anthropic_turns d.messages ++ block_turns p) (sym e)
          ∙ v;
      waits = refl;
    }

-- A message after the flush adds the turns of its blocks.
add_message-Says :
    (ts : List Turn) (role : Runes) (bs : Items) (us : List Turn) (d : Draft)
    → block_turns bs ≡ us
    → IsFlushed ts d
    → Says (ts ++ us) (add_message (message role bs) d)
add_message-Says ts role bs us d h v =
    ap₂ (λ x p. x ++ block_turns p) (add_message-turns d role bs ∙ ap₂ (λ x y. x ++ y) v.says h)
      v.waits
    ∙ append-nil (ts ++ us)

add_assistant-Says :
    (ts : List Turn) (bs : Items) (us : List Turn) (d : Draft)
    → block_turns bs ≡ us
    → IsFlushed ts d
    → Says (ts ++ us) (add_assistant bs d)
add_assistant-Says ts nil us d h v =
    ap₂ (λ x p. x ++ block_turns p) v.says v.waits ∙ ap (λ u. ts ++ u) h
add_assistant-Says ts (cons b bs) us d h v =
    add_message-Says ts (codes "assistant") (cons b bs) us d h v

note_system-Says : (ts : List Turn) (t : Runes) (d : Draft) → Says ts d → Says ts (note_system t d)
note_system-Says ts [] d v = v
note_system-Says ts (c ∷ t) d v = v

tool-Says :
    (cd : Codec) (m : Fields) (ts : List Turn) (d : Draft)
    → Says ts d
    → Says
        (ts ++ answered (first_non_empty (text_of (get "tool_call_id" m)) cd.made_up) ∷ [])
        (record d {
          pending_user_blocks = append d.pending_user_blocks (cons (result_block cd m) nil);
        })
tool-Says cd m ts d v =
    let a = answered (first_non_empty (text_of (get "tool_call_id" m)) cd.made_up) ∷ [] in
    ap (λ r. anthropic_turns d.messages ++ r)
      (block_turns-append d.pending_user_blocks (cons (result_block cd m) nil))
    ∙ sym (append_assoc (anthropic_turns d.messages) (block_turns d.pending_user_blocks) a)
    ∙ ap (λ r. r ++ a) v

same_eq : (s t : Runes) → same s t ≡ true → s ≡ t
same_eq [] [] h = refl
same_eq [] (d ∷ t) h = absurd (ground (arith, h))
same_eq (c ∷ s) [] h = absurd (ground (arith, h))
same_eq (c ∷ s) (d ∷ t) h =
    let e : c ≡ d = ground (arith, h) in
    let k : same s t ≡ true = ground (arith, h) in ap₂ (λ x y. x ∷ y) e (same_eq s t k)

-- A role that is tested for is the role.
as_role :
    (cd : Codec) (m : Fields) (r k : Runes) → same r k ≡ true → turns_as cd m k ≡ turns_as cd m r
as_role cd m r k h = ap (turns_as cd m) (sym (same_eq r k h))

either_role :
    (cd : Codec) (m : Fields) (r : Runes)
    → (same r (codes "system") || same r (codes "developer")) ≡ true
    → [] ≡ turns_as cd m r
either_role cd m r h = go (same r (codes "system")) refl h
  where
    go :
        (b : Bool)
        → same r (codes "system") ≡ b
        → (b || same r (codes "developer")) ≡ true
        → [] ≡ turns_as cd m r
    go true e k = as_role cd m r (codes "system") e
    go false e k = as_role cd m r (codes "developer") k

no_role :
    (cd : Codec) (m : Fields) (r : Runes)
    → same r (codes "assistant") ≡ false
    → same r (codes "tool") ≡ false
    → [] ≡ turns_as cd m r
no_role cd m r a t =
    let tool = answered (first_non_empty (text_of (get "tool_call_id" m)) cd.made_up) ∷ [] in
    let calls = call_turns cd (items_of (get "tool_calls" m)) in
    sym (ap₂ (λ x y. if x then calls else if y then tool else []) a t)

assistant_blocks-turns :
    (cd : Codec) (m : Fields)
    → block_turns (assistant_blocks cd m) ≡ call_turns cd (items_of (get "tool_calls" m))
assistant_blocks-turns cd m =
    block_turns-append (pivot_content_to_anthropic_blocks (get "content" m))
      (gather (call_of cd) (items_of (get "tool_calls" m)))
    ∙ ap₂ (λ x y. x ++ y) (content_turnless (get "content" m))
        (calls-turns cd (items_of (get "tool_calls" m)))

same_Says :
    {us ws : List Turn} (ts : List Turn) (e : Draft)
    → us ≡ ws
    → Says (ts ++ us) e
    → Says (ts ++ ws) e
same_Says ts e h w = subst (λ u. Says (ts ++ u) e) h w

message-Says :
    (cd : Codec) (m : Fields) (ts : List Turn) (d : Draft)
    → Says ts d
    → Says (ts ++ turns_as cd m (text_of (get "role" m))) (take_message cd m d)
unfolding take_message
message-Says cd m ts d v =
    let r = text_of (get "role" m) in
    let P : Draft → Type 0 = Says (ts ++ turns_as cd m r) in
    let f = flush-IsFlushed ts d v in
    let content = pivot_content_to_anthropic_blocks (get "content" m) in
    let system = note_system (join_message_text (get "content" m)) d in
    let user = add_message (message (codes "user") content) (flush_pending d) in
    let assistant = add_assistant (assistant_blocks cd m) (flush_pending d) in
    let tool : Draft = record d {
      pending_user_blocks = append d.pending_user_blocks (cons (result_block cd m) nil);
    } in
    let or_tool = if same r (codes "tool") then tool else d in
    let or_assistant = if same r (codes "assistant") then assistant else or_tool in
    let or_user = if same r (codes "user") then user else or_assistant in
    let same_turns : Says (ts ++ []) d = v ∙ sym (append-nil ts) in
    if_cases P (same r (codes "system") || same r (codes "developer")) system or_user
      (λ h.
        same_Says ts system (either_role cd m r h)
          (note_system-Says (ts ++ []) (join_message_text (get "content" m)) d same_turns))
      (λ h.
        if_cases P (same r (codes "user")) user or_assistant
          (λ k. same_Says ts user (as_role cd m r (codes "user") k) (
            add_message-Says ts (codes "user") content [] (flush_pending d)
              (content_turnless (get "content" m)) f))
          (λ k.
            if_cases P (same r (codes "assistant")) assistant or_tool
              (λ a. same_Says ts assistant (as_role cd m r (codes "assistant") a) (
                add_assistant-Says ts (assistant_blocks cd m)
                  (call_turns cd (items_of (get "tool_calls" m))) (flush_pending d)
                  (assistant_blocks-turns cd m) f))
              (λ a.
                if_cases P (same r (codes "tool")) tool d
                  (λ t. same_Says ts tool (as_role cd m r (codes "tool") t) (tool-Says cd m ts d v))
                  (λ t. same_Says ts d (no_role cd m r a t) same_turns))))

messages-Says :
    (cd : Codec) (vs : Items) (ts : List Turn) (d : Draft)
    → Says ts d
    → Says (ts ++ chat_turns cd vs) (take_messages cd vs d)
unfolding take_messages
messages-Says cd nil ts d v = v ∙ sym (append-nil ts)
messages-Says cd (cons m vs) ts d v =
    let us = turns_as cd (fields_of m) (text_of (get "role" (fields_of m))) in
    messages-Says cd vs (ts ++ us) (take_message cd (fields_of m) d)
      (message-Says cd (fields_of m) ts d v)
    ∙ append_assoc ts us (chat_turns cd vs)

-- The calls of tools and their results in a chat request are, in their order and with their ids, the calls and the
-- results in the request that is sent to the Anthropic upstream: none is lost, doubled or moved past another. A call
-- without a name is no call, and an id that is missing is made up.
pub pivot_to_anthropic_request-turns :
    (cd : Codec) (req : Fields) (up_model : Runes)
    → anthropic_turns (items_of (get "messages" (pivot_to_anthropic_request cd req up_model)))
      ≡ chat_turns cd (items_of (get "messages" req))
unfolding pivot_to_anthropic_request draft
pivot_to_anthropic_request-turns cd req up_model =
    let d =
      take_messages cd (items_of (get "messages" req))
        (record { system_parts = []; messages = nil; pending_user_blocks = nil }) in
    (flush-IsFlushed (chat_turns cd (items_of (get "messages" req))) d (
      messages-Says cd (items_of (get "messages" req)) []
        (record { system_parts = []; messages = nil; pending_user_blocks = nil }) refl)).says
