-- ===== src/Stream/Messages/Grammar.antt =====
-- The events that a client is sent follow the grammar of the Anthropic protocol: a message is started, its
-- blocks are opened, filled and closed one after the other, numbered from 0, and it ends once.
use keygrid.Prelude.{
  ap, ◌∙◌, sym, ℕ, suc, ◌≡◌, refl, Bool, true, false, ◌&&◌, List, [], ◌∷◌, ◌++◌, Option, none, some,
  if◌then◌else◌, ◌==◌, arith,
}
use keygrid.Failure.Message.{Runes}
use keygrid.Stream.Messages.{
  BlockKind, no_block, text, thinking, tool, Block, text_block, thinking_block, tool_block, Delta,
  text_delta, thinking_delta, input_json_delta, Event, message_start, content_block_start,
  content_block_delta, content_block_stop, message_delta, message_stop, OutState, close_kind,
  close_block, open_block, block_delta, same_kind, enter, feed_text,
}

-- How far a message has come: not begun, between blocks, in the block of a kind and number, at its end, or
-- over.
pub data Phase : Type 0 where
  blank ending over : Phase
  between : ℕ → Phase
  within : BlockKind → ℕ → Phase

abbrev pub block_kind : Block → BlockKind
block_kind text_block = text
block_kind thinking_block = thinking
block_kind (tool_block id name) = tool

abbrev pub delta_kind : Delta → BlockKind
delta_kind (text_delta t) = text
delta_kind (thinking_delta t) = thinking
delta_kind (input_json_delta t) = tool

-- The phase after an event, if the grammar allows the event.
abbrev pub after : Phase → Event → Option Phase
after blank (message_start model input) = some (between 0)
after (between n) (content_block_start i block) =
    if i == n then some (within (block_kind block) n) else none
after (between n) (message_delta reason input output) = some ending
after (within k n) (content_block_delta i delta) =
    if i == n && same_kind k (delta_kind delta) then some (within k n) else none
after (within k n) (content_block_stop i) = if i == n then some (between (suc n)) else none
after ending message_stop = some over
after p e = none

abbrev next_phase : Option Phase → Event → Option Phase
next_phase none e = none
next_phase (some p) e = after p e

abbrev pub trace_from : Option Phase → List Event → Option Phase
trace_from o [] = o
trace_from o (e ∷ es) = trace_from (next_phase o e) es

-- Where a list of events has come, if the grammar allows all of them.
abbrev pub trace : List Event → Option Phase
trace es = trace_from (some blank) es

trace_from-append :
    (o : Option Phase) (es : List Event) (e : Event)
    → trace_from o (es ++ e ∷ []) ≡ next_phase (trace_from o es) e
trace_from-append o [] e = refl
trace_from-append o (d ∷ es) e = trace_from-append (next_phase o d) es e

pub trace-append :
    (es : List Event) (e : Event) (p q : Phase)
    → trace es ≡ some p
    → after p e ≡ some q
    → trace (es ++ e ∷ []) ≡ some q
trace-append es e p q h k = trace_from-append (some blank) es e ∙ ap (λ o. next_phase o e) h ∙ k

-- The emitter has begun its message, not ended it, and has no block open or the one of its kind and number.
abbrev pub phase_at : BlockKind → ℕ → Phase
phase_at no_block n = between n
phase_at k n = within k n

pub record IsLive (sent : Bool) (s : OutState) : Type 0 where
  pub begun : s.started ≡ true
  pub ended : s.finish_sent ≡ sent
  pub traced : trace s.written ≡ some (phase_at s.cur_kind s.block_index)

same_index : (n : ℕ) → (n == n) ≡ true
same_index n = ground arith

when_same : {A : Type 0} (n : ℕ) (a b : A) → (if n == n then a else b) ≡ a
when_same n a b = let h : (n == n) ≡ true = ground arith in ap (λ k. if k then a else b) h

same_kind_refl : (k : BlockKind) → same_kind k k ≡ true
same_kind_refl no_block = refl
same_kind_refl text = refl
same_kind_refl thinking = refl
same_kind_refl tool = refl

same_kind_eq : (j k : BlockKind) → same_kind j k ≡ true → j ≡ k
same_kind_eq no_block no_block h = refl
same_kind_eq text text h = refl
same_kind_eq thinking thinking h = refl
same_kind_eq tool tool h = refl
same_kind_eq no_block text h = absurd (ground (arith, h))
same_kind_eq no_block thinking h = absurd (ground (arith, h))
same_kind_eq no_block tool h = absurd (ground (arith, h))
same_kind_eq text no_block h = absurd (ground (arith, h))
same_kind_eq text thinking h = absurd (ground (arith, h))
same_kind_eq text tool h = absurd (ground (arith, h))
same_kind_eq thinking no_block h = absurd (ground (arith, h))
same_kind_eq thinking text h = absurd (ground (arith, h))
same_kind_eq thinking tool h = absurd (ground (arith, h))
same_kind_eq tool no_block h = absurd (ground (arith, h))
same_kind_eq tool text h = absurd (ground (arith, h))
same_kind_eq tool thinking h = absurd (ground (arith, h))

after_stop :
    (k : BlockKind) (n : ℕ) → after (within k n) (content_block_stop n) ≡ some (between (suc n))
after_stop k n = when_same n (some (between (suc n))) none

after_start :
    (block : Block) (n : ℕ)
    → after (between n) (content_block_start n block) ≡ some (phase_at (block_kind block) n)
after_start text_block n = when_same n (some (within text n)) none
after_start thinking_block n = when_same n (some (within thinking n)) none
after_start (tool_block id name) n = when_same n (some (within tool n)) none

after_delta :
    (d : Delta) (n : ℕ)
    → after (phase_at (delta_kind d) n) (content_block_delta n d) ≡ some (phase_at (delta_kind d) n)
after_delta (text_delta t) n =
    ap (λ b. if b && true then some (within text n) else none) (same_index n)
after_delta (thinking_delta t) n =
    ap (λ b. if b && true then some (within thinking n) else none) (same_index n)
after_delta (input_json_delta t) n =
    ap (λ b. if b && true then some (within tool n) else none) (same_index n)

stopped :
    (b : Bool) (k : BlockKind) (s : OutState)
    → s.cur_kind ≡ k
    → IsLive b s
    → phase_at k s.block_index ≡ within k s.block_index
    → trace (s.written ++ content_block_stop s.block_index ∷ [])
      ≡ some (between (suc s.block_index))
stopped b k s e v h =
    trace-append s.written (content_block_stop s.block_index) (within k s.block_index)
      (between (suc s.block_index))
      (v.traced ∙ ap (λ k. some (phase_at k s.block_index)) e ∙ ap some h)
      (after_stop k s.block_index)

closed-IsLive :
    (b : Bool) (k : BlockKind) (s : OutState)
    → s.cur_kind ≡ k
    → IsLive b s
    → IsLive b (close_kind k s) × ((close_kind k s).cur_kind ≡ no_block)
closed-IsLive b no_block s e v = (v, e)
closed-IsLive b text s e v =
    (record { begun = v.begun; ended = v.ended; traced = stopped b text s e v refl }, refl)
closed-IsLive b thinking s e v =
    (record { begun = v.begun; ended = v.ended; traced = stopped b thinking s e v refl }, refl)
closed-IsLive b tool s e v =
    (record { begun = v.begun; ended = v.ended; traced = stopped b tool s e v refl }, refl)

pub close_block-IsLive :
    (b : Bool) (s : OutState)
    → IsLive b s
    → IsLive b (close_block s) × ((close_block s).cur_kind ≡ no_block)
unfolding close_block
close_block-IsLive b s v = closed-IsLive b s.cur_kind s refl v

pub open_block-IsLive :
    (b : Bool) (block : Block) (s : OutState)
    → s.cur_kind ≡ no_block
    → IsLive b s
    → IsLive b (open_block (block_kind block) block s)
unfolding open_block
open_block-IsLive b block s e v = record {
  begun = v.begun;
  ended = v.ended;
  traced =
      trace-append s.written (content_block_start s.block_index block) (between s.block_index)
        (phase_at (block_kind block) s.block_index)
        (v.traced ∙ ap (λ k. some (phase_at k s.block_index)) e) (after_start block s.block_index);
}

pub block_delta-IsLive :
    (b : Bool) (d : Delta) (s : OutState)
    → s.cur_kind ≡ delta_kind d
    → IsLive b s
    → IsLive b (block_delta d s)
unfolding block_delta
block_delta-IsLive b d s e v = record {
  begun = v.begun;
  ended = v.ended;
  traced =
      trace-append s.written (content_block_delta s.block_index d)
        (phase_at (delta_kind d) s.block_index) (phase_at s.cur_kind s.block_index)
        (v.traced ∙ ap (λ k. some (phase_at k s.block_index)) e)
        (after_delta d s.block_index ∙ ap (λ k. some (phase_at k s.block_index)) (sym e));
}

enter-IsLive :
    (b : Bool) (block : Block) (s : OutState)
    → IsLive b s
    → IsLive b (enter (block_kind block) block s)
      × ((enter (block_kind block) block s).cur_kind ≡ block_kind block)
unfolding enter
enter-IsLive b block s v = go (same_kind s.cur_kind (block_kind block)) refl
  where
    go :
        (k : Bool)
        → same_kind s.cur_kind (block_kind block) ≡ k
        → IsLive b (if k then s else open_block (block_kind block) block (close_block s))
          × ((if k then s else open_block (block_kind block) block (close_block s)).cur_kind
              ≡ block_kind block)
    go true e = (v, same_kind_eq s.cur_kind (block_kind block) e)
    go false e =
        let c = close_block-IsLive b s v in
        (open_block-IsLive b block (close_block s) c.1 c.0, unfold open_block in refl)

pub feed_text-IsLive :
    (b : Bool) (block : Block) (delta : Runes → Delta) (t : Runes) (s : OutState)
    → ((u : Runes) → delta_kind (delta u) ≡ block_kind block)
    → IsLive b s
    → IsLive b (feed_text (block_kind block) block delta t s)
unfolding feed_text
feed_text-IsLive b block delta [] s h v = v
feed_text-IsLive b block delta (c ∷ t) s h v =
    let w = enter-IsLive b block s v in
    block_delta-IsLive b (delta (c ∷ t)) (enter (block_kind block) block s) (w.1 ∙ sym (h (c ∷ t)))
      w.0
