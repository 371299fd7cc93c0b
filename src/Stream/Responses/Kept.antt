-- ===== src/Stream/Responses/Kept.antt =====
-- What is kept of the open items of a response agrees with what has been sent of them.
use keygrid.Prelude.{
  each, each_snoc, each_same, upto, sym, subst, ◌∙◌, ℕ, suc, ◌<◌, ◌≡◌, refl, Bool, true, false,
  ◌||◌, List, [], ◌∷◌, ◌++◌, Option, none, some, ◌==◌, inl, inr, ◌⊎◌, arith,
}
use keygrid.Failure.Message.{Runes}
use keygrid.Stream.Responses.{
  message, reasoning, Event, created, output_item_added, content_part_added, output_text_delta,
  reasoning_delta, Tool, OutState, emit, started_if, start_response, message_if, feed_text, or_zero,
  reasoning_if, feed_reasoning,
}
use keygrid.Stream.Responses.Projection.{index_added, text_sent, text_done, output_sent}

abbrev pub is_at : Option ℕ → ℕ → Bool
is_at none i = false
is_at (some j) i = j == i

abbrev pub has_tool : List Tool → ℕ → Bool
has_tool [] i = false
has_tool (t ∷ ts) i = (t.output_index == i) || has_tool ts i

-- The items that will be in the response.
abbrev pub held : OutState → ℕ → Bool
held s i = (is_at s.message_at i || is_at s.reasoning_at i) || has_tool s.tools i

-- A response that is being written: its items have been announced in the order of their indices, each is kept,
-- the text that was sent is the one that is kept, and nothing has been closed.
pub record IsOpen (sent : Bool) (s : OutState) : Type 0 where
  pub ended : s.finish_sent ≡ sent
  pub indices : each index_added s.written ≡ upto s.item_index
  pub texts : each text_sent s.written ≡ s.text_buf
  pub undone : each text_done s.written ≡ []
  pub incomplete : each output_sent s.written ≡ []
  pub covered : (i : ℕ) → i < s.item_index → held s i ≡ true
  pub blank : s.message_at ≡ none → s.text_buf ≡ []

-- An event that the projections do not see.
pub record IsQuiet (e : Event) : Type 0 where
  no_index : index_added e ≡ []
  no_text : text_sent e ≡ []
  no_done : text_done e ≡ []
  no_output : output_sent e ≡ []

pub emit-IsOpen :
    (b : Bool) (e : Event) (s : OutState) → IsQuiet e → IsOpen b s → IsOpen b (emit e s)
unfolding emit
emit-IsOpen b e s q v = record {
  ended = v.ended;
  indices = each_same index_added s.written e (upto s.item_index) q.no_index v.indices;
  texts = each_same text_sent s.written e s.text_buf q.no_text v.texts;
  undone = each_same text_done s.written e [] q.no_done v.undone;
  incomplete = each_same output_sent s.written e [] q.no_output v.incomplete;
  covered = v.covered;
  blank = v.blank;
}

pub quiet :
    (e : Event)
    → index_added e ≡ []
    → text_sent e ≡ []
    → text_done e ≡ []
    → output_sent e ≡ []
    → IsQuiet e
quiet e i t d o = record { no_index = i; no_text = t; no_done = d; no_output = o }

pub start_response-IsOpen : (b : Bool) (s : OutState) → IsOpen b s → IsOpen b (start_response s)
unfolding start_response
start_response-IsOpen b s v = go s.started
  where
    go : (k : Bool) → IsOpen b (started_if k s)
    go true = v
    go false =
        emit-IsOpen b created (record s { started = true }) (quiet created refl refl refl refl)
          (record {
            ended = v.ended;
            indices = v.indices;
            texts = v.texts;
            undone = v.undone;
            incomplete = v.incomplete;
            covered = v.covered;
            blank = v.blank;
          })

or_right : (a : Bool) → (a || true) ≡ true
or_right true = refl
or_right false = refl

below_suc : (i n : ℕ) → i < suc n → (i < n) ⊎ (n ≡ i)
below_suc i n h = ground arith

pub same_index : (n i : ℕ) → n ≡ i → (n == i) ≡ true
same_index n i h = ground arith

-- An item at the next index, in a place of its own.
pub covered_more :
    (n : ℕ) (old new : ℕ → Bool)
    → ((i : ℕ) → i < n → old i ≡ true)
    → ((i : ℕ) → old i ≡ true → new i ≡ true)
    → new n ≡ true
    → (i : ℕ) → i < suc n
    → new i ≡ true
covered_more n old new c m k i h = elim (below_suc i n h) [
  | inl l ↦ m i (c i l)
  | inr e ↦ subst (λ j. new j ≡ true) e k
]

pub or_left : (a b : Bool) → a ≡ true → (a || b) ≡ true
or_left true b h = refl
or_left false b h = absurd (ground (arith, h))

pub or_swap : (a b k : Bool) → (a || b) ≡ true → (a ≡ true → k ≡ true) → (k || b) ≡ true
or_swap a b true h f = refl
or_swap false b false h f = h
or_swap true b false h f = absurd (ground (arith, f refl))

-- The message is announced at the next index.
message-IsOpen :
    (b : Bool) (k : Option ℕ) (s : OutState)
    → s.message_at ≡ k
    → IsOpen b s
    → IsOpen b (message_if k s)
unfolding emit
message-IsOpen b (some i) s e v = v
message-IsOpen b none s e v =
    let n = s.item_index in
    let added = output_item_added n (message []) in
    let w = s.written ++ added ∷ [] in
    record {
      ended = v.ended;
      indices =
          each_same index_added w (content_part_added n) (upto (suc n)) refl
            (each_snoc index_added s.written added (upto n) v.indices);
      texts =
          each_same text_sent w (content_part_added n) s.text_buf refl
            (each_same text_sent s.written added s.text_buf refl v.texts);
      undone =
          each_same text_done w (content_part_added n) [] refl
            (each_same text_done s.written added [] refl v.undone);
      incomplete =
          each_same output_sent w (content_part_added n) [] refl
            (each_same output_sent s.written added [] refl v.incomplete);
      covered =
          covered_more n (held s) (λ i. ((n == i) || is_at s.reasoning_at i) || has_tool s.tools i)
            v.covered
            (λ i h.
              or_swap (is_at s.message_at i || is_at s.reasoning_at i) (has_tool s.tools i)
                ((n == i) || is_at s.reasoning_at i) h
                (λ g.
                  or_swap (is_at s.message_at i) (is_at s.reasoning_at i) (n == i) g
                    (λ f. absurd (nowhere s.message_at i e f))))
            (or_left ((n == n) || is_at s.reasoning_at n) (has_tool s.tools n)
              (or_left (n == n) (is_at s.reasoning_at n) (same_index n n refl)));
      blank = λ h. absurd (ground (arith, h));
    }
  where
    nowhere : (o : Option ℕ) (i : ℕ) → o ≡ none → is_at o i ≡ true → ⊥
    nowhere none i e f = ground (arith, f)
    nowhere (some j) i e f = ground (arith, e)

message_if-some :
    (k : Option ℕ) (s : OutState) → s.message_at ≡ k → (message_if k s).message_at ≡ none → ⊥
unfolding emit
message_if-some none s e h = ground (arith, h)
message_if-some (some i) s e h = let q : none ≡ some i = sym h ∙ e in ground (arith, q)

pub feed_text-IsOpen : (b : Bool) (t : Runes) (s : OutState) → IsOpen b s → IsOpen b (feed_text t s)
unfolding feed_text emit
feed_text-IsOpen b [] s v = v
feed_text-IsOpen b (c ∷ t) s v =
    let m = message_if s.message_at s in
    let u = message-IsOpen b s.message_at s refl v in
    let e = output_text_delta (or_zero m.message_at) (c ∷ t) in
    record {
      ended = u.ended;
      indices = each_same index_added m.written e (upto m.item_index) refl u.indices;
      texts = each_snoc text_sent m.written e m.text_buf u.texts;
      undone = each_same text_done m.written e [] refl u.undone;
      incomplete = each_same output_sent m.written e [] refl u.incomplete;
      covered = u.covered;
      blank = λ h. absurd (message_if-some s.message_at s refl h);
    }

reasoning-IsOpen :
    (b : Bool) (k : Option ℕ) (s : OutState)
    → s.reasoning_at ≡ k
    → IsOpen b s
    → IsOpen b (reasoning_if k s)
unfolding emit
reasoning-IsOpen b (some i) s e v = v
reasoning-IsOpen b none s e v =
    let n = s.item_index in
    let added = output_item_added n (reasoning []) in
    record {
      ended = v.ended;
      indices = each_snoc index_added s.written added (upto n) v.indices;
      texts = each_same text_sent s.written added s.text_buf refl v.texts;
      undone = each_same text_done s.written added [] refl v.undone;
      incomplete = each_same output_sent s.written added [] refl v.incomplete;
      covered =
          covered_more n (held s) (λ i. (is_at s.message_at i || (n == i)) || has_tool s.tools i)
            v.covered
            (λ i h.
              or_swap (is_at s.message_at i || is_at s.reasoning_at i) (has_tool s.tools i)
                (is_at s.message_at i || (n == i)) h
                (λ g.
                  keep (is_at s.message_at i) (is_at s.reasoning_at i) (n == i)
                    (nowhere s.reasoning_at i e) g))
            (or_left (is_at s.message_at n || (n == n)) (has_tool s.tools n)
              (last (is_at s.message_at n) (n == n) (same_index n n refl)));
      blank = v.blank;
    }
  where
    nowhere : (o : Option ℕ) (i : ℕ) → o ≡ none → is_at o i ≡ false
    nowhere none i e = refl
    nowhere (some j) i e = absurd (ground (arith, e))

    keep : (a b k : Bool) → b ≡ false → (a || b) ≡ true → (a || k) ≡ true
    keep true b k e h = refl
    keep false true k e h = absurd (ground (arith, e))
    keep false false k e h = absurd (ground (arith, h))

    last : (a k : Bool) → k ≡ true → (a || k) ≡ true
    last true k h = refl
    last false k h = h

pub feed_reasoning-IsOpen :
    (b : Bool) (t : Runes) (s : OutState) → IsOpen b s → IsOpen b (feed_reasoning t s)
unfolding feed_reasoning
feed_reasoning-IsOpen b [] s v = v
feed_reasoning-IsOpen b (c ∷ t) s v =
    let m = reasoning_if s.reasoning_at s in
    let u = reasoning-IsOpen b s.reasoning_at s refl v in
    let e = reasoning_delta (or_zero m.reasoning_at) (c ∷ t) in
    emit-IsOpen b e (record m { reason_buf = m.reason_buf ++ c ∷ t }) (quiet e refl refl refl refl)
      (record {
        ended = u.ended;
        indices = u.indices;
        texts = u.texts;
        undone = u.undone;
        incomplete = u.incomplete;
        covered = u.covered;
        blank = u.blank;
      })
