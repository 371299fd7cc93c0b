-- ===== src/Stream/Messages/Complete.antt =====
-- Every stream that is bridged is one whole message of the Anthropic protocol.
use keygrid.Prelude.{
  ap₂, append_assoc, ap, ◌∙◌, sym, ◌≡◌, refl, Bool, true, false, List, [], ◌∷◌, ◌++◌, Option, none,
  some, inl, inr, ◌⊎◌, arith,
}
use keygrid.Failure.Message.{Runes}
use keygrid.Json.{Fields, get, text_of, Usage, usage_from_any}
use keygrid.Stream.{Rest, Silent, choice_of, finish_reason, delta_of}
use keygrid.Stream.Messages.{
  no_block, tool, message_start, message_delta, message_stop, anthropic_stop_from_finish, OutState,
  started_if, start_message, close_block, finished_if, finish_stream, finish_on, note_finish,
  feed_delta, feed_choice, note_model, note_usage, feed, feed_all, bridge_to_messages,
  new_out_state,
}
use keygrid.Stream.Messages.Grammar.{
  blank, ending, over, between, trace, trace-append, phase_at, IsLive, close_block-IsLive,
}
use keygrid.Stream.Messages.Filling.{delta_after, ChoiceFits, Orderly, IsFilling, delta-IsFilling}

record IsOver (s : OutState) : Type 0 where
  sent : s.finish_sent ≡ true
  whole : trace s.written ≡ some over

-- Before the first choice nothing has been written, whether or not its end is already marked as sent.
record IsNew (sent : Bool) (s : OutState) : Type 0 where
  unbegun : s.started ≡ false
  ended : s.finish_sent ≡ sent
  blockless : s.cur_kind ≡ no_block
  first : s.block_index ≡ 0
  silent : s.written ≡ []

new-started : (b : Bool) (s : OutState) → IsNew b s → IsLive b (started_if false s)
new-started b s v = record {
  begun = refl;
  ended = v.ended;
  traced =
      trace-append s.written (message_start s.model s.prompt_tok) blank (between 0)
        (ap trace v.silent) refl
      ∙ ap₂ (λ k n. some (phase_at k n)) (sym v.blockless) (sym v.first);
}

start-IsLive :
    (b k : Bool) (s : OutState) → s.started ≡ k → IsNew b s ⊎ IsLive b s → IsLive b (started_if k s)
start-IsLive b true s e (inl v) = absurd (ground (arith, e, v.unbegun))
start-IsLive b true s e (inr v) = v
start-IsLive b false s e (inl v) = new-started b s v
start-IsLive b false s e (inr v) = absurd (ground (arith, e, v.begun))

start_message-IsLive :
    (b : Bool) (s : OutState) → IsNew b s ⊎ IsLive b s → IsLive b (start_message s)
unfolding start_message
start_message-IsLive b s v = start-IsLive b s.started s refl v

mark_sent :
    (b : Bool) (s : OutState)
    → IsNew b s ⊎ IsLive b s
    → IsNew true (record s { finish_sent = true }) ⊎ IsLive true (record s { finish_sent = true })
mark_sent b s (inl v) = inl (record {
  unbegun = v.unbegun;
  ended = refl;
  blockless = v.blockless;
  first = v.first;
  silent = v.silent;
})
mark_sent b s (inr v) = inr (record { begun = v.begun; ended = refl; traced = v.traced })

finished-IsOver : (s : OutState) → IsNew false s ⊎ IsLive false s → IsOver (finished_if false s)
finished-IsOver s v =
    let m = record s { finish_sent = true } in
    let q =
      close_block-IsLive true (start_message m)
        (start_message-IsLive true m (mark_sent false s v)) in
    let t = close_block (start_message m) in
    let d = message_delta (anthropic_stop_from_finish t.finish) t.prompt_tok t.compl_tok in
    record {
      sent = q.0.ended;
      whole =
          ap trace (sym (append_assoc t.written (d ∷ []) (message_stop ∷ [])))
          ∙ trace-append (t.written ++ d ∷ []) message_stop ending over
              (trace-append t.written d (between t.block_index) ending
                (q.0.traced ∙ ap (λ k. some (phase_at k t.block_index)) q.1) refl)
              refl;
    }

unfinished : (s : OutState) → IsNew false s ⊎ IsLive false s → s.finish_sent ≡ false
unfinished s (inl v) = v.ended
unfinished s (inr v) = v.ended

finish_stream-IsOver : (s : OutState) → IsNew false s ⊎ IsLive false s → IsOver (finish_stream s)
unfolding finish_stream
finish_stream-IsOver s v = go s.finish_sent (unfinished s v)
  where
    go : (k : Bool) → k ≡ false → IsOver (finished_if k s)
    go true e = absurd (ground (arith, e))
    go false e = finished-IsOver s v

-- Between two chunks of a stream that is not finished.
record IsNewFilling (held : Bool) (s : OutState) : Type 0 where
  new : IsNew false s
  tools : held ≡ false

abbrev Stage : Bool → OutState → Type 0
Stage held s = IsNewFilling held s ⊎ IsFilling held s

Stage-weaken : (held : Bool) (s : OutState) → Stage held s → IsNew false s ⊎ IsLive false s
Stage-weaken held s (inl v) = inl v.new
Stage-weaken held s (inr v) = inr v.live

start-IsFilling : (held : Bool) (s : OutState) → Stage held s → IsFilling held (start_message s)
unfolding start_message
start-IsFilling held s (inl v) = record {
  live = start_message-IsLive false s (inl v.new);
  tools = λ h. absurd (ground (arith, h, v.tools));
}
start-IsFilling held s (inr v) = record {
  live = start_message-IsLive false s (inr v.live);
  tools = λ h. kept s.started v.live.begun h;
}
  where
    kept : (k : Bool) → k ≡ true → held ≡ true → (started_if k s).cur_kind ≡ tool
    kept true e h = v.tools h
    kept false e h = absurd (ground (arith, e))

-- What a chunk's model, usage and finish reason change is none of what the stages are about.
model-Stage : (held : Bool) (m : Runes) (s : OutState) → Stage held s → Stage held (note_model m s)
model-Stage held [] s v = v
model-Stage held (c ∷ m) s (inl v) = inl (record {
  new = record {
    unbegun = v.new.unbegun;
    ended = v.new.ended;
    blockless = v.new.blockless;
    first = v.new.first;
    silent = v.new.silent;
  };
  tools = v.tools;
})
model-Stage held (c ∷ m) s (inr v) = inr (record {
  live = record { begun = v.live.begun; ended = v.live.ended; traced = v.live.traced };
  tools = v.tools;
})

usage-Stage :
    (held : Bool) (u : Option Usage) (s : OutState) → Stage held s → Stage held (note_usage u s)
usage-Stage held none s v = v
usage-Stage held (some u) s (inl v) = inl (record {
  new = record {
    unbegun = v.new.unbegun;
    ended = v.new.ended;
    blockless = v.new.blockless;
    first = v.new.first;
    silent = v.new.silent;
  };
  tools = v.tools;
})
usage-Stage held (some u) s (inr v) = inr (record {
  live = record { begun = v.live.begun; ended = v.live.ended; traced = v.live.traced };
  tools = v.tools;
})

finish-Stage :
    (held : Bool) (fr : Runes) (s : OutState) → Stage held s → Stage held (note_finish fr s)
finish-Stage held [] s v = v
finish-Stage held (c ∷ fr) s (inl v) = inl (record {
  new = record {
    unbegun = v.new.unbegun;
    ended = v.new.ended;
    blockless = v.new.blockless;
    first = v.new.first;
    silent = v.new.silent;
  };
  tools = v.tools;
})
finish-Stage held (c ∷ fr) s (inr v) = inr (record {
  live = record { begun = v.live.begun; ended = v.live.ended; traced = v.live.traced };
  tools = v.tools;
})

model-IsOver : (m : Runes) (s : OutState) → IsOver s → IsOver (note_model m s)
model-IsOver [] s v = v
model-IsOver (c ∷ m) s v = record { sent = v.sent; whole = v.whole }

usage-IsOver : (u : Option Usage) (s : OutState) → IsOver s → IsOver (note_usage u s)
usage-IsOver none s v = v
usage-IsOver (some u) s v = record { sent = v.sent; whole = v.whole }

choiceless-IsOver :
    (fresh : Runes) (o : Option Fields) (s : OutState)
    → o ≡ none
    → IsOver s
    → IsOver (feed_choice fresh o s)
choiceless-IsOver fresh none s e v = v
choiceless-IsOver fresh (some ch) s e v = absurd (ground (arith, e))

stay-IsOver : (s : OutState) → IsOver s → IsOver (finish_stream s)
unfolding finish_stream
stay-IsOver s v = go s.finish_sent v.sent
  where
    go : (k : Bool) → k ≡ true → IsOver (finished_if k s)
    go true e = v
    go false e = absurd (ground (arith, e))

Silent-IsOver :
    (fresh : Runes) (chunks : List Fields) (s : OutState)
    → Silent chunks
    → IsOver s
    → IsOver (feed_all fresh chunks s)
unfolding feed_all feed
Silent-IsOver fresh [] s q v = v
Silent-IsOver fresh (chunk ∷ chunks) s q v =
    let m = note_model (text_of (get "model" chunk)) s in
    let u = usage_from_any (get "usage" chunk) in
    Silent-IsOver fresh chunks (feed_choice fresh (choice_of chunk) (note_usage u m)) q.1 (
      choiceless-IsOver fresh (choice_of chunk) (note_usage u m) q.0
        (usage-IsOver u m (model-IsOver (text_of (get "model" chunk)) s v)))

-- What the rest of a stream does with a stage: the stream ends as a whole message.
abbrev Ends : Runes → List Fields → Type 0
Ends fresh chunks =
    (held : Bool) (s : OutState)
    → Stage held s
    → Orderly chunks held
    → IsOver (finish_stream (feed_all fresh chunks s))

rest-Ends :
    (fresh : Runes) (chunks : List Fields)
    → Ends fresh chunks
    → (fr : Runes) (held : Bool) (s : OutState) → Rest fr (Orderly chunks held) (Silent chunks)
    → IsFilling held s
    → IsOver (finish_stream (feed_all fresh chunks (finish_on fr s)))
rest-Ends fresh chunks ends [] held s r v = ends held s (inr v) r
rest-Ends fresh chunks ends (c ∷ fr) held s r v =
    stay-IsOver (feed_all fresh chunks (finish_stream s))
      (Silent-IsOver fresh chunks (finish_stream s) r (finish_stream-IsOver s (inr v.live)))

choice-Ends :
    (fresh : Runes) (chunks : List Fields)
    → Ends fresh chunks
    → (o : Option Fields) (held : Bool) (s : OutState)
    → ChoiceFits o held (λ b. Orderly chunks b) (Silent chunks)
    → Stage held s
    → IsOver (finish_stream (feed_all fresh chunks (feed_choice fresh o s)))
choice-Ends fresh chunks ends none held s f v = ends held s v f
choice-Ends fresh chunks ends (some ch) held s f v =
    let n = note_finish (finish_reason ch) s in
    rest-Ends fresh chunks ends (finish_reason ch) (delta_after held (delta_of ch))
      (feed_delta fresh (delta_of ch) (start_message n)) f.1
      (delta-IsFilling fresh (delta_of ch) held (start_message n) f.0
        (start-IsFilling held n (finish-Stage held (finish_reason ch) s v)))

chunks-Ends : (fresh : Runes) (chunks : List Fields) → Ends fresh chunks
unfolding feed_all feed
chunks-Ends fresh [] held s v f = finish_stream-IsOver s (Stage-weaken held s v)
chunks-Ends fresh (chunk ∷ chunks) held s v f =
    let m = note_model (text_of (get "model" chunk)) s in
    choice-Ends fresh chunks (chunks-Ends fresh chunks) (choice_of chunk) held
      (note_usage (usage_from_any (get "usage" chunk)) m) f
      (usage-Stage held (usage_from_any (get "usage" chunk)) m
        (model-Stage held (text_of (get "model" chunk)) s v))

-- A client of the Messages entry is sent one whole message: it is started once, its blocks are numbered from 0
-- and opened, filled with deltas of their kind and closed one after the other, and it ends once, with its stop
-- reason. The chunks may be any, and the stream may break off anywhere, as long as the arguments of a tool call
-- come with its name or while its block is open, and no choice comes after the one with the finish reason.
pub bridge_to_messages-trace :
    (fresh model : Runes) (chunks : List Fields)
    → Orderly chunks false
    → trace (bridge_to_messages fresh model chunks) ≡ some over
unfolding bridge_to_messages new_out_state
bridge_to_messages-trace fresh model chunks f =
    (chunks-Ends fresh chunks false (new_out_state model)
      (inl (record {
        new = record {
          unbegun = refl;
          ended = refl;
          blockless = refl;
          first = refl;
          silent = refl;
        };
        tools = refl;
      }))
      f).whole
