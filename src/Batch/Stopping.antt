-- ===== src/Batch/Stopping.antt =====
-- A stopped writer hands over all that it accepted.
use keygrid.Prelude.{
  ℕ, zero, suc, ◌≤◌, ◌<◌, ◌≡◌, refl, sym, ap, ◌∙◌, Bool, true, false, List, [], ◌∷◌, ◌++◌, arith,
  length, leb, if◌then◌else◌, subst, ap₂, append-nil,
}
use keygrid.Batch.{
  Writer, Event, new_writer, flush, receive, drain, stop_writer, run, flush_batch, take_from,
}
use keygrid.Batch.Conservation.{rows, IsSound, flush-IsSound, receive-IsSound, run_conserves}

module _ {ℓ} {A : Type ℓ} where
  -- What a flush and a receipt do to the channel and to the rows that were accepted.
  flush-channel :
      (b : List A) (w : Writer A)
      → ((flush_batch b w).channel ≡ w.channel) × ((flush_batch b w).accepted ≡ w.accepted)
  flush-channel [] w = (refl, refl)
  flush-channel (x ∷ xs) w = (refl, refl)

  if-flush-channel :
      (t : Writer A) (k : Bool)
      → ((if k then flush t else t).channel ≡ t.channel)
        × ((if k then flush t else t).accepted ≡ t.accepted)
  unfolding flush
  if-flush-channel t true = flush-channel t.batch t
  if-flush-channel t false = (refl, refl)

  take_from-channel :
      (w : Writer A) (c : List A) (n : ℕ)
      → w.channel ≡ c
      → length c ≤ suc n
      → (length (take_from c w).channel ≤ n) × ((take_from c w).accepted ≡ w.accepted)
  take_from-channel w [] n e h = (subst (λ c. length c ≤ n) (sym e) (omega arith), refl)
  take_from-channel w (a ∷ rest) n e h =
      let t = record w { channel = rest; batch = w.batch ++ a ∷ [] } in
      let q = if-flush-channel t (leb t.batch_size (length t.batch)) in
      (subst (λ c. length c ≤ n) (sym q.0) (omega arith), q.1)

  receive-channel :
      (w : Writer A) (n : ℕ)
      → length w.channel ≤ suc n
      → (length (receive w).channel ≤ n) × ((receive w).accepted ≡ w.accepted)
  unfolding receive
  receive-channel w n h = take_from-channel w w.channel n refl h

  flush_batch-empties : (b : List A) (w : Writer A) → w.batch ≡ b → (flush_batch b w).batch ≡ []
  flush_batch-empties [] w e = e
  flush_batch-empties (x ∷ xs) w e = refl

  no_rows : (c : List A) → length c ≤ 0 → c ≡ []
  no_rows [] h = refl
  no_rows (x ∷ xs) h = absurd (omega arith)

  all_flushed :
      (fs : List (List A)) (b c acc : List A)
      → b ≡ []
      → c ≡ []
      → rows fs ++ (b ++ c) ≡ acc
      → rows fs ≡ acc
  all_flushed fs b c acc e k h =
      sym (append-nil (rows fs)) ∙ sym (ap (λ r. rows fs ++ r) (ap₂ (λ x y. x ++ y) e k)) ∙ h

  flush-rows :
      (w : Writer A) → length w.channel ≤ 0 → IsSound w → rows (flush w).flushed ≡ w.accepted
  unfolding flush
  flush-rows w h v =
      let f = flush w in
      let q = flush-channel w.batch w in
      all_flushed f.flushed f.batch f.channel w.accepted (flush_batch-empties w.batch w refl)
        (q.0 ∙ no_rows w.channel h) ((flush-IsSound w v.0).0.conserved ∙ q.1)

  drain-rows :
      (n : ℕ) (w : Writer A)
      → length w.channel ≤ n
      → IsSound w
      → rows (drain n w).flushed ≡ w.accepted
  unfolding drain
  drain-rows zero w h v = flush-rows w h v
  drain-rows (suc n) w h v =
      let q = receive-channel w n h in drain-rows n (receive w) q.0 (receive-IsSound w v) ∙ q.1

  -- After any steps of a new writer, stopping it leaves no row behind: the batches handed to the store are then,
  -- in order, exactly the rows that were accepted. The default size must be positive.
  pub stop_flushes_all :
      (capacity size default : ℕ) (es : List (Event A))
      → 0 < default
      → rows (stop_writer (run (new_writer capacity size default) es)).flushed
        ≡ (run (new_writer capacity size default) es).accepted
  unfolding stop_writer
  stop_flushes_all capacity size default es h =
      let w = run (new_writer capacity size default) es in
      drain-rows (length w.channel) w (omega arith) (run_conserves capacity size default es h)
