-- ===== src/Batch/Conservation.antt =====
-- No row is lost, made up, doubled or reordered between the channel and the store.
use keygrid.Prelude.{
  ℕ, ◌≤◌, ◌<◌, ◌≡◌, refl, sym, ap, ◌∙◌, inl, inr, Bool, true, false, List, [], ◌∷◌, ◌++◌, arith,
  length, All, Bool-cases, leb, ltb, ltb→lt, if◌then◌else◌, ◌==◌, subst, append-nil, append_assoc,
  length-append,
}
use keygrid.Batch.{
  Writer, Event, records, receives, ticks, new_writer, enqueue, flush, receive, advance, run,
  flush_batch, take_from,
}

size_positive : (size default : ℕ) → 0 < default → 0 < (if size == 0 then default else size)
size_positive size default h = ground arith

module _ {ℓ} {A : Type ℓ} where
  -- All rows of the batches, in order.
  abbrev pub rows : List (List A) → List A
  rows [] = []
  rows (b ∷ bs) = b ++ rows bs

  rows-append : (bs : List (List A)) (b : List A) → rows (bs ++ b ∷ []) ≡ rows bs ++ b
  rows-append [] b = append-nil b
  rows-append (c ∷ bs) b = ap (λ r. c ++ r) (rows-append bs b) ∙ sym (append_assoc c (rows bs) b)

  abbrev pub Filled : ℕ → List A → Type 0
  Filled n b = (0 < length b) × (length b ≤ n)

  All-snoc :
      (n : ℕ) (bs : List (List A)) (b : List A)
      → All (Filled n) bs
      → Filled n b
      → All (Filled n) (bs ++ b ∷ [])
  All-snoc n [] b h k = (k, tt)
  All-snoc n (c ∷ bs) b h k = (h.0, All-snoc n bs b h.1 k)

  -- Between two steps; in the midst of one the batch may be full.
  pub record IsReady (w : Writer A) : Type ℓ where
    pub conserved : rows w.flushed ++ (w.batch ++ w.channel) ≡ w.accepted
    pub bounded : length w.channel ≤ w.capacity
    pub positive : 0 < w.batch_size
    pub fits : length w.batch ≤ w.batch_size
    pub filled : All (Filled w.batch_size) w.flushed

  abbrev pub IsSound : Writer A → Type ℓ
  IsSound w = IsReady w × (length w.batch < w.batch_size)

  accept_conserved :
      (fs : List (List A)) (b c acc : List A) (a : A)
      → rows fs ++ (b ++ c) ≡ acc
      → rows fs ++ (b ++ (c ++ a ∷ [])) ≡ acc ++ a ∷ []
  accept_conserved fs b c acc a e =
      ap (λ r. rows fs ++ r) (sym (append_assoc b c (a ∷ [])))
      ∙ sym (append_assoc (rows fs) (b ++ c) (a ∷ []))
      ∙ ap (λ r. r ++ a ∷ []) e

  enqueue-IsSound : (w : Writer A) (a : A) → IsSound w → IsSound (enqueue w a)
  unfolding enqueue
  enqueue-IsSound w a (v, short) = elim (Bool-cases (ltb (length w.channel) w.capacity)) [
    | inl e ↦
        (rw e (
          record {
            conserved = accept_conserved w.flushed w.batch w.channel w.accepted a v.conserved;
            bounded =
                ground
                  (arith, ltb→lt (length w.channel) w.capacity e, length-append w.channel (a ∷ []));
            positive = v.positive;
            fits = v.fits;
            filled = v.filled;
          },
          short,
        ))
    | inr e ↦
        (rw e (
          record {
            conserved = v.conserved;
            bounded = v.bounded;
            positive = v.positive;
            fits = v.fits;
            filled = v.filled;
          },
          short,
        ))
  ]

  flush_conserved :
      (fs : List (List A)) (b b' c acc : List A)
      → b' ≡ b
      → rows fs ++ (b' ++ c) ≡ acc
      → rows (fs ++ b ∷ []) ++ c ≡ acc
  flush_conserved fs b b' c acc e h =
      ap (λ r. r ++ c) (rows-append fs b)
      ∙ append_assoc (rows fs) b c
      ∙ ap (λ r. rows fs ++ (r ++ c)) (sym e)
      ∙ h

  flush_batch-IsSound :
      (w : Writer A) (b : List A) → w.batch ≡ b → IsReady w → IsSound (flush_batch b w)
  flush_batch-IsSound w [] e v = (v, subst (λ b. length b < w.batch_size) (sym e) v.positive)
  flush_batch-IsSound w (x ∷ xs) e v = (
    record {
      conserved = flush_conserved w.flushed (x ∷ xs) w.batch w.channel w.accepted e v.conserved;
      bounded = v.bounded;
      positive = v.positive;
      fits = omega arith;
      filled =
          All-snoc w.batch_size w.flushed (x ∷ xs) v.filled
            (omega arith, subst (λ b. length b ≤ w.batch_size) e v.fits);
    },
    v.positive,
  )

  pub flush-IsSound : (w : Writer A) → IsReady w → IsSound (flush w)
  unfolding flush
  flush-IsSound w v = flush_batch-IsSound w w.batch refl v

  take_conserved :
      (fs : List (List A)) (b rest c acc : List A) (a : A)
      → c ≡ a ∷ rest
      → rows fs ++ (b ++ c) ≡ acc
      → rows fs ++ ((b ++ a ∷ []) ++ rest) ≡ acc
  take_conserved fs b rest c acc a e h =
      ap (λ r. rows fs ++ r) (append_assoc b (a ∷ []) rest ∙ ap (λ r. b ++ r) (sym e)) ∙ h

  -- The writer that has taken one row and not yet looked at the size.
  take-IsReady :
      (w : Writer A) (a : A) (rest : List A)
      → w.channel ≡ a ∷ rest
      → IsSound w
      → IsReady (record w { channel = rest; batch = w.batch ++ a ∷ [] })
  take-IsReady w a rest e (v, short) = record {
    conserved = take_conserved w.flushed w.batch rest w.channel w.accepted a e v.conserved;
    bounded = omega (arith, subst (λ c. length c ≤ w.capacity) e v.bounded);
    positive = v.positive;
    fits = omega (arith, short, length-append w.batch (a ∷ []));
    filled = v.filled;
  }

  flush_if_full :
      (t : Writer A) (k : Bool)
      → leb t.batch_size (length t.batch) ≡ k
      → IsReady t
      → IsSound (if k then flush t else t)
  flush_if_full t true e v = flush-IsSound t v
  flush_if_full t false e v = (v, ground arith)

  take_from-IsSound :
      (w : Writer A) (c : List A) → w.channel ≡ c → IsSound w → IsSound (take_from c w)
  take_from-IsSound w [] e v = v
  take_from-IsSound w (a ∷ rest) e v =
      let t = record w { channel = rest; batch = w.batch ++ a ∷ [] } in
      flush_if_full t (leb t.batch_size (length t.batch)) refl (take-IsReady w a rest e v)

  pub receive-IsSound : (w : Writer A) → IsSound w → IsSound (receive w)
  unfolding receive
  receive-IsSound w v = take_from-IsSound w w.channel refl v

  advance-IsSound : (w : Writer A) (e : Event A) → IsSound w → IsSound (advance w e)
  advance-IsSound w (records a) v = enqueue-IsSound w a v
  advance-IsSound w receives v = receive-IsSound w v
  advance-IsSound w ticks v = flush-IsSound w v.0

  run-IsSound : (w : Writer A) (es : List (Event A)) → IsSound w → IsSound (run w es)
  unfolding run
  run-IsSound w [] v = v
  run-IsSound w (e ∷ es) v = run-IsSound (advance w e) es (advance-IsSound w e v)

  new_writer-IsSound :
      (capacity size default : ℕ) → 0 < default → IsSound (new_writer {A = A} capacity size default)
  unfolding new_writer
  new_writer-IsSound capacity size default h = (
    record {
      conserved = refl;
      bounded = omega arith;
      positive = size_positive size default h;
      fits = omega arith;
      filled = tt;
    },
    size_positive size default h,
  )

  -- However the senders, the goroutine and its ticker interleave, after any steps from a new writer: the batches
  -- handed to the store, then the open batch, then the channel hold exactly the accepted rows in the order they
  -- were accepted; the channel never exceeds its capacity; no batch that was handed over is empty or larger
  -- than the batch size; and the open batch is smaller than it. The default size must be positive.
  pub run_conserves :
      (capacity size default : ℕ) (es : List (Event A))
      → 0 < default
      → IsSound (run (new_writer capacity size default) es)
  run_conserves capacity size default es h =
      run-IsSound (new_writer capacity size default) es (new_writer-IsSound capacity size default h)
