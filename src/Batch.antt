-- ===== src/Batch.antt =====
-- The asynchronous batch writer behind the accounting of internal/relay/usage.go and the diagnoses of
-- internal/relay/reqerr.go, for rows of any type: a bounded channel, and a goroutine that collects
-- rows and hands them to the store in batches.
--
-- `flushed` are the batches handed to the store, in order; a batch whose insertion fails is only
-- logged by the code, so it counts as handed over. `accepted` and `dropped` record what the channel
-- took and refused. The steps of the senders and of the goroutine interleave in any order.
pub mod Conservation
pub mod Stopping
mod Examples
use keygrid.Prelude.{
  ℕ, Bool, true, false, List, [], ◌∷◌, ◌++◌, leb, ltb, ◌==◌, if◌then◌else◌, length,
}

pub record Writer {ℓ} (A : Type ℓ) : Type ℓ where
  pub capacity : ℕ
  pub batch_size : ℕ
  pub channel : List A
  pub batch : List A
  pub flushed : List (List A)
  pub accepted : List A
  pub dropped : List A

module _ {ℓ} {A : Type ℓ} where
  -- `batchSize` falls back to the default where it is not positive, which is written 0.
  unfoldable pub new_writer : ℕ → ℕ → ℕ → Writer A
  new_writer capacity size default = record {
    capacity = capacity;
    batch_size = if size == 0 then default else size;
    channel = [];
    batch = [];
    flushed = [];
    accepted = [];
    dropped = [];
  }

  -- The `select` of `Record`: a full channel drops the row.
  unfoldable pub enqueue : Writer A → A → Writer A
  enqueue w a =
      if ltb (length w.channel) w.capacity
      then record w { channel = w.channel ++ a ∷ []; accepted = w.accepted ++ a ∷ [] }
      else record w { dropped = w.dropped ++ a ∷ [] }

  abbrev pub flush_batch : List A → Writer A → Writer A
  flush_batch [] w = w
  flush_batch (a ∷ as') w = record w { flushed = w.flushed ++ (a ∷ as') ∷ []; batch = [] }

  -- The closure `flush`.
  unfoldable pub flush : Writer A → Writer A
  flush w = flush_batch w.batch w

  abbrev pub take_from : List A → Writer A → Writer A
  take_from [] w = w
  take_from (a ∷ rest) w =
      let t = record w { channel = rest; batch = w.batch ++ a ∷ [] } in
      if leb w.batch_size (length t.batch) then flush t else t

  -- The goroutine takes a row off the channel; with none there it waits.
  unfoldable pub receive : Writer A → Writer A
  receive w = take_from w.channel w

  -- The goroutine after `Stop` closed the channel: what is left is taken, and then flushed.
  unfoldable pub drain : ℕ → Writer A → Writer A
  drain ℕ.zero w = flush w
  drain (ℕ.suc left) w = drain left (receive w)

  unfoldable pub stop_writer : Writer A → Writer A
  unfolding drain
  stop_writer w = drain (length w.channel) w

-- One step: a sender records a row, the goroutine takes one, or its ticker fires.
pub data Event {ℓ} (A : Type ℓ) : Type ℓ where
  records : A → Event A
  receives : Event A
  ticks : Event A

module _ {ℓ} {A : Type ℓ} where
  abbrev pub advance : Writer A → Event A → Writer A
  advance w (records a) = enqueue w a
  advance w receives = receive w
  advance w ticks = flush w

  unfoldable pub run : Writer A → List (Event A) → Writer A
  run w [] = w
  run w (e ∷ es) = run (advance w e) es
