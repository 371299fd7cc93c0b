-- ===== src/Batch/Examples.antt =====
-- Runs of the batch writer that exercise its theorems.
use keygrid.Prelude.{ℕ, ◌≡◌, refl, List, [], ◌∷◌, arith}
use keygrid.Batch.{
  Event, records, receives, ticks, new_writer, run, enqueue, receive, flush, stop_writer,
}
use keygrid.Batch.Stopping.{stop_flushes_all}
use keygrid.Batch.Conservation.{run_conserves, IsSound, rows}

-- Three senders against a channel of two rows: the third row is dropped.
abbrev busy : List (Event ℕ)
busy =
    records 1
    ∷ records 2
    ∷ records 3
    ∷ receives
    ∷ records 4
    ∷ receives
    ∷ receives
    ∷ ticks
    ∷ records 5
    ∷ []

busy_rows : (run (new_writer 2 2 100) busy).dropped ≡ 3 ∷ []
unfolding run new_writer enqueue receive flush
busy_rows = refl

run_conserves_example : IsSound (run (new_writer 2 2 100) busy)
run_conserves_example = run_conserves 2 2 100 busy (omega arith)

stop_flushes_all_example :
    rows (stop_writer (run (new_writer 2 2 100) busy)).flushed
    ≡ (run (new_writer 2 2 100) busy).accepted
stop_flushes_all_example = stop_flushes_all 2 2 100 busy (omega arith)
