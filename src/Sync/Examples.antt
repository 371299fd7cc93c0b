-- ===== src/Sync/Examples.antt =====
-- Two refreshes in quick succession and a third one later, and an observation after a failed query.
use keygrid.Prelude.{
  ℕ, ◌==◌, ◌≡◌, refl, false, List, [], ◌∷◌, none, some, Option, if◌then◌else◌, arith,
}
use keygrid.Failure.Message.{codes}
use keygrid.Sync.{
  QuotaData, ok_status, probe_source, Channel, Rows, failed, new_syncer, interval, refreshes,
  refresh_provider, Store, QuotaSnapshot, fetched, merge_read, merge_write, sync_one,
  upsert_quota_snapshot,
}
use keygrid.Sync.Spacing.{Spaced, refreshes-Spaced}
use keygrid.Sync.Credits.{Deed, observed, queried, stored, perform_all, Settled, credits_kept}

abbrev calls : List (ℕ × ℕ × ℕ)
calls = (1, 5, 6) ∷ (1, 8, 9) ∷ (2, 9, 9) ∷ (1, 16, 17) ∷ []

calls_probes : (refreshes (new_syncer 10) calls).probes ≡ (1, 17) ∷ (2, 9) ∷ (1, 6) ∷ []
unfolding refreshes refresh_provider interval
calls_probes = refl

refreshes-Spaced_example :
    Spaced (interval (new_syncer 10)) (refreshes (new_syncer 10) calls).probes
refreshes-Spaced_example =
    refreshes-Spaced 10 calls (omega arith, (omega arith, (omega arith, (omega arith, tt))))

abbrev quota : ℕ → QuotaData ℕ
quota n = record {
  plan_type = n;
  rate_limit = n;
  credits = n;
  reset_credits_available = n;
  additional = n;
}

abbrev one : Channel
one = record { id = 1; user = 1; oauth_provider = codes "openai" }

abbrev rows : Rows ℕ
rows = λ k.
    if k == 1
    then some (record {
      user_id = 1;
      platform = codes "openai";
      status = ok_status;
      error = [];
      quota = quota 7;
      source = probe_source;
      fetched_at = 3;
    })
    else none

-- A query fails between the read and the write of an observation, and another observation follows.
abbrev deeds : List (Deed ℕ)
deeds =
    observed false one (quota 8)
    ∷ queried false one (failed (codes "timeout")) 4
    ∷ stored false 0 5
    ∷ observed false one (quota 9)
    ∷ stored false 0 6
    ∷ []

abbrev store : Store ℕ
store = record { rows = rows; merges = []; marks = [] }

credits_kept_example : Settled 1 (quota 7) (perform_all (quota 0) deeds store)
credits_kept_example =
    credits_kept (quota 7) (quota 0) deeds 1 store (tt, (tt, (tt, (tt, (tt, tt)))))
      ((refl, refl, refl), tt)

abbrev credits_of : Option (QuotaSnapshot ℕ) → Option ℕ
credits_of none = none
credits_of (some row) = some row.quota.credits

-- An observation that was read before an answered query and is written after it puts the older credits back.
abbrev overlapping : List (Deed ℕ)
overlapping =
    observed false one (quota 8) ∷ queried false one (fetched (quota 9)) 4 ∷ stored false 0 5 ∷ []

older_credits : credits_of ((perform_all (quota 0) overlapping store).rows 1) ≡ some 7
unfolding merge_read merge_write sync_one upsert_quota_snapshot
older_credits = refl
