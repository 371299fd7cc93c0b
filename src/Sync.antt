-- ===== src/Sync.antt =====
-- The quota synchronisation (internal/quota/sync.go) and the rows it writes (internal/op/quota.go). Upstream
-- and database calls are what they answer: `Probe` is the outcome of `probe`, and a Bool says whether a call
-- of the database failed. Of the times of a row, `fetched_at` is modelled.
pub mod Spacing
pub mod Credits
mod Examples
use keygrid.Prelude.{
  ℕ, zero, suc, ◌-◌, ◌*◌, ◌==◌, ltb, Bool, true, false, ◌&&◌, List, [], ◌∷◌, Option, none, some,
  if◌then◌else◌,
}
use keygrid.Failure.Message.{Runes, codes}

-- QuotaData; the types of its parts do not matter to the synchronisation.
pub record QuotaData {ℓ} (A : Type ℓ) : Type ℓ where
  pub plan_type : A
  pub rate_limit : A
  pub credits : A
  pub reset_credits_available : A
  pub additional : A

pub data Status : Type 0 where
  ok_status error_status : Status

pub data Source : Type 0 where
  no_source probe_source relay_source : Source

pub record QuotaSnapshot {ℓ} (A : Type ℓ) : Type ℓ where
  pub user_id : ℕ
  pub platform : Runes
  pub status : Status
  pub error : Runes
  pub quota : QuotaData A
  pub source : Source
  pub fetched_at : ℕ

-- What the code reads of a provider.
pub record Channel : Type 0 where
  pub id : ℕ
  pub user : ℕ
  pub oauth_provider : Runes

-- The rows, one for each provider at most.
abbrev pub Rows {ℓ} : Type ℓ → Type ℓ
Rows A = ℕ → Option (QuotaSnapshot A)

pub data Probe {ℓ} (A : Type ℓ) : Type ℓ where
  fetched : QuotaData A → Probe A
  failed : Runes → Probe A

-- An observation that was read and merged, and is not written yet.
pub record Merge {ℓ} (A : Type ℓ) : Type ℓ where
  pub channel : Channel
  pub quota : QuotaData A

-- A failed query that is to be noted.
pub record Mark : Type 0 where
  pub channel : Channel
  pub msg : Runes
  pub now : ℕ

-- The rows, and the calls that are between two accesses to them; nothing locks them, so that other calls may come
-- in between.
pub record Store {ℓ} (A : Type ℓ) : Type ℓ where
  pub rows : Rows A
  pub merges : List (Merge A)
  pub marks : List Mark

module _ {ℓ} {A : Type ℓ} where
  abbrev pub item_at : ℕ → List A → Option A
  item_at i [] = none
  item_at zero (x ∷ xs) = some x
  item_at (suc i) (x ∷ xs) = item_at i xs

  abbrev pub without : ℕ → List A → List A
  without i [] = []
  without zero (x ∷ xs) = xs
  without (suc i) (x ∷ xs) = x ∷ without i xs

module _ {ℓ} {A : Type ℓ} where
  -- `UpsertQuotaSnapshot`; a call that fails changes nothing.
  unfoldable pub upsert_quota_snapshot : Bool → ℕ → QuotaSnapshot A → Rows A → Rows A
  upsert_quota_snapshot true id snap rows = rows
  upsert_quota_snapshot false id snap rows = λ k. if k == id then some snap else rows k

  abbrev pub merged : QuotaData A → Option (QuotaSnapshot A) → QuotaData A
  merged obs none = obs
  merged obs (some old) = record obs {
    credits = old.quota.credits;
    reset_credits_available = old.quota.reset_credits_available;
    additional = old.quota.additional;
  }

  abbrev pub fresh_row : Source → Channel → QuotaData A → ℕ → QuotaSnapshot A
  fresh_row source p quota now = record {
    user_id = p.user;
    platform = p.oauth_provider;
    status = ok_status;
    error = [];
    quota = quota;
    source = source;
    fetched_at = now;
  }

  -- The row that `MarkQuotaSnapshotError` creates; `empty` is the QuotaData that is not set.
  abbrev pub placeholder : QuotaData A → Mark → QuotaSnapshot A
  placeholder empty m = record {
    user_id = m.channel.user;
    platform = m.channel.oauth_provider;
    status = error_status;
    error = m.msg;
    quota = empty;
    source = no_source;
    fetched_at = m.now;
  }

  -- The read of `mergeObservation`, and the merge; a read that fails ends it.
  unfoldable pub merge_read : (read_fails : Bool) → Channel → QuotaData A → Store A → Store A
  merge_read true p obs s = s
  merge_read false p obs s = record s {
    merges = record { channel = p; quota = merged obs (s.rows p.id) } ∷ s.merges;
  }

  abbrev pub written : Bool → ℕ → ℕ → Option (Merge A) → Store A → Store A
  written fails i now none s = s
  written fails i now (some m) s = record s {
    rows =
        upsert_quota_snapshot fails m.channel.id (fresh_row relay_source m.channel m.quota now)
          s.rows;
    merges = without i s.merges;
  }

  -- The write of `mergeObservation`, of the i-th observation that waits for it.
  unfoldable pub merge_write : (write_fails : Bool) → (i now : ℕ) → Store A → Store A
  merge_write write_fails i now s = written write_fails i now (item_at i s.merges) s

  abbrev pub updated : Mark → Option (QuotaSnapshot A) → Store A → Store A
  updated m none s = record s { marks = m ∷ s.marks }
  updated m (some old) s = record s {
    rows = λ k.
        if k == m.channel.id
        then some (record old { status = error_status; error = m.msg })
        else s.rows k;
  }

  -- The update of `MarkQuotaSnapshotError`, which waits to create a row where it has met none.
  unfoldable pub mark_update : (fails : Bool) → Mark → Store A → Store A
  mark_update true m s = s
  mark_update false m s = updated m (s.rows m.channel.id) s

  -- A row that is there already is not replaced: its key is unique.
  abbrev pub created : Bool → QuotaData A → Mark → Option (QuotaSnapshot A) → Rows A → Rows A
  created true empty m row rows = rows
  created false empty m (some old) rows = rows
  created false empty m none rows =
      λ k. if k == m.channel.id then some (placeholder empty m) else rows k

  abbrev pub create_of : Bool → QuotaData A → ℕ → Option Mark → Store A → Store A
  create_of fails empty i none s = s
  create_of fails empty i (some m) s = record s {
    rows = created fails empty m (s.rows m.channel.id) s.rows;
    marks = without i s.marks;
  }

  -- The creation of `MarkQuotaSnapshotError`, of the i-th one that waits for it.
  unfoldable pub mark_create : (fails : Bool) → QuotaData A → ℕ → Store A → Store A
  mark_create fails empty i s = create_of fails empty i (item_at i s.marks) s

  -- `syncOne` once its query has ended, up to the first call of the database.
  unfoldable pub sync_one : (fails : Bool) → Channel → Probe A → ℕ → Store A → Store A
  sync_one fails p (failed msg) now s =
      mark_update fails (record { channel = p; msg = msg; now = now }) s
  sync_one fails p (fetched quota) now s = record s {
    rows = upsert_quota_snapshot fails p.id (fresh_row probe_source p quota now) s.rows;
  }

abbrev second : ℕ
second = 1000000000

-- Syncer: the least interval, 0 or less is 0 here, and the times of the last attempts. `probes` is not of the
-- code: the upstream queries that were begun, the latest first.
pub record Syncer : Type 0 where
  pub min_interval : ℕ
  pub last_attempt : ℕ → Option ℕ
  pub probes : List (ℕ × ℕ)

abbrev pub new_syncer : ℕ → Syncer
new_syncer min = record { min_interval = min; last_attempt = λ id. none; probes = [] }

unfoldable pub interval : Syncer → ℕ
interval s = if s.min_interval == 0 then 30 * second else s.min_interval

abbrev too_soon : ℕ → ℕ → Option ℕ → Bool
too_soon min asked none = false
too_soon min asked (some last) = ltb (asked - last) min

abbrev attempt : Syncer → ℕ → ℕ → Syncer
attempt s id noted = record s {
  last_attempt = λ k. if k == id then some noted else s.last_attempt k;
  probes = (id, noted) ∷ s.probes;
}

-- The way of `RefreshProvider` to `syncOne`, and whether it answers from the cache. The clock is read twice.
unfoldable pub refresh_provider : Syncer → ℕ → (asked noted : ℕ) → Syncer × Bool
refresh_provider s id asked noted =
    if too_soon (interval s) asked (s.last_attempt id)
    then (s, true)
    else (attempt s id noted, false)

-- Calls, each with its channel and the two times.
unfoldable pub refreshes : Syncer → List (ℕ × ℕ × ℕ) → Syncer
refreshes s [] = s
refreshes s ((id, asked, noted) ∷ calls) = refreshes (refresh_provider s id asked noted).0 calls
