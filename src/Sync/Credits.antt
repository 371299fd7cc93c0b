-- ===== src/Sync/Credits.antt =====
-- What observed headers and failed queries leave of a channel's quota.
use keygrid.Prelude.{
  subst, ◌≡◌, ◌≢◌, ℕ, zero, suc, ◌==◌, Bool, true, false, List, [], ◌∷◌, Option, none, some, All,
  arith, if_cases, refl, inl, inr, ◌⊎◌, Bool-cases,
}
use keygrid.Sync.{
  QuotaData, QuotaSnapshot, Channel, Rows, Probe, fetched, failed, Merge, Mark, Store, item_at,
  without, upsert_quota_snapshot, mark_update, mark_create, merge_read, merge_write, sync_one,
  merged, fresh_row, relay_source, probe_source, error_status, placeholder, written, updated,
  created, create_of,
}

-- What reads and writes the rows, with the outcomes of the database calls. The calls of one observation and of one
-- failed query are two steps each, between which any others may come.
pub data Deed (A : Type 0) : Type 0 where
  observed : (fails : Bool) → Channel → QuotaData A → Deed A
  stored : (fails : Bool) (i now : ℕ) → Deed A
  queried : (fails : Bool) → Channel → Probe A → ℕ → Deed A
  noted : (fails : Bool) (i : ℕ) → Deed A

module _ {A : Type 0} where
  abbrev pub perform : QuotaData A → Deed A → Store A → Store A
  perform empty (observed f p obs) s = merge_read f p obs s
  perform empty (stored f i now) s = merge_write f i now s
  perform empty (queried f p probe now) s = sync_one f p probe now s
  perform empty (noted f i) s = mark_create f empty i s

  abbrev pub perform_all : QuotaData A → List (Deed A) → Store A → Store A
  perform_all empty [] s = s
  perform_all empty (d ∷ ds) s = perform_all empty ds (perform empty d s)

  -- No query for the channel is answered.
  abbrev pub Unanswered : ℕ → Deed A → Type 0
  Unanswered id (observed f p obs) = Unit
  Unanswered id (stored f i now) = Unit
  Unanswered id (queried f p (failed msg) now) = Unit
  Unanswered id (queried f p (fetched quota) now) = id ≢ p.id
  Unanswered id (noted f i) = Unit

  abbrev pub SameCredits : QuotaData A → QuotaData A → Type 0
  SameCredits q r =
      (r.credits ≡ q.credits)
      × (r.reset_credits_available ≡ q.reset_credits_available)
      × (r.additional ≡ q.additional)

  -- The credits, the resets and the additional limits of a row.
  abbrev pub HasCredits : QuotaData A → Option (QuotaSnapshot A) → Type 0
  HasCredits q none = ⊥
  HasCredits q (some row) = SameCredits q row.quota

  -- What an observation that waits to be written has, if it is one of the channel.
  abbrev pub Brings : ℕ → QuotaData A → Merge A → Type 0
  Brings id q m = (id ≢ m.channel.id) ⊎ SameCredits q m.quota

  abbrev pub Settled : ℕ → QuotaData A → Store A → Type 0
  Settled id q s = HasCredits q (s.rows id) × All (Brings id q) s.merges

  All-without :
      (id : ℕ) (q : QuotaData A) (i : ℕ) (ms : List (Merge A))
      → All (Brings id q) ms
      → All (Brings id q) (without i ms)
  All-without id q i [] a = tt
  All-without id q zero (m ∷ ms) a = a.1
  All-without id q (suc i) (m ∷ ms) a = (a.0, All-without id q i ms a.1)

  upsert-HasCredits :
      (f : Bool) (id k : ℕ) (q : QuotaData A) (row : QuotaSnapshot A) (rows : Rows A)
      → HasCredits q (rows id)
      → (id ≢ k) ⊎ SameCredits q row.quota
      → HasCredits q (upsert_quota_snapshot f k row rows id)
  unfolding upsert_quota_snapshot
  upsert-HasCredits true id k q row rows v b = v
  upsert-HasCredits false id k q row rows v b =
      if_cases (HasCredits q) (id == k) (some row) (rows id)
        (λ h. let e : id ≡ k = ground (arith, h) in own e b) (λ h. v)
    where
      own : id ≡ k → (id ≢ k) ⊎ SameCredits q row.quota → SameCredits q row.quota
      own e (inl n) = absurd (n e)
      own e (inr c) = c

  merged-Brings :
      (id : ℕ) (q obs : QuotaData A) (p : Channel) (rows : Rows A)
      → HasCredits q (rows id)
      → Brings id q (record { channel = p; quota = merged obs (rows p.id) })
  merged-Brings id q obs p rows v = elim (Bool-cases (id == p.id)) [
    | inl h ↦
        let e : id ≡ p.id = ground (arith, h) in
        inr (kept (rows p.id) (subst (λ k. HasCredits q (rows k)) e v))
    | inr h ↦ inl (λ e. absurd (ground (arith, e, h)))
  ]
    where
      kept : (o : Option (QuotaSnapshot A)) → HasCredits q o → SameCredits q (merged obs o)
      kept none c = absurd c
      kept (some old) c = c

  written-Settled :
      (f : Bool) (i now id : ℕ) (q : QuotaData A) (s : Store A)
      → Settled id q s
      → Settled id q (merge_write f i now s)
  unfolding merge_write
  written-Settled f i now id q s v = go (item_at i s.merges) (at i s.merges v.1)
    where
      Fits : Option (Merge A) → Type 0
      Fits none = Unit
      Fits (some m) = Brings id q m

      at : (i : ℕ) (ms : List (Merge A)) → All (Brings id q) ms → Fits (item_at i ms)
      at i [] a = tt
      at zero (m ∷ ms) a = a.0
      at (suc i) (m ∷ ms) a = at i ms a.1

      go : (o : Option (Merge A)) → Fits o → Settled id q (written f i now o s)
      go none b = v
      go (some m) b = (
        upsert-HasCredits f id m.channel.id q (fresh_row relay_source m.channel m.quota now) s.rows
            v.0 b,
        All-without id q i s.merges v.1,
      )

  marked-Settled :
      (id : ℕ) (q : QuotaData A) (m : Mark) (s : Store A)
      → Settled id q s
      → Settled id q (updated m (s.rows m.channel.id) s)
  marked-Settled id q m s v = go (s.rows m.channel.id) refl
    where
      go : (o : Option (QuotaSnapshot A)) → s.rows m.channel.id ≡ o → Settled id q (updated m o s)
      go none e = v
      go (some old) e = (
        if_cases (HasCredits q) (id == m.channel.id)
            (some (record old { status = error_status; error = m.msg })) (s.rows id)
            (λ h.
              let k : id ≡ m.channel.id = ground (arith, h) in
              subst (HasCredits q) e (subst (λ k. HasCredits q (s.rows k)) k v.0))
            (λ h. v.0),
        v.1,
      )

  created-HasCredits :
      (f : Bool) (empty : QuotaData A) (id : ℕ) (q : QuotaData A) (m : Mark) (rows : Rows A)
      → HasCredits q (rows id)
      → HasCredits q (created f empty m (rows m.channel.id) rows id)
  created-HasCredits true empty id q m rows v = v
  created-HasCredits false empty id q m rows v = go (rows m.channel.id) refl
    where
      go :
          (o : Option (QuotaSnapshot A))
          → rows m.channel.id ≡ o
          → HasCredits q (created false empty m o rows id)
      go (some old) e = v
      go none e =
          if_cases (HasCredits q) (id == m.channel.id) (some (placeholder empty m)) (rows id)
            (λ h.
              let k : id ≡ m.channel.id = ground (arith, h) in
              absurd (subst (HasCredits q) e (subst (λ k. HasCredits q (rows k)) k v)))
            (λ h. v)

  perform-Settled :
      (q empty : QuotaData A) (d : Deed A) (id : ℕ) (s : Store A)
      → Unanswered id d
      → Settled id q s
      → Settled id q (perform empty d s)
  unfolding merge_read sync_one mark_update mark_create
  perform-Settled q empty (observed true p obs) id s u v = v
  perform-Settled q empty (observed false p obs) id s u v =
      (v.0, (merged-Brings id q obs p s.rows v.0, v.1))
  perform-Settled q empty (stored f i now) id s u v = written-Settled f i now id q s v
  perform-Settled q empty (queried true p (failed msg) now) id s u v = v
  perform-Settled q empty (queried false p (failed msg) now) id s u v =
      marked-Settled id q (record { channel = p; msg = msg; now = now }) s v
  perform-Settled q empty (queried f p (fetched quota) now) id s u v =
      (upsert-HasCredits f id p.id q (fresh_row probe_source p quota now) s.rows v.0 (inl u), v.1)
  perform-Settled q empty (noted f i) id s u v = go (item_at i s.marks)
    where
      go : (o : Option Mark) → Settled id q (create_of f empty i o s)
      go none = v
      go (some m) = (created-HasCredits f empty id q m s.rows v.0, v.1)

  -- The credits, the resets and the additional limits that the last answered query brought of a channel stay in its
  -- row, whatever headers are observed and whatever queries fail afterwards, on this channel or on others, and
  -- however the steps of these calls interleave. Every observation of the channel that was read before and is
  -- still to be written must have them too: one that was read before that answer may overwrite them.
  pub credits_kept :
      (q empty : QuotaData A) (ds : List (Deed A)) (id : ℕ) (s : Store A)
      → All (Unanswered id) ds
      → Settled id q s
      → Settled id q (perform_all empty ds s)
  credits_kept q empty [] id s u v = v
  credits_kept q empty (d ∷ ds) id s u v =
      credits_kept q empty ds id (perform empty d s) u.1 (perform-Settled q empty d id s u.0 v)
