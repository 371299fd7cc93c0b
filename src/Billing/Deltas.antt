-- ===== src/Billing/Deltas.antt =====
-- The records of the usage and what a batch adds to the keys (internal/relay/usage.go).
use keygrid.Prelude.{
  ℕ, ◌≡◌, refl, Bool, true, false, List, [], ◌∷◌, if◌then◌else◌, inl, inr, Bool-cases, ap, ◌∙◌, sym,
  ◌==◌, String, ==_iff,
}
use keygrid.Billing.{Money}

-- usageEntry, and the row model.UsageLog that is made of it.
pub record UsageEntry {ℓ} (F : Type ℓ) : Type ℓ where
  pub user_id : ℕ
  pub api_key_id : ℕ
  pub provider_id : ℕ
  pub model : String
  pub billing_model : String
  pub prompt_tokens : ℕ
  pub completion_tokens : ℕ
  pub status_code : ℕ
  pub latency_ms : ℕ
  pub cost : F

module _ {ℓ} {F : Type ℓ} (money : Money F) where
  -- The sum of a key; nothing where the map has none.
  abbrev pub delta_of : ℕ → List (ℕ × F) → F
  delta_of k [] = money.nothing
  delta_of k ((j, c) ∷ m) = let rest = delta_of k m in if j == k then c else rest

  abbrev add_cost : List (ℕ × F) → UsageEntry F → List (ℕ × F)
  add_cost m ul =
      if money.is_nothing ul.cost
      then m
      else (ul.api_key_id, money.plus (delta_of ul.api_key_id m) ul.cost) ∷ m

  unfoldable pub deltas_from : List (ℕ × F) → List (UsageEntry F) → List (ℕ × F)
  deltas_from m [] = m
  deltas_from m (ul ∷ uls) = deltas_from (add_cost m ul) uls

  unfoldable pub deltas : List (UsageEntry F) → List (ℕ × F)
  deltas batch = deltas_from [] batch

  -- The costs of a key, in the order of the batch, added to an amount.
  abbrev pub spent : ℕ → F → List (UsageEntry F) → F
  spent k acc [] = acc
  spent k acc (ul ∷ uls) =
      let more = spent k (money.plus acc ul.cost) uls in
      let same = spent k acc uls in
      if ul.api_key_id == k then (if money.is_nothing ul.cost then same else more) else same

  add_cost-delta :
      (m : List (ℕ × F)) (ul : UsageEntry F) (k : ℕ)
      → delta_of k (add_cost m ul) ≡ (
          if ul.api_key_id == k
          then (if money.is_nothing ul.cost
              then delta_of k m
              else money.plus (delta_of k m) ul.cost)
          else delta_of k m)
  add_cost-delta m ul k = elim (Bool-cases (money.is_nothing ul.cost)) [
    | inl e ↦ (rw e (sym (same (ul.api_key_id == k) (delta_of k m))))
    | inr e ↦ (rw e (at_key (ul.api_key_id == k) (λ h. (==_iff ul.api_key_id k).0 h)))
  ]
    where
      same : (a : Bool) (d : F) → (if a then d else d) ≡ d
      same true d = refl
      same false d = refl

      at_key :
          (a : Bool)
          → (a ≡ true → ul.api_key_id ≡ k)
          → (if a then money.plus (delta_of ul.api_key_id m) ul.cost else delta_of k m)
            ≡ (if a then money.plus (delta_of k m) ul.cost else delta_of k m)
      at_key true h = ap (λ i. money.plus (delta_of i m) ul.cost) (h refl)
      at_key false h = refl

  spent-push :
      (a b : Bool) (k : ℕ) (d c : F) (uls : List (UsageEntry F))
      → spent k (if a then (if b then d else money.plus d c) else d) uls
        ≡ (if a then (if b then spent k d uls else spent k (money.plus d c) uls) else spent k d uls)
  spent-push true true k d c uls = refl
  spent-push true false k d c uls = refl
  spent-push false b k d c uls = refl

  deltas_from-spent :
      (m : List (ℕ × F)) (uls : List (UsageEntry F)) (k : ℕ)
      → delta_of k (deltas_from m uls) ≡ spent k (delta_of k m) uls
  unfolding deltas_from
  deltas_from-spent m [] k = refl
  deltas_from-spent m (ul ∷ uls) k =
      deltas_from-spent (add_cost m ul) uls k
      ∙ ap (λ d. spent k d uls) (add_cost-delta m ul k)
      ∙ spent-push (ul.api_key_id == k) (money.is_nothing ul.cost) k (delta_of k m) ul.cost uls

  -- What a batch adds to a key is the sum, in the order of the batch, of the costs of its records that are of this key and
  -- not zero; a key without such a record gets nothing.
  pub deltas-spent :
      (batch : List (UsageEntry F)) (k : ℕ)
      → delta_of k (deltas batch) ≡ spent k money.nothing batch
  unfolding deltas
  deltas-spent batch k = deltas_from-spent [] batch k
