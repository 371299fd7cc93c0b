-- ===== src/Billing/Pricing.antt =====
-- Pricing of internal/relay/pricing.go: the price table, cached for thirty seconds. A call is one step, at
-- one reading of the clock; `source` is what the price source would answer in it, `none` for an error.
pub mod Cache
use keygrid.Prelude.{
  ap₂, subst, ap, Bool-cases, inl, inr, ◌∙◌, sym, eq_iff, ℕ, ◌+◌, ◌-◌, ◌<◌, ◌≡◌, refl, Bool, true,
  false, not, ◌&&◌, List, [], ◌∷◌, Option, none, some, arith, ltb, if◌then◌else◌, String, str_eq,
  lookup,
}
use keygrid.Model.{Provider}
use keygrid.Billing.{Money}

-- The fields of model.ModelPrice that are read.
pub record ModelPrice {ℓ} (F : Type ℓ) : Type ℓ where
  pub model : String
  pub prompt_price : F
  pub completion_price : F

-- The newest binding of a name stands first in `by_model`.
pub record Pricing {ℓ} (F : Type ℓ) : Type ℓ where
  pub by_model : List (String × ModelPrice F)
  pub wildcard : Option (ModelPrice F)
  pub loaded_at : ℕ
  pub loaded : Bool

abbrev pub pricing_ttl : ℕ
pricing_ttl = 30000000000

-- The name that the channel's BillingMap gives, if it may be used.
abbrev pub billed_name : Option String → Option String
billed_name none = none
billed_name (some std) = if not (str_eq std "") && not (str_eq std "*") then some std else none

abbrev pub billing_of : Option Provider → String → Option String
billing_of none name = none
billing_of (some provider) name = billed_name (lookup name provider.billing_map)

module _ {ℓ} {F : Type ℓ} where
  unfoldable pub new_pricing : Pricing F
  new_pricing = record { by_model = []; wildcard = none; loaded_at = 0; loaded = false }

  abbrev pub or_else : Option (ModelPrice F) → Option (ModelPrice F) → Option (ModelPrice F)
  or_else none o = o
  or_else (some pr) o = some pr

  unfoldable pub lookup_locked : Pricing F → String → Option (ModelPrice F)
  lookup_locked p name = or_else (lookup name p.by_model) p.wildcard

  -- The loop over the rows of the table.
  unfoldable pub load_rows : Pricing F → List (ModelPrice F) → Pricing F
  load_rows p [] = p
  load_rows p (row ∷ rows) =
      load_rows
        (if str_eq row.model "*"
          then record p { wildcard = some row }
          else record p { by_model = (row.model, row) ∷ p.by_model })
        rows

  unfoldable pub fresh : Pricing F → ℕ → Bool
  fresh p now = p.loaded && ltb (now - p.loaded_at) pricing_ttl

  abbrev pub reload : Pricing F → ℕ → Option (List (ModelPrice F)) → Pricing F
  reload p now none = record p { loaded_at = now; loaded = true }
  reload p now (some rows) = record (load_rows (record p { by_model = []; wildcard = none }) rows) {
    loaded_at = now;
    loaded = true;
  }

  unfoldable pub refresh : Pricing F → ℕ → Option (List (ModelPrice F)) → Pricing F
  refresh p now source = if fresh p now then p else reload p now source

  unfoldable pub lookup_price :
      Pricing F → ℕ → Option (List (ModelPrice F)) → String → Pricing F × Option (ModelPrice F)
  lookup_price p now source name = let q = refresh p now source in (q, lookup_locked q name)

  abbrev resolved : Option (ModelPrice F) → String → String → Option (ModelPrice F) × String
  resolved none name std = (none, name)
  resolved (some pr) name std = (some pr, std)

  abbrev resolve_mapped :
      Pricing F
      → ℕ
      → Option (List (ModelPrice F))
      → String
      → Option String
      → Pricing F × (Option (ModelPrice F) × String)
  resolve_mapped p now source name none = (p, (none, name))
  resolve_mapped p now source name (some std) =
      let r = lookup_price p now source std in (r.0, resolved r.1 name std)

  abbrev resolve_after :
      Pricing F × Option (ModelPrice F)
      → ℕ
      → Option (List (ModelPrice F))
      → String
      → Option Provider
      → Pricing F × (Option (ModelPrice F) × String)
  resolve_after (p, some pr) now source name billing = (p, (some pr, name))
  resolve_after (p, none) now source name billing =
      resolve_mapped p now source name (billing_of billing name)

  unfoldable pub resolve :
      Pricing F
      → ℕ
      → Option (List (ModelPrice F))
      → String
      → Option Provider
      → Pricing F × (Option (ModelPrice F) × String)
  resolve p now source name billing =
      resolve_after (lookup_price p now source name) now source name billing

  abbrev priced : Money F → Option (ModelPrice F) → ℕ → ℕ → F
  priced money none prompt completion = money.nothing
  priced money (some pr) prompt completion =
      money.plus (money.tokens_at prompt pr.prompt_price)
        (money.tokens_at completion pr.completion_price)

  unfoldable pub cost_of :
      Money F
      → Pricing F
      → ℕ
      → Option (List (ModelPrice F))
      → String
      → Option Provider
      → ℕ
      → ℕ
      → Pricing F × F
  cost_of money p now source name billing prompt completion =
      let r = resolve p now source name billing in (r.0, priced money r.1.0 prompt completion)

  unfoldable pub billing_name_of :
      Pricing F → ℕ → Option (List (ModelPrice F)) → String → Option Provider → Pricing F × String
  billing_name_of p now source name billing =
      let r = resolve p now source name billing in (r.0, if str_eq r.1.1 name then "" else r.1.1)
