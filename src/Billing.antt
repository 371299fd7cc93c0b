-- ===== src/Billing.antt =====
-- What a request costs and how it is accounted: the price cache (internal/relay/pricing.go), the quota of
-- an API key (internal/relay/quota.go) and the sums that a batch of records adds to the keys
-- (internal/relay/usage.go).
--
-- Amounts are float64 in the code, and enter as any type with the operations that the code uses. No law
-- of them is assumed, so the order of the additions is kept.
pub mod Pricing
pub mod Quota
pub mod Deltas
mod Examples
use keygrid.Prelude.{ℕ, Bool}

-- The operations on amounts in USD.
pub record Money {ℓ} (F : Type ℓ) : Type ℓ where
  pub nothing : F
  pub plus : F → F → F
  pub is_nothing : F → Bool
  pub at_least : F → F → Bool
  pub positive : F → Bool
  -- The price of so many tokens, at a price per million.
  pub tokens_at : ℕ → F → F
