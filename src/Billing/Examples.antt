-- ===== src/Billing/Examples.antt =====
-- A price table and a key, with amounts that are counted in numbers.
use keygrid.Prelude.{
  ℕ, ◌+◌, ◌*◌, ◌≡◌, refl, pos, List, [], ◌∷◌, none, some, true, false, ltb, leb, ◌==◌, String,
}
use keygrid.Model.{Provider}
use keygrid.Billing.{Money}
use keygrid.Billing.Pricing.{
  ModelPrice, Pricing, fresh, billing_name_of, resolve, refresh, load_rows,
}
use keygrid.Billing.Pricing.Cache.{wildcard_hides_billing}
use keygrid.Billing.Quota.{QuotaEnforcer, Outside, failed}
use keygrid.Billing.Deltas.{UsageEntry, deltas, deltas-spent, delta_of, spent}

abbrev cents : Money ℕ
cents = record {
  nothing = 0;
  plus = λ a b. a + b;
  is_nothing = λ a. a == 0;
  at_least = λ a b. leb b a;
  positive = λ a. ltb 0 a;
  tokens_at = λ n p. n * p;
}

abbrev row : String → ℕ → ModelPrice ℕ
row name price = record { model = name; prompt_price = price; completion_price = price }

abbrev stale : Pricing ℕ
stale = record { by_model = []; wildcard = none; loaded_at = 0; loaded = false }

abbrev rows : List (ModelPrice ℕ)
rows = row "gpt-5" 3 ∷ row "*" 1 ∷ row "gpt-5" 4 ∷ []

is_stale : fresh stale 100 ≡ false
unfolding fresh
is_stale = refl

-- A channel that bills its alias under a priced name.
abbrev channel : Provider
channel = record {
  id = 1;
  user_id = 1;
  name = "main";
  kind = "api_key";
  protocol = "openai";
  base_url = "https://example.com";
  oauth_provider = "";
  model_map = [];
  billing_map = ("alias", "gpt-5") ∷ [];
  priority = pos 0;
  enabled = true;
  breaker_check = false;
  ua_mode = "";
  user_agent = "";
  use_proxy = false;
}

wildcard_row : (refresh stale 100 (some rows)).wildcard ≡ some (row "*" 1)
unfolding refresh fresh load_rows
wildcard_row = refl

wildcard_hides_billing_example :
    ((billing_name_of stale 100 (some rows) "alias" (some channel)).1 ≡ "")
    × (resolve stale 100 (some rows) "alias" (some channel)
        ≡ resolve stale 100 (some rows) "alias" none)
wildcard_hides_billing_example =
    wildcard_hides_billing stale 100 (some rows) (row "*" 1) "alias" (some channel) wildcard_row

-- Redis is down, and the database says that 12 of 10 are used.
abbrev down : Outside ℕ
down = record { get = failed; db_used = some 12; setnx = false }

abbrev enforcer : QuotaEnforcer
enforcer = record { redis = true; enabled = true }

abbrev entry : ℕ → ℕ → UsageEntry ℕ
entry key cost = record {
  user_id = 1;
  api_key_id = key;
  provider_id = 1;
  model = "gpt-5";
  billing_model = "";
  prompt_tokens = 1;
  completion_tokens = 1;
  status_code = 200;
  latency_ms = 1;
  cost = cost;
}

abbrev batch : List (UsageEntry ℕ)
batch = entry 1 5 ∷ entry 2 7 ∷ entry 1 0 ∷ entry 1 6 ∷ []

deltas-spent_example : delta_of cents 1 (deltas cents batch) ≡ spent cents 1 0 batch
deltas-spent_example = deltas-spent cents batch 1
