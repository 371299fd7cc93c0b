-- ===== src/Model.antt =====
-- The stored entities that the relay reads (internal/model). A map is an association list, and an
-- absent or empty one is `[]`; ids are numbers; `Priority` is a signed integer.
use keygrid.Prelude.{ℕ, ℤ, Bool, List, String}

-- Provider: a channel of one user. The fields that no modelled code reads are left out.
pub record Provider : Type 0 where
  pub id : ℕ
  pub user_id : ℕ
  pub name : String
  pub kind : String
  pub protocol : String
  pub base_url : String
  pub oauth_provider : String
  pub model_map : List (String × String)
  pub billing_map : List (String × String)
  pub priority : ℤ
  pub enabled : Bool
  pub breaker_check : Bool
  pub ua_mode : String
  pub user_agent : String
  pub use_proxy : Bool
