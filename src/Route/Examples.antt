-- ===== src/Route/Examples.antt =====
-- A pool of four channels, one of them disabled.
use mathlib.Core.List.{Mem, Perm, reverse, reverse_perm}
use keygrid.Prelude.{ℕ, ◌≡◌, refl, ◌↔◌, ℤ, pos, negsuc, true, false, List, [], ◌∷◌, String, map}
use keygrid.Model.{Provider}
use keygrid.Route.{
  Candidate, build_candidates, by_priority, candidate_of, add, swap_pass, sort_desc, collect,
}
use keygrid.Route.Groups.{eligible}
use keygrid.Route.Candidates.{Ordered, build_candidates-perm, build_candidates-Ordered}
use keygrid.Route.Serves.{Serves, mem-build_candidates}

abbrev channel : ℕ → ℤ → List (String × String) → Provider
channel id priority map = record {
  id = id;
  user_id = 1;
  name = "c";
  kind = "api_key";
  protocol = "openai";
  base_url = "https://api.example.com";
  oauth_provider = "";
  model_map = map;
  billing_map = [];
  priority = priority;
  enabled = true;
  breaker_check = true;
  ua_mode = "";
  user_agent = "";
  use_proxy = false;
}

abbrev pool : List Provider
pool =
    channel 1 (negsuc 0) (("gpt-4o", "gpt-4o-2024") ∷ [])
    ∷ channel 2 (pos 10) []
    ∷ record (channel 3 (pos 100) []) { enabled = false }
    ∷ channel 4 (pos 10) []
    ∷ channel 5 (pos 7) (("other", "x") ∷ [])
    ∷ []

abbrev tried : List Candidate
tried = build_candidates reverse (λ k. reverse) pool "gpt-4o" []

tried_order : map (λ c. c.provider.id) tried ≡ 4 ∷ 2 ∷ 1 ∷ []
unfolding build_candidates by_priority candidate_of add swap_pass sort_desc collect reverse
tried_order = refl

build_candidates-perm_example : Perm tried (eligible "gpt-4o" [] pool)
build_candidates-perm_example =
    build_candidates-perm reverse (λ k. reverse) reverse_perm (λ k. reverse_perm) pool "gpt-4o" []

build_candidates-Ordered_example : Ordered tried
build_candidates-Ordered_example =
    build_candidates-Ordered reverse (λ k. reverse) reverse_perm (λ k. reverse_perm) pool "gpt-4o"
      []

abbrev second_channel : Candidate
second_channel = record { provider = channel 2 (pos 10) []; up_model = "gpt-4o" }

mem-build_candidates_example :
    Mem second_channel tried
    ↔ (Mem (channel 2 (pos 10) []) pool × ∥ Serves "gpt-4o" [] second_channel ∥₁)
mem-build_candidates_example =
    mem-build_candidates reverse (λ k. reverse) reverse_perm (λ k. reverse_perm) pool "gpt-4o" []
      second_channel
