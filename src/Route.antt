-- ===== src/Route.antt =====
-- Channel routing inside one user's pool (internal/relay/route.go): the candidates for a model, in
-- the order in which the relay tries them.
--
-- What Go leaves to chance is a parameter: the order in which a range over a map yields its keys,
-- and the shuffle that `rand.Shuffle` makes of one priority's candidates.
pub mod Sort
pub mod Groups
pub mod Candidates
pub mod Serves
mod Examples
use keygrid.Prelude.{
  ℕ, ℤ, Bool, true, false, not, ◌&&◌, ◌||◌, List, [], ◌∷◌, ◌++◌, Option, none, some, String,
  if◌then◌else◌, ◌==◌, length, ltb_ℤ, eqb_ℤ, str_eq, lookup, length,
}
use keygrid.Model.{Provider}

pub record Candidate : Type 0 where
  pub provider : Provider
  pub up_model : String

-- The set `allow` built of `allowProviders`; the empty list allows every channel.
unfoldable pub contains : List ℕ → ℕ → Bool
contains [] id = false
contains (x ∷ xs) id = x == id || contains xs id

abbrev pub allowed : List ℕ → ℕ → Bool
allowed [] id = true
allowed (x ∷ xs) id = contains (x ∷ xs) id

-- The upstream model of a channel: what its map says, or the requested name if it has no map.
abbrev pub mapped : List (String × String) → String → Option String
mapped [] model = some model
mapped (e ∷ map) model = lookup model (e ∷ map)

abbrev with_model : Provider → Option String → Option Candidate
with_model p none = none
with_model p (some up) = some (record { provider = p; up_model = up })

-- One round of the loop over the channels: the candidate, or `none` for `continue`.
unfoldable pub candidate_of : String → List ℕ → Provider → Option Candidate
candidate_of model allow p =
    if not p.enabled || (not (str_eq p.kind "api_key") && not (str_eq p.kind "oauth"))
    then none
    else if not (allowed allow p.id)
    then none
    else with_model p (mapped p.model_map model)

-- `byPriority`, in the order in which its keys came up.
abbrev pub Groups : Type 0
Groups = List (ℤ × List Candidate)

-- byPriority[pr] = append(byPriority[pr], c)
unfoldable pub add : ℤ → Candidate → Groups → Groups
add pr c [] = (pr, c ∷ []) ∷ []
add pr c ((k, cs) ∷ g) =
    let rest = add pr c g in if eqb_ℤ k pr then (k, cs ++ c ∷ []) ∷ g else (k, cs) ∷ rest

abbrev pub group_of : ℤ → Groups → List Candidate
group_of pr [] = []
group_of pr ((k, cs) ∷ g) = let rest = group_of pr g in if eqb_ℤ k pr then cs else rest

abbrev pub add_candidate : Option Candidate → Groups → Groups
add_candidate none g = g
add_candidate (some c) g = add c.provider.priority c g

unfoldable pub by_priority : String → List ℕ → List Provider → Groups → Groups
by_priority model allow [] g = g
by_priority model allow (p ∷ ps) g =
    by_priority model allow ps (add_candidate (candidate_of model allow p) g)

abbrev pub keys : Groups → List ℤ
keys [] = []
keys ((k, cs) ∷ g) = k ∷ keys g

-- The inner loop of the sort, on `priorities[i]` and what follows it: each greater number is swapped
-- to the front as it is met.
unfoldable pub swap_pass : ℤ → List ℤ → ℤ × List ℤ
swap_pass x [] = (x, [])
swap_pass x (y ∷ ys) =
    let (top, rest) = swap_pass (if ltb_ℤ x y then y else x) ys in
    (top, (if ltb_ℤ x y then x else y) ∷ rest)

-- The outer loop, a round for each place.
unfoldable pub sort_desc : ℕ → List ℤ → List ℤ
sort_desc rounds [] = []
sort_desc ℕ.zero (x ∷ xs) = x ∷ xs
sort_desc (ℕ.suc rounds) (x ∷ xs) = let (top, rest) = swap_pass x xs in top ∷ sort_desc rounds rest

-- The last loop: each priority's candidates, shuffled, one priority after the other.
unfoldable pub collect : (ℤ → List Candidate → List Candidate) → Groups → List ℤ → List Candidate
collect shuffle g [] = []
collect shuffle g (pr ∷ prs) = shuffle pr (group_of pr g) ++ collect shuffle g prs

abbrev pub in_order :
    (List ℤ → List ℤ) → (ℤ → List Candidate → List Candidate) → Groups → List Candidate
in_order range shuffle [] = []
in_order range shuffle (e ∷ g) =
    collect shuffle (e ∷ g) (sort_desc (length (keys (e ∷ g))) (range (keys (e ∷ g))))

unfoldable pub build_candidates :
    (List ℤ → List ℤ)
    → (ℤ → List Candidate → List Candidate)
    → List Provider
    → String
    → List ℕ
    → List Candidate
build_candidates range shuffle ps model allow =
    in_order range shuffle (by_priority model allow ps [])
