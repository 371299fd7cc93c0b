-- ===== src/Access/Lists.antt =====
-- The comma-separated lists of an API key: models, addresses and channels. A text is the list of its
-- code points. The parsers of net and strconv are parameters.
use keygrid.Prelude.{
  ◌==◌, ℕ, Bool, true, false, ◌&&◌, ◌||◌, List, [], ◌∷◌, ◌++◌, Option, none, some, if◌then◌else◌,
}
use keygrid.Failure.Message.{Runes, is_space}

-- strings.Split(s, ","); `w` is the item being read.
unfoldable pub split_commas : Runes → Runes → List Runes
split_commas w [] = w ∷ []
split_commas w (c ∷ s) =
    let next = split_commas [] s in
    let more = split_commas (w ++ c ∷ []) s in if c == 44 then w ∷ next else more

unfoldable pub trim_left : Runes → Runes
trim_left [] = []
trim_left (c ∷ s) = let rest = trim_left s in if is_space c then rest else c ∷ s

abbrev trim_end : ℕ → Runes → Runes
trim_end c [] = if is_space c then [] else c ∷ []
trim_end c (d ∷ s) = c ∷ d ∷ s

unfoldable pub trim_right : Runes → Runes
trim_right [] = []
trim_right (c ∷ s) = trim_end c (trim_right s)

-- strings.TrimSpace
unfoldable pub trim_space : Runes → Runes
trim_space s = trim_right (trim_left s)

abbrev pub same_text : Runes → Runes → Bool
same_text [] [] = true
same_text [] (d ∷ t) = false
same_text (c ∷ s) [] = false
same_text (c ∷ s) (d ∷ t) = c == d && same_text s t

abbrev pub is_empty : Runes → Bool
is_empty [] = true
is_empty (c ∷ s) = false

abbrev pub any_item : (Runes → Bool) → List Runes → Bool
any_item p [] = false
any_item p (item ∷ items) = let rest = any_item p items in if p item then true else rest

unfoldable pub model_allowed : Runes → Runes → Bool
model_allowed limit model =
    if is_empty (trim_space limit)
    then true
    else any_item (λ m. same_text (trim_space m) model) (split_commas [] limit)

-- net.ParseIP, net.ParseCIDR with Contains, and IP.Equal.
pub record Net {ℓ} (Ip : Type ℓ) : Type ℓ where
  pub parse_ip : Runes → Option Ip
  pub parse_cidr : Runes → Option (Ip → Bool)
  pub equal : Ip → Ip → Bool

module _ {ℓ} {Ip : Type ℓ} where
  abbrev pub same_ip : Net Ip → Ip → Option Ip → Bool
  same_ip net ip none = false
  same_ip net ip (some want) = net.equal want ip

  abbrev pub hits_item : Net Ip → Ip → Runes → Option (Ip → Bool) → Bool
  hits_item net ip item none = same_ip net ip (net.parse_ip item)
  hits_item net ip item (some holds) = holds ip

  -- Whether an item of the list, which is trimmed here, holds the address.
  unfoldable pub hits : Net Ip → Ip → Runes → Bool
  hits net ip raw =
      let item = trim_space raw in
      if is_empty item then false else hits_item net ip item (net.parse_cidr item)

  abbrev pub from_ip : Net Ip → Option Ip → Runes → Bool
  from_ip net none whitelist = false
  from_ip net (some ip) whitelist = any_item (hits net ip) (split_commas [] whitelist)

  unfoldable pub ip_allowed : Net Ip → Runes → Runes → Bool
  ip_allowed net whitelist client_ip =
      if is_empty (trim_space whitelist)
      then true
      else from_ip net (net.parse_ip client_ip) whitelist

abbrev pub has : List ℕ → ℕ → Bool
has [] id = false
has (i ∷ is) id = if i == id then true else has is id

-- The id that an item stands for: a number that is positive and not seen before. `parse` is
-- strconv.ParseInt on the trimmed item, as far as it is not negative.
abbrev pub fresh_id : List ℕ → Option ℕ → Option ℕ
fresh_id seen none = none
fresh_id seen (some id) = if id == 0 || has seen id then none else some id

unfoldable pub ids_from : (Runes → Option ℕ) → List ℕ → List Runes → List ℕ
ids_from parse seen [] = []
ids_from parse seen (part ∷ parts) = elim (fresh_id seen (parse (trim_space part))) [
  | none ↦ ids_from parse seen parts
  | some id ↦ id ∷ ids_from parse (id ∷ seen) parts
]

-- ApiKey.ProviderIDs; an absent key and an empty list are both `[]`.
unfoldable pub provider_ids : (Runes → Option ℕ) → Option Runes → List ℕ
provider_ids parse none = []
provider_ids parse (some limit) =
    if is_empty (trim_space limit) then [] else ids_from parse [] (split_commas [] limit)
