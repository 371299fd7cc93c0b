-- ===== src/Ssrf.antt =====
-- The guard against requests into private networks (internal/ssrf/ssrf.go). Addresses, networks and names
-- are those of net and net/url, which are parameters, and so is strings.ToLower.
pub mod Hosts
pub mod Addresses
pub mod Guard
mod Examples
use keygrid.Prelude.{
  ◌==◌, ℕ, Bool, true, false, ◌&&◌, ◌||◌, not, List, [], ◌∷◌, ◌++◌, Option, none, some,
  if◌then◌else◌, map,
}
use keygrid.Failure.Message.{Runes, codes}
use keygrid.Access.Lists.{split_commas, trim_space, same_text, is_empty, any_item}

-- What the guard asks of net, net/url and strings, and the environment that it reads.
pub record Net {ℓ} (Ip : Type ℓ) : Type ℓ where
  pub lookup_ip : Runes → Option (List Ip)
  pub to4 : Ip → Option Ip
  pub is_loopback : Ip → Bool
  pub is_private : Ip → Bool
  pub is_unspecified : Ip → Bool
  pub is_link_local_unicast : Ip → Bool
  pub is_link_local_multicast : Ip → Bool
  pub is_multicast : Ip → Bool
  -- ParseCIDR, as the test of Contains.
  pub parse_cidr : Runes → Option (Ip → Bool)
  pub to_lower : Runes → Runes
  -- url.Parse: the scheme and the host name.
  pub parse_url : Runes → Option (Runes × Runes)
  -- SplitHostPort: the host.
  pub split_host_port : Runes → Option Runes

pub record Env : Type 0 where
  pub allow_internal : Runes
  pub allowed_hosts : Runes
  pub allowed_cidrs : Runes

-- strings.TrimSuffix(s, ".")
abbrev pub trim_dot : Runes → Runes
trim_dot [] = []
trim_dot (c ∷ []) = if c == 46 then [] else c ∷ []
trim_dot (c ∷ d ∷ s) = c ∷ trim_dot (d ∷ s)

abbrev pub add_host : Runes → List Runes → List Runes
add_host [] hs = hs
add_host (c ∷ h) hs = (c ∷ h) ∷ hs

module _ {ℓ} {Ip : Type ℓ} (net : Net Ip) where
  -- The form in which names are compared.
  abbrev pub normal : Runes → Runes
  normal h = trim_dot (net.to_lower (trim_space h))

  abbrev pub hosts_of : List Runes → List Runes
  hosts_of [] = []
  hosts_of (h ∷ hs) = add_host (normal h) (hosts_of hs)

  unfoldable pub allowed_hosts : Env → List Runes
  allowed_hosts env =
      if is_empty env.allowed_hosts then [] else hosts_of (split_commas [] env.allowed_hosts)

-- strings.HasSuffix
abbrev pub has_suffix : Runes → Runes → Bool
has_suffix [] suffix = same_text [] suffix
has_suffix (c ∷ s) suffix = same_text (c ∷ s) suffix || has_suffix s suffix

-- strings.CutPrefix(h, "*"), or h.
abbrev pub after_star : Runes → Runes
after_star [] = []
after_star (c ∷ h) = if c == 42 then h else c ∷ h

abbrev pub begins_with_dot : Runes → Bool
begins_with_dot [] = false
begins_with_dot (c ∷ s) = c == 46

abbrev pub matches : Runes → Runes → Bool
matches host h =
    same_text h host || (begins_with_dot (after_star h) && has_suffix host (after_star h))

pub data HostError : Type 0 where
  unresolved reserved : HostError

pub data UrlError : Type 0 where
  invalid_url bad_scheme no_host : UrlError
  bad_host : HostError → UrlError

module _ {ℓ} {Ip : Type ℓ} (net : Net Ip) (env : Env) where
  unfoldable pub host_allowed : Runes → Bool
  host_allowed host =
      let h = normal net host in
      if is_empty h then false else any_item (matches h) (allowed_hosts net env)

  abbrev add_net : Option (Ip → Bool) → List (Ip → Bool) → List (Ip → Bool)
  add_net none nets = nets
  add_net (some n) nets = n ∷ nets

  abbrev pub nets_of : List Runes → List (Ip → Bool)
  nets_of [] = []
  nets_of (s ∷ ss) = add_net (net.parse_cidr (trim_space s)) (nets_of ss)

  unfoldable pub allowed_cidrs : List (Ip → Bool)
  allowed_cidrs =
      if is_empty env.allowed_cidrs then [] else nets_of (split_commas [] env.allowed_cidrs)

  abbrev pub any_net : List (Ip → Bool) → Ip → Bool
  any_net [] ip = false
  any_net (n ∷ nets) ip = n ip || any_net nets ip

  abbrev pub or_ip : Option Ip → Ip → Ip
  or_ip none ip = ip
  or_ip (some v4) ip = v4

  unfoldable pub ip_allowed : Ip → Bool
  ip_allowed ip = any_net allowed_cidrs (or_ip (net.to4 ip) ip)

  abbrev pub blocks : List Runes
  blocks =
      codes "0.0.0.0/8"
      ∷ codes "10.0.0.0/8"
      ∷ codes "100.64.0.0/10"
      ∷ codes "127.0.0.0/8"
      ∷ codes "169.254.0.0/16"
      ∷ codes "172.16.0.0/12"
      ∷ codes "192.0.0.0/24"
      ∷ codes "192.0.2.0/24"
      ∷ codes "192.168.0.0/16"
      ∷ codes "198.18.0.0/15"
      ∷ codes "224.0.0.0/4"
      ∷ codes "240.0.0.0/4"
      ∷ []

  unfoldable pub is_blocked_v4 : Ip → Bool
  is_blocked_v4 ip = any_net (nets_of blocks) ip

  abbrev pub blocked_as : Option Ip → Bool
  blocked_as none = false
  blocked_as (some v4) = is_blocked_v4 v4

  unfoldable pub is_blocked : Ip → Bool
  is_blocked ip =
      if ip_allowed ip
      then false
      else if net.is_loopback ip
          || net.is_private ip
          || net.is_unspecified ip
          || net.is_link_local_unicast ip
          || net.is_link_local_multicast ip
          || net.is_multicast ip
      then true
      else blocked_as (net.to4 ip)

  abbrev check_ips : List Ip → Option HostError
  check_ips [] = none
  check_ips (ip ∷ ips) = let rest = check_ips ips in if is_blocked ip then some reserved else rest

  abbrev check_lookup : Option (List Ip) → Option HostError
  check_lookup none = some unresolved
  check_lookup (some ips) = check_ips ips

  unfoldable pub check_host : Runes → Option HostError
  check_host host =
      if same_text env.allow_internal (codes "1") || host_allowed host
      then none
      else check_lookup (net.lookup_ip host)

  abbrev url_error : Option HostError → Option UrlError
  url_error none = none
  url_error (some e) = some (bad_host e)

  abbrev check_parsed : Option (Runes × Runes) → Option UrlError
  check_parsed none = some invalid_url
  check_parsed (some (scheme, host)) =
      if not (same_text scheme (codes "http")) && not (same_text scheme (codes "https"))
      then some bad_scheme
      else if is_empty host
      then some no_host
      else url_error (check_host host)

  unfoldable pub check_base_url : Runes → Option UrlError
  check_base_url raw_url = check_parsed (net.parse_url raw_url)

-- The results of the transport's DialContext; `connect` is the dialer, which is given the address, and not
-- what the check has resolved.
pub data Dialled {ℓ} (A : Type ℓ) : Type ℓ where
  bad_address : Dialled A
  refused : HostError → Dialled A
  connected : A → Dialled A

module _ {ℓ κ} {Ip : Type ℓ} {A : Type κ} (net : Net Ip) (env : Env) (connect : Runes → A) where
  abbrev dial_if : Option HostError → Runes → Dialled A
  dial_if none addr = connected (connect addr)
  dial_if (some e) addr = refused e

  abbrev dial_host : Option Runes → Runes → Dialled A
  dial_host none addr = bad_address
  dial_host (some host) addr = dial_if (check_host net env host) addr

  unfoldable pub dial_context : Runes → Dialled A
  dial_context addr = dial_host (net.split_host_port addr) addr
