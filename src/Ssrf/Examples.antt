-- ===== src/Ssrf/Examples.antt =====
-- The guard before a network of two addresses, 1 in the private range and 2 in the public one.
use keygrid.Prelude.{ℕ, ◌==◌, ◌≡◌, ◌↔◌, refl, false, [], ◌∷◌, none, some}
use keygrid.Failure.Message.{codes, is_space}
use keygrid.Access.Lists.{trim_space, trim_left, trim_right, split_commas}
use keygrid.Ssrf.{
  Net, Env, bad_host, reserved, connected, host_allowed, allowed_hosts, allowed_cidrs, ip_allowed,
  is_blocked, is_blocked_v4, check_host, check_base_url, dial_context,
}
use keygrid.Ssrf.Guard.{Accepts, check_base_url_iff}

abbrev two : Net ℕ
two = record {
  lookup_ip = λ host. some (2 ∷ []);
  to4 = λ ip. some ip;
  is_loopback = λ ip. false;
  is_private = λ ip. ip == 1;
  is_unspecified = λ ip. false;
  is_link_local_unicast = λ ip. false;
  is_link_local_multicast = λ ip. false;
  is_multicast = λ ip. false;
  parse_cidr = λ s. some (λ ip. false);
  to_lower = λ s. s;
  parse_url = λ s. some (codes "http", s);
  split_host_port = λ s. some s;
}

abbrev private : Net ℕ
private = record two { lookup_ip = λ host. some (2 ∷ 1 ∷ []) }

abbrev env : Env
env = record { allow_internal = []; allowed_hosts = codes "*.lan, b.org"; allowed_cidrs = [] }

check_base_url_iff_example :
    (check_base_url two env (codes "a.org") ≡ none) ↔ Accepts two env (codes "a.org")
check_base_url_iff_example = check_base_url_iff two env (codes "a.org")

-- One private address is enough to refuse a host, unless it is let through by its name; "lan" is no host of "*.lan".
private_refused : check_base_url private env (codes "a.org") ≡ some (bad_host reserved)
unfolding check_base_url check_host host_allowed allowed_hosts allowed_cidrs ip_allowed is_blocked
    is_blocked_v4 trim_space trim_left trim_right is_space split_commas
private_refused = refl

named_passes : check_base_url private env (codes "a.lan") ≡ none
unfolding check_base_url check_host host_allowed allowed_hosts trim_space trim_left trim_right
    is_space split_commas
named_passes = refl

bare_refused : check_base_url private env (codes "lan") ≡ some (bad_host reserved)
unfolding check_base_url check_host host_allowed allowed_hosts allowed_cidrs ip_allowed is_blocked
    is_blocked_v4 trim_space trim_left trim_right is_space split_commas
bare_refused = refl

-- A name that resolves to the public address for the check is connected to the private one by the dialer, which
-- resolves it again.
rebound :
    dial_context two env (λ addr. private.lookup_ip addr) (codes "a.org")
    ≡ connected (some (2 ∷ 1 ∷ []))
unfolding dial_context check_host host_allowed allowed_hosts allowed_cidrs ip_allowed is_blocked
    is_blocked_v4 trim_space trim_left trim_right is_space split_commas
rebound = refl
