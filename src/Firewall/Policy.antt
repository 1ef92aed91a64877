-- ===== src/Firewall/Policy.antt =====
-- The rules that the program means to have before each DROP: what docs/firewall.md describes.
use pia_tun.Base.{
  String, List, [], ◌∷◌, Bool, true, false, ◌&&◌, ◌||◌, ◌≡◌, refl, arith, str_eq, str_eq_refl,
  str_eq_iff,
}
use pia_tun.Firewall.Os.{Spec, same_spec, vpn_exemptions}
use pia_tun.Firewall.Chains.{established, loopback, jump}
use pia_tun.Firewall.Exemptions.{fwmark_spec, iface_spec}
use pia_tun.Firewall.LocalNetworks.{Lans, source_rule, destination_rule}
use pia_tun.Firewall.Killswitch.{wan_check_ips, bypass_spec, icmpv6_spec}
use pia_tun.Firewall.Closed.{Policy}

-- The rule is `make n` for some `n` of the list.
abbrev pub is_one_of : (String → Spec) → List String → Spec → Bool
is_one_of make [] s = false
is_one_of make (n ∷ ns) s = same_spec s (make n) || is_one_of make ns s

-- A rule of `AllowForwardedPort`, for some port.
abbrev pub is_port_rule : Spec → Bool
is_port_rule (a ∷ b ∷ c ∷ proto ∷ e ∷ port ∷ g ∷ h ∷ []) =
    str_eq a "-i"
    && str_eq b "pia0"
    && str_eq c "-p"
    && (str_eq proto "tcp" || str_eq proto "udp")
    && str_eq e "--dport"
    && str_eq g "-j"
    && str_eq h "ACCEPT"
is_port_rule _ = false

-- Replies, the loopback, the tunnel, WireGuard's own packets, the exemptions of the moment, the two
-- time servers, ICMPv6, the local networks, and the forwarded port; nothing else.
abbrev pub policy : Lans → Policy
policy lans = record {
  in4 = λ s.
      same_spec s established
      || same_spec s (loopback "-i")
      || is_port_rule s
      || is_one_of source_rule lans.v4 s;
  out4 = λ s.
      same_spec s established
      || same_spec s (loopback "-o")
      || same_spec s fwmark_spec
      || same_spec s iface_spec
      || same_spec s (jump vpn_exemptions)
      || is_one_of bypass_spec wan_check_ips s
      || is_one_of destination_rule lans.v4 s;
  in6 = λ s.
      same_spec s established
      || same_spec s (loopback "-i")
      || same_spec s icmpv6_spec
      || is_one_of source_rule lans.v6 s;
  out6 = λ s.
      same_spec s established
      || same_spec s (loopback "-o")
      || same_spec s iface_spec
      || same_spec s icmpv6_spec
      || is_one_of destination_rule lans.v6 s;
}

pub same_spec_refl : (s : Spec) → same_spec s s ≡ true
same_spec_refl [] = refl
same_spec_refl (x ∷ s) = ground (arith, str_eq_refl x, same_spec_refl s)

-- A test that the list has the network.
abbrev pub has_network : List String → String → Bool
has_network [] n = false
has_network (m ∷ ms) n = str_eq m n || has_network ms n

-- A rule that is made for a network of the list is one of those.
pub is_one_of-make :
    (make : String → Spec) (n : String) (ns : List String)
    → has_network ns n ≡ true
    → is_one_of make ns (make n) ≡ true
is_one_of-make make n [] h = cc
is_one_of-make make n (m ∷ ms) h =
    ground (arith, str_eq_iff m n, same_spec_refl (make n), is_one_of-make make n ms)

-- All networks of the first list are in the second.
abbrev pub AllIn : List String → List String → Type 0
AllIn [] ns = Unit
AllIn (m ∷ ms) ns = (has_network ns m ≡ true) × AllIn ms ns

AllIn-cons : (m : String) (ms ns : List String) → AllIn ms ns → AllIn ms (m ∷ ns)
AllIn-cons m [] ns h = tt
AllIn-cons m (x ∷ ms) ns h = (ground arith, AllIn-cons m ms ns h.1)

pub AllIn-refl : (ns : List String) → AllIn ns ns
AllIn-refl [] = tt
AllIn-refl (m ∷ ms) = (ground (arith, str_eq_refl m), AllIn-cons m ms ms (AllIn-refl ms))
