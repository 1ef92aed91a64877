-- ===== src/Firewall/Exemptions.antt =====
-- internal/firewall/vpnrules.go: the exemption chain, the VPN's rules, the forwarded port.
use pia_tun.Base.{
  ℕ, String, List, [], ◌∷◌, Bool, if◌then◌else◌, M, Result, ◌>>=◌, ◌>>◌, pure, ignore, attempt,
}
use pia_tun.Firewall.Os.{
  Os, Key, ipv4, ipv6, vpn_out, vpn_out6, vpn_exemptions, Spec, new_chain, append, insert, delete,
  clear_and_delete_chain,
}
use pia_tun.Firewall.Chains.{in_filter, jump}

pub record Exemption : Type 0 where
  pub ip : String
  pub port : String
  pub proto : String
  pub comment : String

abbrev pub vpn_insert_pos : ℕ
vpn_insert_pos = 3

abbrev pub port_insert_pos : ℕ
port_insert_pos = 3

abbrev pub exempt_key : Key
exempt_key = in_filter ipv4 vpn_exemptions

abbrev pub out_key : Key
out_key = in_filter ipv4 vpn_out

abbrev pub exempt_rule : String → String → String → Spec
exempt_rule ip port proto = "-d" ∷ ip ∷ "-p" ∷ proto ∷ "--dport" ∷ port ∷ "-j" ∷ "ACCEPT" ∷ []

abbrev pub fwmark_spec : Spec
fwmark_spec = "-m" ∷ "mark" ∷ "--mark" ∷ "51820" ∷ "-j" ∷ "ACCEPT" ∷ []

abbrev pub iface_spec : Spec
iface_spec = "-o" ∷ "pia0" ∷ "-j" ∷ "ACCEPT" ∷ []

module _ (os : Os) where
  open os use {World, iptables}

  unfoldable pub create_exempt_chain : M World (Unit {0})
  create_exempt_chain = do
    iptables (new_chain exempt_key)
    ignore (iptables (insert out_key 1 (jump vpn_exemptions)))

  unfoldable pub add_exemption : String → String → String → M World (Unit {0})
  add_exemption ip port proto = do
    create_exempt_chain
    iptables (append exempt_key (exempt_rule ip port proto))

  unfoldable pub append_exemptions : List Exemption → M World (Unit {0})
  append_exemptions [] = pure tt
  append_exemptions (s ∷ specs) = do
    ignore (iptables (append exempt_key (exempt_rule s.ip s.port s.proto)))
    append_exemptions specs

  unfoldable pub add_exemptions : List Exemption → M World (Unit {0})
  add_exemptions specs = do create_exempt_chain; append_exemptions specs

  unfoldable pub remove_exemptions : M World (Unit {0})
  remove_exemptions = do
    ignore (iptables (delete out_key (jump vpn_exemptions)))
    ignore (iptables (clear_and_delete_chain exempt_key))

  -- A call between an exemption and `RemoveExemptions`: the call's error is a value of the code that
  -- follows, and an exemption that fails ends it all.
  unfoldable pub guarded : {A : Type 0} → M World (Unit {0}) → M World A → M World (Result A)
  guarded add m = do add; r ← attempt m; remove_exemptions; pure r

  unfoldable pub add_vpn : Bool → M World (Unit {0})
  add_vpn ipv6_enabled = do
    iptables (insert out_key vpn_insert_pos fwmark_spec)
    iptables (insert out_key vpn_insert_pos iface_spec)
    if ipv6_enabled
        then iptables (insert (in_filter ipv6 vpn_out6) vpn_insert_pos iface_spec)
        else pure tt
