-- ===== src/Firewall/Tests.antt =====
-- Runs of the methods of internal/firewall.
use pia_tun.Base.{
  ℕ, String, List, [], ◌∷◌, Bool, true, false, some, ◌≡◌, refl, ◌==◌, if◌then◌else◌, OnOk, pure, ok,
  ◌⊎◌, str_eq,
}
use pia_tun.Firewall.Backend.{Backends, check_caps, new}
use pia_tun.Firewall.BackendLaws.{new-IsAllowed}
use pia_tun.Firewall.Os.{Rules, put}
use pia_tun.Firewall.Exemptions.{Exemption, exempt_key, add_exemption, add_exemptions}
use pia_tun.Firewall.Blocked.{IsRefused, exemptions_blocked}
use pia_tun.Firewall.Killswitch.{Firewall, KillswitchConfig, setup}
use pia_tun.Firewall.Closed.{IsClosed}
use pia_tun.Firewall.Policy.{policy}
use pia_tun.Firewall.SetupCloses.{setup-IsClosed}
use pia_tun.Firewall.Methods.{
  Method, adds_exemption, removes_exemptions, allows_forwarded_port, calls, calls-IsClosed,
}
use pia_tun.Firewall.Simulated.{linux, linux_netfilter, fresh, baseline, lan, baseline-IsClosed}

abbrev pub booted : Firewall Rules
booted = record { active = false; active_port = 0; world = fresh }

abbrev any_cidr : String → Bool
any_cidr s = true

abbrev settings : KillswitchConfig
settings = record { lans = "10.0.0.0/8, fd00::/8"; ipv6_enabled = true }

setup-IsClosed_example :
    OnOk
      (λ lans fw. (fw.active ≡ true) × IsClosed (policy lans) fw.world)
      (setup linux any_cidr 3 settings booted)
setup-IsClosed_example = setup-IsClosed linux linux_netfilter any_cidr 3 settings booted

abbrev running : Firewall Rules
running = record { active = true; active_port = 4000; world = baseline }

abbrev itoa : ℕ → String
itoa n = if n == 4000 then "4000" else "5000"

abbrev session : List Method
session =
    adds_exemption "10.1.2.3" "443" "tcp" ∷ removes_exemptions ∷ allows_forwarded_port 5000 ∷ []

calls-IsClosed_example : IsClosed (policy lan) (calls linux itoa session running).world
calls-IsClosed_example =
    calls-IsClosed linux linux_netfilter itoa lan session running baseline-IsClosed

-- The exemption chain that an `AddExemption` left behind.
abbrev left_over : Rules
left_over = put exempt_key (some []) baseline

exemptions_blocked_example :
    ((ip port proto : String)
      → IsRefused linux linux_netfilter left_over (add_exemption linux ip port proto))
    × ((specs : List Exemption)
        → IsRefused linux linux_netfilter left_over (add_exemptions linux specs))
exemptions_blocked_example = exemptions_blocked linux linux_netfilter left_over [] refl

-- A system with both capabilities, whose nft tells of rules of legacy.
abbrev mixed : Backends ℕ
mixed = record {
  read_status = pure "Name:\tpia-tun\nCapEff:\t0000000000003000";
  parse_hex = λ text. some 12288;
  runs = λ backend. pure tt;
  combined_output = pure "# Warning: iptables-legacy tables present";
  init = λ command. pure tt;
}

new-IsAllowed_example :
    OnOk
      (λ found _.
        (found ≡ "nft")
        ⊎ ((found ≡ "legacy") × ((check_caps mixed (str_eq "" "legacy") 0).0 ≡ ok true)))
      (new mixed "" 0)
new-IsAllowed_example = new-IsAllowed mixed "" 0
