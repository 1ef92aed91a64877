-- ===== src/App/Outside.antt =====
-- What internal/app works with: the settings, the state, and the calls of the system.
use pia_tun.Base.{ℕ, String, List, Bool, Option, M}
use pia_tun.Base.Text.{Bytes}
use pia_tun.Firewall.Os.{Os}
use pia_tun.Firewall.Backend.{Backends}
use pia_tun.Firewall.Killswitch.{Firewall, KillswitchConfig}
use pia_tun.Host.{Host}
use pia_tun.Cacher.Cache.{Cached}
use pia_tun.Cacher.TokenFile.{TokenDisk}
use pia_tun.Dns.Resolv.{Disk}
use pia_tun.Vpn.Login.{Config as VpnConfig}
use pia_tun.Vpn.Setup.{ConnectionInfo}
use pia_tun.Vpn.Verify.{IpServices}
use pia_tun.Wan.{Dialer}
use pia_tun.Monitor.Checks.{Probe, Config as MonitorConfig}
use pia_tun.Portforward.Payload.{Codec}
use pia_tun.Portforward.Client.{Gateway}
use pia_tun.Portforward.Manager.{
  Manager, Config as ForwardConfig, on_fw as manager_fw, on_cached as manager_cached,
  on_system as manager_system,
}

-- The settings that the parts modelled here read.
pub record Config : Type 0 where
  pub vpn : VpnConfig
  pub killswitch : KillswitchConfig
  pub ipt_backend : String
  pub dns_mode : String
  pub dns : List String
  pub bootstrap_dns : List String
  pub get_real_ip : Bool
  pub pf_enabled : Bool
  pub pf : ForwardConfig
  pub monitor : MonitorConfig

pub record Outside (os : Os) : Type 0 where
  pub host : Host os.World
  pub gateway : Gateway os.World
  pub codec : Codec
  pub probe : Probe os.World
  pub dialer : Dialer os.World
  pub disk : Disk os.World
  pub tokens : TokenDisk os.World
  pub ips : IpServices os.World
  pub backends : Backends os.World
  -- The listeners of the proxy for DNS over TLS.
  pub listen : M os.World (Unit {0})
  -- The requests of `captureRealIP`, at these hosts and addresses: the first answer.
  pub fetch_ip : List (String × String) → os.World → Option String × os.World
  pub cancelled : os.World → Bool
  -- True if the context is cancelled before so many seconds have passed.
  pub sleep : ℕ → os.World → Bool × os.World
  pub atoi : String → ℕ
  pub is_cidr : String → Bool
  pub is_ip : String → Bool
  -- A text of bytes, as the other modules have it.
  pub text : Bytes → String

-- How many rounds the loops make that the source does not bound: the deletion of rules, the rapid
-- checks, the wait for the network, and a retry.
pub record Rounds : Type 0 where
  pub deletions : ℕ
  pub checks : ℕ
  pub waits : ℕ
  pub retries : ℕ

-- `App`: the manager's state stands for the cache and the firewall too; `forwarding` tells whether
-- port forwarding runs. `dns` is at first that of the settings.
pub record App (W : Type 0) : Type 0 where
  pub manager : Manager W
  pub forwarding : Bool
  pub conn : ConnectionInfo
  pub dns : List String
  pub upstreams : List (String × String)
  pub pre_vpn_ip : String
  pub connection_up : Bool
  pub exited_cleanly : Bool

module _ {W : Type 0} where
  abbrev pub on_manager : {A : Type 0} → M (Manager W) A → M (App W) A
  on_manager m s = let (r, v) = m s.manager in (r, record s { manager = v })

  abbrev pub on_fw : {A : Type 0} → M (Firewall W) A → M (App W) A
  on_fw m = on_manager (manager_fw m)

  abbrev pub on_cached : {A : Type 0} → M (Cached W) A → M (App W) A
  on_cached m = on_manager (manager_cached m)

  abbrev pub on_system : {A : Type 0} → M W A → M (App W) A
  on_system m = on_manager (manager_system m)

  abbrev pub world : App W → W
  world s = s.manager.fw.world
