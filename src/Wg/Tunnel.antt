-- ===== src/Wg/Tunnel.antt =====
-- internal/wg/wg.go: the WireGuard interface and its routing rules.
use pia_tun.Base.{
  ℕ, zero, suc, String, List, [], ◌∷◌, ◌++◌, Bool, true, false, Option, none, some, ◌==◌, max,
  if◌then◌else◌, M, Result, ok, err, ◌>>=◌, ◌>>◌, pure, fail, ignore, attempt, str_eq,
}
use pia_tun.Base.Text.{chars, of_chars, trim_space, fields}
use pia_tun.Host.{Host}

pub record Config : Type 0 where
  pub private_key : String
  pub peer_public_key : String
  pub endpoint : String
  pub peer_ip : String
  pub mtu : ℕ
  pub ipv6_enabled : Bool
  pub backend : String

abbrev pub trimmed_text : String → String
trimmed_text s = of_chars (trim_space (chars s))

abbrev pub append_text : String → String → String
append_text a b = of_chars (chars a ++ chars b)

abbrev pub allowed_ips : Bool → String
allowed_ips true = "0.0.0.0/0, ::/0"
allowed_ips false = "0.0.0.0/0"

abbrev pub vpn_rule : List String
vpn_rule =
    "ip" ∷ "rule" ∷ "add" ∷ "not" ∷ "fwmark" ∷ "51820" ∷ "table" ∷ "51820" ∷ "priority" ∷ "200" ∷ []

abbrev pub suppress_rule : List String
suppress_rule =
    "ip" ∷ "rule" ∷ "add" ∷ "table" ∷ "main" ∷ "suppress_prefixlength" ∷ "0" ∷ "priority" ∷ "300"
    ∷ []

-- The field behind the first "dev".
abbrev pub after_dev : List String → Option String
after_dev [] = none
after_dev (f ∷ []) = none
after_dev (f ∷ g ∷ fs) = let rest = after_dev (g ∷ fs) in if str_eq f "dev" then some g else rest

abbrev pub rp_value : (String → ℕ) → Result String → ℕ
rp_value atoi (ok out) = atoi (trimmed_text out)
rp_value atoi (err e) = 0

module _ {W : Type 0} (host : Host W) where
  open host use {run, output, start, stat, mkdir_all, chmod, remove_file, sleep, ctx_err, itoa}

  unfoldable pub generate_key_pair : M W (String × String)
  generate_key_pair = do
    priv ← output "" ("wg" ∷ "genkey" ∷ [])
    pub_key ← output (trimmed_text priv) ("wg" ∷ "pubkey" ∷ [])
    pure (trimmed_text priv, trimmed_text pub_key)

  abbrev pub or_else : M W (Unit {0}) → Result (Unit {0}) → M W (Unit {0})
  or_else next (ok _) = pure tt
  or_else next (err e) = next

  unfoldable pub ensure_tun : M W (Unit {0})
  ensure_tun = do
    r ← attempt (stat "/dev/net/tun")
    or_else
        (mkdir_all "/dev/net"
          >> run ("mknod" ∷ "/dev/net/tun" ∷ "c" ∷ "10" ∷ "200" ∷ [])
          >> chmod "/dev/net/tun")
        r

  -- The polls until the deadline, which the fuel counts.
  unfoldable pub wait_for_interface : ℕ → M W (Unit {0})
  wait_for_interface zero = fail []
  wait_for_interface (suc polls) = do
    r ← attempt (stat "/var/run/wireguard/pia0.sock")
    or_else (ctx_err >> sleep 100000000 >> wait_for_interface polls) r

  unfoldable pub start_userspace : ℕ → M W String
  start_userspace polls = do
    ensure_tun
    start ("wireguard-go" ∷ "pia0" ∷ [])
    wait_for_interface polls
    pure "userspace"

  abbrev pub add_link : M W (Unit {0})
  add_link = run ("ip" ∷ "link" ∷ "add" ∷ "pia0" ∷ "type" ∷ "wireguard" ∷ [])

  abbrev pub kernel_or : M W String → Result (Unit {0}) → M W String
  kernel_or next (ok _) = pure "kernel"
  kernel_or next (err e) = next

  unfoldable pub create_interface : ℕ → String → M W String
  create_interface polls backend =
      if str_eq backend "kernel"
      then (add_link >> pure "kernel")
      else if str_eq backend "userspace"
      then start_userspace polls
      else (attempt add_link >>= kernel_or (start_userspace polls))

  -- `v, _ := strconv.Atoi(...)`: whether the value is 1 or above it is all that is asked.
  unfoldable pub rp_filter_val : (String → ℕ) → String → M W ℕ
  rp_filter_val atoi iface = do
    r ← attempt (
        output ""
          ("sysctl" ∷ "-n" ∷ append_text "net.ipv4.conf." (append_text iface ".rp_filter") ∷ []))
    pure (rp_value atoi r)

  abbrev pub check_rp_of : (String → ℕ) → Option String → M W (Unit {0})
  check_rp_of atoi none = pure tt
  check_rp_of atoi (some iface) = do
    a ← rp_filter_val atoi "all"
    b ← rp_filter_val atoi iface
    if max a b == 1 then fail [] else pure tt

  abbrev pub check_rp_route : (String → ℕ) → Result String → M W (Unit {0})
  check_rp_route atoi (err e) = pure tt
  check_rp_route atoi (ok out) = check_rp_of atoi (after_dev (fields out))

  unfoldable pub check_rp_filter : (String → ℕ) → M W (Unit {0})
  check_rp_filter atoi = do
    r ← attempt (output "" ("ip" ∷ "-4" ∷ "route" ∷ "show" ∷ "default" ∷ []))
    check_rp_route atoi r

  abbrev pub while_run : M W (Unit {0}) → Result (Unit {0}) → M W (Unit {0})
  while_run again (ok _) = again
  while_run again (err e) = pure tt

  -- `for { if run(...) != nil { break } }`, on fuel.
  unfoldable pub delete_rules : ℕ → String → M W (Unit {0})
  delete_rules zero p = pure tt
  delete_rules (suc fuel) p = do
    r ← attempt (run ("ip" ∷ "rule" ∷ "del" ∷ "priority" ∷ p ∷ []))
    while_run (delete_rules fuel p) r

  unfoldable pub cleanup_routing_rules : ℕ → M W (Unit {0})
  cleanup_routing_rules fuel = do delete_rules fuel "200"; delete_rules fuel "300"

  unfoldable pub down : ℕ → M W (Unit {0})
  down fuel = do
    ignore (run ("ip" ∷ "link" ∷ "set" ∷ "pia0" ∷ "down" ∷ []))
    ignore (run ("ip" ∷ "link" ∷ "del" ∷ "pia0" ∷ []))
    ignore (run ("pkill" ∷ "-f" ∷ "wireguard-go pia0" ∷ []))
    ignore (remove_file "/var/run/wireguard/pia0.sock")
    cleanup_routing_rules fuel

  -- What `Up` does with the interface. Its errors do not reach the variable `err` that the deferred
  -- function tests, so that function does nothing.
  unfoldable pub configure : (String → ℕ) → Config → M W (Unit {0})
  configure atoi cfg = do
    output cfg.private_key ("wg" ∷ "set" ∷ "pia0" ∷ "private-key" ∷ "/dev/stdin" ∷ []) >>= λ _.
        pure tt
    run ("ip" ∷ "address" ∷ "add" ∷ append_text cfg.peer_ip "/32" ∷ "dev" ∷ "pia0" ∷ [])
    run ("ip" ∷ "link" ∷ "set" ∷ "mtu" ∷ itoa (max cfg.mtu 1280) ∷ "dev" ∷ "pia0" ∷ [])
    run ("wg" ∷ "set" ∷ "pia0" ∷ "fwmark" ∷ "51820" ∷ [])
    run (
        "wg"
        ∷ "set"
        ∷ "pia0"
        ∷ "peer"
        ∷ cfg.peer_public_key
        ∷ "endpoint"
        ∷ cfg.endpoint
        ∷ "allowed-ips"
        ∷ allowed_ips cfg.ipv6_enabled
        ∷ "persistent-keepalive"
        ∷ "25"
        ∷ [])
    run ("ip" ∷ "link" ∷ "set" ∷ "pia0" ∷ "up" ∷ [])
    check_rp_filter atoi
    run ("ip" ∷ "route" ∷ "add" ∷ "0.0.0.0/0" ∷ "dev" ∷ "pia0" ∷ "table" ∷ "51820" ∷ [])
    run vpn_rule
    run suppress_rule

  unfoldable pub up : (String → ℕ) → ℕ → Config → M W String
  up atoi polls cfg = do
    backend ← create_interface polls cfg.backend
    configure atoi cfg
    pure backend
