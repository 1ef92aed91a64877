-- ===== src/App/Simulated.antt =====
-- A system on which the whole of internal/app runs, with two connections.
use pia_tun.Base.{List, [], ◌∷◌, true, false, none, some, pure, Bool, Option, not, ltb, length, map}
use pia_tun.Base.Text.{codes}
use pia_tun.Firewall.Os.{Rules, Spec}
use pia_tun.Firewall.Backend.{Backends}
use pia_tun.Firewall.Killswitch.{in_key}
use pia_tun.Host.{Host, found}
use pia_tun.Firewall.Simulated.{linux, linux_netfilter}
use pia_tun.Simulated.{computer}
use pia_tun.Vpn.Servers.{answers, all_answered}
use pia_tun.Vpn.Steps.{Calm}
use pia_tun.Portforward.Payload.{Codec}
use pia_tun.Portforward.Client.{Gateway, passed}
use pia_tun.Portforward.Manager.{no_state}
use pia_tun.Portforward.Keeps.{GatewayQuiet}
use pia_tun.App.Outside.{Config, Outside, Rounds, App}
use pia_tun.App.Running.{Turn, monitors, refreshes, forwards}
use pia_tun.App.Up.{OutsideQuiet}

-- A gateway that answers every request.
abbrev near : Gateway Rules
near = record {
  get = λ r. pure (codes "{}");
  parse_signature = λ b. some (record {
    status = "OK";
    message = "";
    payload = codes "cGF5bG9hZA==";
    signature = codes "c2ln";
  });
  parse_bind = λ b. some (record { status = "OK"; message = "" });
  wait = λ i d t. (passed, t);
  now = λ t. (100000000000000, t);
  write_port_file = λ file content. pure tt;
  get_cert_pool = pure tt;
}

abbrev codec : Codec
codec = record {
  decode_base64 = λ b. some b;
  unmarshal = λ b. some (record { port = 51000; expires_at = codes "2026-02-27T09:02:07Z" });
  parse_time = λ b. some 100000000000000;
}

-- A computer that finds every name, and whose tunnel has had a handshake.
abbrev tunnelled : Host Rules
tunnelled = record computer {
  output = λ input args. pure "peer 2";
  look_up = λ server names t. (map (λ name. (name, found ("10.1.1.1" ∷ []))) names, t);
  race = λ ips t. (answers (record { idx = 0; latency = 30 }) all_answered, t);
}

abbrev is_open : Option (List Spec) → Bool
is_open none = false
is_open (some specs) = ltb 3 (length specs)

abbrev nft : Backends Rules
nft = record {
  read_status = pure "Name:\tpia-tun\nCapEff:\t0000000000003000";
  parse_hex = λ text. some 12288;
  runs = λ backend. pure tt;
  combined_output = pure "Chain INPUT (policy ACCEPT)";
  init = λ command. pure tt;
}

-- A system on which the dials of the monitor fail while a port is open.
abbrev pub outside : Outside linux
outside = record {
  host = tunnelled;
  gateway = near;
  codec = codec;
  probe = record {
    dials = λ timeout hosts t. (not (is_open (t in_key)) ∷ [], t);
    now = λ t. (100000000000000, t);
    cancelled = λ t. false;
    next = λ t. (false, t);
  };
  dialer = record { dial_all = λ ips t. (true ∷ [], t); sleep_second = λ t. (false, t) };
  disk = record {
    read_file = λ f. pure (codes "nameserver 1.1.1.1\n");
    write_file = λ f content. pure tt;
    stat = λ f. pure tt;
    remove = λ f. pure tt;
  };
  tokens = record { read_file = λ f. pure "secret\n99990"; parse_int = λ s. some 99990 };
  ips = record { ask = λ urls t. ([], t); is_ip = λ ip. true };
  backends = nft;
  listen = pure tt;
  fetch_ip = λ targets t. (some "203.0.113.7", t);
  cancelled = λ t. false;
  sleep = λ seconds t. (false, t);
  atoi = λ text. 2;
  is_cidr = λ text. true;
  is_ip = λ text. true;
  text = λ bytes. "1.1.1.1";
}

pub calm : Calm linux linux_netfilter tunnelled
calm t = record {
  send = λ r. record { after = λ s p. p };
  get_cert_pool = record { after = λ s p. p };
  run = λ args. record { after = λ s p. p };
  output = λ input args. record { after = λ s p. p };
  start = λ args. record { after = λ s p. p };
  stat = λ file. record { after = λ s p. p };
  mkdir_all = λ file. record { after = λ s p. p };
  chmod = λ file. record { after = λ s p. p };
  write_file = λ file content. record { after = λ s p. p };
  remove_file = λ file. record { after = λ s p. p };
  now = record { after = λ s p. p };
  sleep = λ time. record { after = λ s p. p };
  ctx_err = record { after = λ s p. p };
  look_up = λ server names. record { after = λ s p. p };
  look_up_ip4 = λ name. record { after = λ s p. p };
  race = λ ips. record { after = λ s p. p };
}

pub near-Quiet : GatewayQuiet linux linux_netfilter tunnelled near
near-Quiet = record {
  get = λ r t. record { after = λ s p. p };
  wait = λ i d t. record { after = λ s p. p };
  now = λ t. record { after = λ s p. p };
  write_port_file = λ f c t. record { after = λ s p. p };
  get_cert_pool = λ t. record { after = λ s p. p };
  host_now = λ t. record { after = λ s p. p };
}

pub outside-Quiet : OutsideQuiet linux linux_netfilter outside
outside-Quiet t = record {
  dials = λ timeout hosts. record { after = λ s p. p };
  now = record { after = λ s p. p };
  dial_all = λ ips. record { after = λ s p. p };
  sleep_second = record { after = λ s p. p };
  read_file = λ f. record { after = λ s p. p };
  write_file = λ f content. record { after = λ s p. p };
  stat = λ f. record { after = λ s p. p };
  remove = λ f. record { after = λ s p. p };
  read_token = λ f. record { after = λ s p. p };
  ask = λ urls. record { after = λ s p. p };
  listen = record { after = λ s p. p };
  fetch_ip = λ targets. record { after = λ s p. p };
  sleep = λ seconds. record { after = λ s p. p };
}

abbrev pub rounds : Rounds
rounds = record { deletions = 3; checks = 40; waits = 3; retries = 3 }

abbrev pub settings : Config
settings = record {
  vpn = record {
    pia_user = "p1234567";
    pia_pass = "pass";
    location = "us";
    dip_token = "";
    pf_required = true;
    manual_cn = "";
    manual_ip = "";
    mtu = 1420;
    ipv6 = false;
    wg_backend = "kernel";
  };
  ipt_backend = "";
  killswitch = record { lans = "192.168.1.0/24"; ipv6_enabled = true };
  dns_mode = "pia";
  dns = [];
  bootstrap_dns = "149.112.112.9" ∷ [];
  get_real_ip = true;
  pf_enabled = true;
  pf = record {
    bind_interval = 900000000000;
    signature_safety_hours = 6;
    port_file = "/run/pia-tun/port";
  };
  monitor = record { interval = 10; failure_window = 0 };
}

abbrev pub app : Bool → Rules → App Rules
app active rules = record {
  manager = record {
    state = no_state;
    cache = record {
      token = "t";
      token_time = 0;
      auth_ips = [];
      server_list_ips = [];
      servers = [];
    };
    fw = record { active = active; active_port = 0; world = rules };
    port_ch = none;
  };
  forwarding = false;
  conn = record { server_ip = ""; server_cn = ""; client_ip = ""; pf_gateway = ""; dns = [] };
  dns = [];
  upstreams = [];
  pre_vpn_ip = "";
  connection_up = false;
  exited_cleanly = false;
}

abbrev pub lives : List (List Turn)
lives = (monitors ∷ forwards ∷ monitors ∷ []) ∷ (forwards ∷ refreshes ∷ []) ∷ []
