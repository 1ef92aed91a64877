-- ===== src/Portforward/Tests.antt =====
-- Runs of internal/portforward.
use pia_tun.Base.{
  ℕ, ◌+◌, ◌≤◌, leb, [], ◌∷◌, true, none, some, ◌≡◌, refl, inl, arith, if◌then◌else◌, M, pure, ok,
  errors_is, err_reconnect,
}
use pia_tun.Base.Text.{codes}
use pia_tun.Base.Outcomes.{OnEither}
use pia_tun.Firewall.Os.{Os, drop_rule}
use pia_tun.Firewall.Chains.{established, loopback}
use pia_tun.Firewall.Simulated.{linux, linux_netfilter, linux-Reliable, baseline}
use pia_tun.Simulated.{computer}
use pia_tun.Portforward.Payload.{Codec}
use pia_tun.Portforward.Client.{Gateway, Waited, passed, deadline_exceeded, Tried, failed}
use pia_tun.Portforward.Manager.{
  Config, ConnectionConfig, Manager, no_state, retry_from, rounds_left, run, tick,
}
use pia_tun.Portforward.Keeps.{GatewayQuiet}
use pia_tun.Portforward.Closes.{HasNoPort, Held}
use pia_tun.Portforward.Retrying.{Clocked, retry_from-ends}
use pia_tun.Portforward.RunCloses.{run-closes_port, tick_reconnects}

-- The gateway answers every request, and the payload is read as port 51000.
abbrev gateway : {W : Type 0} → (ℕ → ℕ → W → Waited × W) → (W → ℕ × W) → Gateway W
gateway wait now = record {
  get = λ r. pure (codes "{}");
  parse_signature = λ b. some (record {
    status = "OK";
    message = "";
    payload = codes "cGF5bG9hZA==";
    signature = codes "c2ln";
  });
  parse_bind = λ b. some (record { status = "OK"; message = "" });
  wait = wait;
  now = now;
  write_port_file = λ file content. pure tt;
  get_cert_pool = pure tt;
}

abbrev codec : Codec
codec = record {
  decode_base64 = λ b. some b;
  unmarshal = λ b. some (record { port = 51000; expires_at = codes "2026-02-27T09:02:07Z" });
  parse_time = λ b. some 100000000000000;
}

abbrev near : Gateway linux.World
near = gateway (λ i d t. (passed, t)) (λ t. (100000000000000, t))

near-Quiet : GatewayQuiet linux linux_netfilter computer near
near-Quiet = record {
  get = λ r t. record { after = λ s p. p };
  wait = λ i d t. record { after = λ s p. p };
  now = λ t. record { after = λ s p. p };
  write_port_file = λ f c t. record { after = λ s p. p };
  get_cert_pool = λ t. record { after = λ s p. p };
  host_now = λ t. record { after = λ s p. p };
}

abbrev settings : Config
settings = record {
  bind_interval = 900000000000;
  signature_safety_hours = 6;
  port_file = "/run/pia-tun/port";
}

abbrev connection : ConnectionConfig
connection = record { client_ip = "10.4.0.2"; server_cn = "us401"; pf_gateway = "10.4.0.1" }

abbrev manager : {W : Type 0} → W → Manager W
manager w = record {
  state = no_state;
  cache = record { token = "t"; token_time = 0; auth_ips = []; server_list_ips = []; servers = [] };
  fw = record { active = true; active_port = 0; world = w };
  port_ch = none;
}

baseline-HasNoPort : HasNoPort baseline established (loopback "-i") (drop_rule ∷ [])
baseline-HasNoPort = record {
  rules = refl;
  first = λ proto port. refl;
  second = λ proto port. refl;
  others = λ proto port. refl;
}

run-closes_port_example :
    (run linux computer near codec settings connection 3 (manager baseline)).1.fw.world ≡ baseline
run-closes_port_example =
    run-closes_port linux linux_netfilter computer near codec near-Quiet linux-Reliable baseline
      established (loopback "-i") (drop_rule ∷ []) baseline-HasNoPort settings connection 3
      (manager baseline) refl

tick_reconnects_example :
    OnEither
      (λ _ v.
        Held linux linux_netfilter linux-Reliable baseline established
          (loopback "-i")
          (drop_rule ∷ [])
          baseline-HasNoPort
          (computer {W = linux.World}).itoa
          v.fw.world
          v.fw.active
          v.fw.active_port)
      (λ e v. (errors_is e err_reconnect ≡ true) × (v.fw.world ≡ baseline))
      (tick linux computer near codec settings connection (manager baseline))
tick_reconnects_example =
    tick_reconnects linux linux_netfilter computer near codec near-Quiet linux-Reliable baseline
      established (loopback "-i") (drop_rule ∷ []) baseline-HasNoPort settings connection
      (manager baseline) (inl refl)

-- A system whose state is the time.
abbrev timed : Os
timed = record {
  World = ℕ;
  iptables = λ op. pure tt;
  list = λ k. pure [];
  ip = λ args. pure tt;
  ip_output = λ args. pure "";
}

abbrev timed_wait : ℕ → ℕ → ℕ → Waited × ℕ
timed_wait i d w = if leb (w + i) d then (passed, w + i) else (deadline_exceeded, d)

abbrev slow : Gateway ℕ
slow = gateway timed_wait (λ w. (w, w))

timed_passes : (i d w w' : ℕ) → timed_wait i d w ≡ (passed, w') → (w + i ≤ d) × (w + i ≤ w')
timed_passes i d w w' h = ground arith

slow-Clocked : Clocked slow
slow-Clocked = record { at = λ w. w; passes = timed_passes }

abbrev no_answer : M (Manager ℕ) (Tried ℕ)
no_answer s = (ok failed, s)

retry_from-ends_example :
    retry_from timed computer slow codec
      (rounds_left 60000000000 0 + 4)
      60000000000
      no_answer
      (manager 0)
    ≡ retry_from timed computer slow codec
        (rounds_left 60000000000 0)
        60000000000
        no_answer
        (manager 0)
retry_from-ends_example =
    retry_from-ends timed computer slow codec slow-Clocked no_answer (λ s. omega arith) 4
      60000000000 0 (manager 0) (omega arith)
