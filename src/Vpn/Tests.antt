-- ===== src/Vpn/Tests.antt =====
-- Runs of internal/vpn on a system whose calls succeed.
use pia_tun.Base.{
  Option, none, errors_is, err_token_rejected, refl, ℕ, String, List, [], ◌∷◌, map, true, false,
  some, ◌≡◌, ◌≤◌, ok, OnOk, pure, arith, length,
}
use pia_tun.Firewall.Os.{Rules, Op, Spec, changed, key_of}
use pia_tun.Firewall.Closed.{IsClosed}
use pia_tun.Firewall.Policy.{policy}
use pia_tun.Firewall.Simulated.{
  applied, linux, linux_netfilter, linux-Reliable, baseline, lan, sealed_chain, baseline-IsClosed,
  baseline-IsReady,
}
use pia_tun.Simulated.{first_answers, internet, computer}
use pia_tun.Host.{Host}
use pia_tun.Pia.Types.{Server}
use pia_tun.Cacher.Cache.{Cached}
use pia_tun.Vpn.Servers.{one_per_region, region_of, collect, collect_max, chosen, location_set}
use pia_tun.Base.Outcomes.{OnEither}
use pia_tun.Vpn.Tokens.{get_token-InCache, Settled, register_rejected}
use pia_tun.Vpn.Login.{get_token, Config}
use pia_tun.Vpn.Choice.{select_server}
use pia_tun.Vpn.Setup.{register, setup}
use pia_tun.Vpn.Steps.{Calm}
use pia_tun.Vpn.LeavesRules.{setup-restores, connect-IsClosed}
use pia_tun.Vpn.Selection.{race-IsBest, IsBest}
use pia_tun.Base.Unseen.{Distinct, has_text}
use pia_tun.Vpn.Candidates.{one_per_region_lem, select_server-IsCandidate, IsCandidate}

computer-Calm : Calm linux linux_netfilter computer
computer-Calm t = record {
  send = λ r. record { after = λ s p. p };
  get_cert_pool = record { after = λ s p. p };
  run = λ args. record { after = λ s p. p };
  output = λ input args. record { after = λ s p. p };
  start = λ args. record { after = λ s p. p };
  stat = λ file. record { after = λ s p. p };
  mkdir_all = λ file. record { after = λ s p. p };
  chmod = λ file. record { after = λ s p. p };
  write_file = λ file content. record { after = λ s p. p };
  remove_file = λ file. record { after = λ s p. p };
  now = record { after = λ s p. p };
  sleep = λ time. record { after = λ s p. p };
  ctx_err = record { after = λ s p. p };
  look_up = λ server names. record { after = λ s p. p };
  look_up_ip4 = λ name. record { after = λ s p. p };
  race = λ ips. record { after = λ s p. p };
}

abbrev server : String → String → String → Server
server cn ip region = record { cn = cn; ip = ip; region = region; region_name = region; pf = true }

abbrev us : Server
us = server "us401" "10.1.2.3" "us"

abbrev uk : Server
uk = server "uk402" "10.1.2.4" "uk"

abbrev settings : Config
settings = record {
  pia_user = "p1234567";
  pia_pass = "pass";
  location = "us, uk";
  dip_token = "";
  pf_required = true;
  manual_cn = "";
  manual_ip = "";
  mtu = 1420;
  ipv6 = false;
  wg_backend = "kernel";
}

abbrev start_state : Cached Rules
start_state = record {
  cache = record {
    token = "";
    token_time = 0;
    auth_ips = "10.9.9.9" ∷ [];
    server_list_ips = [];
    servers = us ∷ uk ∷ [];
  };
  world = baseline;
}

abbrev atoi : String → ℕ
atoi s = 2

abbrev resolvers : List String
resolvers = "149.112.112.9" ∷ []

setup-restores_example :
    (setup linux computer atoi resolvers settings start_state).1.world ≡ baseline
setup-restores_example =
    setup-restores linux linux_netfilter computer computer-Calm linux-Reliable (sealed_chain "-o")
      atoi resolvers settings start_state baseline-IsReady

connect-IsClosed_example :
    IsClosed (policy lan) (setup linux computer atoi resolvers settings start_state).1.world
connect-IsClosed_example =
    connect-IsClosed linux linux_netfilter computer computer-Calm lan atoi resolvers settings
      start_state baseline-IsClosed

race-IsBest_example :
    (length (collect [] first_answers) ≤ collect_max)
    × (srv : Server) × (latency : ℕ) × (chosen us (us ∷ uk ∷ []) (collect [] first_answers)
        ≡ some (srv, latency))
    × IsBest us (us ∷ uk ∷ []) (collect [] first_answers) srv latency
race-IsBest_example = race-IsBest us (uk ∷ []) first_answers (omega arith, (omega arith, tt))

select_server-IsCandidate_example :
    OnOk
      (λ choice c. IsCandidate (location_set "us, uk") true (us ∷ uk ∷ []) choice.0)
      (select_server linux computer atoi resolvers settings start_state)
select_server-IsCandidate_example =
    select_server-IsCandidate linux computer atoi resolvers settings start_state

one_per_region_lem_example :
    Distinct region_of (one_per_region (us ∷ uk ∷ us ∷ []))
    × ((region : String)
        → has_text (map region_of (one_per_region (us ∷ uk ∷ us ∷ []))) region
          ≡ has_text (map region_of (us ∷ uk ∷ us ∷ [])) region)
one_per_region_lem_example = one_per_region_lem (us ∷ uk ∷ us ∷ [])

get_token-InCache_example :
    OnOk
      (λ token d. d.cache.token ≡ token)
      (get_token linux computer atoi resolvers settings start_state)
get_token-InCache_example = get_token-InCache linux computer atoi resolvers settings start_state

-- With a token that is less than a day old.
abbrev logged_in : Cached Rules
logged_in = record start_state {
  cache = record start_state.cache { token = "secret"; token_time = 99000000000000 };
}

-- A server that answers every request by 401.
abbrev refusing : Host Rules
refusing = record computer {
  web = record internet { send = λ r. pure (record { status_code = 401; body = ok [] }) };
}

-- `linux` fails with no error that wraps a sentinel.
applied_errors :
    (op : Op) (t : Rules) (o : Option (Option (List Spec)))
    → OnEither (λ _ _. Unit {0}) (λ e _. errors_is e err_token_rejected ≡ false) (applied op t o)
applied_errors op t none = refl
applied_errors op t (some v) = tt

linux_errors :
    (op : Op) (t : Rules)
    → OnEither
        (λ _ _. Unit {0})
        (λ e _. errors_is e err_token_rejected ≡ false)
        (linux.iptables op t)
linux_errors op t = applied_errors op t (changed op (t (key_of op)))

register_rejected_example :
    OnEither
      (λ _ d. d.cache ≡ logged_in.cache)
      (Settled linux refusing atoi resolvers settings logged_in)
      (register linux refusing atoi resolvers settings "secret" "10.1.2.3" "us401" "key" logged_in)
register_rejected_example =
    register_rejected linux refusing atoi resolvers settings "secret" "10.1.2.3" "us401" "key"
      logged_in linux_errors
