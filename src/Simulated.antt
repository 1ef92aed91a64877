-- ===== src/Simulated.antt =====
-- A computer whose calls of the system succeed, and that finds a server for every request.
use pia_tun.Base.{[], ◌∷◌, some, ok, pure, true, false}
use pia_tun.Base.Text.{codes}
use pia_tun.Host.{Host, found}
use pia_tun.Pia.Client.{Web}
use pia_tun.Vpn.Servers.{Race, answers, min_timer, all_answered}

abbrev pub first_answers : Race
first_answers =
    answers (record { idx = 0; latency = 30 })
      (answers (record { idx = 1; latency = 20 }) (min_timer all_answered))

module _ {W : Type 0} where
  abbrev pub internet : Web W
  internet = record {
    send = λ r. pure (record { status_code = 200; body = ok (codes "{}") });
    get_cert_pool = pure tt;
    parse_token = λ b. some ("secret", "");
    parse_regions = λ b. some (
        record {
          id = "us";
          name = "US";
          port_forward = true;
          wg =
              record { cn = "us401"; ip = "10.1.2.3"; region = ""; region_name = ""; pf = false }
              ∷ [];
        }
        ∷ []);
    parse_add_key = λ b. some (record {
      status = "OK";
      server_key = "key";
      server_port = 1337;
      peer_ip = "10.4.0.2";
      server_vip = "10.4.0.1";
      dns_servers = "10.0.0.243" ∷ [];
    });
    parse_dip = λ b. some [];
  }

  abbrev pub computer : Host W
  computer = record {
    web = internet;
    run = λ args. pure tt;
    output = λ input args. pure "out";
    start = λ args. pure tt;
    stat = λ file. pure tt;
    mkdir_all = λ file. pure tt;
    chmod = λ file. pure tt;
    write_file = λ file content. pure tt;
    remove_file = λ file. pure tt;
    now = λ t. (100000000000000, t);
    sleep = λ time. pure tt;
    ctx_err = pure tt;
    look_up = λ server names t. (("host", found ("10.1.1.1" ∷ [])) ∷ [], t);
    look_up_ip4 = λ name. pure ("10.1.1.1" ∷ []);
    race = λ ips t. (first_answers, t);
    itoa = λ n. "1337";
  }
