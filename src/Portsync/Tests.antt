-- ===== src/Portsync/Tests.antt =====
-- Runs of internal/portsync.
use pia_tun.Base.{List, [], ◌∷◌, ◌++◌, true, false, some, ◌≡◌, refl, arith, ok, pure}
use pia_tun.Base.Text.{Bytes, codes}
use pia_tun.Portsync.Json.{quote, json_escape}
use pia_tun.Portsync.JsonLaws.{read_string, read_string-json_escape}
use pia_tun.Portsync.Net.{Net}
use pia_tun.Portsync.Qbittorrent.{login, set_port, verify_port, sync_port}
use pia_tun.Portsync.Confirmed.{Confirmed}
use pia_tun.Portsync.Syncer.{
  Config, new, Move, notifies, receives, tries, run, notify_port, try_sync, client_of,
  normalize_client,
}
use pia_tun.Portsync.Latest.{Delivered, run-Delivered}

abbrev torrent : Config
torrent = record {
  client = "qbit";
  url = "";
  user = "admin";
  pass = "secret";
  script = "notify {PORT}";
}

-- The port changes while the client does not answer.
abbrev moves : List Move
moves =
    notifies 51000
    ∷ receives
    ∷ tries false true
    ∷ notifies 52000
    ∷ notifies 53000
    ∷ tries true false
    ∷ receives
    ∷ tries true false
    ∷ tries false true
    ∷ []

run-Delivered_example : Delivered 53000 (run moves (new torrent))
unfolding run new notify_port try_sync client_of normalize_client
run-Delivered_example =
    run-Delivered torrent moves 53000 (tt, (tt, (tt, (tt, (tt, (tt, (tt, (tt, (tt, tt))))))))) refl
      refl refl

-- A qBittorrent that does what it is told.
abbrev shows : Bytes → Bytes
shows port = codes "{\"listen_port\":" ++ (port ++ codes ",\"upnp\":false}")

abbrev local_net : Net (Unit {0})
local_net = record {
  send = λ r. pure (record { status_code = 200; body = ok (shows (codes "51000")) });
  encode_form = λ form. [];
  itoa = λ n. codes "51000";
  shell = λ s. pure tt;
  sleep = λ n. pure tt;
}

-- It does succeed on that network.
sync_port_succeeds :
    sync_port local_net (codes "http://localhost:8080") [] [] 51000 tt ≡ (ok tt, tt)
unfolding sync_port login set_port verify_port
sync_port_succeeds = refl

read_string-json_escape_example :
    read_string (json_escape (codes "a\"b\\c") ++ (quote ∷ codes "],\"id\":1}"))
    ≡ some (codes "a\"b\\c", codes "],\"id\":1}")
read_string-json_escape_example =
    read_string-json_escape (codes "a\"b\\c") (codes "],\"id\":1}") (ground arith)
