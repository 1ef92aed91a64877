-- ===== src/Portsync/Syncer.antt =====
-- internal/portsync/portsync.go: `New`, `NotifyPort`, and `Run` with `handleNewPort`, as the moves that
-- their `select` statements can make.
use pia_tun.Base.{
  ℕ, String, List, [], ◌∷◌, ◌++◌, Bool, true, false, not, ◌&&◌, ◌||◌, Option, none, some, str_eq,
  if◌then◌else◌,
}

pub record Config : Type 0 where
  pub client : String
  pub url : String
  pub user : String
  pub pass : String
  pub script : String

unfoldable pub normalize_client : String → String
normalize_client ct =
    if str_eq ct "qbittorrent" || str_eq ct "qbit" || str_eq ct "qb"
    then "qbittorrent"
    else if str_eq ct "transmission" || str_eq ct "trans"
    then "transmission"
    else if str_eq ct "deluge"
    then "deluge"
    else ct

unfoldable pub default_url : String → String
default_url client =
    if str_eq (normalize_client client) "qbittorrent"
    then "http://localhost:8080"
    else if str_eq (normalize_client client) "transmission"
    then "http://localhost:9091"
    else if str_eq (normalize_client client) "deluge"
    then "http://localhost:8112"
    else ""

-- The implementations of `Client`, with what they are made with.
pub data Client : Type 0 where
  qbittorrent transmission : (url user pass : String) → Client
  deluge : (url pass : String) → Client

abbrev pub url_of : Config → String
url_of cfg = if str_eq cfg.url "" then default_url cfg.client else cfg.url

abbrev pub client_named : String → String → Config → Option Client
client_named name url cfg =
    if str_eq name "qbittorrent"
    then some (qbittorrent url cfg.user cfg.pass)
    else if str_eq name "transmission"
    then some (transmission url cfg.user cfg.pass)
    else if str_eq name "deluge"
    then some (deluge url cfg.pass)
    else none

unfoldable pub client_of : Config → Option Client
client_of cfg = client_named (normalize_client cfg.client) (url_of cfg) cfg

-- Where the goroutine of `Run` is: at its `select`, in the loop of `handleNewPort` for a port with the
-- flags of that loop, or behind its `return`.
pub data Place : Type 0 where
  waiting : Place
  handling : (port : ℕ) → (client_ok script_ok : Bool) → Place
  stopped : Place

-- A call of `SyncPort` or of the script for a port, and whether it succeeded.
pub data Call : Type 0 where
  syncs runs : (port : ℕ) → (answer : Bool) → Call

-- `portCh` holds one port at most; `calls` is what was called, the latest first.
pub record Syncer : Type 0 where
  pub has_client : Bool
  pub has_script : Bool
  pub port_ch : Option ℕ
  pub place : Place
  pub calls : List Call

-- `New`
unfoldable pub new : Config → Syncer
new cfg = record {
  has_client = elim (client_of cfg) [ none ↦ false | some c ↦ true ];
  has_script = not (str_eq cfg.script "");
  port_ch = none;
  place = waiting;
  calls = [];
}

-- Another goroutine calls `NotifyPort`; or that of `Run` takes a port from the channel, makes an attempt
-- when its timer fires, which the client and the script answer so, or sees that the context is done.
pub data Move : Type 0 where
  notifies : ℕ → Move
  receives : Move
  tries : (client_answer script_answer : Bool) → Move
  is_done : Move

-- `NotifyPort`: the port that waits is taken out, so that the send does not block.
unfoldable pub notify_port : ℕ → Syncer → Syncer
notify_port port s = record s { port_ch = some port }

-- What `handleNewPort` starts with.
abbrev pub handle : ℕ → Syncer → Place
handle port s = handling port (not s.has_client) (not s.has_script)

-- A case of either `select` that receives a port: `Run` handles it, and the loop for another port is
-- left for it. Nothing is received from an empty channel.
abbrev pub receive_at : Place → Option ℕ → Syncer → Syncer
receive_at waiting (some port) s = record s { port_ch = none; place = handle port s }
receive_at (handling _ _ _) (some port) s = record s { port_ch = none; place = handle port s }
receive_at _ _ s = s

abbrev pub attempted : Bool → Call → List Call
attempted b c = if b then c ∷ [] else []

-- `trySync` with the test behind it, which ends the loop.
unfoldable pub try_sync : ℕ → Bool → Bool → Bool → Bool → Syncer → Syncer
try_sync port client_ok script_ok client_answer script_answer s =
    let ask = s.has_client && not client_ok in
    let execute = s.has_script && not script_ok in
    let client' = client_ok || (ask && client_answer) in
    let script' = script_ok || (execute && script_answer) in
    record s {
      place = if client' && script' then waiting else handling port client' script';
      calls =
          attempted execute (runs port script_answer)
          ++ (attempted ask (syncs port client_answer) ++ s.calls);
    }

abbrev pub try_at : Place → Bool → Bool → Syncer → Syncer
try_at (handling port c d) client_answer script_answer s =
    try_sync port c d client_answer script_answer s
try_at _ _ _ s = s

-- `ctx.Done()`: the loop of `handleNewPort` returns to `Run`, which returns.
abbrev pub done_at : Place → Place
done_at waiting = stopped
done_at (handling _ _ _) = waiting
done_at stopped = stopped

abbrev pub move : Move → Syncer → Syncer
move (notifies port) s = notify_port port s
move receives s = receive_at s.place s.port_ch s
move (tries c d) s = try_at s.place c d s
move is_done s = record s { place = done_at s.place }

unfoldable pub run : List Move → Syncer → Syncer
run [] s = s
run (m ∷ ms) s = run ms (move m s)
