-- ===== src/Host.antt =====
-- What the program asks of the system besides the packet filter: commands, files, the clock, DNS
-- and HTTP. The calls share one state.
use pia_tun.Base.{ℕ, String, List, M, Keeps, total}
use pia_tun.Pia.Client.{Web, Request}
use pia_tun.Vpn.Servers.{Race}

-- What `LookupIP` gives for a name: addresses, a `net.DNSError` with `IsNotFound`, or another error.
pub data Looked : Type 0 where
  found : List String → Looked
  not_found failed : Looked

pub record Host (W : Type 0) : Type 0 where
  pub web : Web W
  -- `exec.CommandContext(ctx, name, args...)` with `Run`, and with `Output` and a standard input.
  pub run : List String → M W (Unit {0})
  pub output : String → List String → M W String
  pub start : List String → M W (Unit {0})
  pub stat : String → M W (Unit {0})
  pub mkdir_all : String → M W (Unit {0})
  pub chmod : String → M W (Unit {0})
  pub write_file : String → String → M W (Unit {0})
  pub remove_file : String → M W (Unit {0})
  -- `time.Now()`, in nanoseconds.
  pub now : W → ℕ × W
  pub sleep : ℕ → M W (Unit {0})
  -- `ctx.Err()`
  pub ctx_err : M W (Unit {0})
  -- The answers of a DNS server about the names, in the order in which they come.
  pub look_up : String → List String → W → List (String × Looked) × W
  -- The system's resolver.
  pub look_up_ip4 : String → M W (List String)
  -- Connections to port 1337 of all addresses at once.
  pub race : List String → W → Race × W
  -- `strconv.Itoa`, and `FormatInt` and `%d` with it.
  pub itoa : ℕ → String

-- No call of the system changes the property of its state.
pub record HostKeeps {W : Type 0} (host : Host W) (P : W → Type 0) : Type 0 where
  pub send : (r : Request) → Keeps P (host.web.send r)
  pub get_cert_pool : Keeps P host.web.get_cert_pool
  pub run : (args : List String) → Keeps P (host.run args)
  pub output : (input : String) (args : List String) → Keeps P (host.output input args)
  pub start : (args : List String) → Keeps P (host.start args)
  pub stat : (file : String) → Keeps P (host.stat file)
  pub mkdir_all : (file : String) → Keeps P (host.mkdir_all file)
  pub chmod : (file : String) → Keeps P (host.chmod file)
  pub write_file : (file content : String) → Keeps P (host.write_file file content)
  pub remove_file : (file : String) → Keeps P (host.remove_file file)
  pub now : Keeps P (total host.now)
  pub sleep : (time : ℕ) → Keeps P (host.sleep time)
  pub ctx_err : Keeps P host.ctx_err
  pub look_up :
      (server : String) (names : List String) → Keeps P (total (host.look_up server names))
  pub look_up_ip4 : (name : String) → Keeps P (host.look_up_ip4 name)
  pub race : (ips : List String) → Keeps P (total (host.race ips))
