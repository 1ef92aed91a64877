-- ===== src/App/Parts.antt =====
-- What internal/app calls of the other packages keeps what the calls of the system keep.
use Prim.Native.Char.{Char}
use pia_tun.Base.{
  ℕ, zero, suc, ◌-◌, ◌*◌, ◌++◌, ltb, String, List, [], ◌∷◌, Option, none, some, M, Result, ok, err,
  Keeps, total, err_fatal,
}
use pia_tun.Base.Text.{Bytes, chars, of_chars, trim_space}
use pia_tun.Base.Sequences.{
  bind-Keeps, then-Keeps, ignore-Keeps, attempt-Keeps, pure-Keeps, fail-Keeps, if-Keeps,
}
use pia_tun.Firewall.Os.{Os, Netfilter}
use pia_tun.Cacher.Cache.{max_token_age, token_file, nanoseconds}
use pia_tun.Cacher.TokenFile.{
  split_line, at_time, of_lines, read_token_file, loaded, new, empty_cache, with_token,
}
use pia_tun.Dns.Resolv.{
  File, read, write, clear, backup, restore, servers_in, lines_of, copied, some_servers,
  resolv_conf, resolv_bak, resolv_text,
}
use pia_tun.Dns.Resolver.{HostMap, first_map, resolve_all}
use pia_tun.Dns.Proxy.{available, upstreams_of, resolve_hostnames}
use pia_tun.Vpn.Steps.{Calm, Bears, query-Keeps}
use pia_tun.Vpn.Verify.{
  services, has_handshake, first_ip, get_public_ip, judge_ip, wait_for_handshake, verify_connection,
}
use pia_tun.App.Outside.{Outside}

-- No call of the system, besides those of `Host` and of port forwarding, changes the property.
pub record OutsideKeeps {os : Os} (out : Outside os) (P : os.World → Type 0) : Type 0 where
  pub dials : (timeout : ℕ) (hosts : List String) → Keeps P (total (out.probe.dials timeout hosts))
  pub now : Keeps P (total out.probe.now)
  pub dial_all : (ips : List String) → Keeps P (total (out.dialer.dial_all ips))
  pub sleep_second : Keeps P (total out.dialer.sleep_second)
  pub read_file : (file : File) → Keeps P (out.disk.read_file file)
  pub write_file : (file : File) (content : Bytes) → Keeps P (out.disk.write_file file content)
  pub stat : (file : File) → Keeps P (out.disk.stat file)
  pub remove : (file : File) → Keeps P (out.disk.remove file)
  pub read_token : (file : String) → Keeps P (out.tokens.read_file file)
  pub ask : (urls : List String) → Keeps P (total (out.ips.ask urls))
  pub listen : Keeps P out.listen
  pub fetch_ip : (targets : List (String × String)) → Keeps P (total (out.fetch_ip targets))
  pub sleep : (seconds : ℕ) → Keeps P (total (out.sleep seconds))

module _ (os : Os) (nf : Netfilter os) (out : Outside os) (calm : Calm os nf out.host)
    (P : os.World → Type 0) (bears : Bears os nf out.host P) (keeps : OutsideKeeps out P) where
  open out use {host, probe, dialer, disk, ips, tokens}

  read_token_file-Keeps : Keeps P (read_token_file host tokens)
  unfolding read_token_file
  read_token_file-Keeps =
      bind-Keeps P (keeps.read_token token_file)
        (λ text. lines (split_line (trim_space (chars text))))
    where
      at : (token : String) (o : Option ℕ) → Keeps P (at_time host tokens token o)
      at token none = fail-Keeps P []
      at token (some t) = pure-Keeps P (token, t * nanoseconds)

      lines : (o : Option (List Char × List Char)) → Keeps P (of_lines host tokens o)
      lines none = fail-Keeps P []
      lines (some (a, b)) = at (of_chars a) (tokens.parse_int (of_chars b))

  pub new-Keeps : Keeps P (new host tokens)
  unfolding new
  new-Keeps = bind-Keeps P (attempt-Keeps P read_token_file-Keeps) load
    where
      load : (r : Result (String × ℕ)) → Keeps P (loaded host tokens r)
      load (err e) = pure-Keeps P empty_cache
      load (ok (token, time)) = bind-Keeps P bears.calls.now (λ t.
          if-Keeps P (ltb max_token_age (t - time))
            (then-Keeps P (ignore-Keeps P (bears.calls.remove_file token_file))
              (pure-Keeps P empty_cache))
            (pure-Keeps P (with_token host tokens token time)))

  pub read-Keeps : Keeps P (read disk)
  unfolding read
  read-Keeps = bind-Keeps P (keeps.read_file resolv_conf) (λ c. found (servers_in (lines_of c)))
    where
      found : (ss : List Bytes) → Keeps P (some_servers ss)
      found [] = fail-Keeps P []
      found (s ∷ ss) = pure-Keeps P (s ∷ ss)

  pub write-Keeps : (servers : List Bytes) → Keeps P (write disk servers)
  unfolding write
  write-Keeps servers = keeps.write_file resolv_conf (resolv_text servers)

  pub clear-Keeps : Keeps P (clear disk)
  unfolding clear
  clear-Keeps = keeps.write_file resolv_conf []

  pub backup-Keeps : Keeps P (backup disk)
  unfolding backup
  backup-Keeps = bind-Keeps P (attempt-Keeps P (keeps.stat resolv_bak)) copy
    where
      copy : (r : Result (Unit {0})) → Keeps P (copied disk r)
      copy (ok u) = pure-Keeps P tt
      copy (err e) = bind-Keeps P (keeps.read_file resolv_conf) (keeps.write_file resolv_bak)

  pub restore-Keeps : Keeps P (restore disk)
  unfolding restore
  restore-Keeps = bind-Keeps P (keeps.read_file resolv_bak) (λ c.
      then-Keeps P (keeps.write_file resolv_conf c) (ignore-Keeps P (keeps.remove resolv_bak)))

  first_map-Keeps :
      (next : M os.World HostMap) (r : Result HostMap)
      → Keeps P next
      → Keeps P (first_map os host next r)
  first_map-Keeps next (err e) h = h
  first_map-Keeps next (ok []) h = h
  first_map-Keeps next (ok (x ∷ m)) h = pure-Keeps P (x ∷ m)

  pub resolve_all-Keeps :
      (servers names : List String) → Keeps P (resolve_all os host servers names)
  unfolding resolve_all
  resolve_all-Keeps [] names = fail-Keeps P []
  resolve_all-Keeps (srv ∷ srvs) names =
      bind-Keeps P (attempt-Keeps P (query-Keeps os nf host calm P bears names srv))
        (λ r. first_map-Keeps _ r (resolve_all-Keeps srvs names))

  pub resolve_hostnames-Keeps :
      (servers : List String) (us : List (String × String)) (names : List String)
      → Keeps P (resolve_hostnames os host servers us names)
  unfolding resolve_hostnames
  resolve_hostnames-Keeps servers us names =
      bind-Keeps P (resolve_all-Keeps servers names) (λ r. some_left (us ++ upstreams_of r))
    where
      some_left : (us : List (String × String)) → Keeps P (available us)
      some_left [] = fail-Keeps P (err_fatal ∷ [])
      some_left (u ∷ us) = pure-Keeps P (u ∷ us)

  wait_for_handshake-Keeps :
      (atoi : String → ℕ) (polls : ℕ) → Keeps P (wait_for_handshake host ips atoi polls)
  unfolding wait_for_handshake
  wait_for_handshake-Keeps atoi zero = fail-Keeps P []
  wait_for_handshake-Keeps atoi (suc polls) =
      bind-Keeps P (attempt-Keeps P (bears.calls.output _ _)) (λ r.
        if-Keeps P (has_handshake host ips atoi r) (pure-Keeps P tt) (
          then-Keeps P bears.calls.ctx_err
            (then-Keeps P (bears.calls.sleep 100000000) (wait_for_handshake-Keeps atoi polls))))

  pub verify_connection-Keeps :
      (atoi : String → ℕ) (polls : ℕ) (before : String)
      → Keeps P (verify_connection host ips atoi polls before)
  unfolding verify_connection get_public_ip
  verify_connection-Keeps atoi polls before = then-Keeps P (wait_for_handshake-Keeps atoi polls) (
      bind-Keeps P
        (bind-Keeps P (keeps.ask services) (λ a. pure-Keeps P (first_ip host ips atoi a))) judged)
    where
      judged : (o : Option String) → Keeps P (judge_ip host ips atoi before o)
      judged none = pure-Keeps P tt
      judged (some ip) = if-Keeps P _ (fail-Keeps P []) (pure-Keeps P tt)
