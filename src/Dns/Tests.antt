-- ===== src/Dns/Tests.antt =====
-- Runs of internal/dns.
use pia_tun.Base.{
  OnOk, Bool, true, Option, List, Result, ◌>>◌, sym, ap, ℕ, ◌+◌, ◌≤◌, ◌<◌, [], ◌∷◌, ◌++◌, map,
  false, none, some, ◌≡◌, refl, ok, err, M, pure, All, arith, length, ◌==◌, if◌then◌else◌,
}
use pia_tun.Base.Text.{Bytes, codes}
use pia_tun.Dns.Proxy.{
  max_dns_msg, framed, read_msg, serve_conn, servfail, Tls, forward_dot, dispatch,
}
use pia_tun.Dns.Resolv.{resolv_conf, Disk, read, write, backup, restore}
use pia_tun.Dns.Backups.{Working, backs_up, clears, writes, steps, IsRestored, restore-backup}
use pia_tun.Dns.ResolvLaws.{Contents, put_file, Files, read-write}
use pia_tun.Dns.Framing.{read_msg-framed, serve_conn-All, sent, servfail_lem, IsServfail}
use pia_tun.Dns.Dispatching.{IsForwarded, dispatch_reaches}
use pia_tun.Dns.Connection.{logged, asked, unconnected, IsSettled, forward_dot-IsSettled}

abbrev question : Bytes
question = codes "0123456789abcdef"

read_msg-framed_example :
    (length question ≤ max_dns_msg
      → read_msg (framed question ++ codes "more") ≡ (ok question, codes "more"))
    × (max_dns_msg < length question
        → length question < 65536
        → read_msg (framed question ++ codes "more") ≡ (err [], question ++ codes "more"))
read_msg-framed_example = read_msg-framed question (codes "more")

abbrev echo : Bytes → Bytes
echo q = q

serve_conn-All_example :
    serve_conn 2 (λ q. some (echo q)) 2 (sent (question ∷ codes "short" ∷ []))
    ≡ map (λ q. framed (echo q)) (question ∷ codes "short" ∷ [])
serve_conn-All_example =
    serve_conn-All echo (question ∷ codes "short" ∷ []) 2 2 (omega arith, (omega arith, tt))
      (omega arith) (omega arith)

servfail_lem_example :
    (length question < 12 → servfail question ≡ none)
    × (12 ≤ length question
        → All (λ b. b < 256) question
        → (resp : Bytes) × (servfail question ≡ some resp) × IsServfail question resp)
servfail_lem_example = servfail_lem question

-- Three upstreams, of which the last alone answers.
abbrev forward_last : ℕ → Bytes → M ℕ Bytes
forward_last i query n = if i == 2 then (ok query, n + 1) else (err [], n + 1)

dispatch_reaches_example :
    IsForwarded forward_last
      (λ n. false)
      3
      question
      (dispatch forward_last (λ n. false) 3 7 question 0)
dispatch_reaches_example =
    dispatch_reaches forward_last (λ n. false) 3 7 2 question 0 (omega arith) (λ n. refl)
      (λ n. (question, n + 1, refl))

-- A server that closes the first connection that it gets.
abbrev resetting : Tls ℕ ℕ
resetting = record {
  dial = λ n. (ok n, n + 1);
  set_deadline = λ c. pure tt;
  write_msg = λ c msg. pure tt;
  read_msg = λ c n. if c == 0 then (err [], n) else (ok (codes "answer"), n);
  close = λ c. pure tt;
}

-- `CloseUpstreams` runs before the second step and before the fifth.
abbrev swaps : List Bool
swaps = false ∷ true ∷ false ∷ false ∷ true ∷ []

forward_dot-IsSettled_example : IsSettled resetting (
    forward_dot
      (logged resetting)
      question
      (asked resetting (question ∷ question ∷ []) (unconnected resetting swaps 0)))
forward_dot-IsSettled_example =
    forward_dot-IsSettled resetting (question ∷ question ∷ []) question swaps 0

abbrev read_of : Contents → Option Bytes → Result Bytes × Contents
read_of c none = (err [], c)
read_of c (some b) = (ok b, c)

abbrev stat_of : Contents → Option Bytes → Result (Unit {0}) × Contents
stat_of c none = (err [], c)
stat_of c (some b) = (ok tt, c)

abbrev in_memory : Disk Contents
in_memory = record {
  read_file = λ f c. read_of c (c f);
  write_file = λ f b c. (ok tt, put_file f (some b) c);
  stat = λ f c. stat_of c (c f);
  remove = λ f c. (ok tt, put_file f none c);
}

in_memory_reads :
    (c c' : Contents) (o : Option Bytes) (b : Bytes)
    → read_of c o ≡ (ok b, c')
    → (o ≡ some b) × (c' ≡ c)
in_memory_reads c c' none b h = ground arith
in_memory_reads c c' (some x) b h = (ground arith, sym (ap (λ r. r.1) h))

in_memory-Files : Files in_memory
in_memory-Files = record {
  contents = λ c. c;
  read_ok = λ f c c' b h. in_memory_reads c c' (c f) b h;
  write_ok = λ f b c c' h. sym (ap (λ r. r.1) h);
}

abbrev servers : List Bytes
servers = codes "10.0.0.243" ∷ codes "10.0.0.242" ∷ []

read-write_example :
    OnOk (λ found c. found ≡ servers) ((write in_memory servers >> read in_memory) (λ f. none))
read-write_example =
    read-write in_memory in_memory-Files servers (λ f. none) (ground arith, (ground arith, tt))
      (λ e. ground arith)

in_memory_found :
    (c : Contents) (o : Option Bytes) (b : Bytes)
    → o ≡ some b
    → (read_of c o ≡ (ok b, c)) × (stat_of c o ≡ (ok tt, c))
in_memory_found c none b h = ground arith
in_memory_found c (some x) b h = (ground arith, refl)

in_memory_missing : (c : Contents) (o : Option Bytes) → o ≡ none → stat_of c o ≡ (err [], c)
in_memory_missing c none h = refl
in_memory_missing c (some x) h = ground arith

in_memory-Working : Working in_memory
in_memory-Working = record {
  contents = λ c. c;
  put = put_file;
  contents_put = λ f v c. refl;
  read_some = λ f c b h. (in_memory_found c (c f) b h).0;
  write_ok = λ f b c. refl;
  stat_some = λ f c b h. (in_memory_found c (c f) b h).1;
  stat_none = λ f c h. in_memory_missing c (c f) h;
  remove_ok = λ f c. refl;
}

abbrev of_host : Contents
of_host = put_file resolv_conf (some (codes "nameserver 127.0.0.11")) (λ f. none)

restore-backup_example : IsRestored in_memory in_memory-Working (codes "nameserver 127.0.0.11") (
    (backup in_memory
        >> (steps in_memory (clears ∷ backs_up ∷ clears ∷ writes servers ∷ [])
            >> restore in_memory))
      of_host)
unfolding in_memory-Working
restore-backup_example =
    restore-backup in_memory in_memory-Working (clears ∷ backs_up ∷ clears ∷ writes servers ∷ [])
      of_host (codes "nameserver 127.0.0.11") refl refl
