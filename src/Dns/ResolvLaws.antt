-- ===== src/Dns/ResolvLaws.antt =====
-- What internal/dns/resolv.go writes, reads and restores.
use mathlib.Core.List.{append-nil}
use pia_tun.Base.{
  ℕ, List, [], ◌∷◌, ◌++◌, Bool, true, false, Option, some, ◌≡◌, ◌≢◌, refl, sym, ap, ◌∙◌, arith, ltb,
  length, if◌then◌else◌, ◌==◌, All, All-append, Result, ok, err, OnOk, ◌>>◌, continue,
}
use pia_tun.Base.Text.{Bytes, codes}
use pia_tun.Dns.Resolv.{
  File, resolv_conf, resolv_bak, Disk, lines_of, name_server, servers_in, some_servers,
  server_lines, options, resolv_text, read, write,
}

-- A text without a line break.
abbrev pub IsLine : Bytes → Type 0
IsLine s = All (λ b. b ≢ b'\n') s

lines_of-append : (s rest : Bytes) → IsLine s → lines_of (s ++ (b'\n' ∷ rest)) ≡ s ∷ lines_of rest
lines_of-append [] rest h = refl
lines_of-append (b ∷ s) rest h = ground (arith, lines_of-append s rest h.1)

name_server-IsLine : (s : Bytes) → IsLine s → IsLine (name_server ++ s)
name_server-IsLine s h = All-append (λ b. b ≢ b'\n') name_server s (ground arith) h

servers_in-line :
    (s : Bytes) (ls : List Bytes) → servers_in ((name_server ++ s) ∷ ls) ≡ s ∷ servers_in ls
servers_in-line [] ls = refl
servers_in-line (b ∷ s) ls = refl

servers_in-lines :
    (servers : List Bytes) (rest : Bytes)
    → All IsLine servers
    → servers_in (lines_of (server_lines servers rest)) ≡ servers ++ servers_in (lines_of rest)
servers_in-lines [] rest h = refl
servers_in-lines (s ∷ ss) rest h =
    ap servers_in
      (lines_of-append (name_server ++ s) (server_lines ss rest) (name_server-IsLine s h.0))
    ∙ servers_in-line s (lines_of (server_lines ss rest))
    ∙ ap (◌∷◌ s) (servers_in-lines ss rest h.1)

options-none : (servers : List Bytes) → servers_in (lines_of (options servers)) ≡ []
options-none servers = by_length (ltb 1 (length servers))
  where
    by_length : (b : Bool) → servers_in (lines_of (if b then codes "options rotate\n" else [])) ≡ []
    by_length true = refl
    by_length false = refl

servers_in-resolv_text :
    (servers : List Bytes)
    → All IsLine servers
    → servers_in (lines_of (resolv_text servers)) ≡ servers
unfolding resolv_text
servers_in-resolv_text servers h =
    servers_in-lines servers (options servers) h
    ∙ ap (λ l. servers ++ l) (options-none servers)
    ∙ append-nil servers

abbrev pub Contents : Type 0
Contents = File → Option Bytes

abbrev pub file_code : File → ℕ
file_code resolv_conf = 0
file_code resolv_bak = 1

abbrev pub put_file : File → Option Bytes → Contents → Contents
put_file f v c g = if file_code f == file_code g then v else c g

-- The documented behaviour of `os`, as far as this code relies on it.
pub record Files {W : Type 0} (disk : Disk W) : Type 0 where
  pub contents : W → Contents
  pub read_ok :
      (f : File) (w w' : W) (b : Bytes)
      → disk.read_file f w ≡ (ok b, w')
      → (contents w f ≡ some b) × (contents w' ≡ contents w)
  pub write_ok :
      (f : File) (b : Bytes) (w w' : W)
      → disk.write_file f b w ≡ (ok tt, w')
      → contents w' ≡ put_file f (some b) (contents w)

module _ {W : Type 0} (disk : Disk W) (files : Files disk) where
  read_result :
      (servers : List Bytes) (w : W) (r : Result Bytes × W)
      → All IsLine servers
      → servers ≢ []
      → disk.read_file resolv_conf w ≡ r
      → files.contents w resolv_conf ≡ some (resolv_text servers)
      → OnOk
          (λ found _. found ≡ servers)
          (continue (λ content. some_servers (servers_in (lines_of content))) r)
  read_result servers w (err e, w') h n q c = tt
  read_result servers w (ok b, w') h n q c =
      let e : b ≡ resolv_text servers =
        some_injective (sym (files.read_ok resolv_conf w w' b q).0 ∙ c) in
      rw e (rw (servers_in-resolv_text servers h) (same servers w' n))
    where
      some_injective : some b ≡ some (resolv_text servers) → b ≡ resolv_text servers
      some_injective x = cc

      same : (ss : List Bytes) (v : W) → ss ≢ [] → OnOk (λ found _. found ≡ ss) (some_servers ss v)
      same [] v m = absurd (m refl)
      same (s ∷ ss) v m = refl

  written_result :
      (servers : List Bytes) (w : W) (r : Result (Unit {0}) × W)
      → All IsLine servers
      → servers ≢ []
      → disk.write_file resolv_conf (resolv_text servers) w ≡ r
      → OnOk (λ found _. found ≡ servers) (continue (λ _. read disk) r)
  unfolding read
  written_result servers w (err e, w') h n q = tt
  written_result servers w (ok tt, w') h n q =
      read_result servers w' (disk.read_file resolv_conf w') h n refl
        (ap (λ c. c resolv_conf) (files.write_ok resolv_conf (resolv_text servers) w w' q))

  -- Where `Write` of some servers, each a text of one line, and `Read` behind it succeed, `Read` returns
  -- the servers of `Write`.
  pub read-write :
      (servers : List Bytes) (w : W)
      → All IsLine servers
      → servers ≢ []
      → OnOk (λ found _. found ≡ servers) ((write disk servers >> read disk) w)
  unfolding write
  read-write servers w h n =
      written_result servers w (disk.write_file resolv_conf (resolv_text servers) w) h n refl
