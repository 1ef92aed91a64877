-- ===== src/Dns/Resolv.antt =====
-- internal/dns/resolv.go: /etc/resolv.conf and its backup.
use pia_tun.Base.{
  ℕ, List, [], ◌∷◌, ◌++◌, ltb, length, drop, if◌then◌else◌, ◌==◌, M, Result, ok, err, ◌>>=◌, ◌>>◌,
  pure, fail, ignore, attempt,
}
use pia_tun.Base.Text.{Bytes, codes, has_prefix}

pub data File : Type 0 where
  resolv_conf resolv_bak : File

-- What the code asks of `os`.
pub record Disk (W : Type 0) : Type 0 where
  pub read_file : File → M W Bytes
  pub write_file : File → Bytes → M W (Unit {0})
  pub stat : File → M W (Unit {0})
  pub remove : File → M W (Unit {0})

abbrev pub onto_line : ℕ → List Bytes → List Bytes
onto_line b [] = (b ∷ []) ∷ []
onto_line b (l ∷ ls) = (b ∷ l) ∷ ls

-- `strings.Split(s, "\n")`
abbrev pub lines_of : Bytes → List Bytes
lines_of [] = [] ∷ []
lines_of (b ∷ bs) = let rest = lines_of bs in if b == b'\n' then [] ∷ rest else onto_line b rest

abbrev pub name_server : Bytes
name_server = codes "nameserver "

abbrev pub servers_in : List Bytes → List Bytes
servers_in [] = []
servers_in (l ∷ ls) =
    let rest = servers_in ls in if has_prefix l name_server then drop 11 l ∷ rest else rest

abbrev pub some_servers : {W : Type 0} → List Bytes → M W (List Bytes)
some_servers [] = fail []
some_servers (s ∷ ss) = pure (s ∷ ss)

-- The loop of `Write`, in front of the rest.
abbrev pub server_lines : List Bytes → Bytes → Bytes
server_lines [] rest = rest
server_lines (s ∷ ss) rest = name_server ++ (s ++ (b'\n' ∷ server_lines ss rest))

abbrev pub options : List Bytes → Bytes
options servers = if ltb 1 (length servers) then codes "options rotate\n" else []

unfoldable pub resolv_text : List Bytes → Bytes
resolv_text servers = codes "# Set by pia-tun\n" ++ server_lines servers (options servers)

module _ {W : Type 0} (disk : Disk W) where
  open disk use {read_file, write_file, stat, remove}

  unfoldable pub read : M W (List Bytes)
  read = do content ← read_file resolv_conf; some_servers (servers_in (lines_of content))

  unfoldable pub write : List Bytes → M W (Unit {0})
  write servers = write_file resolv_conf (resolv_text servers)

  unfoldable pub clear : M W (Unit {0})
  clear = write_file resolv_conf []

  abbrev pub copied : Result (Unit {0}) → M W (Unit {0})
  copied (ok _) = pure tt
  copied (err e) = do content ← read_file resolv_conf; write_file resolv_bak content

  unfoldable pub backup : M W (Unit {0})
  backup = do r ← attempt (stat resolv_bak); copied r

  unfoldable pub restore : M W (Unit {0})
  restore = do
    content ← read_file resolv_bak
    write_file resolv_conf content
    ignore (remove resolv_bak)
