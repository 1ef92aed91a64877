-- ===== src/Cacher/TokenFile.antt =====
-- internal/cacher/cacher.go: `New`, which reads the token that `SetToken` has written.
use pia_tun.Base.{
  ℕ, ◌*◌, ◌-◌, ltb, String, List, [], ◌∷◌, Option, none, some, if◌then◌else◌, M, Result, ok, err,
  ◌>>=◌, ◌>>◌, pure, fail, ignore, attempt, total,
}
use pia_tun.Base.Text.{chars, of_chars, trim_space, code_in}
use Prim.Native.Char.{Char}
use pia_tun.Host.{Host}
use pia_tun.Cacher.Cache.{Cache, nanoseconds, max_token_age, token_file}

-- `os.ReadFile`, and `strconv.ParseInt` with base 10. A time before 1970 is not represented.
pub record TokenDisk (W : Type 0) : Type 0 where
  pub read_file : String → M W String
  pub parse_int : String → Option ℕ

abbrev pub onto_head : Char → Option (List Char × List Char) → Option (List Char × List Char)
onto_head c none = none
onto_head c (some (a, b)) = some (c ∷ a, b)

-- `strings.SplitN(s, "\n", 2)`, where it has two parts.
abbrev pub split_line : List Char → Option (List Char × List Char)
split_line [] = none
split_line (c ∷ cs) =
    let rest = split_line cs in if code_in (10 ∷ []) c then some ([], cs) else onto_head c rest

abbrev pub empty_cache : Cache
empty_cache = record {
  token = "";
  token_time = 0;
  auth_ips = [];
  server_list_ips = [];
  servers = [];
}

module _ {W : Type 0} (host : Host W) (tokens : TokenDisk W) where
  open host use {now, remove_file}
  open tokens use {read_file, parse_int}

  abbrev pub at_time : String → Option ℕ → M W (String × ℕ)
  at_time token none = fail []
  at_time token (some seconds) = pure (token, seconds * nanoseconds)

  abbrev pub of_lines : Option (List Char × List Char) → M W (String × ℕ)
  of_lines none = fail []
  of_lines (some (token, time)) = at_time (of_chars token) (parse_int (of_chars time))

  unfoldable pub read_token_file : M W (String × ℕ)
  read_token_file = do
    content ← read_file token_file
    of_lines (split_line (trim_space (chars content)))

  abbrev pub with_token : String → ℕ → Cache
  with_token token time = record empty_cache { token = token; token_time = time }

  abbrev pub at_age : String → ℕ → ℕ → M W Cache
  at_age token time t =
      if ltb max_token_age (t - time)
      then (ignore (remove_file token_file) >> pure empty_cache)
      else pure (with_token token time)

  abbrev pub loaded : Result (String × ℕ) → M W Cache
  loaded (err e) = pure empty_cache
  loaded (ok (token, time)) = do t ← total now; at_age token time t

  unfoldable pub new : M W Cache
  new = do r ← attempt read_token_file; loaded r
