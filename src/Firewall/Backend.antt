-- ===== src/Firewall/Backend.antt =====
-- internal/firewall/firewall.go: `New` with `checkCaps` and `detectBackend`. The handles of go-iptables
-- are a parameter.
use pia_tun.Base.{
  ℕ, ◌+◌, ◌/◌, ◌%◌, leb, String, List, [], ◌∷◌, ◌++◌, map, Bool, not, ◌&&◌, ◌==◌, Option, none,
  some, drop, str_eq, if◌then◌else◌, M, Result, ok, err, ◌>>=◌, ◌>>◌, pure, fail, attempt,
}
use pia_tun.Base.Text.{Bytes, codes, chars, of_chars, contains, has_prefix, split, trim_space}

-- `os.ReadFile("/proc/self/status")`, `ParseUint` with base 16, the command `iptables-... -L -n` with `Run`
-- and with `CombinedOutput`, and `iptables.New`.
pub record Backends (W : Type 0) : Type 0 where
  pub read_status : M W String
  pub parse_hex : String → Option ℕ
  pub runs : String → M W (Unit {0})
  pub combined_output : M W String
  pub init : String → M W (Unit {0})

-- Bit `n` of a number, where `p` is `1 << n`.
abbrev pub has_bit : ℕ → ℕ → Bool
has_bit p n = (n / p) % 2 == 1

abbrev pub cap_net_admin : ℕ
cap_net_admin = 4096

abbrev pub cap_net_raw : ℕ
cap_net_raw = 8192

-- `strings.ToLower`, of ASCII.
abbrev pub lower : Bytes → Bytes
lower = map (λ b. if leb 65 b && leb b 90 then b + 32 else b)

module _ {W : Type 0} (backends : Backends W) where
  open backends use {read_status, parse_hex, runs, combined_output, init}

  abbrev pub require : Bool → M W (Unit {0})
  require b = if b then pure tt else fail []

  abbrev pub judge_caps : Bool → Option ℕ → M W Bool
  judge_caps legacy none = fail []
  judge_caps legacy (some caps) = do
    require (has_bit cap_net_admin caps)
    require (not (legacy && not (has_bit cap_net_raw caps)))
    pure (has_bit cap_net_raw caps)

  abbrev pub cap_text : String → String
  cap_text line = of_chars (trim_space (drop 7 (chars line)))

  -- The first line of the status that tells the capabilities.
  abbrev pub caps_in : Bool → List String → M W Bool
  caps_in legacy [] = fail []
  caps_in legacy (l ∷ ls) =
      let rest = caps_in legacy ls in
      if has_prefix (codes l) (codes "CapEff:")
      then judge_caps legacy (parse_hex (cap_text l))
      else rest

  unfoldable pub check_caps : Bool → M W Bool
  check_caps legacy = do status ← read_status; caps_in legacy (split 10 status)

  abbrev pub auto_detected : Bool → Result String → M W String
  auto_detected net_raw (err e) = do runs "legacy"; require net_raw; pure "legacy"
  auto_detected net_raw (ok output) =
      if contains (lower (codes output)) (codes "iptables-legacy") && net_raw
      then pure "legacy"
      else pure "nft"

  unfoldable pub detect_backend : String → Bool → M W String
  detect_backend backend net_raw =
      if str_eq backend "nft"
      then (runs "nft" >> pure "nft")
      else if str_eq backend "legacy"
      then (runs "legacy" >> pure "legacy")
      else (attempt combined_output >>= auto_detected net_raw)

  -- The backend of the handles.
  unfoldable pub new : String → M W String
  new backend = do
    net_raw ← check_caps (str_eq backend "legacy")
    found ← detect_backend backend net_raw
    init (of_chars (chars "iptables-" ++ chars found))
    init (of_chars (chars "ip6tables-" ++ chars found))
    pure found
