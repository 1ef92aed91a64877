-- ===== src/Pia/Client.antt =====
-- internal/pia/client.go: the requests to PIA's servers and how their answers are judged. What
-- net/http does with a request, the certificate file and `json.Unmarshal` are the fields of `Web`.
use pia_tun.Base.{
  ℕ, ltb, String, List, [], ◌∷◌, Bool, ◌||◌, not, Option, none, some, ◌==◌, if◌then◌else◌, M,
  Result, ok, err, ◌>>=◌, ◌>>◌, pure, fail, str_eq, take, err_fatal, err_rate_limited,
  err_token_rejected,
}
use pia_tun.Base.Text.{Bytes}
use pia_tun.Pia.Types.{Server, DipInfo, AddKeyResponse, Region, flatten_regions}
use pia_tun.Pia.JsonEnd.{find_json_end}

-- What is sent, and the address that it is sent to (first).
pub data Request : Type 0 where
  token_request : (ip user pass : String) → Request
  server_list_request : (ip : String) → Request
  add_key_request : (ip cn token pubkey : String) → Request
  dip_request : (ip auth_token dip_token : String) → Request
  add_key_dip_request : (ip cn dip_token pubkey : String) → Request

-- A body that cannot be read to its end is an error.
pub record Response : Type 0 where
  pub status_code : ℕ
  pub body : Result Bytes

-- An entry of the answer to a dedicated IP request.
pub record DipEntry : Type 0 where
  pub status : String
  pub ip : String
  pub cn : String
  pub id : String

pub record Web (W : Type 0) : Type 0 where
  pub send : Request → M W Response
  pub get_cert_pool : M W (Unit {0})
  -- `json.Unmarshal` into each of the types; the first is a token and a message.
  pub parse_token : Bytes → Option (String × String)
  pub parse_regions : Bytes → Option (List Region)
  pub parse_add_key : Bytes → Option AddKeyResponse
  pub parse_dip : Bytes → Option (List DipEntry)

-- 401 and 403.
abbrev pub is_refused : ℕ → Bool
is_refused code = (code == 401) || (code == 403)

-- `if end := findJSONEnd(body); end > 0 { body = body[:end] }`
abbrev pub cut : Option ℕ → Bytes → Bytes
cut none body = body
cut (some n) body = if ltb 0 n then take n body else body

module _ {W : Type 0} where
  abbrev pub of_result : {A : Type 0} → Result A → M W A
  of_result (ok a) = pure a
  of_result (err e) = fail e

  abbrev pub parsed : {A : Type 0} → Option A → M W A
  parsed none = fail []
  parsed (some a) = pure a

  abbrev pub checked_token : String × String → M W String
  checked_token (token, message) =
      if str_eq message "authentication failed"
      then fail (err_fatal ∷ [])
      else if str_eq token ""
      then fail []
      else pure token

  abbrev pub checked_add_key : AddKeyResponse → M W AddKeyResponse
  checked_add_key r = if str_eq r.status "OK" then pure r else fail (err_token_rejected ∷ [])

  abbrev pub checked_dip : List DipEntry → M W DipInfo
  checked_dip [] = fail []
  checked_dip (d ∷ ds) =
      if str_eq d.status "active"
      then pure (record { cn = d.cn; ip = d.ip; region = d.id })
      else fail (err_fatal ∷ [])

module _ {W : Type 0} (web : Web W) where
  open web use {send, get_cert_pool, parse_token, parse_regions, parse_add_key, parse_dip}

  abbrev pub judge_token : ℕ → Bytes → M W String
  judge_token code body =
      if is_refused code
      then fail (err_fatal ∷ [])
      else if code == 429
      then fail (err_rate_limited ∷ [])
      else if not (code == 200)
      then fail []
      else (parsed (parse_token body) >>= checked_token)

  unfoldable pub generate_token : String → String → String → M W String
  generate_token ip user pass = do
    resp ← send (token_request ip user pass)
    body ← of_result resp.body
    judge_token resp.status_code body

  unfoldable pub fetch_server_list : String → M W (List Server)
  fetch_server_list ip = do
    resp ← send (server_list_request ip)
    if resp.status_code == 200 then pure tt else fail []
    body ← of_result resp.body
    regions ← parsed (parse_regions (cut (find_json_end body) body))
    pure (flatten_regions regions)

  -- The part that `AddKey` and `AddKeyDIP` write out twice.
  abbrev pub judge_add_key : Response → M W AddKeyResponse
  judge_add_key resp =
      if not (resp.status_code == 200)
      then (if is_refused resp.status_code then fail (err_token_rejected ∷ []) else fail [])
      else (of_result resp.body >>= λ body. parsed (parse_add_key body) >>= checked_add_key)

  unfoldable pub add_key : String → String → String → String → M W AddKeyResponse
  add_key server_ip cn token pubkey = do
    get_cert_pool
    resp ← send (add_key_request server_ip cn token pubkey)
    judge_add_key resp

  unfoldable pub add_key_dip : String → String → String → String → M W AddKeyResponse
  add_key_dip server_ip cn dip_token pubkey = do
    get_cert_pool
    resp ← send (add_key_dip_request server_ip cn dip_token pubkey)
    judge_add_key resp

  abbrev pub judge_dip : ℕ → Bytes → M W DipInfo
  judge_dip code body =
      if is_refused code
      then fail (err_fatal ∷ [])
      else if not (code == 200)
      then fail []
      else (parsed (parse_dip body) >>= checked_dip)

  unfoldable pub resolve_dip : String → String → String → M W DipInfo
  resolve_dip auth_ip auth_token dip_token = do
    resp ← send (dip_request auth_ip auth_token dip_token)
    body ← of_result resp.body
    judge_dip resp.status_code body
