-- ===== src/Portforward/Client.antt =====
-- The requests of internal/portforward/client.go, and `retryWithDeadline`.
use pia_tun.Base.{
  ℕ, ◌*◌, String, Option, none, some, ◌==◌, length, str_eq, if◌then◌else◌, M, Result, ok, err,
  ◌>>=◌, pure, attempt,
}
use pia_tun.Base.Text.{Bytes}
use pia_tun.Cacher.Cache.{nanoseconds}

pub record SignatureResponse : Type 0 where
  pub status : String
  pub message : String
  pub payload : Bytes
  pub signature : Bytes

pub record BindResponse : Type 0 where
  pub status : String
  pub message : String

pub data Request : Type 0 where
  get_signature_request : (gateway token : String) → Request
  bind_port_request : (gateway : String) → (payload signature : Bytes) → Request

-- How the `select` of a retry ends: the interval has passed, the deadline has, or the context of the
-- caller is cancelled.
pub data Waited : Type 0 where
  passed deadline_exceeded cancelled : Waited

-- What the package asks of net/http, encoding/json, time and os.
pub record Gateway (W : Type 0) : Type 0 where
  -- `Do` with `io.ReadAll` of the body: the code treats their errors alike.
  pub get : Request → M W Bytes
  pub parse_signature : Bytes → Option SignatureResponse
  pub parse_bind : Bytes → Option BindResponse
  -- `select` of `time.After(interval)` and a context with the deadline.
  pub wait : (interval deadline : ℕ) → W → Waited × W
  pub now : W → ℕ × W
  pub write_port_file : (file content : String) → M W (Unit {0})
  pub get_cert_pool : M W (Unit {0})

-- What an operation returns: an answer, an `apiError`, or another error.
pub data Tried (A : Type 0) : Type 0 where
  done : A → Tried A
  api_error failed : Tried A

abbrev pub retry_interval : ℕ
retry_interval = 15 * nanoseconds

abbrev pub port_bind_duration : ℕ
port_bind_duration = 20 * 60 * nanoseconds

abbrev pub judge_parsed : {A : Type 0} → (A → String) → Option A → Tried A
judge_parsed status none = failed
judge_parsed status (some r) = if str_eq (status r) "OK" then done r else api_error

-- The part that `getSignature` and `bindPort` write out twice.
abbrev pub judge : {A : Type 0} → (A → String) → (Bytes → Option A) → Result Bytes → Tried A
judge status parse (err e) = failed
judge status parse (ok body) = if length body == 0 then failed else judge_parsed status (parse body)

module _ {W : Type 0} (gateway : Gateway W) where
  open gateway use {get, parse_signature, parse_bind}

  unfoldable pub get_signature : String → String → M W (Tried SignatureResponse)
  get_signature address token = do
    r ← attempt (get (get_signature_request address token))
    pure (judge (λ x. x.status) parse_signature r)

  unfoldable pub bind_port : String → Bytes → Bytes → M W (Tried BindResponse)
  bind_port address payload signature = do
    r ← attempt (get (bind_port_request address payload signature))
    pure (judge (λ x. x.status) parse_bind r)
