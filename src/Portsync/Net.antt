-- ===== src/Portsync/Net.antt =====
-- The HTTP requests of the clients of internal/portsync.
use pia_tun.Base.{
  ℕ, String, List, [], ◌∷◌, Bool, Option, none, some, if◌then◌else◌, M, Result, ok, err, pure, fail,
}
use pia_tun.Base.Text.{Bytes, codes}

-- A request, with the headers that the code sets and the credentials of `SetBasicAuth`.
pub record Request : Type 0 where
  pub method : String
  pub url : Bytes
  pub headers : List (String × Bytes)
  pub auth : Option (Bytes × Bytes)
  pub body : Bytes

pub record Response : Type 0 where
  pub status_code : ℕ
  pub body : Result Bytes

-- What the clients ask of net/http, net/url, fmt and os/exec. The cookies of a client are kept in the
-- state.
pub record Net (W : Type 0) : Type 0 where
  -- `NewRequestWithContext` and `Do`, whose errors are treated alike.
  pub send : Request → M W Response
  -- `url.Values.Encode`
  pub encode_form : List (Bytes × Bytes) → Bytes
  -- `%d`
  pub itoa : ℕ → Bytes
  -- `sh -c` with a text, under a timeout of 10 s.
  pub shell : Bytes → M W (Unit {0})
  pub sleep : ℕ → M W (Unit {0})

module _ {W : Type 0} where
  abbrev pub of_result : {A : Type 0} → Result A → M W A
  of_result (ok a) = pure a
  of_result (err e) = fail e

  abbrev pub found : {A : Type 0} → Option A → M W A
  found none = fail []
  found (some a) = pure a

  abbrev pub require : Bool → M W (Unit {0})
  require b = if b then pure tt else fail []

  abbrev pub form_post : Net W → Bytes → List (Bytes × Bytes) → Request
  form_post net url form = record {
    method = "POST";
    url = url;
    headers = ("Content-Type", codes "application/x-www-form-urlencoded") ∷ [];
    auth = none;
    body = net.encode_form form;
  }
