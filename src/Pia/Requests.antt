-- ===== src/Pia/Requests.antt =====
-- The requests of internal/pia/client.go keep what the sending of a request keeps.
use pia_tun.Base.{
  ℕ, String, List, [], ◌∷◌, not, Option, none, some, Result, ok, err, Keeps, ◌==◌, str_eq,
}
use pia_tun.Base.Text.{Bytes}
use pia_tun.Base.Sequences.{bind-Keeps, then-Keeps, pure-Keeps, fail-Keeps, if-Keeps}
use pia_tun.Pia.Types.{AddKeyResponse}
use pia_tun.Pia.JsonEnd.{find_json_end}
use pia_tun.Pia.Client.{
  Web, Request, Response, DipEntry, is_refused, of_result, parsed, cut, checked_token,
  checked_add_key, checked_dip, judge_token, judge_add_key, judge_dip, generate_token,
  fetch_server_list, add_key, add_key_dip, resolve_dip,
}

module _ {W : Type 0} (web : Web W) (P : W → Type 0)
    (send-Keeps : (r : Request) → Keeps P (web.send r))
    (pool-Keeps : Keeps P web.get_cert_pool) where
  of_result-Keeps : {A : Type 0} (r : Result A) → Keeps P (of_result r)
  of_result-Keeps (ok a) = pure-Keeps P a
  of_result-Keeps (err e) = fail-Keeps P e

  parsed-Keeps : {A : Type 0} (o : Option A) → Keeps P (parsed o)
  parsed-Keeps none = fail-Keeps P []
  parsed-Keeps (some a) = pure-Keeps P a

  checked_token-Keeps : (p : String × String) → Keeps P (checked_token p)
  checked_token-Keeps (token, message) =
      if-Keeps P (str_eq message "authentication failed") (fail-Keeps P _)
        (if-Keeps P (str_eq token "") (fail-Keeps P _) (pure-Keeps P _))

  checked_add_key-Keeps : (r : AddKeyResponse) → Keeps P (checked_add_key r)
  checked_add_key-Keeps r = if-Keeps P (str_eq r.status "OK") (pure-Keeps P _) (fail-Keeps P _)

  checked_dip-Keeps : (ds : List DipEntry) → Keeps P (checked_dip ds)
  checked_dip-Keeps [] = fail-Keeps P _
  checked_dip-Keeps (d ∷ ds) =
      if-Keeps P (str_eq d.status "active") (pure-Keeps P _) (fail-Keeps P _)

  judge_token-Keeps : (code : ℕ) (body : Bytes) → Keeps P (judge_token web code body)
  judge_token-Keeps code body = if-Keeps P (is_refused code) (fail-Keeps P _) (
      if-Keeps P (code == 429) (fail-Keeps P _) (
        if-Keeps P (not (code == 200)) (fail-Keeps P _)
          (bind-Keeps P (parsed-Keeps (web.parse_token body)) checked_token-Keeps)))

  judge_dip-Keeps : (code : ℕ) (body : Bytes) → Keeps P (judge_dip web code body)
  judge_dip-Keeps code body = if-Keeps P (is_refused code) (fail-Keeps P _) (
      if-Keeps P (not (code == 200)) (fail-Keeps P _)
        (bind-Keeps P (parsed-Keeps (web.parse_dip body)) checked_dip-Keeps))

  judge_add_key-Keeps : (resp : Response) → Keeps P (judge_add_key web resp)
  judge_add_key-Keeps resp =
      if-Keeps P (not (resp.status_code == 200))
        (if-Keeps P (is_refused resp.status_code) (fail-Keeps P _) (fail-Keeps P _))
        (bind-Keeps P (of_result-Keeps resp.body)
          (λ body. bind-Keeps P (parsed-Keeps (web.parse_add_key body)) checked_add_key-Keeps))

  pub generate_token-Keeps : (ip user pass : String) → Keeps P (generate_token web ip user pass)
  unfolding generate_token
  generate_token-Keeps ip user pass =
      bind-Keeps P (send-Keeps _)
        (λ resp. bind-Keeps P (of_result-Keeps resp.body) (judge_token-Keeps resp.status_code))

  pub fetch_server_list-Keeps : (ip : String) → Keeps P (fetch_server_list web ip)
  unfolding fetch_server_list
  fetch_server_list-Keeps ip = bind-Keeps P (send-Keeps _) (λ resp.
      then-Keeps P (if-Keeps P (resp.status_code == 200) (pure-Keeps P _) (fail-Keeps P _)) (
        bind-Keeps P (of_result-Keeps resp.body) (λ body.
          bind-Keeps P (parsed-Keeps (web.parse_regions (cut (find_json_end body) body)))
            (λ regions. pure-Keeps P _))))

  pub add_key-Keeps : (ip cn token key : String) → Keeps P (add_key web ip cn token key)
  unfolding add_key
  add_key-Keeps ip cn token key =
      then-Keeps P pool-Keeps (bind-Keeps P (send-Keeps _) judge_add_key-Keeps)

  pub add_key_dip-Keeps : (ip cn dip key : String) → Keeps P (add_key_dip web ip cn dip key)
  unfolding add_key_dip
  add_key_dip-Keeps ip cn dip key =
      then-Keeps P pool-Keeps (bind-Keeps P (send-Keeps _) judge_add_key-Keeps)

  pub resolve_dip-Keeps : (ip auth dip : String) → Keeps P (resolve_dip web ip auth dip)
  unfolding resolve_dip
  resolve_dip-Keeps ip auth dip =
      bind-Keeps P (send-Keeps _)
        (λ resp. bind-Keeps P (of_result-Keeps resp.body) (judge_dip-Keeps resp.status_code))
