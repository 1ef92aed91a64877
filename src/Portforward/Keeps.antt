-- ===== src/Portforward/Keeps.antt =====
-- The requests of Portforward/Manager and their retries leave the firewall alone.
use pia_tun.Base.{ℕ, String, [], ◌+◌, zero, suc, Bool, ◌≡◌, refl, sym, subst, M, Keeps, total}
use pia_tun.Base.Text.{Bytes}
use pia_tun.Base.Sequences.{bind-Keeps, then-Keeps, attempt-Keeps, pure-Keeps, fail-Keeps, if-Keeps}
use pia_tun.Firewall.Os.{Os, Netfilter, Rules}
use pia_tun.Firewall.Guards.{Quiet}
use pia_tun.Host.{Host}
use pia_tun.Cacher.Cache.{is_fresh, token_fresh, get_cache, on_host}
use pia_tun.Portforward.Payload.{Codec}
use pia_tun.Portforward.Client.{
  Gateway, Request, BindResponse, Waited, passed, deadline_exceeded, cancelled, Tried, done,
  api_error, failed, judge, retry_interval, port_bind_duration, get_signature, bind_port,
}
use pia_tun.Portforward.Manager.{
  ConnectionConfig, Config, Manager, on_system, on_cached, get, set_bind_time, rounds_left, time,
  after_wait, after_try, retry_from, retry_with_deadline, try_signature, get_signature_with_retry,
  bound, try_bind, bind_port_with_retry,
}

-- No call of the package outside of internal/firewall touches the rules.
pub record GatewayQuiet (os : Os) (nf : Netfilter os) (host : Host os.World)
    (gateway : Gateway os.World) : Type 0 where
  pub get : (r : Request) → Quiet os nf (gateway.get r)
  pub wait : (interval deadline : ℕ) → Quiet os nf (total (gateway.wait interval deadline))
  pub now : Quiet os nf (total gateway.now)
  pub write_port_file : (file content : String) → Quiet os nf (gateway.write_port_file file content)
  pub get_cert_pool : Quiet os nf gateway.get_cert_pool
  pub host_now : Quiet os nf (total host.now)

module _ (os : Os) (nf : Netfilter os) (host : Host os.World) (gateway : Gateway os.World)
    (codec : Codec) (quiet : GatewayQuiet os nf host gateway)
    (F : Rules → Bool → ℕ → ℕ → Type 0) where
  -- A property of the rules, the firewall's mark, the port that is open and the port of the manager.
  abbrev pub View : Manager os.World → Type 0
  View s = F (nf.rules s.fw.world) s.fw.active s.fw.active_port s.state.port

  pub on_system-Keeps : {A : Type 0} {m : M os.World A} → Quiet os nf m → Keeps View (on_system m)
  on_system-Keeps q = record {
    after = λ s p.
        subst (λ t. F t s.fw.active s.fw.active_port s.state.port)
          (sym ((q (nf.rules s.fw.world)).after s.fw.world refl)) p;
  }

  pub get-Keeps : Keeps View get
  get-Keeps = record { after = λ s p. p }

  pub set_bind_time-Keeps : (t : ℕ) → Keeps View (set_bind_time t)
  set_bind_time-Keeps t = record { after = λ s p. p }

  pub time-Keeps : Keeps View (time os host gateway codec)
  time-Keeps = on_system-Keeps quiet.now

  token_fresh-Quiet : (t : Rules) → Keeps (λ c. nf.rules c.world ≡ t) (token_fresh host)
  unfolding token_fresh
  token_fresh-Quiet t =
      bind-Keeps _ {m = get_cache} (record { after = λ c p. p })
        (λ c.
          bind-Keeps _ {m = on_host (total host.now)}
            (record { after = λ d p. (quiet.host_now t).after d.world p })
            (λ n. pure-Keeps _ (is_fresh c n)))

  fresh-Keeps : Keeps View (on_cached (token_fresh host))
  fresh-Keeps = record {
    after = λ s p.
        subst (λ t. F t s.fw.active s.fw.active_port s.state.port)
          (sym (
            (token_fresh-Quiet (nf.rules s.fw.world)).after
              (record { cache = s.cache; world = s.fw.world }) refl))
          p;
  }

  get_signature-Quiet : (address token : String) → Quiet os nf (get_signature gateway address token)
  unfolding get_signature
  get_signature-Quiet address token t =
      bind-Keeps _ (attempt-Keeps _ (quiet.get _ t))
        (λ r. pure-Keeps _ (judge (λ x. x.status) gateway.parse_signature r))

  bind_port-Quiet :
      (address : String) (payload signature : Bytes)
      → Quiet os nf (bind_port gateway address payload signature)
  unfolding bind_port
  bind_port-Quiet address payload signature t =
      bind-Keeps _ (attempt-Keeps _ (quiet.get _ t))
        (λ r. pure-Keeps _ (judge (λ x. x.status) gateway.parse_bind r))

  after_wait-Keeps :
      {A : Type 0} (again : M (Manager os.World) A) (x : Waited)
      → Keeps View again
      → Keeps View (after_wait os host gateway codec again x)
  after_wait-Keeps again passed h = h
  after_wait-Keeps again deadline_exceeded h = fail-Keeps View []
  after_wait-Keeps again cancelled h = fail-Keeps View []

  after_try-Keeps :
      {A : Type 0} (again : M (Manager os.World) A) (deadline : ℕ) (r : Tried A)
      → Keeps View again
      → Keeps View (after_try os host gateway codec again deadline r)
  after_try-Keeps again deadline (done a) h = pure-Keeps View a
  after_try-Keeps again deadline api_error h = fail-Keeps View []
  after_try-Keeps again deadline failed h =
      bind-Keeps View (on_system-Keeps (quiet.wait retry_interval deadline))
        (λ x. after_wait-Keeps again x h)

  retry_from-Keeps :
      {A : Type 0} (rounds deadline : ℕ) (fn : M (Manager os.World) (Tried A))
      → Keeps View fn
      → Keeps View (retry_from os host gateway codec rounds deadline fn)
  unfolding retry_from
  retry_from-Keeps zero deadline fn h = fail-Keeps View []
  retry_from-Keeps (suc rounds) deadline fn h = bind-Keeps View h (λ r.
      after_try-Keeps (retry_from os host gateway codec rounds deadline fn) deadline r
        (retry_from-Keeps rounds deadline fn h))

  retry-Keeps :
      {A : Type 0} (fn : M (Manager os.World) (Tried A))
      → Keeps View fn
      → Keeps View (retry_with_deadline os host gateway codec fn)
  unfolding retry_with_deadline
  retry-Keeps fn h = bind-Keeps View get-Keeps (λ s. bind-Keeps View time-Keeps (λ t.
      retry_from-Keeps (rounds_left (s.state.bind_time + port_bind_duration) t)
        (s.state.bind_time + port_bind_duration) fn h))

  module _ (cfg : Config) (conn : ConnectionConfig) where
    pub get_signature_with_retry-Keeps :
        Keeps View (get_signature_with_retry os host gateway codec cfg conn)
    unfolding get_signature_with_retry
    get_signature_with_retry-Keeps = bind-Keeps View fresh-Keeps (λ fresh.
        then-Keeps View (if-Keeps View fresh (pure-Keeps View tt) (fail-Keeps View [])) (
          retry-Keeps (try_signature os host gateway codec cfg conn) (
            bind-Keeps View get-Keeps
              (λ s. on_system-Keeps (get_signature-Quiet conn.pf_gateway s.cache.token)))))

    bound-Keeps : (r : Tried BindResponse) → Keeps View (bound os host gateway codec cfg conn r)
    bound-Keeps (done r) =
        bind-Keeps View time-Keeps
          (λ t. then-Keeps View (set_bind_time-Keeps t) (pure-Keeps View (done r)))
    bound-Keeps api_error = pure-Keeps View api_error
    bound-Keeps failed = pure-Keeps View failed

    pub bind_port_with_retry-Keeps :
        (payload signature : Bytes)
        → Keeps View (bind_port_with_retry os host gateway codec cfg conn payload signature)
    unfolding bind_port_with_retry
    bind_port_with_retry-Keeps payload signature =
        bind-Keeps View
          (retry-Keeps (try_bind os host gateway codec cfg conn payload signature) (
            bind-Keeps View (on_system-Keeps (bind_port-Quiet conn.pf_gateway payload signature))
              bound-Keeps))
          (λ r. pure-Keeps View tt)
