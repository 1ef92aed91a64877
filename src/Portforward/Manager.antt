-- ===== src/Portforward/Manager.antt =====
-- internal/portforward/portforward.go, with the retries of client.go: `Run` and what it calls.
use pia_tun.Base.{
  ℕ, zero, suc, ◌+◌, ◌-◌, ◌*◌, ◌/◌, String, [], ◌∷◌, ◌++◌, Bool, Option, some, ltb, ◌==◌, str_eq,
  if◌then◌else◌, M, Result, ok, err, err_reconnect, ◌>>=◌, ◌>>◌, pure, fail, ignore, attempt, total,
}
use pia_tun.Base.Text.{Bytes}
use pia_tun.Firewall.Os.{Os}
use pia_tun.Firewall.Killswitch.{
  Firewall, add_pf_route, remove_pf_route, allow_forwarded_port, remove_forwarded_port,
}
use pia_tun.Host.{Host}
use pia_tun.Cacher.Cache.{Cache, Cached, nanoseconds, token_fresh}
use pia_tun.Portforward.Payload.{Codec, parse_payload}
use pia_tun.Portforward.Client.{
  Gateway, SignatureResponse, BindResponse, Waited, passed, deadline_exceeded, cancelled, Tried,
  done, api_error, failed, retry_interval, port_bind_duration, get_signature, bind_port,
}

pub record Config : Type 0 where
  pub bind_interval : ℕ
  pub signature_safety_hours : ℕ
  pub port_file : String

pub record ConnectionConfig : Type 0 where
  pub client_ip : String
  pub server_cn : String
  pub pf_gateway : String

-- `state`. Times are nanoseconds.
pub record State : Type 0 where
  pub port : ℕ
  pub payload : Bytes
  pub signature : Bytes
  pub expires_at : ℕ
  pub bind_time : ℕ

-- What the manager changes: its state, the cache, the firewall with the system, and the channel of
-- the syncer, which holds one port at most.
pub record Manager (W : Type 0) : Type 0 where
  pub state : State
  pub cache : Cache
  pub fw : Firewall W
  pub port_ch : Option ℕ

abbrev pub no_state : State
no_state = record { port = 0; payload = []; signature = []; expires_at = 0; bind_time = 0 }

module _ {W : Type 0} where
  abbrev pub on_fw : {A : Type 0} → M (Firewall W) A → M (Manager W) A
  on_fw m s = let (r, f) = m s.fw in (r, record s { fw = f })

  abbrev pub on_system : {A : Type 0} → M W A → M (Manager W) A
  on_system m s = let (r, w) = m s.fw.world in (r, record s { fw = record s.fw { world = w } })

  abbrev pub on_cached : {A : Type 0} → M (Cached W) A → M (Manager W) A
  on_cached m s =
      let (r, c) = m (record { cache = s.cache; world = s.fw.world }) in
      (r, record s { cache = c.cache; fw = record s.fw { world = c.world } })

  abbrev pub get : M (Manager W) (Manager W)
  get s = (ok s, s)

  abbrev pub put_state : State → M (Manager W) (Unit {0})
  put_state x s = (ok tt, record s { state = x })

  abbrev pub set_bind_time : ℕ → M (Manager W) (Unit {0})
  set_bind_time t s = (ok tt, record s { state = record s.state { bind_time = t } })

  -- `NotifyPort` of internal/portsync/portsync.go: a port that waits is taken out of the channel, so
  -- that the send does not block.
  unfoldable pub notify_port : ℕ → M (Manager W) (Unit {0})
  notify_port port s = (ok tt, record s { port_ch = some port })

  abbrev pub of_result : {A : Type 0} → Result A → M (Manager W) A
  of_result (ok a) = pure a
  of_result (err e) = fail e

-- The number of intervals before the deadline, and two: the rounds that a retry can make.
abbrev pub rounds_left : ℕ → ℕ → ℕ
rounds_left deadline t = (deadline - t) / retry_interval + 2

module _ (os : Os) (host : Host os.World) (gateway : Gateway os.World) (codec : Codec) where
  open os use {World}
  open gateway use {wait, now, write_port_file, get_cert_pool}

  abbrev pub P : Type 0 → Type 0
  P A = M (Manager World) A

  abbrev pub time : P ℕ
  time = on_system (total now)

  abbrev pub after_wait : {A : Type 0} → P A → Waited → P A
  after_wait again passed = again
  after_wait again deadline_exceeded = fail []
  after_wait again cancelled = fail []

  abbrev pub after_try : {A : Type 0} → P A → ℕ → Tried A → P A
  after_try again deadline (done a) = pure a
  after_try again deadline api_error = fail []
  after_try again deadline failed = do
    x ← on_system (total (wait retry_interval deadline))
    after_wait again x

  unfoldable pub retry_from : {A : Type 0} → ℕ → ℕ → P (Tried A) → P A
  retry_from zero deadline fn = fail []
  retry_from (suc rounds) deadline fn = do
    r ← fn
    after_try (retry_from rounds deadline fn) deadline r

  unfoldable pub retry_with_deadline : {A : Type 0} → P (Tried A) → P A
  retry_with_deadline fn = do
    s ← get
    t ← time
    let deadline = s.state.bind_time + port_bind_duration
    retry_from (rounds_left deadline t) deadline fn

  module _ (cfg : Config) (conn : ConnectionConfig) where
    abbrev pub try_signature : P (Tried SignatureResponse)
    try_signature = do s ← get; on_system (get_signature gateway conn.pf_gateway s.cache.token)

    unfoldable pub get_signature_with_retry : P SignatureResponse
    get_signature_with_retry = do
      fresh ← on_cached (token_fresh host)
      if fresh then pure tt else fail []
      retry_with_deadline try_signature

    abbrev pub bound : Tried BindResponse → P (Tried BindResponse)
    bound (done r) = do t ← time; set_bind_time t; pure (done r)
    bound api_error = pure api_error
    bound failed = pure failed

    abbrev pub try_bind : Bytes → Bytes → P (Tried BindResponse)
    try_bind payload signature = do
      r ← on_system (bind_port gateway conn.pf_gateway payload signature)
      bound r

    unfoldable pub bind_port_with_retry : Bytes → Bytes → P (Unit {0})
    bind_port_with_retry payload signature = do
      r ← retry_with_deadline (try_bind payload signature)
      pure tt

    abbrev pub set_signature : SignatureResponse → ℕ × ℕ → P (Unit {0})
    set_signature resp (port, expires_at) = do
      s ← get
      put_state (record {
        port = port;
        payload = resp.payload;
        signature = resp.signature;
        expires_at = expires_at;
        bind_time = s.state.bind_time;
      })

    unfoldable pub acquire_port : P (Unit {0})
    acquire_port = do
      resp ← get_signature_with_retry
      parsed ← of_result (parse_payload codec resp.payload)
      if parsed.0 == 0 then fail [] else pure tt
      set_signature resp parsed
      bind_port_with_retry resp.payload resp.signature

    unfoldable pub announce_port : P (Unit {0})
    announce_port = do
      s ← get
      ignore (on_fw (allow_forwarded_port os host.itoa s.state.port))
      ignore (on_system (write_port_file cfg.port_file (host.itoa s.state.port)))
      notify_port s.state.port

    unfoldable pub teardown : P (Unit {0})
    teardown = do
      on_system (remove_pf_route os conn.pf_gateway)
      on_fw (remove_forwarded_port os host.itoa)

    -- `m.teardown(); return fmt.Errorf("%w: %w", err, apperrors.ErrReconnect)` on an error.
    abbrev pub or_reconnect : Result (Unit {0}) → P (Unit {0})
    or_reconnect (ok _) = pure tt
    or_reconnect (err e) = do teardown; fail (e ++ (err_reconnect ∷ []))

    abbrev pub acquired : Result (Unit {0}) → P (Unit {0})
    acquired r = do or_reconnect r; announce_port

    -- Whether less than the safety hours are left, which also holds behind the expiry.
    abbrev pub is_due : State → ℕ → Bool
    is_due s t = ltb s.expires_at (t + cfg.signature_safety_hours * 3600 * nanoseconds)

    abbrev pub renew : P (Unit {0})
    renew = do r ← attempt acquire_port; acquired r

    abbrev pub rebind : P (Unit {0})
    rebind = do
      s ← get
      r ← attempt (bind_port_with_retry s.state.payload s.state.signature)
      or_reconnect r

    -- `Run` up to its loop.
    unfoldable pub start : P (Unit {0})
    start = do
      if str_eq conn.pf_gateway "" then fail [] else pure tt
      on_system (add_pf_route os conn.pf_gateway)
      on_system get_cert_pool
      put_state no_state
      t ← time
      set_bind_time (t + 60 * nanoseconds - port_bind_duration)
      renew

    -- What `Run` does at a tick.
    unfoldable pub tick : P (Unit {0})
    tick = do s ← get; t ← time; if is_due s.state t then renew else rebind

    -- The loop of `Run`, with so many ticks before the context is cancelled.
    unfoldable pub keepalive : ℕ → P (Unit {0})
    keepalive zero = teardown
    keepalive (suc ticks) = do tick; keepalive ticks

    unfoldable pub run : ℕ → P (Unit {0})
    run ticks = do start; keepalive ticks
