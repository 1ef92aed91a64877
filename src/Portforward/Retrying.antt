-- ===== src/Portforward/Retrying.antt =====
-- The rounds of `retryWithDeadline` of internal/portforward/client.go.
use pia_tun.Base.{
  ℕ, zero, suc, ◌+◌, ◌-◌, ◌*◌, ◌/◌, ◌≤◌, ◌<◌, ◌≡◌, refl, arith, M, Result, ok, err, continue,
}
use pia_tun.Firewall.Os.{Os}
use pia_tun.Host.{Host}
use pia_tun.Portforward.Payload.{Codec}
use pia_tun.Portforward.Client.{
  Gateway, Waited, passed, deadline_exceeded, cancelled, Tried, done, api_error, failed,
  retry_interval,
}
use pia_tun.Portforward.Manager.{Manager, rounds_left, after_wait, after_try, retry_from}

-- A clock that the waits go by: one that ends because its interval has passed has ended before the
-- deadline.
pub record Clocked {W : Type 0} (gateway : Gateway W) : Type 0 where
  pub at : W → ℕ
  pub passes :
      (interval deadline : ℕ) (w w' : W)
      → gateway.wait interval deadline w ≡ (passed, w')
      → (at w + interval ≤ deadline) × (at w + interval ≤ at w')

module _ (os : Os) (host : Host os.World) (gateway : Gateway os.World) (codec : Codec)
    (clock : Clocked gateway) {A : Type 0} (fn : M (Manager os.World) (Tried A))
    (later : (s : Manager os.World) → clock.at s.fw.world ≤ clock.at (fn s).1.fw.world) where
  open clock use {at}

  waited_same :
      (again more : M (Manager os.World) A) (deadline left : ℕ) (s : Manager os.World)
      (r : Waited × os.World)
      → gateway.wait retry_interval deadline s.fw.world ≡ r
      → deadline < at s.fw.world + left * retry_interval
      → ((v : Manager os.World) (n : ℕ)
          → left ≡ suc n
          → deadline < at v.fw.world + n * retry_interval
          → more v ≡ again v)
      → after_wait os host gateway codec more r.0 (record s { fw = record s.fw { world = r.1 } })
        ≡ after_wait os host gateway codec again r.0 (record s { fw = record s.fw { world = r.1 } })
  waited_same again more deadline zero s (passed, w) q b h =
      absurd (omega (arith, (clock.passes retry_interval deadline s.fw.world w q).0))
  waited_same again more deadline (suc left) s (passed, w) q b h =
      let (before, after) = clock.passes retry_interval deadline s.fw.world w q in
      h _ left refl (omega (arith, after))
  waited_same again more deadline left s (deadline_exceeded, w) q b h = refl
  waited_same again more deadline left s (cancelled, w) q b h = refl

  tried_same :
      (again more : M (Manager os.World) A) (deadline left : ℕ)
      (r : Result (Tried A) × Manager os.World)
      → deadline < at r.1.fw.world + left * retry_interval
      → ((v : Manager os.World) (n : ℕ)
          → left ≡ suc n
          → deadline < at v.fw.world + n * retry_interval
          → more v ≡ again v)
      → continue (after_try os host gateway codec more deadline) r
        ≡ continue (after_try os host gateway codec again deadline) r
  tried_same again more deadline left (err e, s) b h = refl
  tried_same again more deadline left (ok (done a), s) b h = refl
  tried_same again more deadline left (ok api_error, s) b h = refl
  tried_same again more deadline left (ok failed, s) b h =
      waited_same again more deadline left s (gateway.wait retry_interval deadline s.fw.world) refl
        b h

  more_rounds :
      (left extra deadline : ℕ) (s : Manager os.World)
      → deadline < at s.fw.world + left * retry_interval
      → retry_from os host gateway codec (suc (left + extra)) deadline fn s
        ≡ retry_from os host gateway codec (suc left) deadline fn s
  unfolding retry_from
  more_rounds zero extra deadline s b =
      tried_same (retry_from os host gateway codec zero deadline fn)
        (retry_from os host gateway codec (zero + extra) deadline fn) deadline zero (fn s)
        (omega (arith, later s)) (λ v n e c. absurd (omega (arith, e)))
  more_rounds (suc left) extra deadline s b =
      tried_same (retry_from os host gateway codec (suc left) deadline fn)
        (retry_from os host gateway codec (suc left + extra) deadline fn) deadline (suc left) (fn s)
        (omega (arith, later s))
        (λ v n e c.
          let shift : suc left + extra ≡ suc (left + extra) = omega arith in
          rw shift (more_rounds left extra deadline v (omega (arith, e, c))))

  -- By a clock that the waits go by, the rounds that a retry is given when it starts are enough for it
  -- to end by an answer, an error of the server, its deadline or a cancellation: with more of them it
  -- does the same.
  pub retry_from-ends :
      (extra deadline t : ℕ) (s : Manager os.World)
      → t ≤ at s.fw.world
      → retry_from os host gateway codec (rounds_left deadline t + extra) deadline fn s
        ≡ retry_from os host gateway codec (rounds_left deadline t) deadline fn s
  retry_from-ends extra deadline t s h =
      let left = (deadline - t) / retry_interval + 1 in
      let more : rounds_left deadline t + extra ≡ suc (left + extra) = omega arith in
      let same : rounds_left deadline t ≡ suc left = omega arith in
      rw (more, same) (more_rounds left extra deadline s (omega arith))
