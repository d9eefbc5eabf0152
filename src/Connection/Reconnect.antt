-- ===== src/Connection/Reconnect.antt =====
-- packages/hcp-runner/src/connection/runner-connection.ts: #scheduleReconnect, #stopReconnect and the
-- reset of the attempts when a socket opens. The delay of the timer that runs is its state.
use harness_control_protocol.Base.{
  ℕ, zero, suc, ◌+◌, ◌*◌, ◌^◌, ◌≤◌, ◌≡◌, ap, min, Option, none, some, arith,
}

pub record Backoff : Type 0 where
  pub initial_delay_ms : ℕ
  pub max_delay_ms : ℕ

pub record Reconnect : Type 0 where
  pub attempt : ℕ
  pub timer : Option ℕ

unfoldable pub delay_ms : Backoff → ℕ → ℕ
delay_ms b attempt = min b.max_delay_ms (b.initial_delay_ms * 2 ^ attempt)

unfoldable pub schedule_reconnect : Backoff → Reconnect → Reconnect
unfolding delay_ms
schedule_reconnect b r = elim r.timer [
  | some _ ↦ r
  | none ↦ record { attempt = r.attempt + 1; timer = some (delay_ms b r.attempt) }
]

unfoldable pub stop_reconnect : Reconnect → Reconnect
stop_reconnect r = record r { timer = none }

-- The timer fires, and the socket that it opens fails again.
unfoldable pub retry_failed : Backoff → Reconnect → Reconnect
unfolding schedule_reconnect
retry_failed b r = schedule_reconnect b (record r { timer = none })

-- A socket has opened: only the count of attempts starts again.
unfoldable pub socket_opened : Reconnect → Reconnect
socket_opened r = record r { attempt = 0 }

pub retries : Backoff → ℕ → Reconnect → Reconnect
unfolding retry_failed
retries b zero r = r
retries b (suc n) r = retry_failed b (retries b n r)

mul_double : (m p : ℕ) → m * (2 * p) ≡ m * p + m * p
mul_double zero p = omega arith
mul_double (suc m) p = omega (arith, mul_double m p)

mul_pow-suc : (m n : ℕ) → m * 2 ^ suc n ≡ m * 2 ^ n + m * 2 ^ n
mul_pow-suc m n = let power : 2 ^ suc n ≡ 2 * 2 ^ n = omega arith in rw power (mul_double m (2 ^ n))

mul_pow_lower : (m n : ℕ) → m ≤ m * 2 ^ n
mul_pow_lower m zero = omega arith
mul_pow_lower m (suc n) = omega (arith, mul_pow_lower m n, mul_pow-suc m n)

delay_ms-suc : (b : Backoff) (n : ℕ) → delay_ms b n ≤ delay_ms b (suc n)
unfolding delay_ms
delay_ms-suc b n = omega (arith, mul_pow-suc b.initial_delay_ms n)

delay_ms_lower : (b : Backoff) (n : ℕ) → min b.max_delay_ms b.initial_delay_ms ≤ delay_ms b n
unfolding delay_ms
delay_ms_lower b n = omega (arith, mul_pow_lower b.initial_delay_ms n)

delay_ms_upper : (b : Backoff) (n : ℕ) → delay_ms b n ≤ b.max_delay_ms
unfolding delay_ms
delay_ms_upper b n = omega arith

retries-delay_ms :
    (b : Backoff) (n : ℕ) (r : Reconnect)
    → retries b (suc n) r
      ≡ record { attempt = r.attempt + suc n; timer = some (delay_ms b (r.attempt + n)) }
unfolding retries retry_failed schedule_reconnect
retries-delay_ms b zero r = ground arith
retries-delay_ms b (suc n) r = ground (arith, retries-delay_ms b n r)

-- Each of the sockets that fail to open in a row is followed by a timer; its delay is at least the
-- smaller of the initial and the longest delay, the next one's is no shorter, and neither is above
-- the longest delay.
pub retries_bounds :
    (b : Backoff) (n : ℕ) (r : Reconnect)
    → let first = retries b (suc n) r in
      let next = retries b (suc (suc n)) r in
      (d : ℕ) × (d' : ℕ) × (first.timer ≡ some d)
      × (next.timer ≡ some d')
      × (min b.max_delay_ms b.initial_delay_ms ≤ d)
      × (d ≤ d')
      × (d' ≤ b.max_delay_ms)
retries_bounds b n r =
    let place : r.attempt + suc n ≡ suc (r.attempt + n) = omega arith in
    (
      delay_ms b (r.attempt + n),
      delay_ms b (r.attempt + suc n),
      ap (λ r. r.timer) (retries-delay_ms b n r),
      ap (λ r. r.timer) (retries-delay_ms b (suc n) r),
      delay_ms_lower b (r.attempt + n),
      rw place (delay_ms-suc b (r.attempt + n)),
      delay_ms_upper b (r.attempt + suc n),
    )
