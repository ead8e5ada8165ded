-- ===== src/Rpc.antt =====
-- src/capture.rs: the request rate limiter and the retries of read-only RPC calls. Times and
-- durations are in nanoseconds; that `Instant` additions overflow is not modelled.
pub mod Spacing
pub mod Attempts
use kanatoko.Prelude.{
  ℕ, zero, suc, ◌+◌, ◌-◌, ◌*◌, ◌/◌, List, [], ◌∷◌, Option, none, some, Bool, true, false, ◌||◌, ltb,
  leb, max, ◌==◌, if◌then◌else◌,
}
use kanatoko.Bytes.{Bytes}

pub record RequestRateLimiter : Type 0 where
  pub min_interval : ℕ
  pub next_request : Option ℕ

abbrev pub nanoseconds : ℕ
nanoseconds = 1000000000

-- `div_ceil` of the nanoseconds of a second, 0 for no limit.
unfoldable pub request_interval : ℕ → ℕ
request_interval rate = if rate == 0 then 0 else (nanoseconds + rate - 1) / rate

unfoldable pub new_limiter : ℕ → RequestRateLimiter
unfolding request_interval
new_limiter rate = record { min_interval = request_interval rate; next_request = none }

unfoldable pub set_requests_per_second : ℕ → RequestRateLimiter → RequestRateLimiter
unfolding request_interval
set_requests_per_second rate l = record {
  min_interval = request_interval rate;
  next_request = none;
}

-- `reserve_delay`: the limiter after the reservation, and the delay.
unfoldable pub reserve_delay : RequestRateLimiter → ℕ → RequestRateLimiter × ℕ
reserve_delay l now =
    if l.min_interval == 0 then (record l { next_request = none }, 0) else (elim (l.next_request) [
      | none ↦ (record l { next_request = some (now + l.min_interval) }, 0)
      | some next ↦
          if leb next now
          then (record l { next_request = some (now + l.min_interval) }, 0)
          else (record l { next_request = some (next + l.min_interval) }, next - now)
    ])

-- The answer to a request: a status with its Retry-After header, another error, or a response.
pub data Reply : Type 0 where
  status : ℕ → Option Bytes → Reply
  failed_otherwise : Bytes → Reply
  response : Bytes → Reply

unfoldable pub is_retryable_http_status : ℕ → Bool
is_retryable_http_status s = (s == 429) || (s == 500) || (s == 502) || (s == 503) || (s == 504)

abbrev pub rpc_max_retry_after : ℕ
rpc_max_retry_after = 5 * nanoseconds

abbrev pub rpc_retry_backoff : List ℕ
rpc_retry_backoff = 200000000 ∷ 400000000 ∷ 800000000 ∷ []

-- `parse_seconds` is the standard library's `trim().parse::<u64>()`.
module _ (parse_seconds : Bytes → Option ℕ) where
  unfoldable pub retry_delay : ℕ → Option Bytes → Option ℕ
  retry_delay backoff none = some backoff
  retry_delay backoff (some header) = elim (parse_seconds header) [
    | none ↦ some backoff
    | some seconds ↦
        if ltb rpc_max_retry_after (seconds * nanoseconds)
        then none
        else some (max backoff (seconds * nanoseconds))
  ]

  -- What follows a reply: `some` delay to retry after, or the reply is the result.
  unfoldable pub retry_after : List ℕ → Reply → Option ℕ
  unfolding is_retryable_http_status retry_delay
  retry_after [] reply = none
  retry_after (backoff ∷ rest) (status s header) =
      if is_retryable_http_status s then retry_delay backoff header else none
  retry_after (backoff ∷ rest) _ = none

  abbrev add_delay : ℕ → List ℕ × Reply → List ℕ × Reply
  add_delay delay (slept, reply) = (delay ∷ slept, reply)

  -- The loop of `send_read_rpc_with_retry` with the backoffs that are left, and the number of the
  -- next request, which `send` answers: the delays that were slept, and the last reply.
  unfoldable pub send_from : List ℕ → (ℕ → Reply) → ℕ → List ℕ × Reply
  unfolding retry_after
  send_from [] send n = ([], send n)
  send_from (backoff ∷ rest) send n =
      let later = send_from rest send (suc n) in
      elim (retry_after (backoff ∷ rest) (send n)) [
        | some delay ↦ add_delay delay later
        | none ↦ ([], send n)
      ]

  unfoldable pub send_read_rpc_with_retry : (ℕ → Reply) → List ℕ × Reply
  unfolding send_from
  send_read_rpc_with_retry send = send_from rpc_retry_backoff send 0
