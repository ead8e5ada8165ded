-- ===== src/Rpc/Attempts.antt =====
-- How often a request is sent, and how long it waits in between.
use kanatoko.Prelude.{
  ℕ, suc, ◌+◌, ◌≤◌, ◌≡◌, List, [], ◌∷◌, Option, some, length, All, arith, ap, ◌∙◌,
}
use kanatoko.Bytes.{Bytes}
use kanatoko.Rpc.{
  Reply, rpc_max_retry_after, rpc_retry_backoff, retry_delay, retry_after, send_from,
  send_read_rpc_with_retry,
}

module _ (parse_seconds : Bytes → Option ℕ) where
  Facts : (backoffs : List ℕ) → (ℕ → Reply) → ℕ → List ℕ × Reply → Type 0
  Facts backoffs send n r =
      (length r.0 ≤ length backoffs)
      × (r.1 ≡ send (n + length r.0))
      × All (λ delay. delay ≤ rpc_max_retry_after) r.0

  retry_after_bound :
      (backoff : ℕ) (rest : List ℕ) (reply : Reply) (delay : ℕ)
      → backoff ≤ rpc_max_retry_after
      → retry_after parse_seconds (backoff ∷ rest) reply ≡ some delay
      → delay ≤ rpc_max_retry_after
  unfolding retry_after retry_delay
  retry_after_bound backoff rest reply delay b h = ground arith

  send_from-Facts :
      (backoffs : List ℕ) (send : ℕ → Reply) (n : ℕ)
      → All (λ delay. delay ≤ rpc_max_retry_after) backoffs
      → Facts backoffs send n (send_from parse_seconds backoffs send n)
  unfolding Facts send_from
  send_from-Facts [] send n b = (omega arith, ap send (omega arith), tt)
  send_from-Facts (backoff ∷ rest) send n b =
      ground (arith, send_from-Facts rest send (suc n) b.1, retry_after_bound backoff rest (send n))

  -- A request is sent at most four times, whatever the replies: at most three delays are slept, none
  -- longer than the longest accepted Retry-After, and the reply returned is that of the last request.
  pub send_read_rpc_with_retry_lem :
      (send : ℕ → Reply)
      → (length (send_read_rpc_with_retry parse_seconds send).0 ≤ 3)
        × ((send_read_rpc_with_retry parse_seconds send).1
            ≡ send (length (send_read_rpc_with_retry parse_seconds send).0))
        × All (λ delay. delay ≤ rpc_max_retry_after) (send_read_rpc_with_retry parse_seconds send).0
  unfolding send_read_rpc_with_retry Facts
  send_read_rpc_with_retry_lem send =
      let f : Facts rpc_retry_backoff send 0 (send_from parse_seconds rpc_retry_backoff send 0) =
        send_from-Facts rpc_retry_backoff send 0 (omega arith, (omega arith, (omega arith, tt))) in
      (f.0, f.1 ∙ ap send (omega arith), f.2)
