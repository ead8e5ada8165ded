-- ===== src/Rpc/Spacing.antt =====
-- How far apart the requests of a limiter are.
use native.Mathlib.Nat.{div-add-mod', mod-lt, lt_of_mul-lt-mul_right, div-mul-le_self, suc-mul}
use kanatoko.Prelude.{
  ℕ, ◌+◌, ◌-◌, ◌*◌, ◌/◌, ◌≤◌, ◌<◌, ◌≡◌, List, [], ◌∷◌, some, arith, if◌then◌else◌, ◌==◌, subst, suc,
  sym, ◌∙◌,
}
use kanatoko.Rpc.{RequestRateLimiter, nanoseconds, request_interval, reserve_delay}

-- A call of `wait`: when it asks, and by how much longer than the delay its sleep lasts, which
-- `thread::sleep` does not bound.
pub record Request : Type 0 where
  pub asked : ℕ
  pub late : ℕ

-- What a call of `wait` was given: the end of its delay, and when it returns.
pub record Grant : Type 0 where
  pub asked : ℕ
  pub slot : ℕ
  pub goes : ℕ

-- There is no sleep without a delay.
unfoldable pub granted : Request → ℕ → Grant
granted r delay = record {
  asked = r.asked;
  slot = r.asked + delay;
  goes = if delay == 0 then r.asked else r.asked + delay + r.late;
}

-- Calls of `wait`, one after the other.
unfoldable pub grants : RequestRateLimiter → List Request → List Grant
unfolding reserve_delay granted
grants l [] = []
grants l (r ∷ rs) = granted r (reserve_delay l r.asked).1 ∷ grants (reserve_delay l r.asked).0 rs

-- The requests go at `low`, an interval after it, two intervals after it, and so on, or later.
pub GoFrom : ℕ → ℕ → List Grant → Type 0
GoFrom low interval [] = Unit {0}
GoFrom low interval (g ∷ rest) = (low ≤ g.goes) × GoFrom (low + interval) interval rest

-- A request goes in its slot or later, which is not before it asked; and the requests after it go an
-- interval, two intervals and so on after its slot, or later. The same holds of them in turn.
pub Paced : ℕ → List Grant → Type 0
Paced interval [] = Unit {0}
Paced interval (g ∷ rest) =
    (g.asked ≤ g.slot)
    × (g.slot ≤ g.goes)
    × GoFrom (g.slot + interval) interval rest
    × Paced interval rest

GoFrom-mono :
    (low low' interval : ℕ) (gs : List Grant)
    → low ≤ low'
    → GoFrom low' interval gs
    → GoFrom low interval gs
unfolding GoFrom
GoFrom-mono low low' interval [] h m = tt
GoFrom-mono low low' interval (g ∷ rest) h m = (
  omega (arith, m.0),
  GoFrom-mono (low + interval) (low' + interval) interval rest (omega arith) m.1,
)

granted_after : (r : Request) (delay : ℕ) → (granted r delay).slot ≤ (granted r delay).goes
unfolding granted
granted_after r delay = ground arith

-- What a reservation leaves: the next request is due an interval after this one.
reserve_next :
    (l : RequestRateLimiter) (now : ℕ)
    → 0 < l.min_interval
    → ((reserve_delay l now).0.min_interval ≡ l.min_interval)
      × ((reserve_delay l now).0.next_request
          ≡ some (now + (reserve_delay l now).1 + l.min_interval))
unfolding reserve_delay
reserve_next l now p = ground arith

reserve_waits :
    (l : RequestRateLimiter) (now due : ℕ)
    → 0 < l.min_interval
    → l.next_request ≡ some due
    → due ≤ now + (reserve_delay l now).1
unfolding reserve_delay
reserve_waits l now due p h = ground arith

grants-GoFrom :
    (l : RequestRateLimiter) (due interval : ℕ) (rs : List Request)
    → 0 < interval
    → l.min_interval ≡ interval
    → l.next_request ≡ some due
    → GoFrom due interval (grants l rs)
unfolding GoFrom grants
grants-GoFrom l due interval [] p e h = tt
grants-GoFrom l due interval (r ∷ rs) p e h =
    let delay = (reserve_delay l r.asked).1 in
    let n = reserve_next l r.asked (omega arith) in
    let slot = reserve_waits l r.asked due (omega arith) h in
    let after = granted_after r delay in
    (
      omega (arith, slot, after),
      GoFrom-mono (due + interval) (r.asked + delay + interval) interval
          (grants (reserve_delay l r.asked).0 rs) (omega (arith, slot))
          (grants-GoFrom (reserve_delay l r.asked).0 (r.asked + delay + interval) interval rs p
            (n.0 ∙ e)
            (subst (λ i. (reserve_delay l r.asked).0.next_request ≡ some (r.asked + delay + i)) e
              n.1)),
    )

-- If a limiter has an interval, then its calls of `wait`, whenever they ask and however much longer
-- than asked they sleep, are paced: each has a slot, not before it asked, in which or after which it
-- goes, and the k-th call after it goes k intervals after that slot or later.
pub grants-Paced :
    (l : RequestRateLimiter) (rs : List Request)
    → 0 < l.min_interval
    → Paced l.min_interval (grants l rs)
unfolding grants Paced granted
grants-Paced l [] p = tt
grants-Paced l (r ∷ rs) p =
    let delay = (reserve_delay l r.asked).1 in
    let n = reserve_next l r.asked p in
    (
      omega arith,
      granted_after r delay,
      grants-GoFrom (reserve_delay l r.asked).0 (r.asked + delay + l.min_interval) l.min_interval rs
          p n.0 n.1,
      subst (λ i. Paced i (grants (reserve_delay l r.asked).0 rs)) n.0
          (grants-Paced (reserve_delay l r.asked).0 rs (subst (λ i. 0 < i) (sym n.0) p)),
    )

ceiling_reaches : (a r : ℕ) → 0 < r → a ≤ (a + r - 1) / r * r
ceiling_reaches a r p = omega (arith, div-add-mod' (a + r - 1) r, mod-lt (a + r - 1) p)

ceiling_least : (a r n : ℕ) → 0 < r → a ≤ n * r → (a + r - 1) / r ≤ n
ceiling_least a r n p h =
    let t : (a + r - 1) / r < suc n =
      lt_of_mul-lt-mul_right r (omega (arith, div-mul-le_self (a + r - 1) r, suc-mul n r)) in
    omega (arith, t)

interval_at : (rate : ℕ) → 0 < rate → request_interval rate ≡ (nanoseconds + rate - 1) / rate
unfolding request_interval
interval_at rate p = ground arith

-- For a positive rate, that many intervals last at least a second, and an interval is the least
-- number of nanoseconds of which this holds.
pub request_interval_lem :
    (rate : ℕ)
    → 0 < rate
    → (nanoseconds ≤ request_interval rate * rate)
      × ((n : ℕ) → nanoseconds ≤ n * rate → request_interval rate ≤ n)
request_interval_lem rate p = (
  subst (λ i. nanoseconds ≤ i * rate) (sym (interval_at rate p))
      (ceiling_reaches nanoseconds rate p),
  λ n h. subst (λ i. i ≤ n) (sym (interval_at rate p)) (ceiling_least nanoseconds rate n p h),
)
