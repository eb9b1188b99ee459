-- ===== src/RateLimit/Expiry.antt =====
-- The timestamps that the limiter of app/rate_limit.py drops.
use flop_proof_api.Base.{
  ℕ, ◌+◌, ◌≤◌, ◌<◌, ◌≡◌, refl, List, [], ◌∷◌, ◌++◌, length, ltb, leb, if◌then◌else◌, arith,
  Bool-cases, inl, inr,
}
use flop_proof_api.RateLimit.{expire}

-- How many of the timestamps are within the window that ends now.
unfoldable pub recent : ℕ → ℕ → List ℕ → ℕ
recent w now [] = 0
recent w now (t ∷ ts) = (if ltb now (t + w) then 1 else 0) + recent w now ts

-- Timestamps in order, from `low` to `high`.
unfoldable pub Between : ℕ → ℕ → List ℕ → Type 0
Between low high [] = Unit
Between low high (t ∷ ts) = (low ≤ t) × (t ≤ high) × Between t high ts

pub recent-append :
    (w now : ℕ) (ts us : List ℕ) → recent w now (ts ++ us) ≡ recent w now ts + recent w now us
unfolding recent
recent-append w now [] us = omega arith
recent-append w now (t ∷ ts) us = ground (arith, recent-append w now ts us)

-- In order, all timestamps after a recent one are recent.
recent_all :
    (w now low high : ℕ) (ts : List ℕ)
    → now < low + w
    → Between low high ts
    → recent w now ts ≡ length ts
unfolding recent Between
recent_all w now low high [] h b = refl
recent_all w now low high (t ∷ ts) h (a, c, rest) =
    ground (arith, recent_all w now t high ts (omega arith) rest)

pub expire-length :
    (w now low high : ℕ) (ts : List ℕ)
    → Between low high ts
    → length (expire w now ts) ≡ recent w now ts
unfolding expire recent Between
expire-length w now low high [] b = refl
expire-length w now low high (t ∷ ts) (a, c, rest) = elim (Bool-cases (leb (t + w) now)) [
  | inl old ↦ ground (arith, expire-length w now t high ts rest)
  | inr new ↦
      let h : now < t + w = ground arith in ground (arith, recent_all w now t high ts h rest)
]

-- What has expired stays so.
pub expire-recent :
    (w now later : ℕ) (ts : List ℕ)
    → now ≤ later
    → recent w later (expire w now ts) ≡ recent w later ts
unfolding expire recent
expire-recent w now later [] h = refl
expire-recent w now later (t ∷ ts) h = ground (arith, expire-recent w now later ts h)

pub Between-weaken :
    (low low' high high' : ℕ) (ts : List ℕ)
    → low' ≤ low
    → high ≤ high'
    → Between low high ts
    → Between low' high' ts
unfolding Between
Between-weaken low low' high high' [] h k b = tt
Between-weaken low low' high high' (t ∷ ts) h k (a, c, rest) =
    (omega arith, omega arith, Between-weaken t t high high' ts (omega arith) k rest)

pub Between-expire :
    (w now low high : ℕ) (ts : List ℕ) → Between low high ts → Between low high (expire w now ts)
unfolding expire Between
Between-expire w now low high [] b = tt
Between-expire w now low high (t ∷ ts) (a, c, rest) = elim (Bool-cases (leb (t + w) now)) [
  | inl old ↦
      rw (old, expire)
        (Between-weaken t low high high (expire w now ts) a (omega arith)
          (Between-expire w now t high ts rest))
  | inr new ↦ rw (new, expire) (a, c, rest)
]

pub Between-append :
    (low high now : ℕ) (ts : List ℕ)
    → low ≤ now
    → high ≤ now
    → Between low high ts
    → Between low now (ts ++ now ∷ [])
unfolding Between
Between-append low high now [] h k b = (h, omega arith, tt)
Between-append low high now (t ∷ ts) h k (a, c, rest) =
    (a, omega arith, Between-append t high now ts (omega arith) k rest)

pub nothing-Between : Between 0 0 []
unfolding Between
nothing-Between = tt
