-- ===== src/RateLimit.antt =====
-- app/rate_limit.py: a sliding window of accepted requests for each key.
pub mod Expiry
pub mod Window
mod Tests
use Prim.Native.String.{String}
use text.Mathlib.Text.{◌==◌ as str_eq}
use flop_proof_api.Base.{
  ℕ, ◌+◌, ◌-◌, ◌*◌, ◌/◌, Bool, true, false, List, [], ◌∷◌, ◌++◌, length, ltb, leb, if◌then◌else◌,
  Result, ok, err, index_error,
}

-- The clock ticks in nanoseconds, so that its differences are whole numbers.
abbrev pub ticks : ℕ
ticks = 1000000000

-- The settings; a negative number of requests, which refuses like 0, is left out.
pub record Limits : Type 0 where
  pub max_requests : ℕ
  pub window_seconds : ℕ

-- `self._requests`, a defaultdict of lists: the timestamps of each key
abbrev pub Requests : Type 0
Requests = String → List ℕ

abbrev pub put : Requests → String → List ℕ → Requests
put requests key timestamps other = if str_eq other key then timestamps else requests other

-- `while timestamps and timestamps[0] <= cutoff: timestamps.pop(0)`
unfoldable pub expire : ℕ → ℕ → List ℕ → List ℕ
expire window now [] = []
expire window now (t ∷ timestamps) = elim (leb (t + window) now) [
  | true ↦ expire window now timestamps
  | false ↦ t ∷ timestamps
]

-- `timestamps[0]`
abbrev pub oldest : List ℕ → Result ℕ
oldest [] = err (index_error "list index out of range")
oldest (t ∷ timestamps) = ok t

abbrev pub allowed_in : Result (Bool × ℕ) → Result Bool
allowed_in (err e) = err e
allowed_in (ok (allowed, retry_after)) = ok allowed

abbrev at_least_1 : ℕ → ℕ
at_least_1 n = if leb 1 n then n else 1

module _ (limits : Limits) where
  abbrev pub window : ℕ
  window = limits.window_seconds * ticks

  -- `check` at the clock's `now`: the answer with the seconds to wait, or the exception, and the
  -- timestamps after it.
  unfoldable pub check : Requests → String → ℕ → Result (Bool × ℕ) × Requests
  check requests key now =
      let timestamps = expire window now (requests key) in
      if leb limits.max_requests (length timestamps)
      then (
        elim (oldest timestamps) [
          | err e ↦ err e
          | ok first ↦ ok (false, at_least_1 ((window - (now - first)) / ticks))
        ],
        put requests key timestamps,
      )
      else (ok (true, 0), put requests key (timestamps ++ now ∷ []))

  -- Calls of `check` one after the other, with their key and time: the answers, without the
  -- seconds to wait, and the exceptions.
  unfoldable pub answers : Requests → List (String × ℕ) → List (Result Bool)
  answers requests [] = []
  answers requests ((key, now) ∷ calls) =
      let (answer, after) = check requests key now in allowed_in answer ∷ answers after calls

-- `reset`, and a new limiter
abbrev pub no_requests : Requests
no_requests key = []
