-- ===== src/RateLimit/Tests.antt =====
-- Runs of the rate limiter, and its theorem at one of them.
use Prim.Native.String.{String}
use flop_proof_api.Base.{ℕ, ◌≡◌, refl, true, false, List, [], ◌∷◌, arith, ok, err, index_error}
use flop_proof_api.RateLimit.{Limits, expire, check, answers, no_requests}
use flop_proof_api.RateLimit.Window.{ideal, answers-ideal}

-- Two requests in ten seconds.
abbrev limits : Limits
limits = record { max_requests = 2; window_seconds = 10 }

abbrev calls : List (String × ℕ)
calls =
    ("a", 0)
    ∷ ("a", 1000000000)
    ∷ ("a", 2000000000)
    ∷ ("b", 3000000000)
    ∷ ("a", 10000000000)
    ∷ ("a", 10500000000)
    ∷ []

-- Opening this opens the limiter for a test.
limiter : Unit {0}
unfolding expire check answers
limiter = tt

calls_run :
    answers limits no_requests calls
    ≡ ok true ∷ ok true ∷ ok false ∷ ok true ∷ ok true ∷ ok false ∷ []
unfolding limiter
calls_run = refl

seconds_to_wait :
    (check limits (λ key. 1000000000 ∷ 2500000000 ∷ []) "a" 3000000000).0 ≡ ok (false, 8)
unfolding limiter
seconds_to_wait = refl

answers-ideal_example : answers limits no_requests calls ≡ ideal limits no_requests calls
answers-ideal_example =
    answers-ideal limits calls (omega arith)
      (omega arith, (omega arith, (omega arith, (omega arith, (omega arith, (omega arith, tt))))))

-- With a limit of no requests the first call raises.
no_requests_allowed :
    (check (record { max_requests = 0; window_seconds = 10 }) no_requests "a" 0).0
    ≡ err (index_error "list index out of range")
unfolding limiter
no_requests_allowed = refl
