-- ===== src/RateLimit/Window.antt =====
-- The limiter answers as if it kept every accepted request of each key for ever.
use Prim.Native.String.{String}
use text.Mathlib.Text.{◌==◌ as str_eq}
use text.Mathlib.TextEquality.{eq_iff}
use flop_proof_api.Base.{
  ℕ, ◌+◌, ◌≤◌, ◌<◌, ◌≡◌, refl, sym, ap, ◌∙◌, Bool, true, false, List, [], ◌∷◌, ◌++◌, length, ltb,
  leb, if◌then◌else◌, arith, Result, ok, Bool-cases, inl, inr,
}
use flop_proof_api.RateLimit.{
  Limits, Requests, put, expire, window, oldest, allowed_in, check, answers, no_requests,
}
use flop_proof_api.RateLimit.Expiry.{
  recent, Between, Between-weaken, Between-expire, Between-append, expire-length, expire-recent,
  recent-append, nothing-Between,
}

module _ (limits : Limits) where
  -- The rule: a call is allowed while fewer than `max_requests` allowed calls of its key are
  -- recent. `log` has the times of all allowed calls of each key.
  unfoldable pub ideal : Requests → List (String × ℕ) → List (Result Bool)
  ideal log [] = []
  ideal log ((key, now) ∷ calls) =
      if ltb (recent (window limits) now (log key)) limits.max_requests
      then ok true ∷ ideal (put log key (log key ++ now ∷ [])) calls
      else ok false ∷ ideal log calls

-- The times of the calls never go back.
abbrev pub Ordered : ℕ → List (String × ℕ) → Type 0
Ordered clock [] = Unit
Ordered clock ((key, now) ∷ calls) = (clock ≤ now) × Ordered now calls

-- The limiter's timestamps stand for the log of the key: in order, and recent as the log is.
record Stands (w clock : ℕ) (log stored : List ℕ) : Type 0 where
  in_order : Between 0 clock stored
  same_recent : (now : ℕ) → clock ≤ now → recent w now log ≡ recent w now stored

Stands-later :
    (w clock now : ℕ) (log stored : List ℕ)
    → clock ≤ now
    → Stands w clock log stored
    → Stands w now log stored
Stands-later w clock now log stored h s = record {
  in_order = Between-weaken 0 0 clock now stored (omega arith) h s.in_order;
  same_recent = λ later k. s.same_recent later (omega arith);
}

Stands-expire :
    (w clock now : ℕ) (log stored : List ℕ)
    → clock ≤ now
    → Stands w clock log stored
    → Stands w now log (expire w now stored)
Stands-expire w clock now log stored h s = record {
  in_order =
      Between-expire w now 0 now stored
        (Between-weaken 0 0 clock now stored (omega arith) h s.in_order);
  same_recent =
      λ later k. s.same_recent later (omega arith) ∙ sym (expire-recent w now later stored k);
}

Stands-append :
    (w now : ℕ) (log stored : List ℕ)
    → Stands w now log stored
    → Stands w now (log ++ now ∷ []) (stored ++ now ∷ [])
Stands-append w now log stored s = record {
  in_order = Between-append 0 now now stored (omega arith) (omega arith) s.in_order;
  same_recent = λ later k.
      recent-append w later log (now ∷ [])
      ∙ ap (λ n. n + recent w later (now ∷ [])) (s.same_recent later k)
      ∙ sym (recent-append w later stored (now ∷ []));
}

put-Stands :
    (w now : ℕ) (log stored : Requests) (key : String) (ls ts : List ℕ)
    → ((other : String) → Stands w now (log other) (stored other))
    → Stands w now ls ts
    → (other : String) → Stands w now (put log key ls other) (put stored key ts other)
put-Stands w now log stored key ls ts all here other = elim (Bool-cases (str_eq other key)) [
  | inl same ↦ rw same here
  | inr different ↦ rw different (all other)
]

keep-Stands :
    (w now : ℕ) (log stored : Requests) (key : String) (ts : List ℕ)
    → ((other : String) → Stands w now (log other) (stored other))
    → Stands w now (log key) ts
    → (other : String) → Stands w now (log other) (put stored key ts other)
keep-Stands w now log stored key ts all here other = elim (Bool-cases (str_eq other key)) [
  | inl same ↦ rw (same, (eq_iff other key).0 same) here
  | inr different ↦ rw different (all other)
]

oldest_of : (ts : List ℕ) → 0 < length ts → (t : ℕ) × (oldest ts ≡ ok t)
oldest_of [] h = absurd (omega arith)
oldest_of (t ∷ ts) h = (t, refl)

module _ (limits : Limits) (requests : Requests) (key : String) (now : ℕ) where
  check-allowed :
      length (expire (window limits) now (requests key)) < limits.max_requests
      → (allowed_in (check limits requests key now).0 ≡ ok true)
        × ((check limits requests key now).1
            ≡ put requests key (expire (window limits) now (requests key) ++ now ∷ []))
  unfolding check
  check-allowed h =
      let few : leb limits.max_requests (length (expire (window limits) now (requests key)))
          ≡ false =
        ground arith in
      rw few (refl, refl)

  check-refused :
      0 < limits.max_requests
      → limits.max_requests ≤ length (expire (window limits) now (requests key))
      → (allowed_in (check limits requests key now).0 ≡ ok false)
        × ((check limits requests key now).1
            ≡ put requests key (expire (window limits) now (requests key)))
  unfolding check
  check-refused some_requests h =
      let many : leb limits.max_requests (length (expire (window limits) now (requests key)))
          ≡ true =
        ground arith in
      let (t, first) = oldest_of (expire (window limits) now (requests key)) (omega arith) in
      rw (many, first) (refl, refl)

module _ (limits : Limits) where
  same_answers :
      (log requests : Requests) (clock : ℕ) (calls : List (String × ℕ))
      → 0 < limits.max_requests
      → Ordered clock calls
      → ((key : String) → Stands (window limits) clock (log key) (requests key))
      → answers limits requests calls ≡ ideal limits log calls
  unfolding answers ideal
  same_answers log requests clock [] l o s = refl
  same_answers log requests clock ((key, now) ∷ calls) l (h, o) s =
      let w = window limits in
      let expired = Stands-expire w clock now (log key) (requests key) h (s key) in
      let others : (other : String) → Stands w now (log other) (requests other) =
        λ other. Stands-later w clock now (log other) (requests other) h (s other) in
      let size =
        expire-length w now 0 clock (requests key) ((s key).in_order)
        ∙ sym ((s key).same_recent now h) in
      elim (Bool-cases (ltb (recent w now (log key)) limits.max_requests)) [
        | inl few ↦
            let (allowed, after) = check-allowed limits requests key now (ground (arith, size)) in
            rw (few, allowed, after)
              (ap (λ rest. ok true ∷ rest)
                (same_answers (put log key (log key ++ now ∷ []))
                  (put requests key (expire w now (requests key) ++ now ∷ [])) now calls l o
                  (put-Stands w now log requests key (log key ++ now ∷ [])
                    (expire w now (requests key) ++ now ∷ []) others
                    (Stands-append w now (log key) (expire w now (requests key)) expired))))
        | inr many ↦
            let (refused, after) = check-refused limits requests key now l (ground (arith, size)) in
            rw (many, refused, after)
              (ap (λ rest. ok false ∷ rest)
                (same_answers log (put requests key (expire w now (requests key))) now calls l o (
                  keep-Stands w now log requests key (expire w now (requests key)) others expired)))
      ]

  -- When the limit is at least one request, calls of `check` on a new limiter, at times that never
  -- go back, raise nothing and are answered by the rule: a call is allowed exactly while fewer than
  -- `max_requests` of the allowed calls of its key before it lie within the window that ends at its
  -- time.
  pub answers-ideal :
      (calls : List (String × ℕ))
      → 0 < limits.max_requests
      → Ordered 0 calls
      → answers limits no_requests calls ≡ ideal limits no_requests calls
  answers-ideal calls l o =
      same_answers no_requests no_requests 0 calls l o
        (λ key. record { in_order = nothing-Between; same_recent = λ now h. refl })
