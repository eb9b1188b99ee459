-- ===== src/Store/Order.antt =====
-- app/events.py, app/main.py: the order of a proof's rows.
use Prim.Native.String.{String}
use mathlib.Core.List.{append-nil}
use text.Mathlib.Text.{◌==◌ as str_eq}
use flop_proof_api.Base.{
  ℕ, ◌+◌, ◌≡◌, refl, sym, ap, ◌∙◌, Bool, true, false, not, ◌&&◌, List, [], ◌∷◌, ◌++◌, some, all,
  length, ltb, ◌==◌, arith,
}
use flop_proof_api.Records.{last_of}
use flop_proof_api.Store.{ProofEvent, events_of, insert_event, sorted_onto, chain_of, next_sequence}

-- The rows have the sequence numbers from the given one on, without a gap.
unfoldable pub is_numbered : ℕ → List ProofEvent → Bool
is_numbered n [] = true
is_numbered n (e ∷ rows) = e.sequence == n && is_numbered (n + 1) rows

pub last-append {ℓ} : {A : Type ℓ} (xs : List A) (x : A) → last_of (xs ++ x ∷ []) ≡ some x
last-append [] x = refl
last-append (y ∷ []) x = refl
last-append (y ∷ (z ∷ xs)) x = last-append (z ∷ xs) x

append-assoc-one {ℓ} :
    {A : Type ℓ} (xs : List A) (x : A) (ys : List A) → (xs ++ x ∷ []) ++ ys ≡ xs ++ x ∷ ys
append-assoc-one [] x ys = refl
append-assoc-one (y ∷ xs) x ys = ap (λ zs. y ∷ zs) (append-assoc-one xs x ys)

-- A row whose number is not below those of the others is put at the end.
insert-last :
    (e : ProofEvent) (xs : List ProofEvent)
    → all (λ x. not (ltb e.sequence x.sequence)) xs ≡ true
    → insert_event e xs ≡ xs ++ e ∷ []
unfolding insert_event
insert-last e [] h = refl
insert-last e (x ∷ xs) h = ground (arith, insert-last e xs)

below-append :
    (n : ℕ) (xs : List ProofEvent) (e : ProofEvent)
    → all (λ x. ltb x.sequence n) xs ≡ true
    → e.sequence ≡ n
    → all (λ x. ltb x.sequence (n + 1)) (xs ++ e ∷ []) ≡ true
below-append n [] e h k = ground arith
below-append n (x ∷ xs) e h k = ground (arith, below-append n xs e)

above :
    (n : ℕ) (xs : List ProofEvent)
    → all (λ x. ltb x.sequence n) xs ≡ true
    → all (λ x. not (ltb n x.sequence)) xs ≡ true
above n [] h = refl
above n (x ∷ xs) h = ground (arith, above n xs)

sorted-numbered :
    (n : ℕ) (xs ys : List ProofEvent)
    → all (λ x. ltb x.sequence n) xs ≡ true
    → is_numbered n ys ≡ true
    → sorted_onto xs ys ≡ xs ++ ys
unfolding sorted_onto is_numbered
sorted-numbered n xs [] h k = sym (append-nil xs)
sorted-numbered n xs (e ∷ ys) h k =
    let same : e.sequence ≡ n = ground arith in
    let put : insert_event e xs ≡ xs ++ e ∷ [] = insert-last e xs (rw same (above n xs h)) in
    rw put (
      sorted-numbered (n + 1) (xs ++ e ∷ []) ys (below-append n xs e h same) (ground arith)
      ∙ append-assoc-one xs e ys)

-- Rows that are numbered from 1 in the order of their insertion stand in this order in the chain.
pub chain-events :
    (events : List ProofEvent) (proof_id : String)
    → is_numbered 1 (events_of events proof_id) ≡ true
    → chain_of events proof_id ≡ events_of events proof_id
unfolding chain_of
chain-events events proof_id h = sorted-numbered 1 [] (events_of events proof_id) refl h

pub events-append-other :
    (events : List ProofEvent) (e : ProofEvent) (proof_id : String)
    → str_eq e.proof_id proof_id ≡ false
    → events_of (events ++ e ∷ []) proof_id ≡ events_of events proof_id
events-append-other [] e proof_id h = ground arith
events-append-other (x ∷ events) e proof_id h =
    ground (arith, events-append-other events e proof_id h)

pub events-append-same :
    (events : List ProofEvent) (e : ProofEvent) (proof_id : String)
    → str_eq e.proof_id proof_id ≡ true
    → events_of (events ++ e ∷ []) proof_id ≡ events_of events proof_id ++ e ∷ []
events-append-same [] e proof_id h = ground arith
events-append-same (x ∷ events) e proof_id h =
    ground (arith, events-append-same events e proof_id h)

-- The row after numbered rows keeps them numbered, and is the one that `next_sequence` counts.
pub numbered-append :
    (n : ℕ) (rows : List ProofEvent) (e : ProofEvent)
    → is_numbered n rows ≡ true
    → e.sequence ≡ n + length rows
    → is_numbered n (rows ++ e ∷ []) ≡ true
unfolding is_numbered
numbered-append n [] e h k = ground arith
numbered-append n (x ∷ rows) e h k = ground (arith, numbered-append (n + 1) rows e)

next-numbered_from :
    (n : ℕ) (x : ProofEvent) (rows : List ProofEvent)
    → is_numbered n (x ∷ rows) ≡ true
    → next_sequence (last_of (x ∷ rows)) ≡ n + 1 + length rows
unfolding is_numbered
next-numbered_from n x [] h = ground arith
next-numbered_from n x (y ∷ rows) h =
    let rest = next-numbered_from (n + 1) y rows (ground arith) in omega (arith, rest)

pub next-numbered :
    (rows : List ProofEvent)
    → is_numbered 1 rows ≡ true
    → next_sequence (last_of rows) ≡ 1 + length rows
next-numbered [] h = refl
next-numbered (x ∷ rows) h = omega (arith, next-numbered_from 1 x rows h)
