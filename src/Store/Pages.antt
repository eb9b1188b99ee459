-- ===== src/Store/Pages.antt =====
-- app/main.py: what the endpoints that read the tables promise.
use Prim.Native.String.{String}
use text.Mathlib.Text.{◌==◌ as str_eq}
use text.Mathlib.TextEquality.{eq_iff}
use flop_proof_api.Base.{
  if◌then◌else◌, none, Option, ℕ, zero, suc, ◌+◌, ◌≤◌, ◌≡◌, refl, sym, ap, ◌∙◌, inl, inr, Bool,
  true, false, ◌&&◌, ◌||◌, List, [], ◌∷◌, some, map, all, any, length, take, arith, Result, ok,
  ok_inj, raise_if-eq-ok, Bool-cases, ltb,
}
use flop_proof_api.Base.Bytes.{Bytes}
use flop_proof_api.Base.Sets.{contains, contains-add}
use flop_proof_api.Host.{Host}
use flop_proof_api.Value.{Value, Fields}
use flop_proof_api.Verification.Results.{Outcome, no_outcome, outcome_of}
use flop_proof_api.Verification.Verdict.{outcome_holds}
use flop_proof_api.Store.{Proof, ProofEvent, Tables, first_proof, chain_of, export_events}
use flop_proof_api.Store.Read.{
  is_status, Verified, verify_proof, with_status, ProofPage, stats_of, selected, item, page_of,
  require_status, list_proofs, Actor, put_actor, actors_from,
}
use flop_proof_api.Store.Accepted.{checks_passed}
use flop_proof_api.Store.Promises.{stored_proof_verifies}
use flop_proof_api.Store.System.{State, Reach}

module _ (host : Host) (json_loads : String → Result Value) (read_file : Value → Result Bytes) where
  -- In every state that the API reaches, whatever the order of its calls, verify_proof answers for a
  -- stored proof, and reports it as valid exactly when the hashes inside its payloads (of results,
  -- artifacts and tasks) are right: all checks of the events and the position rule hold. Calls with
  -- payloads that json.loads reads back are let in; the loop that checks the hashes inside the
  -- payloads is taken to return on the export, with the outcome that it has.
  pub verified_valid :
      (s : State) (proof_id : String) (p : Proof) (events : List Fields) (outcome : Outcome)
      → Reach host json_loads s
      → first_proof s.tables.proofs proof_id ≡ some p
      → export_events json_loads (chain_of s.tables.events proof_id) ≡ ok events
      → outcome_of host read_file no_outcome events ≡ ok outcome
      → (v : Verified) × (verify_proof host json_loads read_file s.tables proof_id ≡ ok v)
        × (v.report.valid ≡ outcome_holds outcome)
  unfolding verify_proof
  verified_valid s proof_id p events outcome reach found exported known =
      let (r, verified, valid) =
        stored_proof_verifies host json_loads read_file s proof_id p events outcome reach found
          exported known in
      (
        record {
          report = r;
          evidence_class = "proof_integrity_verified";
          execution_verified = false;
          runtime_settled = false;
        },
        rw (verify_proof, found, exported, verified) refl,
        valid,
      )

-- The proofs whose status is one of the four.
unfoldable pub with_known_status : List Proof → List Proof
with_known_status [] = []
with_known_status (p ∷ proofs) =
    let rest = with_known_status proofs in if is_status p.status then p ∷ rest else rest

-- A status is counted in one of the four numbers, or in none when it is another text.
stats_step :
    (p : Proof) (proofs : List Proof)
    → length (with_status "pending" (p ∷ proofs))
        + length (with_status "active" (p ∷ proofs))
        + length (with_status "completed" (p ∷ proofs))
        + length (with_status "failed" (p ∷ proofs))
      ≡ (if is_status p.status then 1 else 0)
        + (length (with_status "pending" proofs)
            + length (with_status "active" proofs)
            + length (with_status "completed" proofs)
            + length (with_status "failed" proofs))
stats_step p proofs = elim (Bool-cases (str_eq p.status "pending")) [
  | inl s ↦ rw ((eq_iff p.status "pending").0 s) (omega arith)
  | inr a ↦ elim (Bool-cases (str_eq p.status "active")) [
    | inl s ↦ rw ((eq_iff p.status "active").0 s) (omega arith)
    | inr b ↦ elim (Bool-cases (str_eq p.status "completed")) [
      | inl s ↦ rw ((eq_iff p.status "completed").0 s) (omega arith)
      | inr c ↦ elim (Bool-cases (str_eq p.status "failed")) [
        | inl s ↦ rw ((eq_iff p.status "failed").0 s) (omega arith)
        | inr d ↦ rw (a, b, c, d) (omega arith)
      ]
    ]
  ]
]

known_step :
    (p : Proof) (proofs : List Proof)
    → length (with_known_status (p ∷ proofs))
      ≡ (if is_status p.status then 1 else 0) + length (with_known_status proofs)
unfolding with_known_status
known_step p proofs = elim (Bool-cases (is_status p.status)) [
  | inl known ↦ rw known (omega arith)
  | inr other ↦ rw other (omega arith)
]

stats_sum :
    (proofs : List Proof)
    → (stats_of proofs).pending
        + (stats_of proofs).active
        + (stats_of proofs).completed
        + (stats_of proofs).failed
      ≡ length (with_known_status proofs)
unfolding stats_of with_known_status
stats_sum [] = refl
stats_sum (p ∷ proofs) =
    stats_step p proofs
    ∙ ap (λ n. (if is_status p.status then 1 else 0) + n) (stats_sum proofs)
    ∙ sym (known_step p proofs)

length-take_le {ℓ} : {A : Type ℓ} (n : ℕ) (xs : List A) → length (take n xs) ≤ n
length-take_le zero xs = omega arith
length-take_le (suc n) [] = omega arith
length-take_le (suc n) (x ∷ xs) = omega (arith, length-take_le n xs)

length-map {ℓ κ} :
    {A : Type ℓ} {B : Type κ} (f : A → B) (xs : List A) → length (map f xs) ≡ length xs
length-map f [] = refl
length-map f (x ∷ xs) = ap suc (length-map f xs)

all-items :
    (events : List ProofEvent) (q : Proof → Bool) (n : ℕ) (proofs : List Proof)
    → all q proofs ≡ true
    → all (λ i. q i.proof) (map (item events) (take n proofs)) ≡ true
all-items events q zero proofs h = refl
all-items events q (suc n) [] h = refl
all-items events q (suc n) (p ∷ proofs) h = ground (arith, all-items events q n proofs)

-- The proof is one of those that the call asks for.
abbrev pub has_status : Option String → Proof → Bool
has_status none p = true
has_status (some status) p = str_eq p.status status

all-with_status :
    (status : String) (proofs : List Proof)
    → all (has_status (some status)) (with_status status proofs) ≡ true
all-with_status status [] = refl
all-with_status status (p ∷ proofs) = elim (Bool-cases (str_eq p.status status)) [
  | inl same ↦ ground (arith, all-with_status status proofs)
  | inr other ↦ ground (arith, all-with_status status proofs)
]

all-true : (proofs : List Proof) → all (has_status none) proofs ≡ true
all-true [] = refl
all-true (p ∷ proofs) = all-true proofs

module _ (newest_first : List Proof → List Proof)
    (ordered : (q : Proof → Bool) (proofs : List Proof)
      → all q proofs ≡ true
      → all q (newest_first proofs) ≡ true) where
  all-selected :
      (status : Option String) (proofs : List Proof)
      → all (has_status status) (selected newest_first status proofs) ≡ true
  all-selected none proofs = ordered (has_status none) proofs (all-true proofs)
  all-selected (some status) proofs =
      ordered (has_status (some status)) _ (all-with_status status proofs)

  -- A page that list_proofs answers, with a status or without one, has at most `limit` items, which
  -- is at most 100; with a status, all of them have it; the total is the number of all proofs; and
  -- the four numbers of the statistics add up to the number of the proofs whose status is one of the
  -- four. What holds of all rows is taken to hold of them in the order of the database.
  pub list_proofs_page :
      (tables : Tables) (limit : ℕ) (status : Option String) (page : ProofPage)
      → list_proofs newest_first tables limit status ≡ ok page
      → (page.count ≤ limit)
        × (page.count ≤ 100)
        × (all (λ i. has_status status i.proof) page.items ≡ true)
        × (page.total ≡ length tables.proofs)
        × (page.stats.pending + page.stats.active + page.stats.completed + page.stats.failed
            ≡ length (with_known_status tables.proofs))
  unfolding list_proofs
  list_proofs_page tables limit status page h =
      let (within, r1) = raise_if-eq-ok (ltb limit 1 || ltb 100 limit) _ _ h in
      let (_, r2) = checks_passed (require_status newest_first status) _ r1 in
      let e : page_of newest_first tables limit status ≡ page = ok_inj r2 in
      let chosen = selected newest_first status tables.proofs in
      let counted : length (map (item tables.events) (take limit chosen)) ≤ limit =
        omega (
          arith,
          length-map (item tables.events) (take limit chosen),
          length-take_le limit chosen,
        ) in
      let small : limit ≤ 100 = ground arith in
      let count : length (map (item tables.events) (take limit chosen)) ≡ page.count =
        ap (λ p. p.count) e in
      (
        omega (arith, counted, count),
        omega (arith, counted, small, count),
        ap (λ p. all (λ i. has_status status i.proof) p.items) (sym e)
            ∙ all-items tables.events (has_status status) limit chosen
                (all-selected status tables.proofs),
        ap (λ p. p.total) (sym e),
        ap (λ p. p.stats.pending + p.stats.active + p.stats.completed + p.stats.failed) (sym e)
            ∙ stats_sum tables.proofs,
      )

abbrev is_own : String → String → ProofEvent → Bool
is_own did proof_id e = str_eq e.actor_did did && str_eq e.proof_id proof_id

-- The actor is listed with the proof.
abbrev pub is_listed : String → String → List Actor → Bool
is_listed did proof_id = any (λ a. str_eq a.did did && contains a.proof_ids proof_id)

listed-put_actor :
    (actor did : String) (own proof_id : String) (actors : List Actor)
    → is_listed did proof_id (put_actor actor own actors)
      ≡ (is_listed did proof_id actors || (str_eq actor did && str_eq own proof_id))
unfolding put_actor contains
listed-put_actor actor did own proof_id [] = ground arith
listed-put_actor actor did own proof_id (a ∷ actors) = elim (Bool-cases (str_eq a.did actor)) [
  | inl same ↦ ground (arith, contains-add a.proof_ids own proof_id, (eq_iff a.did actor).0 same)
  | inr other ↦ ground (arith, listed-put_actor actor did own proof_id actors)
]

listed_from :
    (did proof_id : String) (actors : List Actor) (events : List ProofEvent)
    → is_listed did proof_id (actors_from actors events)
      ≡ (is_listed did proof_id actors || any (is_own did proof_id) events)
unfolding actors_from
listed_from did proof_id actors [] = ground arith
listed_from did proof_id actors (e ∷ events) = ground (
  arith,
  listed_from did proof_id (put_actor e.actor_did e.proof_id actors) events,
  listed-put_actor e.actor_did did e.proof_id proof_id actors,
)

-- After the first loop of list_actors an actor is listed with a proof exactly when it has written
-- one of the events of the proof.
pub actors_listed :
    (did proof_id : String) (events : List ProofEvent)
    → is_listed did proof_id (actors_from [] events)
      ≡ any (λ e. str_eq e.actor_did did && str_eq e.proof_id proof_id) events
actors_listed did proof_id events = listed_from did proof_id [] events
