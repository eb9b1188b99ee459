-- ===== src/Store/Rows.antt =====
-- app/main.py: the rows of proofs after a write.
use Prim.Native.String.{String}
use mathlib.Core.Option.{some-injective}
use text.Mathlib.Text.{◌==◌ as str_eq}
use text.Mathlib.TextEquality.{eq_iff}
use flop_proof_api.Base.{
  ◌≡◌, refl, sym, ap, ◌∙◌, inl, inr, Bool, true, false, ◌||◌, List, [], ◌∷◌, ◌++◌, none, some,
  arith, Bool-cases, if◌then◌else◌,
}
use flop_proof_api.Value.{str, is_text}
use flop_proof_api.Formats.{is_closing}
use flop_proof_api.Store.{Proof, ProofEvent, first_proof}
use flop_proof_api.Store.Append.{is_closed, next_status, touch}
use flop_proof_api.Store.Chain.{has_closing}

pub if_true {ℓ} : {A : Type ℓ} (b : Bool) (x y : A) → b ≡ true → (if b then x else y) ≡ x
if_true true x y h = refl
if_true false x y h = cc

pub if_false {ℓ} : {A : Type ℓ} (b : Bool) (x y : A) → b ≡ false → (if b then x else y) ≡ y
if_false false x y h = refl
if_false true x y h = cc

-- A row that was found has the id that was asked for.
pub first_proof-id :
    (proofs : List Proof) (proof_id : String) (p : Proof)
    → first_proof proofs proof_id ≡ some p
    → p.proof_id ≡ proof_id
first_proof-id [] proof_id p h = cc
first_proof-id (q ∷ proofs) proof_id p h = elim (Bool-cases (str_eq q.proof_id proof_id)) [
  | inl same ↦
      let here =
        some-injective _ _ (sym (if_true _ (some q) (first_proof proofs proof_id) same) ∙ h) in
      ap (λ r. r.proof_id) (sym here) ∙ (eq_iff q.proof_id proof_id).0 same
  | inr other ↦ first_proof-id proofs proof_id p (ground arith)
]

module _ (q : Proof) (written event_type now : String) where
  abbrev touched : Proof
  touched =
      if str_eq q.proof_id written
      then record q { status = next_status event_type q.status; updated_at = now }
      else q

  touched_parts :
      (touched.proof_id ≡ q.proof_id)
      × (touched.version ≡ q.version)
      × (touched.status
          ≡ (if str_eq q.proof_id written then next_status event_type q.status else q.status))
  touched_parts = elim (Bool-cases (str_eq q.proof_id written)) [
    | inl same ↦ (rw same refl, rw same refl, rw same refl)
    | inr other ↦ (rw other refl, rw other refl, rw other refl)
  ]

pub touch-none :
    (proofs : List Proof) (written event_type now proof_id : String)
    → first_proof (touch proofs written event_type now) proof_id ≡ none
    → first_proof proofs proof_id ≡ none
touch-none [] written event_type now proof_id h = refl
touch-none (q ∷ proofs) written event_type now proof_id h =
    let (id, _, _) = touched_parts q written event_type now in
    let k = rw id at h in ground (arith, touch-none proofs written event_type now proof_id)

-- A write of an event changes the status and the time of its own proof only.
pub touch-some :
    (proofs : List Proof) (written event_type now proof_id : String) (p : Proof)
    → first_proof (touch proofs written event_type now) proof_id ≡ some p
    → (q : Proof) × (first_proof proofs proof_id ≡ some q)
      × (p.version ≡ q.version)
      × (p.status
          ≡ (if str_eq q.proof_id written then next_status event_type q.status else q.status))
touch-some [] written event_type now proof_id p h = cc
touch-some (q ∷ proofs) written event_type now proof_id p h =
    let (id, version, status) = touched_parts q written event_type now in
    let k = rw id at h in
    elim (Bool-cases (str_eq q.proof_id proof_id)) [
      | inl same ↦
          let here : touched q written event_type now ≡ p = some-injective _ _ (
            sym (if_true _ _ (first_proof (touch proofs written event_type now) proof_id) same)
            ∙ k) in
          (
            q,
            if_true _ (some q) (first_proof proofs proof_id) same,
            ap (λ r. r.version) (sym here) ∙ version,
            ap (λ r. r.status) (sym here) ∙ status,
          )
      | inr other ↦
          let (r, found, version', status') =
            touch-some proofs written event_type now proof_id p (ground arith) in
          (r, ground arith, version', status')
    ]

pub first_proof-append :
    (proofs : List Proof) (new : Proof) (proof_id : String) (p : Proof)
    → first_proof (proofs ++ new ∷ []) proof_id ≡ some p
    → first_proof proofs proof_id ≡ none
    → (p ≡ new) × (new.proof_id ≡ proof_id)
first_proof-append [] new proof_id p h k = elim (Bool-cases (str_eq new.proof_id proof_id)) [
  | inl same ↦ (
    sym (some-injective _ _ (sym (if_true _ (some new) none same) ∙ h)),
    (eq_iff new.proof_id proof_id).0 same,
  )
  | inr other ↦ ground arith
]
first_proof-append (q ∷ proofs) new proof_id p h k =
    elim (Bool-cases (str_eq q.proof_id proof_id)) [
      | inl same ↦ ground arith
      | inr other ↦ first_proof-append proofs new proof_id p (ground arith) (ground arith)
    ]

pub first_proof-append_found :
    (proofs : List Proof) (new : Proof) (proof_id : String) (q : Proof)
    → first_proof proofs proof_id ≡ some q
    → first_proof (proofs ++ new ∷ []) proof_id ≡ some q
first_proof-append_found [] new proof_id q h = cc
first_proof-append_found (x ∷ proofs) new proof_id q h =
    elim (Bool-cases (str_eq x.proof_id proof_id)) [
      | inl same ↦ ground arith
      | inr other ↦ ground (arith, first_proof-append_found proofs new proof_id q)
    ]

pub first_proof-append_none :
    (proofs : List Proof) (new : Proof) (proof_id : String)
    → first_proof (proofs ++ new ∷ []) proof_id ≡ none
    → (first_proof proofs proof_id ≡ none) × (str_eq new.proof_id proof_id ≡ false)
first_proof-append_none [] new proof_id h = (refl, ground arith)
first_proof-append_none (x ∷ proofs) new proof_id h =
    elim (Bool-cases (str_eq x.proof_id proof_id)) [
      | inl same ↦ ground arith
      | inr other ↦
          let (rest, apart) = first_proof-append_none proofs new proof_id (ground arith) in
          (ground arith, apart)
    ]

pub closed_next :
    (event_type status : String)
    → is_closed (next_status event_type status) ≡ (is_closing (str event_type) || is_closed status)
unfolding is_text
closed_next event_type status = elim (Bool-cases (str_eq event_type "proof.completed")) [
  | inl completes ↦ rw ((eq_iff event_type "proof.completed").0 completes) refl
  | inr a ↦ elim (Bool-cases (str_eq event_type "proof.failed")) [
    | inl fails ↦ rw ((eq_iff event_type "proof.failed").0 fails) refl
    | inr b ↦ elim (Bool-cases (str_eq status "pending")) [
      | inl waits ↦ rw (a, b, (eq_iff status "pending").0 waits) refl
      | inr c ↦ rw (a, b, c) refl
    ]
  ]
]

pub has_closing-append :
    (rows : List ProofEvent) (row : ProofEvent)
    → has_closing (rows ++ row ∷ []) ≡ (is_closing (str row.event_type) || has_closing rows)
has_closing-append [] row = ground arith
has_closing-append (x ∷ rows) row = ground (arith, has_closing-append rows row)
