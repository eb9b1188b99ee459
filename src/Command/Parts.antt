-- ===== src/Command/Parts.antt =====
-- app/verifier.py: what the steps of the command require for an exit with 0.
use Prim.Native.String.{String}
use text.Mathlib.TextEquality.{eq_iff}
use flop_proof_api.Base.{
  ℕ, [], ◌≡◌, refl, sym, ap, ◌⊎◌, inl, inr, ◌↔◌, true, false, Option, none, some, List, arith,
  Result, ok, Bool-cases, Option-cases, >>=-eq-ok, ok_inj, ==_iff,
}
use flop_proof_api.Base.Bytes.{Bytes}
use flop_proof_api.Host.{Host}
use flop_proof_api.Value.{Value, str, null, bool, arr, obj, Items, Fields, get, truthy}
use flop_proof_api.Formats.{version_of}
use flop_proof_api.Verification.{not_false, is_hashable}
use flop_proof_api.Verification.Verdict.{Report, verify_proof_events}
use flop_proof_api.Command.{
  ℤ, pos, negsuc, objects_of, verify_items, FileReport, reported, is_valid, head_expectation,
  count_expectation, verify_listed, verify_proof_data,
}

pub head_met :
    (found expect_head : Option String)
    → (not_false (head_expectation found expect_head) ≡ true)
      ↔ ((expect_head ≡ none) ⊎ (expect_head ≡ found))
unfolding head_expectation
head_met found none = (λ h. inl refl, λ h. refl)
head_met none (some expected) = (λ h. cc, λ h. elim h [ inl unset ↦ cc | inr same ↦ cc ])
head_met (some found) (some expected) = (
  λ h. inr (ap some (sym ((eq_iff found expected).0 h))),
  λ h. elim h [ inl unset ↦ cc | inr same ↦ (eq_iff found expected).1 (cc) ],
)

pub count_met :
    (found : ℕ) (expect_count : Option ℤ)
    → (not_false (count_expectation (some found) expect_count) ≡ true)
      ↔ ((expect_count ≡ none) ⊎ (expect_count ≡ some (pos found)))
unfolding count_expectation
count_met found none = (λ h. inl refl, λ h. refl)
count_met found (some (negsuc n)) = (λ h. cc, λ h. elim h [ inl unset ↦ cc | inr same ↦ cc ])
count_met found (some (pos expected)) = (
  λ h. inr (ap (λ n. some (pos n)) (sym ((==_iff found expected).0 h))),
  λ h. elim h [ inl unset ↦ cc | inr same ↦ (==_iff found expected).1 (cc) ],
)

module _ (host : Host) (read_file : Value → Result Bytes) where
  -- An unsupported version makes no valid report.
  unsupported_parts :
      (proof_id : Value) (events : List Fields) (version : Value) (r : Report)
      → version_of version ≡ none
      → verify_proof_events host read_file proof_id events version ≡ ok r
      → r.valid ≡ false
  unfolding verify_proof_events
  unsupported_parts proof_id events version r unknown h = elim (Bool-cases (is_hashable version)) [
    | inl readable ↦
        sym (ap (λ x. x.valid) (ok_inj (rw (verify_proof_events, unknown, readable) at h)))
    | inr unreadable ↦ cc (rw (verify_proof_events, unknown, unreadable) at h)
  ]

  pub items_parts :
      (proof_id : Value) (listed : Option (List Fields)) (version : Value) (result : FileReport)
      → verify_items host read_file proof_id listed version ≡ ok result
      → is_valid result ≡ true
      → (events : List Fields) × (report : Report) × (listed ≡ some events)
        × (verify_proof_events host read_file proof_id events version ≡ ok report)
        × (result ≡ reported report)
  unfolding verify_items is_valid
  items_parts proof_id (some events) version result h valid =
      let (report, run, same) =
        >>=-eq-ok (verify_proof_events host read_file proof_id events version) _ h in
      (events, report, refl, run, sym (ok_inj same))
  items_parts proof_id none version result h valid = elim (Option-cases (version_of version)) [
    | inr (known, there) ↦ ground arith
    | inl unknown ↦
        let (report, run, same) =
          >>=-eq-ok (verify_proof_events host read_file proof_id [] version) _
            (rw (verify_items, unknown) at h) in
        let refused = unsupported_parts proof_id [] version report unknown run in
        let is_it : result ≡ reported report = sym (ok_inj same) in
        let holds : report.valid ≡ true = rw (is_it, is_valid) at valid in cc
  ]

  pub listed_parts :
      (proof_id listed version : Value) (result : FileReport)
      → verify_listed host read_file proof_id listed version ≡ ok result
      → is_valid result ≡ true
      → (items : Items) × (listed ≡ arr items)
        × (verify_items host read_file proof_id (objects_of items) version ≡ ok result)
  unfolding verify_listed is_valid
  listed_parts proof_id (arr items) version result h valid = (items, refl, h)
  listed_parts proof_id (str s) version result h valid = ground arith
  listed_parts proof_id null version result h valid = ground arith
  listed_parts proof_id (bool b) version result h valid = ground arith
  listed_parts proof_id (obj fields) version result h valid = ground arith
  listed_parts proof_id (Value.pos n) version result h valid = ground arith
  listed_parts proof_id (Value.negsuc n) version result h valid = ground arith

  pub data_parts :
      (file : Value) (result : FileReport)
      → verify_proof_data host read_file file ≡ ok result
      → is_valid result ≡ true
      → (proof : Fields) × (file ≡ obj proof)
        × (truthy (get "proof_id" proof) ≡ true)
        × (verify_listed host read_file
              (get "proof_id" proof)
              (get "events" proof)
              (get "version" proof)
            ≡ ok result)
  unfolding verify_proof_data is_valid
  data_parts (obj proof) result h valid = elim (Bool-cases (truthy (get "proof_id" proof))) [
    | inr missing ↦ ground arith
    | inl named ↦ (proof, refl, named, rw named at h)
  ]
  data_parts (str s) result h valid = ground arith
  data_parts null result h valid = ground arith
  data_parts (bool b) result h valid = ground arith
  data_parts (arr items) result h valid = ground arith
  data_parts (Value.pos n) result h valid = ground arith
  data_parts (Value.negsuc n) result h valid = ground arith
