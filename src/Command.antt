-- ===== src/Command.antt =====
-- app/verifier.py: the command that checks an exported file.
pub mod Parts
pub mod Expected
pub mod Stored
pub mod Tests
use Prim.Native.String.{String}
use text.Mathlib.Text.{◌==◌ as str_eq}
use flop_proof_api.Base.{
  ℕ, Bool, true, false, not, ◌&&◌, List, [], ◌∷◌, Option, none, some, if◌then◌else◌, ◌==◌, Result,
  ok, err, attribute_error, ◌>>=◌,
}
use flop_proof_api.Base.Bytes.{Bytes}
use flop_proof_api.Host.{Host}
use flop_proof_api.Value.{Value, arr, obj, Items, nil, cons, Fields, get, truthy}
use flop_proof_api.Formats.{version_of}
use flop_proof_api.Verification.{not_false}
use flop_proof_api.Verification.Verdict.{Report, verify_proof_events}

-- An integer, as argparse reads it.
pub data ℤ : Type 0 where
  pos : ℕ → ℤ
  negsuc : ℕ → ℤ

-- The two shapes of the dictionary: an error alone, or the verifier's report.
pub data FileReport : Type 0 where
  malformed : String → FileReport
  reported : Report → FileReport

-- `result.get("verdict") == "valid"`
unfoldable pub is_valid : FileReport → Bool
is_valid (malformed _) = false
is_valid (reported report) = report.valid

-- `result.get("chain_head")`
unfoldable pub head_found : FileReport → Option String
head_found (malformed _) = none
head_found (reported report) = report.chain_head

-- `result.get("event_count")`
unfoldable pub count_found : FileReport → Option ℕ
count_found (malformed _) = none
count_found (reported report) = some report.event_count

-- The dictionary of expectations: `none` for a key that is not set.
pub record Expectations : Type 0 where
  pub head : Option Bool
  pub count : Option Bool

-- `result.get("chain_head") == expect_head`, when a head is expected.
unfoldable pub head_expectation : Option String → Option String → Option Bool
head_expectation found none = none
head_expectation none (some expected) = some false
head_expectation (some found) (some expected) = some (str_eq found expected)

-- `result.get("event_count") == expect_count`, when a count is expected.
unfoldable pub count_expectation : Option ℕ → Option ℤ → Option Bool
count_expectation found none = none
count_expectation none (some expected) = some false
count_expectation (some found) (some (pos expected)) = some (found == expected)
count_expectation (some found) (some (negsuc expected)) = some false

unfoldable pub check_expectations : FileReport → Option String → Option ℤ → Expectations
unfolding head_found count_found
check_expectations result expect_head expect_count = record {
  head = head_expectation (head_found result) expect_head;
  count = count_expectation (count_found result) expect_count;
}

-- `all(expectations.values())`
unfoldable pub all_met : Expectations → Bool
all_met expectations = not_false expectations.head && not_false expectations.count

-- The items of "events", when all of them are objects.
unfoldable pub objects_of : Items → Option (List Fields)
objects_of nil = some []
objects_of (cons (obj event) items) = elim (objects_of items) [
  | none ↦ none
  | some events ↦ some (event ∷ events)
]
objects_of (cons _ items) = none

module _ (host : Host) (read_file : Value → Result Bytes) where
  -- An unsupported version is refused before any event is read; else `event.get` raises for an item
  -- that is no object.
  unfoldable pub verify_items : Value → Option (List Fields) → Value → Result FileReport
  verify_items proof_id (some events) version = do
    report ← verify_proof_events host read_file proof_id events version
    ok (reported report)
  verify_items proof_id none version = elim (version_of version) [
    | none ↦ (do
      report ← verify_proof_events host read_file proof_id [] version
      ok (reported report))
    | some _ ↦ err (attribute_error "object has no attribute 'get'")
  ]

  unfoldable pub verify_listed : Value → Value → Value → Result FileReport
  unfolding verify_items objects_of
  verify_listed proof_id (arr items) version = verify_items proof_id (objects_of items) version
  verify_listed proof_id _ version = ok (malformed "Invalid events")

  unfoldable pub verify_proof_data : Value → Result FileReport
  unfolding verify_listed
  verify_proof_data (obj proof) =
      if truthy (get "proof_id" proof)
      then verify_listed (get "proof_id" proof) (get "events" proof) (get "version" proof)
      else ok (malformed "Missing proof_id")
  verify_proof_data _ = err (attribute_error "object has no attribute 'get'")

  -- The exit code, without what is printed; the first argument is the JSON value that is read from
  -- the file, or the exception of the reading.
  unfoldable pub main : Result Value → Option String → Option ℤ → ℕ
  unfolding is_valid check_expectations all_met verify_proof_data
  main file expect_head expect_count = elim (file >>= verify_proof_data) [
    | err _ ↦ 1
    | ok result ↦
        if not (is_valid result)
        then 1
        else if all_met (check_expectations result expect_head expect_count)
        then 0
        else 1
  ]
