-- ===== src/Store/Promises.antt =====
-- app/main.py, app/events.py, app/verification_core.py: what the API promises of a stored proof.
use Prim.Native.String.{String}
use mathlib.Core.List.{append-nil}
use text.Mathlib.Text.{◌==◌ as str_eq}
use mathlib.Core.Option.{some-injective}
use flop_proof_api.Base.{
  ℕ, zero, suc, ◌+◌, ◌≡◌, sym, ap, ◌∙◌, subst, true, List, [], ◌∷◌, ◌++◌, some, arith, Result, ok,
  ok_inj, inl, inr, Bool-cases, all, get_elem?, ==_iff,
}
use flop_proof_api.Base.Bytes.{Bytes}
use flop_proof_api.Host.{Host}
use flop_proof_api.Value.{Value, str, Fields}
use flop_proof_api.Formats.{v4}
use flop_proof_api.Verification.{nothing_seen, check_events}
use flop_proof_api.Verification.Results.{Outcome, no_outcome, outcome_of}
use flop_proof_api.Verification.Verdict.{
  check_holds, position_ok, Report, verify_proof_events, outcome_holds,
}
use flop_proof_api.Store.{Proof, ProofEvent, first_proof, events_of, chain_of, export_events}
use flop_proof_api.Store.Append.{is_closed}
use flop_proof_api.Store.Order.{is_numbered, events-append-same, events-append-other}
use flop_proof_api.Store.Writes.{Write-of_ok, write_proof-cases}
use flop_proof_api.Store.Chain.{has_closing}
use flop_proof_api.Store.Verified.{Matches-of_chain, chain_position, report-Chain}
use flop_proof_api.Store.System.{
  State, Step, checked, written, refused, asked, created, lost, Reach, later,
}
use flop_proof_api.Store.Invariant.{chain-rows}
use flop_proof_api.Store.Reached.{Sound-of_Reach}

module _ (host : Host) (json_loads : String → Result Value) where
  -- In every state that the API reaches, whatever the order of its calls, each stored proof can be
  -- exported, and of its export all of the verifier's checks on the events hold: the numbers, the
  -- links, the payload hashes, the signed messages and signatures, the nonces, the prior heads and
  -- the actors' authority; and a closing event is the last one. Calls with payloads that json.loads
  -- reads back are let in.
  pub stored_proof_exports :
      (s : State) (proof_id : String) (p : Proof)
      → Reach host json_loads s
      → first_proof s.tables.proofs proof_id ≡ some p
      → (events : List Fields) × (export_events json_loads (chain_of s.tables.events proof_id)
          ≡ ok events)
        × (all check_holds (check_events host (str proof_id) v4 nothing_seen events) ≡ true)
        × (position_ok events ≡ true)
  stored_proof_exports s proof_id p reach found =
      let tables = (Sound-of_Reach host json_loads s reach).tables in
      let chain = tables.chain proof_id in
      let (events, _, m) = Matches-of_chain host json_loads proof_id _ chain in
      let rows = chain-rows host json_loads s.tables proof_id tables in
      (
        events,
        ap (export_events json_loads) rows ∙ m.read,
        m.holds,
        chain_position host json_loads proof_id _ events chain m.read,
      )

module _ (host : Host) (json_loads : String → Result Value) (read_file : Value → Result Bytes) where
  -- In every state that the API reaches, verify_proof_events, given the export of a stored proof and
  -- its version, returns a report, and reports the proof as valid exactly when the hashes inside its
  -- payloads (of results, artifacts and tasks) are right; the loop that checks these is taken to
  -- return, with the outcome that it has.
  pub stored_proof_verifies :
      (s : State) (proof_id : String) (p : Proof) (events : List Fields) (outcome : Outcome)
      → Reach host json_loads s
      → first_proof s.tables.proofs proof_id ≡ some p
      → export_events json_loads (chain_of s.tables.events proof_id) ≡ ok events
      → outcome_of host read_file no_outcome events ≡ ok outcome
      → (r : Report) × (verify_proof_events host read_file (str proof_id) events (str p.version)
          ≡ ok r)
        × (r.valid ≡ outcome_holds outcome)
  stored_proof_verifies s proof_id p events outcome reach found exported known =
      let tables = (Sound-of_Reach host json_loads s reach).tables in
      let (events', read, verdict) =
        report-Chain host json_loads read_file proof_id _ (tables.chain proof_id)
          (tables.opening proof_id p found) in
      let rows = chain-rows host json_loads s.tables proof_id tables in
      let same : events' ≡ events =
        ok_inj (sym read ∙ ap (export_events json_loads) (sym rows) ∙ exported) in
      let (r, verified, valid) =
        verdict outcome (ap (outcome_of host read_file no_outcome) same ∙ known) in
      (
        r,
        subst (λ es. verify_proof_events host read_file (str proof_id) es (str p.version) ≡ ok r)
            same
            (ap (λ v. verify_proof_events host read_file (str proof_id) events' (str v))
                (tables.version proof_id p found)
              ∙ verified),
        valid,
      )

numbered_at :
    (n i : ℕ) (rows : List ProofEvent) (row : ProofEvent)
    → is_numbered n rows ≡ true
    → get_elem? rows i ≡ some row
    → row.sequence ≡ n + i
unfolding is_numbered
numbered_at n i [] row h at = cc
numbered_at n zero (x ∷ rows) row h at =
    let first : x.sequence ≡ n = (==_iff x.sequence n).0 (ground arith) in
    let same = ap (λ r. r.sequence) (some-injective _ _ at) in omega (arith, first, same)
numbered_at n (suc i) (x ∷ rows) row h at =
    let later = numbered_at (n + 1) i rows row (ground arith) at in omega (arith, later)

module _ (host : Host) (json_loads : String → Result Value) where
  -- In every state that the API reaches, the events of a proof, in the order of their sequence
  -- numbers, have the numbers 1, 2, 3 and so on, without a gap or a repetition.
  pub chain_numbered :
      (s : State) (proof_id : String) (i : ℕ) (row : ProofEvent)
      → Reach host json_loads s
      → get_elem? (chain_of s.tables.events proof_id) i ≡ some row
      → row.sequence ≡ i + 1
  chain_numbered s proof_id i row reach at =
      let tables = (Sound-of_Reach host json_loads s reach).tables in
      let rows = chain-rows host json_loads s.tables proof_id tables in
      let (_, _, m) = Matches-of_chain host json_loads proof_id _ (tables.chain proof_id) in
      let same = numbered_at 1 i _ row m.numbered (ap (λ rs. get_elem? rs i) (sym rows) ∙ at) in
      omega (arith, same)

  -- In every state that the API reaches, a stored proof is completed or failed exactly when its
  -- chain has a closing event.
  pub closed_status :
      (s : State) (proof_id : String) (p : Proof)
      → Reach host json_loads s
      → first_proof s.tables.proofs proof_id ≡ some p
      → is_closed p.status ≡ has_closing (chain_of s.tables.events proof_id)
  closed_status s proof_id p reach found =
      let tables = (Sound-of_Reach host json_loads s reach).tables in
      tables.closed proof_id p found
      ∙ ap has_closing (sym (chain-rows host json_loads s.tables proof_id tables))

extended :
    (events : List ProofEvent) (row : ProofEvent) (proof_id : String)
    → (more : List ProofEvent) × (events_of (events ++ row ∷ []) proof_id
        ≡ events_of events proof_id ++ more)
extended events row proof_id = elim (Bool-cases (str_eq row.proof_id proof_id)) [
  | inl same ↦ (row ∷ [], events-append-same events row proof_id same)
  | inr other ↦ ([], events-append-other events row proof_id other ∙ sym (append-nil _))
]

module _ (host : Host) (json_loads : String → Result Value) where
  events_extended :
      (s t : State) (proof_id : String)
      → Step host json_loads s t
      → (more : List ProofEvent) × (events_of t.tables.events proof_id
          ≡ events_of s.tables.events proof_id ++ more)
  events_extended s _ proof_id (checked _ _ _ _) = ([], sym (append-nil _))
  events_extended s _ proof_id (refused _ _ _ _ _ _ _ _ _) = ([], sym (append-nil _))
  events_extended s _ proof_id (asked _ _ _ _) = ([], sym (append-nil _))
  events_extended s _ proof_id (lost _ _ _ _ _ _ _ _ _) = ([], sym (append-nil _))
  events_extended s _ proof_id (written xs ys q event event_id now row after at h) =
      let w = Write-of_ok host json_loads s.tables q event event_id now row after h in
      let (more, e) = extended s.tables.events row proof_id in
      (more, ap (λ es. events_of es proof_id) w.events_are ∙ e)
  events_extended s _ proof_id (created xs ys request q event_id now proof after at h) =
      elim (write_proof-cases host s.tables request q event_id now proof after h) [
        | inl (w, _) ↦
            let (more, e) = extended s.tables.events _ proof_id in
            (more, ap (λ es. events_of es proof_id) w.events_are ∙ e)
        | inr (same, _) ↦ ([], ap (λ t. events_of t.events proof_id) same ∙ sym (append-nil _))
      ]

  -- Each step from a state that the API reaches leaves the events of every proof as they are, in
  -- their order, and adds at most new ones after them.
  pub chain_extended :
      (s t : State) (proof_id : String)
      → Reach host json_loads s
      → Step host json_loads s t
      → (more : List ProofEvent) × (chain_of t.tables.events proof_id
          ≡ chain_of s.tables.events proof_id ++ more)
  chain_extended s t proof_id reach step =
      let before = (Sound-of_Reach host json_loads s reach).tables in
      let after = (Sound-of_Reach host json_loads t (later reach step)).tables in
      let (more, e) = events_extended s t proof_id step in
      (
        more,
        chain-rows host json_loads t.tables proof_id after
            ∙ e
            ∙ ap (λ xs. xs ++ more) (sym (chain-rows host json_loads s.tables proof_id before)),
      )
