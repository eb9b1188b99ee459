-- ===== src/Store/Races.antt =====
-- app/main.py: two calls of append_event that were signed for the same head of a chain.
use Prim.Native.String.{String}
use mathlib.Core.Option.{some-injective}
use text.Mathlib.Text.{◌==◌ as str_eq}
use text.Mathlib.TextEquality.{eq_iff}
use flop_proof_api.Base.{
  ◌≡◌, refl, sym, ap, ◌∙◌, inl, inr, subst, true, false, List, [], ◌∷◌, Option, some, arith, Result,
  ok, Option-cases, Bool-cases,
}
use flop_proof_api.Host.{Host}
use flop_proof_api.Value.{Value, str, Fields, is_text}
use flop_proof_api.Json.{dumps}
use flop_proof_api.Records.{last_of, link_object, hash_event_record}
use flop_proof_api.Records.Links.{Clash, same_link_hash}
use flop_proof_api.Canonical.Separation.{parses, request_v4, event_v4, parses_unique}
use flop_proof_api.Authorization.{request_created}
use flop_proof_api.Formats.{v4, signed_nonce}
use flop_proof_api.Store.{
  ProofEvent, Tables, events_of, chain_of, link_of_row, link_hash, row_after,
}
use flop_proof_api.Store.Append.{
  EventCreate, check_signed, check_chain, write_event, same_head, stored_nonce, new_event,
}
use flop_proof_api.Store.Order.{last-append}
use flop_proof_api.Store.Chain.{ReadsBack, Chain, empty, opened, appended}
use flop_proof_api.Store.Matches.{Previous, at_start, after}
use flop_proof_api.Store.Accepted.{signed_parts, chain_parts}
use flop_proof_api.Store.Passed.{appended_type, nonce_signed, headed}
use flop_proof_api.Store.Opened.{first_nonce, request_parts}
use flop_proof_api.Store.Verified.{Matches-of_chain}
use flop_proof_api.Store.Writes.{Write-of_ok}
use flop_proof_api.Store.Invariant.{chain-rows}
use flop_proof_api.Store.Kept.{checked_v4, rows_same, row_next, write-Consistent}
use flop_proof_api.Store.System.{State, Reach}
use flop_proof_api.Store.Reached.{Sound-of_Reach}

-- Two messages of one text, one of them an event's, sign one nonce.
same_nonce :
    (t u c n m : String)
    → is_text (str u) request_created ≡ false
    → signed_nonce v4 (str t) (str c) ≡ some n
    → signed_nonce v4 (str u) (str c) ≡ some m
    → n ≡ m
unfolding signed_nonce parses
same_nonce t u c n m other h k = elim (Bool-cases (is_text (str t) request_created)) [
  | inl request ↦
      let left : parses request_v4 c ≡ true = ground arith in
      let right : parses event_v4 c ≡ true = ground arith in
      let (kinds, _) = parses_unique request_v4 event_v4 c left right in cc
  | inr event ↦ ground arith
]

stored_last :
    (rows : List ProofEvent) (last : ProofEvent) (nonce : String)
    → last_of rows ≡ some last
    → stored_nonce nonce rows ≡ false
    → str_eq last.nonce nonce ≡ false
stored_last [] last nonce at h = cc
stored_last (x ∷ []) last nonce at h =
    let e = ap (λ r. r.nonce) (some-injective _ _ at) in
    ap (λ n. str_eq n nonce) (sym e) ∙ ground arith
stored_last (x ∷ (y ∷ rows)) last nonce at h = stored_last (y ∷ rows) last nonce at (ground arith)

module _ (host : Host) (json_loads : String → Result Value) (proof_id : String) where
  pub own_last :
      (last : Option ProofEvent) (previous : Option Fields) (row : ProofEvent)
      → Previous host json_loads proof_id last previous
      → last ≡ some row
      → row.proof_id ≡ proof_id
  own_last _ _ row at_start h = cc
  own_last _ _ row (after x payload own) h = ap (λ r. r.proof_id) (sym (some-injective _ _ h)) ∙ own

  -- The last event of a chain signs the nonce of its column.
  last_nonce :
      (rows : List ProofEvent) (last : ProofEvent)
      → Chain host json_loads proof_id rows
      → last_of rows ≡ some last
      → signed_nonce v4 (str last.event_type) (str last.canonical) ≡ some last.nonce
  unfolding row_after
  last_nonce _ last empty at = cc
  last_nonce _ last (opened request event_id now reads checked) at =
      let (room, parsed, _) = request_parts host request checked in
      subst (λ r. signed_nonce v4 (str r.event_type) (str r.canonical) ≡ some r.nonce)
        (some-injective _ _ at) (first_nonce host proof_id request event_id now room parsed)
  last_nonce _ last (appended rows event event_id now chain reads open' signed checked) at =
      let row = row_after host (last_of rows) proof_id (new_event event) event_id now in
      let (head, _, build, _) = signed_parts host proof_id event signed in
      let (prior, _, allowed, _, _, _) = chain_parts host json_loads proof_id rows event checked in
      let other = appended_type host prior event allowed in
      subst (λ r. signed_nonce v4 (str r.event_type) (str r.canonical) ≡ some r.nonce)
        (some-injective _ _ (sym (last-append rows row) ∙ at))
        (nonce_signed proof_id event.event_type _ event.nonce head event.canonical other build).0

  -- The head that an accepted event was signed for is the link hash of the last event.
  signed_head :
      (rows : List ProofEvent) (event : EventCreate)
      → Chain host json_loads proof_id rows
      → check_signed host proof_id "4" event ≡ ok tt
      → check_chain host json_loads proof_id (some v4) rows event ≡ ok tt
      → (last : ProofEvent) × (last_of rows ≡ some last)
        × (some (hash_event_record host (str proof_id) (link_of_row last)) ≡ event.prior_head)
  signed_head rows event chain signed checked =
      let (_, seen, m) = Matches-of_chain host json_loads proof_id rows chain in
      let (head, there, _, _) = signed_parts host proof_id event signed in
      let (_, _, _, _, _, (found, at_head, same)) =
        chain_parts host json_loads proof_id rows event checked in
      let (_, _, hash) =
        headed host json_loads proof_id (last_of rows) seen.previous_event head found m.previous
          at_head (subst (λ h. same_head h found ≡ true) there same) in
      elim (Option-cases (last_of rows)) [
        | inl nothing ↦
            let k = subst (λ l. link_hash host proof_id l ≡ some head) nothing hash in cc
        | inr (last, at) ↦
            let own = own_last (last_of rows) seen.previous_event last m.previous at in
            let k : some (hash_event_record host (str last.proof_id) (link_of_row last))
                ≡ some head =
              subst (λ l. link_hash host proof_id l ≡ some head) at hash in
            (
              last,
              at,
              ap (λ p. some (hash_event_record host (str p) (link_of_row last))) (sym own)
                  ∙ k
                  ∙ sym there,
            )
      ]

  abbrev link_json : ProofEvent → String
  link_json row = dumps (link_object (str proof_id) (link_of_row row))

  -- Two rows with one link hash, of which the second is another event with another nonce.
  Clash-of_hash :
      (last row : ProofEvent)
      → is_text (str row.event_type) request_created ≡ false
      → signed_nonce v4 (str last.event_type) (str last.canonical) ≡ some last.nonce
      → signed_nonce v4 (str row.event_type) (str row.canonical) ≡ some row.nonce
      → str_eq last.nonce row.nonce ≡ false
      → hash_event_record host (str proof_id) (link_of_row last)
        ≡ hash_event_record host (str proof_id) (link_of_row row)
      → Clash host (link_json last) (link_json row)
  Clash-of_hash last row other h k apart same =
      elim (same_link_hash host (str proof_id) last.actor_did last.canonical row.actor_did
        row.canonical (link_of_row last) (link_of_row row) refl refl refl refl same) [
          | inr clash ↦ clash
          | inl (_, canonicals, _) ↦
              let l =
                subst (λ c. signed_nonce v4 (str last.event_type) (str c) ≡ some last.nonce)
                  canonicals h in
              let e =
                same_nonce last.event_type row.event_type row.canonical last.nonce row.nonce other l
                  k in
              let again = (eq_iff last.nonce row.nonce).1 e in cc
        ]

module _ (host : Host) (json_loads : String → Result Value) where
  -- In a state that the API reaches, of two version-4 events that were signed for the same head of a
  -- proof's chain, the second one to be written after the first is written as well only if SHA-256
  -- gives one digest for two different texts: those of the last event before both, and of the first
  -- of the two. Both have passed the checks of their own, and json.loads reads their payloads back.
  pub same_head_once :
      (s : State) (proof_id : String) (one two : EventCreate) (id_1 now_1 id_2 now_2 : String)
      (row_1 row_2 : ProofEvent) (after_1 after_2 : Tables)
      → Reach host json_loads s
      → ReadsBack json_loads one.payload
      → check_signed host proof_id "4" one ≡ ok tt
      → check_signed host proof_id "4" two ≡ ok tt
      → one.prior_head ≡ two.prior_head
      → write_event host json_loads s.tables proof_id one id_1 now_1 ≡ ok (row_1, after_1)
      → write_event host json_loads after_1 proof_id two id_2 now_2 ≡ ok (row_2, after_2)
      → (last : ProofEvent) × (last_of (chain_of s.tables.events proof_id) ≡ some last)
        × Clash host
            (dumps (link_object (str proof_id) (link_of_row last)))
            (dumps (link_object (str proof_id) (link_of_row row_1)))
  unfolding row_after
  same_head_once s proof_id one two id_1 now_1 id_2 now_2 row_1 row_2 after_1 after_2 reach reads
        signed_1 signed_2 heads first second =
      let tables = s.tables in
      let c = (Sound-of_Reach host json_loads s reach).tables in
      let w = Write-of_ok host json_loads tables proof_id one id_1 now_1 row_1 after_1 first in
      let chain = c.chain proof_id in
      let check_1 = checked_v4 host json_loads tables c proof_id one id_1 now_1 row_1 after_1 w in
      let c' =
        write-Consistent host json_loads tables c proof_id one id_1 now_1 row_1 after_1 w reads
          signed_1 in
      let w' = Write-of_ok host json_loads after_1 proof_id two id_2 now_2 row_2 after_2 second in
      let check_2 =
        checked_v4 host json_loads after_1 c' proof_id two id_2 now_2 row_2 after_2 w' in
      let rows' = rows_same host json_loads tables c proof_id one id_1 now_1 row_1 after_1 w in
      let at_2 = ap last_of rows' ∙ last-append (events_of tables.events proof_id) row_1 in
      let (last, at, head_1) = signed_head host json_loads proof_id _ one chain signed_1 check_1 in
      let (last', at', head_2) =
        signed_head host json_loads proof_id _ two (c'.chain proof_id) signed_2 check_2 in
      let row = row_next host json_loads tables c proof_id one id_1 now_1 row_1 after_1 w in
      let (prior, _, allowed, fresh, _, _) = chain_parts host json_loads proof_id _ one check_1 in
      let new = some-injective _ _ (sym at_2 ∙ at') in
      let hashes = some-injective _ _ (
        head_1
        ∙ heads
        ∙ sym head_2
        ∙ ap (λ r. some (hash_event_record host (str proof_id) (link_of_row r))) (sym new)) in
      (
        last,
        ap last_of (chain-rows host json_loads tables proof_id c) ∙ at,
        Clash-of_hash host json_loads proof_id last row_1
            (subst (λ r. is_text (str r.event_type) request_created ≡ false) (sym row)
              (appended_type host prior one allowed))
            (last_nonce host json_loads proof_id _ last chain at)
            (last_nonce host json_loads proof_id _ row_1 (c'.chain proof_id) at_2)
            (subst (λ r. str_eq last.nonce r.nonce ≡ false) (sym row)
              (stored_last _ last one.nonce at fresh))
            hashes,
      )
