-- ===== src/Store/Reached.antt =====
-- app/main.py, app/verification_core.py: what every reachable state of the API satisfies.
use Prim.Native.String.{String}
use flop_proof_api.Base.{
  ◌≡◌, sym, ap, inl, inr, subst, Option, none, some, Result, ok, ok_inj, All, >>=-eq-ok,
}
use flop_proof_api.Host.{Host}
use flop_proof_api.Value.{Value}
use flop_proof_api.Store.{Proof, Tables, first_proof}
use flop_proof_api.Store.Append.{EventCreate, or_404, check_append, check_signed, require_open}
use flop_proof_api.Store.Accepted.{checks_passed}
use flop_proof_api.Store.Writes.{Write-of_ok, write_proof-cases}
use flop_proof_api.Store.System.{
  State, Step, checked, written, refused, asked, created, lost, Reach, start, later,
}
use flop_proof_api.Store.Invariant.{Consistent, Waits, Asks, Sound, nothing-Consistent, All-middle}
use flop_proof_api.Store.Kept.{write-Consistent}
use flop_proof_api.Store.Inserted.{insert-Consistent}

module _ (host : Host) (json_loads : String → Result Value) where
  found-eq-ok : (o : Option Proof) (proof : Proof) → or_404 o ≡ ok proof → o ≡ some proof
  found-eq-ok none proof h = cc
  found-eq-ok (some p) proof h = ap some (ok_inj h)

  -- A call that has passed the first checks of append_event has the signature of a version-4 event.
  Waits-of_check :
      (tables : Tables) (proof_id : String) (event : EventCreate)
      → Consistent host json_loads tables
      → check_append host tables proof_id event ≡ ok tt
      → check_signed host proof_id "4" event ≡ ok tt
  unfolding check_append
  Waits-of_check tables proof_id event c h =
      let (proof, found, r1) = >>=-eq-ok (or_404 (first_proof tables.proofs proof_id)) _ h in
      let (_, r2) = checks_passed (require_open proof) _ r1 in
      subst (λ v. check_signed host proof_id v event ≡ ok tt)
        (c.version proof_id proof (found-eq-ok _ _ found)) r2

  Sound-Step :
      (s t : State) → Sound host json_loads s → Step host json_loads s t → Sound host json_loads t
  Sound-Step s _ i (checked proof_id event reads h) = record {
    tables = i.tables;
    appends = ((reads, Waits-of_check s.tables proof_id event i.tables h), i.appends);
    requests = i.requests;
  }
  Sound-Step s _ i (written xs ys proof_id event event_id now row after at h) =
      let waiting = subst (All (Waits host json_loads)) at i.appends in
      let ((reads, signed), rest) =
        All-middle (Waits host json_loads) xs ys (proof_id, event) waiting in
      record {
        tables =
            write-Consistent host json_loads s.tables i.tables proof_id event event_id now row after
              (Write-of_ok host json_loads s.tables proof_id event event_id now row after h) reads
              signed;
        appends = rest;
        requests = i.requests;
      }
  Sound-Step s _ i (refused xs ys proof_id event event_id now e at h) = record {
    tables = i.tables;
    appends =
        (All-middle (Waits host json_loads) xs ys (proof_id, event)
          (subst (All (Waits host json_loads)) at i.appends)).1;
    requests = i.requests;
  }
  Sound-Step s _ i (asked request reads h free) = record {
    tables = i.tables;
    appends = i.appends;
    requests = ((reads, h), i.requests);
  }
  Sound-Step s _ i (created xs ys request proof_id event_id now proof after at h) =
      let ((reads, signed), rest) =
        All-middle (Asks host json_loads) xs ys request
          (subst (All (Asks host json_loads)) at i.requests) in
      record {
        tables =
            elim (write_proof-cases host s.tables request proof_id event_id now proof after h) [
              | inl (inserted, _) ↦
                  insert-Consistent host json_loads s.tables i.tables request proof_id event_id now
                    after inserted reads signed
              | inr (same, _) ↦ subst (Consistent host json_loads) (sym same) i.tables
            ];
        appends = i.appends;
        requests = rest;
      }
  Sound-Step s _ i (lost xs ys request proof_id event_id now e at h) = record {
    tables = i.tables;
    appends = i.appends;
    requests =
        (All-middle (Asks host json_loads) xs ys request
          (subst (All (Asks host json_loads)) at i.requests)).1;
  }

  pub Sound-of_Reach : (s : State) → Reach host json_loads s → Sound host json_loads s
  Sound-of_Reach _ start = record {
    tables = nothing-Consistent host json_loads;
    appends = tt;
    requests = tt;
  }
  Sound-of_Reach t (later {s} r step) = Sound-Step s t (Sound-of_Reach s r) step
