-- ===== src/Canonical/Fields.antt =====
-- What the field checks of app/canonical.py let through.
use Prim.Native.String.{String}
use flop_proof_api.Base.{
  ℕ, ◌≡◌, Bool, false, List, [], ◌∷◌, ◌++◌, arith, Result, ok, err, length, length-append, sym, ap,
  ◌∙◌, Exn, Result-cases, ◌⊎◌, inl, inr,
}
use flop_proof_api.Base.Strings.{
  has_char, is_bar, NoBars, split_bar, join_bar, join_bar-split_bar, split_bar-join_bar,
}
use flop_proof_api.Value.{Value, str}
use flop_proof_api.Canonical.{
  check_field, check_room, check_proof_id, check_payload_hash, check_prior_head, split_tagged,
  tagged_fields,
}
use text.Mathlib.TextEquality.{eq_iff}
use text.Mathlib.TextPositions.{eq_refl}

-- Of a text, a check returns that text or an exception.
abbrev pub KeepsText : (Value → Result String) → Type 0
KeepsText check = (s : String) → (check (str s) ≡ ok s) ⊎ ((e : Exn) × (check (str s) ≡ err e))

pub check_field-KeepsText : (name : String) (free : Bool) → KeepsText (λ v. check_field name v free)
unfolding check_field
check_field-KeepsText name free s = elim (Result-cases (check_field name (str s) free)) [
  | inl (t, e) ↦ inl (ground arith)
  | inr e ↦ inr e
]

pub check_room-KeepsText : KeepsText check_room
unfolding check_room
check_room-KeepsText s = elim (Result-cases (check_room (str s))) [
  | inl (t, e) ↦ inl (ground (arith, check_field-KeepsText "room" false s))
  | inr e ↦ inr e
]

pub check_proof_id-KeepsText : KeepsText check_proof_id
unfolding check_proof_id
check_proof_id-KeepsText s = elim (Result-cases (check_proof_id (str s))) [
  | inl (t, e) ↦ inl (ground (arith, check_field-KeepsText "proof_id" false s))
  | inr e ↦ inr e
]

pub check_payload_hash-KeepsText : KeepsText check_payload_hash
unfolding check_payload_hash
check_payload_hash-KeepsText s = elim (Result-cases (check_payload_hash (str s))) [
  | inl (t, e) ↦ inl (ground (arith, check_field-KeepsText "payload_hash" false s))
  | inr e ↦ inr e
]

pub check_prior_head-KeepsText : KeepsText check_prior_head
unfolding check_prior_head
check_prior_head-KeepsText s = elim (Result-cases (check_prior_head (str s))) [
  | inl (t, e) ↦ inl (ground (arith, check_field-KeepsText "prior_head" false s))
  | inr e ↦ inr e
]

-- A field that passes holds no bar.
pub check_field-bars :
    (name : String) (s : String) → check_field name (str s) false ≡ ok s → has_char is_bar s ≡ false
unfolding check_field
check_field-bars name s h = ground arith

pub check_room-bars : (s : String) → check_room (str s) ≡ ok s → has_char is_bar s ≡ false
unfolding check_room
check_room-bars s h =
    ground (arith, check_field-bars "room" s, check_field-KeepsText "room" false s)

pub check_proof_id-bars : (s : String) → check_proof_id (str s) ≡ ok s → has_char is_bar s ≡ false
unfolding check_proof_id
check_proof_id-bars s h =
    ground (arith, check_field-bars "proof_id" s, check_field-KeepsText "proof_id" false s)

pub check_payload_hash-bars :
    (s : String) → check_payload_hash (str s) ≡ ok s → has_char is_bar s ≡ false
unfolding check_payload_hash
check_payload_hash-bars s h =
    ground (arith, check_field-bars "payload_hash" s, check_field-KeepsText "payload_hash" false s)

-- Joining a tag with as many fields as asked for splits back into the fields.
pub split_tagged-join_bar :
    (tag : String) (ps : List String) (rest : String)
    → has_char is_bar tag ≡ false
    → NoBars ps
    → split_tagged (str (join_bar (tag ∷ (ps ++ rest ∷ [])))) tag (length (tag ∷ ps))
      ≡ ok (ps ++ rest ∷ [])
unfolding split_tagged
split_tagged-join_bar tag ps rest h k =
    rw (split_bar-join_bar (tag ∷ ps) rest (h, k))
      (ground (arith, eq_refl tag, length-append ps (rest ∷ [])))

tagged_fields-eq-ok :
    (tag : String) (n : ℕ) (parts fields : List String)
    → tagged_fields tag n parts ≡ ok fields
    → parts ≡ tag ∷ fields
unfolding tagged_fields
tagged_fields-eq-ok tag n [] fields h = cc
tagged_fields-eq-ok tag n (first ∷ rest) fields h = ground (arith, eq_iff first tag)

-- What splits is the tag joined with its fields.
pub split_tagged-eq-ok :
    (v : Value) (tag : String) (n : ℕ) (fields : List String)
    → split_tagged v tag n ≡ ok fields
    → v ≡ str (join_bar (tag ∷ fields))
unfolding split_tagged
split_tagged-eq-ok (str s) tag n fields h =
    let parts = tagged_fields-eq-ok tag n (split_bar n s) fields h in
    ap str (sym (join_bar-split_bar n s) ∙ ap join_bar parts)
split_tagged-eq-ok _ tag n fields h = cc
