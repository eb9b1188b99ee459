-- ===== src/Canonical/Separation.antt =====
-- The four message formats of app/canonical.py exclude one another.
use Prim.Native.String
use Prim.Native.String.{String}
use text.Mathlib.Text.{◌==◌ as str_eq}
use flop_proof_api.Base.{
  if◌then◌else◌, ℕ, ◌≡◌, refl, sym, ap, ◌∙◌, Bool, true, false, List, [], ◌∷◌, Result, ok, err,
  >>=-eq-ok,
}
use flop_proof_api.Base.Strings.{
  has_char, is_bar, split_bar, join_bar, join_bar-cons, split_bar-append, has_prefix,
  has_prefix-append,
}
use flop_proof_api.Value.{str, str_inj}
use flop_proof_api.Canonical.{
  split_tagged, request_tag, request_tag_v4, event_tag, event_tag_v4, tag_prefix, request_fields,
  event_fields_v3, event_fields_v4, parse_request_canonical_v3, parse_request_canonical_v4,
  parse_event_canonical_v3, parse_event_canonical_v4,
}
use flop_proof_api.Canonical.Fields.{split_tagged-eq-ok}

pub data Kind : Type 0 where
  request_v3 event_v3 request_v4 event_v4 : Kind

abbrev is_ok {ℓ} : {A : Type ℓ} → Result A → Bool
is_ok (ok a) = true
is_ok (err e) = false

-- The parser of a format accepts the message.
unfoldable pub parses : Kind → String → Bool
parses request_v3 c = is_ok (parse_request_canonical_v3 (str c))
parses event_v3 c = is_ok (parse_event_canonical_v3 (str c))
parses request_v4 c = is_ok (parse_request_canonical_v4 (str c))
parses event_v4 c = is_ok (parse_event_canonical_v4 (str c))

abbrev tag_of : Kind → String
tag_of request_v3 = request_tag
tag_of event_v3 = event_tag
tag_of request_v4 = request_tag_v4
tag_of event_v4 = event_tag_v4

tag_plain : (k : Kind) → has_char is_bar (tag_of k) ≡ false
tag_plain request_v3 = refl
tag_plain event_v3 = refl
tag_plain request_v4 = refl
tag_plain event_v4 = refl

abbrev untag : String → Kind
untag s =
    if str_eq s request_tag
    then request_v3
    else if str_eq s event_tag
    then event_v3
    else if str_eq s request_tag_v4
    then request_v4
    else event_v4

untag-tag_of : (k : Kind) → untag (tag_of k) ≡ k
untag-tag_of request_v3 = refl
untag-tag_of event_v3 = refl
untag-tag_of request_v4 = refl
untag-tag_of event_v4 = refl

tag_inj : (k j : Kind) → tag_of k ≡ tag_of j → k ≡ j
tag_inj k j h = sym (untag-tag_of k) ∙ ap untag h ∙ untag-tag_of j

tag_of-prefix : (k : Kind) → has_prefix tag_prefix (tag_of k) ≡ true
unfolding has_prefix
tag_of-prefix request_v3 = refl
tag_of-prefix event_v3 = refl
tag_of-prefix request_v4 = refl
tag_of-prefix event_v4 = refl

ok_of_is_ok {ℓ} : {A : Type ℓ} (r : Result A) → is_ok r ≡ true → (a : A) × (r ≡ ok a)
ok_of_is_ok (ok a) h = (a, refl)
ok_of_is_ok (err e) h = cc

-- An accepted message is the tag of its kind, a bar, and a rest.
Tagged : Kind → String → Type 0
Tagged k c = (rest : String) × (c ≡ String.◌++◌ (tag_of k) (String.◌∷◌ "|" rest))

Tagged-of_split {ℓ} :
    {A : Type ℓ} (k : Kind) (n : ℕ) (c : String) (fields : List String) (g : List String → Result A)
    (a : A)
    → split_tagged (str c) (tag_of k) n ≡ ok fields
    → g fields ≡ ok a
    → ((x : A) → g [] ≡ ok x → ⊥)
    → Tagged k c
unfolding Tagged
Tagged-of_split k n c [] g a h e some_field = absurd (some_field a e)
Tagged-of_split k n c (f ∷ fs) g a h e some_field = (
  join_bar (f ∷ fs),
  str_inj (split_tagged-eq-ok (str c) (tag_of k) n (f ∷ fs) h) ∙ join_bar-cons (tag_of k) f fs,
)

Tagged-of_parses : (k : Kind) (c : String) → parses k c ≡ true → Tagged k c
unfolding parses parse_request_canonical_v3 parse_request_canonical_v4 parse_event_canonical_v3
    parse_event_canonical_v4
Tagged-of_parses request_v3 c h =
    let (x, e) = ok_of_is_ok _ h in
    let (fields, cut, checked) = >>=-eq-ok (split_tagged (str c) request_tag 3) _ e in
    Tagged-of_split request_v3 3 c fields request_fields x cut checked
      (unfold request_fields in λ y z. cc)
Tagged-of_parses event_v3 c h =
    let (x, e) = ok_of_is_ok _ h in
    let (fields, cut, checked) = >>=-eq-ok (split_tagged (str c) event_tag 4) _ e in
    Tagged-of_split event_v3 4 c fields event_fields_v3 x cut checked
      (unfold event_fields_v3 in λ y z. cc)
Tagged-of_parses request_v4 c h =
    let (x, e) = ok_of_is_ok _ h in
    let (fields, cut, checked) = >>=-eq-ok (split_tagged (str c) request_tag_v4 3) _ e in
    Tagged-of_split request_v4 3 c fields request_fields x cut checked
      (unfold request_fields in λ y z. cc)
Tagged-of_parses event_v4 c h =
    let (x, e) = ok_of_is_ok _ h in
    let (fields, cut, checked) = >>=-eq-ok (split_tagged (str c) event_tag_v4 5) _ e in
    Tagged-of_split event_v4 5 c fields event_fields_v4 x cut checked
      (unfold event_fields_v4 in λ y z. cc)

abbrev first_of_split : List String → String
first_of_split [] = ""
first_of_split (p ∷ ps) = p

Tagged-unique : (k j : Kind) (c : String) → Tagged k c → Tagged j c → k ≡ j
unfolding Tagged
Tagged-unique k j c (r, e) (s, f) =
    let left = ap first_of_split (split_bar-append 0 (tag_of k) r (tag_plain k)) in
    let right = ap first_of_split (split_bar-append 0 (tag_of j) s (tag_plain j)) in
    tag_inj k j (sym left ∙ ap (λ m. first_of_split (split_bar 1 m)) (sym e ∙ f) ∙ right)

Tagged-prefix : (k : Kind) (c : String) → Tagged k c → has_prefix tag_prefix c ≡ true
unfolding Tagged
Tagged-prefix k c (r, e) = rw e (has_prefix-append tag_prefix (tag_of k) _ (tag_of-prefix k))

-- A message that two of the four parsers accept is of one kind, and starts with "FLOP/".
pub parses_unique :
    (k j : Kind) (c : String)
    → parses k c ≡ true
    → parses j c ≡ true
    → (k ≡ j) × (has_prefix tag_prefix c ≡ true)
parses_unique k j c h i =
    let t = Tagged-of_parses k c h in
    (Tagged-unique k j c t (Tagged-of_parses j c i), Tagged-prefix k c t)
