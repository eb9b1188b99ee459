-- ===== src/Policy/Binding.antt =====
-- app/crypto.py: the hash of a decode policy determines the policy.
use flop_proof_api.Base.{
  ℕ, zero, suc, ◌^◌, ◌<◌, ◌≡◌, ◌≢◌, refl, sym, ap, ◌∙◌, ◌⊎◌, inl, inr, not, [], ◌∷◌, ◌++◌, Option,
  none, some, Option-cases, Bool-cases, length, drop, ltb, ◌==◌, ==_iff, arith, ok, ok_inj,
  >>=-eq-ok, raise_if-eq-ok,
}
use flop_proof_api.Base.Bytes.{Bytes, to_le, same_bytes, same_bytes_iff, utf8}
use flop_proof_api.Base.Bytes.Pieces.{drop-append}
use flop_proof_api.Store.Accepted.{not-not}
use flop_proof_api.Host.{Host}
use flop_proof_api.Policy.{
  DecodePolicy, uint_le, encode_sampling_params, class_bytes, transform_bytes, encode_decode_policy,
  compute_decode_policy_hash,
}
use flop_proof_api.Policy.Encoding.{
  cut, uint_lem, cut_int, Fits, sampling_text, sampling_lem, sampling_inj, sampling_size,
}

cons_inj : (x y : ℕ) (r s : Bytes) → x ∷ r ≡ y ∷ s → (x ≡ y) × (r ≡ s)
cons_inj x y r s h = (ground arith, ground arith)

-- The two forms of the tag of a class.
class_forms :
    (tag : ℕ) (other : Option ℕ) (c : Bytes)
    → class_bytes tag other ≡ ok c
    → ((tag ≡ 4) × (v : ℕ) × (other ≡ some v) × (v < 256 ^ 2) × (c ≡ 4 ∷ to_le 2 v))
      ⊎ ((tag ≢ 4) × (c ≡ tag ∷ []))
unfolding class_bytes
class_forms tag other c h = elim (Bool-cases (tag == 4)) [
  | inr plain ↦ inr (ground (arith, ==_iff tag 4), ground arith)
  | inl is_other ↦ elim (Option-cases other) [
    | inl missing ↦ ground arith
    | inr (v, there) ↦
        let k = rw (class_bytes, is_other, there) at h in
        let (b, e, r) = >>=-eq-ok (uint_le 2 "u16" v "other_class") _ k in
        let (text, small) = uint_lem 2 "u16" v "other_class" b e in
        inl ((==_iff tag 4).0 is_other, v, there, small, sym (ok_inj r) ∙ ap (λ x. 4 ∷ x) text)
  ]
]

class_cut :
    (tag tag' : ℕ) (other other' : Option ℕ) (c d r s : Bytes)
    → class_bytes tag other ≡ ok c
    → class_bytes tag' other' ≡ ok d
    → c ++ r ≡ d ++ s
    → (tag ≡ tag') × (tag ≡ 4 → other ≡ other') × (r ≡ s)
class_cut tag tag' other other' c d r s h k same = elim (class_forms tag other c h) [
  | inl (four, v, there, small, text) ↦ elim (class_forms tag' other' d k) [
    | inl (four', v', there', small', text') ↦
        let whole = ap (λ x. x ++ r) (sym text) ∙ same ∙ ap (λ x. x ++ s) text' in
        let (_, rest) = cons_inj 4 4 (to_le 2 v ++ r) (to_le 2 v' ++ s) whole in
        let (values, tail) = cut_int 2 v v' r s small small' rest in
        (four ∙ sym four', λ _. there ∙ ap some values ∙ sym there', tail)
    | inr (plain', text') ↦
        let whole = ap (λ x. x ++ r) (sym text) ∙ same ∙ ap (λ x. x ++ s) text' in
        let (first, _) = cons_inj 4 tag' (to_le 2 v ++ r) s whole in absurd (plain' (sym first))
  ]
  | inr (plain, text) ↦ elim (class_forms tag' other' d k) [
    | inl (four', v', there', small', text') ↦
        let whole = ap (λ x. x ++ r) (sym text) ∙ same ∙ ap (λ x. x ++ s) text' in
        let (first, _) = cons_inj tag 4 r (to_le 2 v' ++ s) whole in absurd (plain first)
    | inr (plain', text') ↦
        let whole = ap (λ x. x ++ r) (sym text) ∙ same ∙ ap (λ x. x ++ s) text' in
        let (first, rest) = cons_inj tag tag' r s whole in
        (first, λ four. absurd (plain four), rest)
  ]
]

-- The two forms of the output transform.
transform_forms :
    (transform : ℕ) (id : Option Bytes) (c : Bytes)
    → transform_bytes transform id ≡ ok c
    → ((transform ≡ 0) × (c ≡ 0 ∷ []))
      ⊎ ((transform ≡ 1) × (v : Bytes) × (id ≡ some v) × (length v ≡ 32) × (c ≡ 1 ∷ v))
unfolding transform_bytes
transform_forms zero id c h = inl (refl, sym (ok_inj h))
transform_forms (suc zero) none c h = cc
transform_forms (suc zero) (some v) c h = inr (refl, v, refl, ground arith, ground arith)
transform_forms (suc (suc n)) id c h = ground arith

transform_cut :
    (transform transform' : ℕ) (id id' : Option Bytes) (c d r s : Bytes)
    → transform_bytes transform id ≡ ok c
    → transform_bytes transform' id' ≡ ok d
    → c ++ r ≡ d ++ s
    → (transform ≡ transform') × (transform ≡ 1 → id ≡ id') × (r ≡ s)
transform_cut transform transform' id id' c d r s h k same =
    elim (transform_forms transform id c h) [
      | inl (none_is, text) ↦ elim (transform_forms transform' id' d k) [
        | inl (none_is', text') ↦
            let whole = ap (λ x. x ++ r) (sym text) ∙ same ∙ ap (λ x. x ++ s) text' in
            let (_, rest) = cons_inj 0 0 r s whole in
            (none_is ∙ sym none_is', λ one. absurd (omega (arith, one, none_is)), rest)
        | inr (one', v', there', size', text') ↦
            let whole = ap (λ x. x ++ r) (sym text) ∙ same ∙ ap (λ x. x ++ s) text' in
            let (first, _) = cons_inj 0 1 r (v' ++ s) whole in absurd (omega (arith, first))
      ]
      | inr (one, v, there, size, text) ↦ elim (transform_forms transform' id' d k) [
        | inl (none_is', text') ↦
            let whole = ap (λ x. x ++ r) (sym text) ∙ same ∙ ap (λ x. x ++ s) text' in
            let (first, _) = cons_inj 1 0 (v ++ r) s whole in absurd (omega (arith, first))
        | inr (one', v', there', size', text') ↦
            let whole = ap (λ x. x ++ r) (sym text) ∙ same ∙ ap (λ x. x ++ s) text' in
            let (_, rest) = cons_inj 1 1 (v ++ r) (v' ++ s) whole in
            let (ids, tail) = cut v v' r s (size ∙ sym size') rest in
            (one ∙ sym one', λ _. there ∙ ap some ids ∙ sym there', tail)
      ]
    ]

-- What an encoding is put together from.
record Pieces (policy : DecodePolicy) (b : Bytes) : Type 0 where
  class : Bytes
  sampling : Bytes
  transform : Bytes
  class_is : class_bytes policy.class_tag policy.other_class ≡ ok class
  sampling_is : sampling ≡ sampling_text policy.sampling_params
  fits : Fits policy.sampling_params
  transform_is : transform_bytes policy.output_transform policy.transform_id ≡ ok transform
  version : policy.version ≡ 1
  tokenizer_size : length policy.tokenizer_hash ≡ 32
  stop_size : length policy.stop_conditions_hash ≡ 32
  whole :
      b
      ≡ to_le 2 1
        ++ (class
            ++ (policy.tokenizer_hash
                ++ (sampling
                    ++ (policy.stop_conditions_hash ++ (transform ++ policy.class_policy_hash)))))

Pieces-of_encoding :
    (policy : DecodePolicy) (b : Bytes) → encode_decode_policy policy ≡ ok b → Pieces policy b
unfolding encode_decode_policy
Pieces-of_encoding policy b h =
    let (one, r1) = raise_if-eq-ok (not (policy.version == 1)) _ _ h in
    let (_, r2) = raise_if-eq-ok (ltb 4 policy.class_tag) _ _ r1 in
    let (v, e1, r3) = >>=-eq-ok (uint_le 2 "u16" policy.version "version") _ r2 in
    let (c, e2, r4) = >>=-eq-ok (class_bytes policy.class_tag policy.other_class) _ r3 in
    let (size_t, r5) = raise_if-eq-ok (not (length policy.tokenizer_hash == 32)) _ _ r4 in
    let (p, e3, r6) = >>=-eq-ok (encode_sampling_params policy.sampling_params) _ r5 in
    let (size_s, r7) = raise_if-eq-ok (not (length policy.stop_conditions_hash == 32)) _ _ r6 in
    let (t, e4, r8) =
      >>=-eq-ok (transform_bytes policy.output_transform policy.transform_id) _ r7 in
    let (_, r9) = raise_if-eq-ok (not (length policy.class_policy_hash == 32)) _ _ r8 in
    let (text, fits) = sampling_lem policy.sampling_params p e3 in
    let version : policy.version ≡ 1 = (==_iff policy.version 1).0 (not-not _ one) in
    let (version_text, _) = uint_lem 2 "u16" policy.version "version" v e1 in
    record {
      class = c;
      sampling = p;
      transform = t;
      class_is = e2;
      sampling_is = text;
      fits = fits;
      transform_is = e4;
      version = version;
      tokenizer_size = (==_iff (length policy.tokenizer_hash) 32).0 (not-not _ size_t);
      stop_size = (==_iff (length policy.stop_conditions_hash) 32).0 (not-not _ size_s);
      whole =
          sym (ok_inj r9)
          ∙ ap
              (λ x.
                x
                ++ (c
                    ++ (policy.tokenizer_hash
                        ++ (p
                            ++ (policy.stop_conditions_hash ++ (t ++ policy.class_policy_hash))))))
              (version_text ∙ ap (to_le 2) version);
    }

-- Two policies that differ at most in fields that do not count: the number of another class where
-- the class is not that, and the identifier of a transform where there is none.
pub record SamePolicy (p q : DecodePolicy) : Type 0 where
  pub version : p.version ≡ q.version
  pub class_tag : p.class_tag ≡ q.class_tag
  pub other_class : p.class_tag ≡ 4 → p.other_class ≡ q.other_class
  pub tokenizer_hash : p.tokenizer_hash ≡ q.tokenizer_hash
  pub sampling_params : p.sampling_params ≡ q.sampling_params
  pub stop_conditions_hash : p.stop_conditions_hash ≡ q.stop_conditions_hash
  pub output_transform : p.output_transform ≡ q.output_transform
  pub transform_id : p.output_transform ≡ 1 → p.transform_id ≡ q.transform_id
  pub class_policy_hash : p.class_policy_hash ≡ q.class_policy_hash

SamePolicy-of_encoding :
    (p q : DecodePolicy) (b : Bytes)
    → encode_decode_policy p ≡ ok b
    → encode_decode_policy q ≡ ok b
    → SamePolicy p q
SamePolicy-of_encoding p q b h k =
    let f = Pieces-of_encoding p b h in
    let g = Pieces-of_encoding q b k in
    let (_, r1) = cut (to_le 2 1) (to_le 2 1) _ _ refl (sym f.whole ∙ g.whole) in
    let (class, other, r2) =
      class_cut p.class_tag q.class_tag p.other_class q.other_class f.class g.class _ _ f.class_is
        g.class_is r1 in
    let (tokenizer, r3) =
      cut p.tokenizer_hash q.tokenizer_hash _ _ (f.tokenizer_size ∙ sym g.tokenizer_size) r2 in
    let sizes =
      ap length f.sampling_is
      ∙ sampling_size p.sampling_params q.sampling_params
      ∙ ap length (sym g.sampling_is) in
    let (sampling, r4) = cut f.sampling g.sampling _ _ sizes r3 in
    let (stop, r5) =
      cut p.stop_conditions_hash q.stop_conditions_hash _ _ (f.stop_size ∙ sym g.stop_size) r4 in
    let (transform, id, r6) =
      transform_cut p.output_transform q.output_transform p.transform_id q.transform_id f.transform
        g.transform _ _ f.transform_is g.transform_is r5 in
    record {
      version = f.version ∙ sym g.version;
      class_tag = class;
      other_class = other;
      tokenizer_hash = tokenizer;
      sampling_params =
          sampling_inj p.sampling_params q.sampling_params f.fits g.fits
            (sym f.sampling_is ∙ sampling ∙ g.sampling_is);
      stop_conditions_hash = stop;
      output_transform = transform;
      transform_id = id;
      class_policy_hash = r6;
    }

-- Two policies whose hashes are computed and are one are the same in all fields that count, unless
-- SHA-256 gives one digest for two different messages.
pub policy_hash_binds :
    (host : Host) (p q : DecodePolicy) (digest : Bytes)
    → compute_decode_policy_hash host p ≡ ok digest
    → compute_decode_policy_hash host q ≡ ok digest
    → SamePolicy p q ⊎ ((m : Bytes) × (n : Bytes) × (m ≢ n) × (host.sha256 m ≡ host.sha256 n))
unfolding compute_decode_policy_hash
policy_hash_binds host p q digest h k =
    let (b, e, r1) = >>=-eq-ok (encode_decode_policy p) _ h in
    let (d, e', r2) = >>=-eq-ok (encode_decode_policy q) _ k in
    let tag = utf8 "FLOP_DECODE_POLICY_HASH_V1" in
    elim (Bool-cases (same_bytes b d)) [
      | inl same ↦
          inl (SamePolicy-of_encoding p q b e (e' ∙ ap ok (sym ((same_bytes_iff b d).0 same))))
      | inr differ ↦ inr (
        tag ++ b,
        tag ++ d,
        λ one.
            let again =
              (same_bytes_iff b d).1
                (sym (drop-append tag b) ∙ ap (drop (length tag)) one ∙ drop-append tag d) in
            cc,
        ok_inj (r1 ∙ sym r2),
      )
    ]
