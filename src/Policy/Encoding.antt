-- ===== src/Policy/Encoding.antt =====
-- app/crypto.py: the encoding of a decode policy determines the policy.
use Prim.Native.String.{String}
use mathlib.Core.Path.{ap₂}
use mathlib.Core.List.{append-nil}
use flop_proof_api.Base.{
  ℕ, zero, suc, ◌-◌, ◌^◌, ◌<◌, ◌≡◌, refl, sym, ap, ◌∙◌, [], ◌++◌, length, take, drop, ltb, arith,
  ok, ok_inj, >>=-eq-ok, raise_if-eq-ok,
}
use flop_proof_api.Base.Bytes.{Bytes, to_le, from_le}
use flop_proof_api.Base.Bytes.Pieces.{take-append, drop-append, length-to_le, from_le-to_le}
use flop_proof_api.Policy.{SamplingParams, uint_le, encode_sampling_params}

-- Two byte strings of one length in front of two others.
pub cut : (x y r s : Bytes) → length x ≡ length y → x ++ r ≡ y ++ s → (x ≡ y) × (r ≡ s)
cut x y r s same h = (
  sym (take-append x r) ∙ ap (take (length x)) h ∙ ap (λ n. take n (y ++ s)) same ∙ take-append y s,
  sym (drop-append x r) ∙ ap (drop (length x)) h ∙ ap (λ n. drop n (y ++ s)) same ∙ drop-append y s,
)

some_power : (n : ℕ) → 0 < 256 ^ n
some_power zero = omega arith
some_power (suc n) = omega (arith, some_power n)

-- An integer that is encoded fits.
pub uint_lem :
    (size : ℕ) (width : String) (value : ℕ) (name : String) (b : Bytes)
    → uint_le size width value name ≡ ok b
    → (b ≡ to_le size value) × (value < 256 ^ size)
unfolding uint_le
uint_lem size width value name b h =
    let (small, r) = raise_if-eq-ok (ltb (256 ^ size - 1) value) _ _ h in
    (sym (ok_inj r), ground (arith, some_power size, small))

-- Two integers of one width in front of two byte strings.
pub cut_int :
    (size m n : ℕ) (r s : Bytes)
    → m < 256 ^ size
    → n < 256 ^ size
    → to_le size m ++ r ≡ to_le size n ++ s
    → (m ≡ n) × (r ≡ s)
cut_int size m n r s small small' h =
    let (same, rest) =
      cut (to_le size m) (to_le size n) r s (length-to_le size m ∙ sym (length-to_le size n)) h in
    (sym (from_le-to_le size m small) ∙ ap from_le same ∙ from_le-to_le size n small', rest)

abbrev pub sampling_text : SamplingParams → Bytes
sampling_text params =
    to_le 4 params.temperature_milli
    ++ (to_le 4 params.top_p_ppm
        ++ (to_le 4 params.top_k
            ++ (to_le 4 params.repetition_penalty_ppm
                ++ (to_le 2 params.beam_width ++ to_le 8 params.seed))))

pub record Fits (params : SamplingParams) : Type 0 where
  pub temperature_milli : params.temperature_milli < 256 ^ 4
  pub top_p_ppm : params.top_p_ppm < 256 ^ 4
  pub top_k : params.top_k < 256 ^ 4
  pub repetition_penalty_ppm : params.repetition_penalty_ppm < 256 ^ 4
  pub beam_width : params.beam_width < 256 ^ 2
  pub seed : params.seed < 256 ^ 8

pub sampling_lem :
    (params : SamplingParams) (b : Bytes)
    → encode_sampling_params params ≡ ok b
    → (b ≡ sampling_text params) × Fits params
unfolding encode_sampling_params
sampling_lem params b h =
    let (t, e1, r1) =
      >>=-eq-ok (uint_le 4 "u32" params.temperature_milli "temperature_milli") _ h in
    let (p, e2, r2) = >>=-eq-ok (uint_le 4 "u32" params.top_p_ppm "top_p_ppm") _ r1 in
    let (k, e3, r3) = >>=-eq-ok (uint_le 4 "u32" params.top_k "top_k") _ r2 in
    let (q, e4, r4) =
      >>=-eq-ok (uint_le 4 "u32" params.repetition_penalty_ppm "repetition_penalty_ppm") _ r3 in
    let (w, e5, r5) = >>=-eq-ok (uint_le 2 "u16" params.beam_width "beam_width") _ r4 in
    let (s, e6, r6) = >>=-eq-ok (uint_le 8 "u64" params.seed "seed") _ r5 in
    let (t', f1) = uint_lem 4 "u32" params.temperature_milli "temperature_milli" t e1 in
    let (p', f2) = uint_lem 4 "u32" params.top_p_ppm "top_p_ppm" p e2 in
    let (k', f3) = uint_lem 4 "u32" params.top_k "top_k" k e3 in
    let (q', f4) = uint_lem 4 "u32" params.repetition_penalty_ppm "repetition_penalty_ppm" q e4 in
    let (w', f5) = uint_lem 2 "u16" params.beam_width "beam_width" w e5 in
    let (s', f6) = uint_lem 8 "u64" params.seed "seed" s e6 in
    (
      sym (ok_inj r6) ∙ ap₂ ◌++◌ t' (ap₂ ◌++◌ p' (ap₂ ◌++◌ k' (ap₂ ◌++◌ q' (ap₂ ◌++◌ w' s')))),
      record {
        temperature_milli = f1;
        top_p_ppm = f2;
        top_k = f3;
        repetition_penalty_ppm = f4;
        beam_width = f5;
        seed = f6;
      },
    )

pub sampling_inj :
    (m n : SamplingParams) → Fits m → Fits n → sampling_text m ≡ sampling_text n → m ≡ n
sampling_inj m n f g h =
    let (a, r1) =
      cut_int 4 m.temperature_milli n.temperature_milli _ _ f.temperature_milli g.temperature_milli
        h in
    let (b, r2) = cut_int 4 m.top_p_ppm n.top_p_ppm _ _ f.top_p_ppm g.top_p_ppm r1 in
    let (c, r3) = cut_int 4 m.top_k n.top_k _ _ f.top_k g.top_k r2 in
    let (d, r4) =
      cut_int 4 m.repetition_penalty_ppm n.repetition_penalty_ppm _ _ f.repetition_penalty_ppm
        g.repetition_penalty_ppm r3 in
    let (e, r5) = cut_int 2 m.beam_width n.beam_width _ _ f.beam_width g.beam_width r4 in
    let (i, _) =
      cut_int 8 m.seed n.seed [] [] f.seed g.seed (append-nil _ ∙ r5 ∙ sym (append-nil _)) in
    λ k. record {
      temperature_milli = a k;
      top_p_ppm = b k;
      top_k = c k;
      repetition_penalty_ppm = d k;
      beam_width = e k;
      seed = i k;
    }

pub sampling_size : (m n : SamplingParams) → length (sampling_text m) ≡ length (sampling_text n)
unfolding to_le
sampling_size m n = refl
