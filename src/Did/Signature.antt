-- ===== src/Did/Signature.antt =====
-- Signature texts and their 64 bytes.
use flop_proof_api.Base.{
  ℕ, ◌≡◌, refl, ◌<◌, List, [], ◌∷◌, All, ok, some, length, take, arith, ◌+◌, ◌*◌, ap, ◌∙◌, map,
  zero, suc, Option, none,
}
use flop_proof_api.Base.Bytes.{Bytes, same_bytes_iff}
use flop_proof_api.Did.Base64.{
  digit_value, digit_char, digit_values, bytes_of_digits, encode_base64url, digits_of_bytes,
}
use flop_proof_api.Did.{decode_ed25519_signature, signature_digits, canonical_raw}

abbrev pub AreBytes : Bytes → Type 0
AreBytes = All (λ b. b < 256)

digit_value-digit_char : (n : ℕ) → n < 64 → digit_value (digit_char n) ≡ some n
unfolding digit_value digit_char
digit_value-digit_char n h = ground arith

digit_values-map :
    (digits : List ℕ)
    → All (λ n. n < 64) digits
    → digit_values (map digit_char digits) ≡ some digits
unfolding digit_values
digit_values-map [] h = refl
digit_values-map (n ∷ ns) (hn, h) =
    ground (arith, digit_value-digit_char n hn, digit_values-map ns h)

digits_of_bytes_small : (raw : Bytes) → AreBytes raw → All (λ n. n < 64) (digits_of_bytes raw)
unfolding digits_of_bytes
digits_of_bytes_small [] h = tt
digits_of_bytes_small (x ∷ []) h = omega arith
digits_of_bytes_small (x ∷ y ∷ []) h = omega arith
digits_of_bytes_small (x ∷ y ∷ z ∷ rest) (hx, (hy, (hz, h))) =
    (omega arith, (omega arith, (omega arith, (omega arith, digits_of_bytes_small rest h))))

bytes_of_digits-digits_of_bytes :
    (raw : Bytes) → AreBytes raw → bytes_of_digits (digits_of_bytes raw) ≡ raw
unfolding bytes_of_digits digits_of_bytes
bytes_of_digits-digits_of_bytes [] h = refl
bytes_of_digits-digits_of_bytes (x ∷ []) h = ground arith
bytes_of_digits-digits_of_bytes (x ∷ y ∷ []) h = ground arith
bytes_of_digits-digits_of_bytes (x ∷ y ∷ z ∷ rest) (hx, (hy, (hz, h))) =
    ground (arith, bytes_of_digits-digits_of_bytes rest h)

-- 64 bytes have 86 digits.
length-digits_of_bytes :
    (k : ℕ) (raw : Bytes) → length raw ≡ k * 3 + 1 → length (digits_of_bytes raw) ≡ k * 4 + 2
unfolding digits_of_bytes
length-digits_of_bytes zero [] h = absurd (omega arith)
length-digits_of_bytes zero (x ∷ []) h = refl
length-digits_of_bytes zero (x ∷ y ∷ raw) h = absurd (omega arith)
length-digits_of_bytes (suc k) [] h = absurd (omega arith)
length-digits_of_bytes (suc k) (x ∷ []) h = absurd (omega arith)
length-digits_of_bytes (suc k) (x ∷ y ∷ []) h = absurd (omega arith)
length-digits_of_bytes (suc k) (x ∷ y ∷ z ∷ raw) h =
    omega (arith, length-digits_of_bytes k raw (omega arith))

take_whole {ℓ} : {A : Type ℓ} (xs : List A) (n : ℕ) → length xs ≡ n → take n xs ≡ xs
take_whole [] zero h = refl
take_whole [] (suc n) h = refl
take_whole (x ∷ xs) zero h = absurd (omega arith)
take_whole (x ∷ xs) (suc n) h = ap (λ l. x ∷ l) (take_whole xs n (omega arith))

length-map {ℓ κ} :
    {A : Type ℓ} {B : Type κ} (f : A → B) (xs : List A) → length (map f xs) ≡ length xs
length-map f [] = refl
length-map f (x ∷ xs) = ap suc (length-map f xs)

signature_digits_whole :
    (text : List ℕ) → length text ≡ 86 → signature_digits text ≡ digit_values text
unfolding signature_digits
signature_digits_whole text h = rw (take_whole text 86 h) (ground arith)

canonical_raw-eq-ok :
    (o : Option (List ℕ)) (first raw : List ℕ)
    → canonical_raw o first ≡ ok raw
    → first ≡ encode_base64url raw
unfolding canonical_raw
canonical_raw-eq-ok none first raw h = cc
canonical_raw-eq-ok (some digits) first raw h =
    ground (arith, same_bytes_iff (encode_base64url (bytes_of_digits digits)) first)

-- Every 64 bytes are the reading of their own base64url text, and whatever text reads as them
-- begins with the 86 characters of that text.
pub decode-encode_signature :
    (raw : Bytes)
    → AreBytes raw
    → length raw ≡ 64
    → (decode_ed25519_signature (encode_base64url raw) ≡ ok raw)
      × ((text : List ℕ)
          → decode_ed25519_signature text ≡ ok raw
          → take 86 text ≡ encode_base64url raw)
unfolding decode_ed25519_signature
decode-encode_signature raw h n =
    let own = encode_base64url raw in
    let digits = digits_of_bytes raw in
    let size : length own ≡ 86 =
      unfold encode_base64url in length-map digit_char digits ∙ length-digits_of_bytes 21 raw n in
    let read : digit_values own ≡ some digits =
      unfold encode_base64url in digit_values-map digits (digits_of_bytes_small raw h) in
    (
      ground (
        arith,
        signature_digits_whole own size,
        read,
        bytes_of_digits-digits_of_bytes raw h,
        take_whole own 86 size,
        same_bytes_iff own own,
      ),
      λ text e. canonical_raw-eq-ok (signature_digits text) (take 86 text) raw e,
    )
