-- ===== src/Did/Tests.antt =====
-- Runs of the key and signature readers of app/crypto.py, and their theorems at concrete inputs.
use flop_proof_api.Base.{◌≡◌, refl, true, List, [], ◌∷◌, ok, ◌*◌, ◌%◌, ◌-◌, ◌∷◌, ℕ, arith, take}
use flop_proof_api.Base.Bytes.{Bytes, zeros}
use flop_proof_api.Host.{Host}
use flop_proof_api.Value.{str}
use flop_proof_api.Did.{
  did_key_to_public_key, ed25519_public_key_from_did, is_ed25519_point_encoding, has_small_order,
  ed25519_d, ed25519_p, decode_ed25519_signature,
}
use flop_proof_api.Did.Base64.{encode_base64url}
use flop_proof_api.Did.Agreement.{did_readers_agree}
use flop_proof_api.Did.Signature.{decode-encode_signature}

-- The base point of the curve as a public key: 0x58, and 31 times 0x66.
abbrev pub base_point : Bytes
base_point =
    0x58 ∷ 0x66 ∷ 0x66 ∷ 0x66 ∷ 0x66 ∷ 0x66 ∷ 0x66 ∷ 0x66 ∷ 0x66 ∷ 0x66 ∷ 0x66 ∷ 0x66 ∷ 0x66 ∷ 0x66
    ∷ 0x66 ∷ 0x66 ∷ 0x66 ∷ 0x66 ∷ 0x66 ∷ 0x66 ∷ 0x66 ∷ 0x66 ∷ 0x66 ∷ 0x66 ∷ 0x66 ∷ 0x66 ∷ 0x66
    ∷ 0x66 ∷ 0x66 ∷ 0x66 ∷ 0x66 ∷ 0x66 ∷ []

-- Packages whose base58 knows one key, and whose digests are empty.
abbrev pub toy_host : Host
toy_host = record {
  sha256 = λ _. [];
  blake2b = λ _. [];
  b58decode = λ text. ok (0xED ∷ 0x01 ∷ base_point);
  ed25519_verify = λ _ _ _. true;
  sr25519_verify = λ _ _ _. ok true;
  repr = λ _. "[]";
}

-- d = -121665 / 121666
d_is_a_quotient : 121666 * ed25519_d % ed25519_p ≡ ed25519_p - 121665
unfolding ed25519_d
d_is_a_quotient = refl

base_point_decodes : is_ed25519_point_encoding base_point ≡ true
unfolding is_ed25519_point_encoding
base_point_decodes = refl

identity_has_small_order : has_small_order (1 ∷ zeros 31) ≡ true
unfolding has_small_order zeros
identity_has_small_order = refl

toy_key : did_key_to_public_key toy_host "did:key:z6Mk" ≡ ok base_point
unfolding did_key_to_public_key is_ed25519_point_encoding has_small_order
toy_key = refl

did_readers_agree_example :
    ed25519_public_key_from_did toy_host (str "did:key:z6Mk")
    ≡ did_key_to_public_key toy_host "did:key:z6Mk"
did_readers_agree_example = did_readers_agree toy_host "did:key:z6Mk"

abbrev sample_raw : Bytes
sample_raw =
    1 ∷ 2 ∷ 3 ∷ 4 ∷ 5 ∷ 6 ∷ 7 ∷ 8 ∷ 9 ∷ 10 ∷ 11 ∷ 12 ∷ 13 ∷ 14 ∷ 15 ∷ 255 ∷ 1 ∷ 2 ∷ 3 ∷ 4 ∷ 5 ∷ 6
    ∷ 7 ∷ 8 ∷ 9 ∷ 10 ∷ 11 ∷ 12 ∷ 13 ∷ 14 ∷ 15 ∷ 255 ∷ 1 ∷ 2 ∷ 3 ∷ 4 ∷ 5 ∷ 6 ∷ 7 ∷ 8 ∷ 9 ∷ 10 ∷ 11
    ∷ 12 ∷ 13 ∷ 14 ∷ 15 ∷ 255 ∷ 1 ∷ 2 ∷ 3 ∷ 4 ∷ 5 ∷ 6 ∷ 7 ∷ 8 ∷ 9 ∷ 10 ∷ 11 ∷ 12 ∷ 13 ∷ 14 ∷ 15
    ∷ 255 ∷ []

decode-encode_signature_example :
    (decode_ed25519_signature (encode_base64url sample_raw) ≡ ok sample_raw)
    × ((text : List ℕ)
        → decode_ed25519_signature text ≡ ok sample_raw
        → take 86 text ≡ encode_base64url sample_raw)
decode-encode_signature_example = decode-encode_signature sample_raw (omega arith) refl
