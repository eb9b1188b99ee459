-- ===== src/Did.antt =====
-- The Ed25519 keys and signatures of app/crypto.py: did:key texts, point encodings, base64url.
pub mod Base64
pub mod Signature
pub mod Agreement
pub mod Tests
use Prim.Native.String.{String}
use flop_proof_api.Base.{
  ℕ, zero, suc, ◌+◌, ◌-◌, ◌*◌, ◌/◌, ◌%◌, ◌^◌, Bool, true, false, not, ◌&&◌, ◌||◌, List, [], ◌∷◌,
  Option, none, some, length, any, take, drop, ltb, leb, ◌==◌, if◌then◌else◌,
}
use flop_proof_api.Base.{Result, ok, err, value_error, raise_if, ◌>>=◌, ◌>>◌}
use flop_proof_api.Base.Strings.{after_prefix, codes}
use flop_proof_api.Base.Bytes.{Bytes, same_bytes, after_bytes, from_le, fromhex, utf8}
use flop_proof_api.Host.{Host}
use flop_proof_api.Value.{Value, str}
use flop_proof_api.Did.Base64.{digit_values, bytes_of_digits, encode_base64url}

abbrev pub ed25519_pub_multicodec : Bytes
ed25519_pub_multicodec = 0xED ∷ 0x01 ∷ []

-- `pow(b, e, p)` by repeated squaring, for an exponent below 2 ^ `bits`
unfoldable pub pow_mod : ℕ → ℕ → ℕ → ℕ → ℕ
pow_mod zero b e p = 1 % p
pow_mod (suc bits) b e p =
    let half = pow_mod bits (b * b % p) (e / 2) p in if e % 2 == 1 then b * half % p else half

abbrev pub ed25519_p : ℕ
ed25519_p = 2 ^ 255 - 19

-- The inverse of 121666 is its power p - 2.
unfoldable pub ed25519_d : ℕ
unfolding pow_mod
ed25519_d = (ed25519_p - 121665) * pow_mod 255 121666 (ed25519_p - 2) ed25519_p % ed25519_p

unfoldable pub ed25519_sqrt_m1 : ℕ
unfolding pow_mod
ed25519_sqrt_m1 = pow_mod 255 2 ((ed25519_p - 1) / 4) ed25519_p

-- `y & ((1 << 255) - 1)` and `public_key[31] >> 7` of the 32 bytes read as a number
abbrev y_of : Bytes → ℕ
y_of public_key = from_le public_key % 2 ^ 255

abbrev x_sign_of : Bytes → ℕ
x_sign_of public_key = from_le public_key / 2 ^ 255

-- The square root that decodes an x coordinate, from u = y² - 1 and v = d y² + 1 mod p.
root_exists : ℕ → ℕ → ℕ → Bool
root_exists u v x_sign =
    let p = ed25519_p in
    let x = u * pow_mod 2 v 3 p * pow_mod 255 (u * pow_mod 3 v 7 p) ((p - 5) / 8) p % p in
    let vx2 = v * x * x % p in
    if vx2 == (p - u) % p && not (vx2 == u)
    then not (x * ed25519_sqrt_m1 % p == 0 && x_sign == 1)
    else if not (vx2 == u)
    then false
    else not (x == 0 && x_sign == 1)

unfoldable pub is_ed25519_point_encoding : Bytes → Bool
unfolding root_exists pow_mod from_le ed25519_d ed25519_sqrt_m1
is_ed25519_point_encoding public_key =
    let p = ed25519_p in
    let y = y_of public_key in
    if not (length public_key == 32)
    then false
    else if leb p y
    then false
    else root_exists ((y * y + p - 1) % p) ((ed25519_d * y * y + 1) % p) (x_sign_of public_key)

abbrev pub small_order_ed25519_keys : List String
small_order_ed25519_keys =
    "0100000000000000000000000000000000000000000000000000000000000000"
    ∷ "ecffffffffffffffffffffffffffffffffffffffffffffffffffffffffffff7f"
    ∷ "0000000000000000000000000000000000000000000000000000000000000000"
    ∷ "0000000000000000000000000000000000000000000000000000000000000080"
    ∷ "c7176a703d4dd84fba3c0b760d10670f2a2053fa2c39ccc64ec7fd7792ac037a"
    ∷ "c7176a703d4dd84fba3c0b760d10670f2a2053fa2c39ccc64ec7fd7792ac03fa"
    ∷ "26e8958fc2b227b045c3f489f2ef98f0d5dfac05d3c63339b13802886d53fc05"
    ∷ "26e8958fc2b227b045c3f489f2ef98f0d5dfac05d3c63339b13802886d53fc85" ∷ []

abbrev is_hex_of : Bytes → String → Bool
is_hex_of bytes text = elim (fromhex text) [ ok b ↦ same_bytes b bytes | err _ ↦ false ]

-- `public_key in SMALL_ORDER_ED25519_KEYS`
unfoldable pub has_small_order : Bytes → Bool
unfolding fromhex same_bytes
has_small_order public_key = any (is_hex_of public_key) small_order_ed25519_keys

-- The checks that both readers of a did:key make on the decoded bytes.
decoded_key : Option Bytes → Result Bytes
decoded_key none = err (value_error "DID does not contain an Ed25519 public key")
decoded_key (some public_key) = do
  raise_if (not (length public_key == 32)) (value_error "Invalid Ed25519 public key length")
  raise_if (not (is_ed25519_point_encoding public_key))
      (value_error "Ed25519 public key is not a valid point encoding")
  raise_if (has_small_order public_key) (value_error "Ed25519 public key has small order")
  ok public_key

module _ (host : Host) where
  -- The key is kept as its 32 bytes.
  unfoldable pub did_key_to_public_key : String → Result Bytes
  unfolding after_prefix after_bytes decoded_key
  did_key_to_public_key did = elim (after_prefix "did:key:z" did) [
    | none ↦ err (value_error "Unsupported DID format")
    | some encoded ↦ do
      decoded ← host.b58decode encoded
      decoded_key (after_bytes ed25519_pub_multicodec decoded)
  ]

  -- The same for a value of any type.
  unfoldable pub ed25519_public_key_from_did : Value → Result Bytes
  unfolding after_prefix after_bytes
  ed25519_public_key_from_did (str did) = elim (after_prefix "did:key:z" did) [
    | none ↦ err (value_error "Unsupported DID format")
    | some encoded ↦ do
      decoded ← host.b58decode encoded
      elim (after_bytes ed25519_pub_multicodec decoded) [
        | none ↦ err (value_error "DID does not contain an Ed25519 public key")
        | some public_key ↦ do
          raise_if (not (length public_key == 32)) (value_error "Invalid Ed25519 public key length")
          raise_if (not (is_ed25519_point_encoding public_key))
              (value_error "Ed25519 public key is not a valid point encoding")
          raise_if (has_small_order public_key) (value_error "Ed25519 public key has small order")
          ok public_key
      ]
  ]
  ed25519_public_key_from_did _ = err (value_error "Unsupported DID format")

-- `[A-Za-z0-9_-]{86}(?:==)?`, matched whole: the digits of the 86 characters.
unfoldable pub signature_digits : List ℕ → Option (List ℕ)
signature_digits signature =
    if length signature == 86
      || (length signature == 88 && same_bytes (drop 86 signature) (b'=' ∷ b'=' ∷ []))
    then digit_values (take 86 signature)
    else none

-- The check that the digits are the canonical ones of their bytes, given the 86 characters.
unfoldable pub canonical_raw : Option (List ℕ) → List ℕ → Result Bytes
canonical_raw none first = err (value_error "signature must be 64 bytes of base64url")
canonical_raw (some digits) first =
    let raw = bytes_of_digits digits in
    if not (length raw == 64) || not (same_bytes (encode_base64url raw) first)
    then err (value_error "signature must be 64 bytes of canonical base64url")
    else ok raw

-- A text is given by its code points.
unfoldable pub decode_ed25519_signature : List ℕ → Result Bytes
unfolding canonical_raw
decode_ed25519_signature signature = canonical_raw (signature_digits signature) (take 86 signature)

module _ (host : Host) where
  unfoldable pub verify_signature : Bytes → Bytes → String → Bool
  unfolding decode_ed25519_signature
  verify_signature public_key message signature =
      elim (decode_ed25519_signature (codes signature)) [
        | ok raw ↦ host.ed25519_verify public_key raw message
        | err _ ↦ false
      ]

  unfoldable pub verify_did_signature : String → Bytes → String → Result Bool
  verify_did_signature did message signature = do
    public_key ← did_key_to_public_key host did
    ok (verify_signature public_key message signature)

  unfoldable pub verify_canonical_signature : String → String → String → Result Bool
  verify_canonical_signature did canonical signature =
      verify_did_signature did (utf8 canonical) signature
