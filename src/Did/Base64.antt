-- ===== src/Did/Base64.antt =====
-- URL-safe base64, as app/crypto.py uses it for signatures: texts as lists of code points.
use mathlib.Core.Option
use flop_proof_api.Base.{
  ℕ, ◌+◌, ◌-◌, ◌*◌, ◌/◌, ◌%◌, List, [], ◌∷◌, Option, none, some, ltb, leb, ◌==◌, if◌then◌else◌,
  ◌&&◌, map,
}
use flop_proof_api.Base.Bytes.{Bytes}

-- `A-Z a-z 0-9 - _`
unfoldable pub digit_value : ℕ → Option ℕ
digit_value c =
    if leb b'A' c && leb c b'Z'
    then some (c - b'A')
    else if leb b'a' c && leb c b'z'
    then some (c - b'a' + 26)
    else if leb b'0' c && leb c b'9'
    then some (c - b'0' + 52)
    else if c == b'-'
    then some 62
    else if c == b'_'
    then some 63
    else none

unfoldable pub digit_char : ℕ → ℕ
digit_char n =
    if ltb n 26
    then n + b'A'
    else if ltb n 52
    then n - 26 + b'a'
    else if ltb n 62
    then n - 52 + b'0'
    else if n == 62
    then b'-'
    else b'_'

-- The values of the characters, where all are of the alphabet.
unfoldable pub digit_values : List ℕ → Option (List ℕ)
digit_values [] = some []
digit_values (c ∷ cs) = elim (digit_value c) [
  | none ↦ none
  | some n ↦ Option.map (λ ns. n ∷ ns) (digit_values cs)
]

-- Groups of four digits are three bytes; of a shorter last group the low bits are dropped.
unfoldable pub bytes_of_digits : List ℕ → Bytes
bytes_of_digits (a ∷ b ∷ c ∷ d ∷ rest) =
    (a * 4 + b / 16) ∷ (b % 16 * 16 + c / 4) ∷ (c % 4 * 64 + d) ∷ bytes_of_digits rest
bytes_of_digits (a ∷ b ∷ c ∷ []) = (a * 4 + b / 16) ∷ (b % 16 * 16 + c / 4) ∷ []
bytes_of_digits (a ∷ b ∷ []) = (a * 4 + b / 16) ∷ []
bytes_of_digits (a ∷ []) = []
bytes_of_digits [] = []

-- The digits of three bytes at a time, a shorter last group filled up with zero bits.
unfoldable pub digits_of_bytes : Bytes → List ℕ
digits_of_bytes (x ∷ y ∷ z ∷ rest) =
    (x / 4) ∷ (x % 4 * 16 + y / 16) ∷ (y % 16 * 4 + z / 64) ∷ (z % 64) ∷ digits_of_bytes rest
digits_of_bytes (x ∷ y ∷ []) = (x / 4) ∷ (x % 4 * 16 + y / 16) ∷ (y % 16 * 4) ∷ []
digits_of_bytes (x ∷ []) = (x / 4) ∷ (x % 4 * 16) ∷ []
digits_of_bytes [] = []

-- `base64.urlsafe_b64encode(value).rstrip(b"=")`
unfoldable pub encode_base64url : Bytes → List ℕ
encode_base64url value = map digit_char (digits_of_bytes value)
