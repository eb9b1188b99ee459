-- ===== src/Base/Bytes.antt =====
-- Python's `bytes` as lists of numbers below 256: hexadecimal text, UTF-8, little-endian integers.
pub mod Pieces
use Prim.Native.Nat.{ℕ, zero, suc, ◌+◌, ◌-◌, ◌*◌, ◌/◌, ◌%◌}
use Prim.Native.Char.{Char, code}
use Prim.Native.String
use Prim.Native.String.{String}
use mathlib.Core.Path.{◌≡◌, refl}
use mathlib.Core.Logic.{◌↔◌}
use native.Mathlib.Omega.{arith}
use mathlib.Core.Bool.{Bool, true, false, ◌&&◌, ◌||◌}
use mathlib.Core.Option.{Option, none, some}
use mathlib.Core.List.{List, [], ◌∷◌, ◌++◌}
use flop_proof_api.Base.Tests.{ltb, leb, ◌==◌, if◌then◌else◌}
use flop_proof_api.Base.Results.{Result, ok, err, value_error, ◌>>=◌}

abbrev pub Bytes : Type 0
Bytes = List ℕ

-- `a == b`
unfoldable pub same_bytes : Bytes → Bytes → Bool
same_bytes [] [] = true
same_bytes (a ∷ as') (b ∷ bs) = a == b && same_bytes as' bs
same_bytes _ _ = false

pub same_bytes_iff : (a b : Bytes) → (same_bytes a b ≡ true) ↔ (a ≡ b)
unfolding same_bytes
same_bytes_iff [] [] = (λ _. refl, λ _. refl)
same_bytes_iff [] (b ∷ bs) = ground arith
same_bytes_iff (a ∷ as') [] = ground arith
same_bytes_iff (a ∷ as') (b ∷ bs) = ground (arith, same_bytes_iff as' bs)

-- `prefix` off the front of `b`, where it is there
unfoldable pub after_bytes : Bytes → Bytes → Option Bytes
after_bytes [] b = some b
after_bytes (p ∷ ps) [] = none
after_bytes (p ∷ ps) (b ∷ bs) = elim (p == b) [ true ↦ after_bytes ps bs | false ↦ none ]

-- `int.from_bytes(b, "little")`
unfoldable pub from_le : Bytes → ℕ
from_le [] = 0
from_le (b ∷ bs) = b + 256 * from_le bs

-- `n.to_bytes(size, "little")` for an `n` that fits
unfoldable pub to_le : ℕ → ℕ → Bytes
to_le zero n = []
to_le (suc size) n = n % 256 ∷ to_le size (n / 256)

-- `b"\x00" * size`
unfoldable pub zeros : ℕ → Bytes
zeros zero = []
zeros (suc size) = 0 ∷ zeros size

-- The value of a hexadecimal digit, either case.
abbrev hex_value : ℕ → Option ℕ
hex_value c =
    if leb b'0' c && leb c b'9'
    then some (c - b'0')
    else if leb b'a' c && leb c b'f'
    then some (c - b'a' + 10)
    else if leb b'A' c && leb c b'F'
    then some (c - b'A' + 10)
    else none

-- ASCII white space, which `bytes.fromhex` skips between the pairs
abbrev is_space : ℕ → Bool
is_space c = c == 32 || (leb 9 c && leb c 13)

abbrev not_hex : Result Bytes
not_hex = err (value_error "non-hexadecimal number found in fromhex() arg")

abbrev with_pair : Option ℕ → Option ℕ → Result Bytes → Result Bytes
with_pair (some high) (some low) rest = do bytes ← rest; ok ((high * 16 + low) ∷ bytes)
with_pair _ _ rest = not_hex

-- `bytes.fromhex(text)`
unfoldable pub fromhex : String → Result Bytes
fromhex String.[] = ok []
fromhex (String.◌∷◌ c String.[]) = if is_space (code c) then ok [] else not_hex
fromhex (String.◌∷◌ c (String.◌∷◌ d text)) = elim (is_space (code c)) [
  | true ↦ fromhex (String.◌∷◌ d text)
  | false ↦ with_pair (hex_value (code c)) (hex_value (code d)) (fromhex text)
]

abbrev hex_digit : ℕ → String
hex_digit n =
    if n == 0
    then "0"
    else if n == 1
    then "1"
    else if n == 2
    then "2"
    else if n == 3
    then "3"
    else if n == 4
    then "4"
    else if n == 5
    then "5"
    else if n == 6
    then "6"
    else if n == 7
    then "7"
    else if n == 8
    then "8"
    else if n == 9
    then "9"
    else if n == 10
    then "a"
    else if n == 11
    then "b"
    else if n == 12
    then "c"
    else if n == 13
    then "d"
    else if n == 14
    then "e"
    else "f"

-- `b.hex()`
unfoldable pub to_hex : Bytes → String
to_hex [] = ""
to_hex (b ∷ bs) = String.◌++◌ (hex_digit (b / 16)) (String.◌++◌ (hex_digit (b % 16)) (to_hex bs))

-- The bytes of one code point.
abbrev utf8_char : ℕ → Bytes
utf8_char c =
    if ltb c 0x80
    then c ∷ []
    else if ltb c 0x800
    then (0xc0 + c / 64) ∷ (0x80 + c % 64) ∷ []
    else if ltb c 0x10000
    then (0xe0 + c / 4096) ∷ (0x80 + c / 64 % 64) ∷ (0x80 + c % 64) ∷ []
    else (0xf0 + c / 262144) ∷ (0x80 + c / 4096 % 64) ∷ (0x80 + c / 64 % 64) ∷ (0x80 + c % 64) ∷ []

-- `text.encode("utf-8")`
unfoldable pub utf8 : String → Bytes
utf8 String.[] = []
utf8 (String.◌∷◌ c text) = utf8_char (code c) ++ utf8 text
