-- ===== src/Base/Bytes/Pieces.antt =====
-- Byte strings cut into pieces and put together again.
use Prim.Native.Nat.{ℕ, zero, suc, ◌+◌, ◌*◌, ◌/◌, ◌%◌, ◌^◌, ◌≤◌, ◌<◌}
use mathlib.Core.Path.{◌≡◌, refl, ap, ◌∙◌}
use mathlib.Core.Path.{ap₂}
use native.Mathlib.Omega.{arith}
use mathlib.Core.Bool.{Bool, true, ◌&&◌}
use mathlib.Core.List.{[], ◌∷◌, ◌++◌}
use flop_proof_api.Base.Lists.{length, all, take, drop}
use flop_proof_api.Base.Tests.{ltb}
use flop_proof_api.Base.Bytes.{Bytes, from_le, to_le}

-- All elements are bytes.
abbrev pub are_bytes : Bytes → Bool
are_bytes = all (λ b. ltb b 256)

pub take-drop : (n : ℕ) (d : Bytes) → take n d ++ drop n d ≡ d
take-drop zero d = refl
take-drop (suc n) [] = refl
take-drop (suc n) (b ∷ d) = ap (λ r. b ∷ r) (take-drop n d)

pub length-take : (n : ℕ) (d : Bytes) → n ≤ length d → length (take n d) ≡ n
length-take zero d h = refl
length-take (suc n) [] h = omega arith
length-take (suc n) (b ∷ d) h = omega (arith, length-take n d)

pub take-append : (x r : Bytes) → take (length x) (x ++ r) ≡ x
take-append [] r = refl
take-append (b ∷ x) r = ap (λ t. b ∷ t) (take-append x r)

pub drop-append : (x r : Bytes) → drop (length x) (x ++ r) ≡ r
drop-append [] r = refl
drop-append (b ∷ x) r = drop-append x r

pub are_bytes-append : (x r : Bytes) → are_bytes (x ++ r) ≡ (are_bytes x && are_bytes r)
are_bytes-append [] r = refl
are_bytes-append (b ∷ x) r = ground (arith, are_bytes-append x r)

pub length-to_le : (n v : ℕ) → length (to_le n v) ≡ n
unfolding to_le
length-to_le zero v = refl
length-to_le (suc n) v = ap suc (length-to_le n (v / 256))

pub from_le-to_le : (n v : ℕ) → v < 256 ^ n → from_le (to_le n v) ≡ v
unfolding to_le from_le
from_le-to_le zero v h = omega arith
from_le-to_le (suc n) v h = omega (arith, from_le-to_le n (v / 256))

pub to_le-from_le : (raw : Bytes) → are_bytes raw ≡ true → to_le (length raw) (from_le raw) ≡ raw
unfolding to_le from_le
to_le-from_le [] h = refl
to_le-from_le (b ∷ raw) h =
    let small : b < 256 = ground arith in
    let low : (b + 256 * from_le raw) % 256 ≡ b = omega arith in
    let high : (b + 256 * from_le raw) / 256 ≡ from_le raw = omega arith in
    ap₂ ◌∷◌ low (ap (to_le (length raw)) high ∙ to_le-from_le raw (ground arith))
