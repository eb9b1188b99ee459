-- ===== src/Transcript/Reads.antt =====
-- What one read of the FCC4 reader takes off the front of its input.
use flop_proof_api.Base.{
  ℕ, ◌^◌, ◌≤◌, ◌<◌, ◌≡◌, refl, sym, ap, ◌∙◌, true, ◌++◌, length, take, drop, arith, ok, >>=-eq-ok,
  &&-eq-true, length-append, subst, ok_inj,
}
use flop_proof_api.Base.Bytes.{Bytes, from_le, to_le}
use flop_proof_api.Base.Bytes.Pieces.{
  are_bytes, take-drop, length-take, take-append, drop-append, are_bytes-append, length-to_le,
  from_le-to_le, to_le-from_le,
}
use flop_proof_api.Transcript.{read_exact, read_le}

read_exact_parts :
    (n : ℕ) (d : Bytes) {p : Bytes × Bytes}
    → read_exact n d ≡ ok p
    → (n ≤ length d) × (take n d ≡ p.0) × (drop n d ≡ p.1)
unfolding read_exact
read_exact_parts n d h = ground arith

-- A read that succeeds cuts its input in two, after `n` bytes.
read_exact-eq-ok :
    (n : ℕ) (d : Bytes) {p : Bytes × Bytes}
    → read_exact n d ≡ ok p
    → (p.0 ++ p.1 ≡ d) × (length p.0 ≡ n)
read_exact-eq-ok n d {p} h =
    let (room, front, back) = read_exact_parts n d h in
    (rw (← front, ← back) (take-drop n d), rw (← front) (length-take n d room))

pub read_exact-append : (n : ℕ) (x r : Bytes) → length x ≡ n → read_exact n (x ++ r) ≡ ok (x, r)
unfolding read_exact
read_exact-append n x r h =
    rw (← h) (ground (arith, length-append x r, take-append x r, drop-append x r))

pub read_le-append : (n v : ℕ) (r : Bytes) → v < 256 ^ n → read_le n (to_le n v ++ r) ≡ ok (v, r)
unfolding read_le
read_le-append n v r h =
    rw (read_exact-append n (to_le n v) r (length-to_le n v), from_le-to_le n v h) refl

bytes_parts :
    (x r d : Bytes) → x ++ r ≡ d → are_bytes d ≡ true → (are_bytes x ≡ true) × (are_bytes r ≡ true)
bytes_parts x r d e h = &&-eq-true _ _ (sym (are_bytes-append x r) ∙ ap are_bytes e ∙ h)

cut_le :
    (raw r : Bytes) (n : ℕ) (d : Bytes)
    → raw ++ r ≡ d
    → length raw ≡ n
    → are_bytes d ≡ true
    → (to_le n (from_le raw) ++ r ≡ d) × (are_bytes r ≡ true)
cut_le raw r n d cut size bytes =
    let (front, back) = bytes_parts raw r d cut bytes in
    (rw (← size, to_le-from_le raw front) cut, back)

-- A read of a number takes off its little-endian bytes.
pub read_le-eq-ok :
    (n : ℕ) (d : Bytes) {p : ℕ × Bytes}
    → are_bytes d ≡ true
    → read_le n d ≡ ok p
    → (to_le n p.0 ++ p.1 ≡ d) × (are_bytes p.1 ≡ true)
unfolding read_le
read_le-eq-ok n d {p} bytes h =
    let (q, e, k) = >>=-eq-ok (read_exact n d) _ h in
    let (cut, size) = read_exact-eq-ok n d e in
    let same : ◌≡◌ {A = ℕ × Bytes} (from_le q.0, q.1) p = ok_inj k in
    subst (λ p. (to_le n p.0 ++ p.1 ≡ d) × (are_bytes p.1 ≡ true)) same
      (cut_le q.0 q.1 n d cut size bytes)

-- The rest after an exact read is bytes, too.
pub read_exact-bytes :
    (n : ℕ) (d : Bytes) {p : Bytes × Bytes}
    → are_bytes d ≡ true
    → read_exact n d ≡ ok p
    → (p.0 ++ p.1 ≡ d) × (length p.0 ≡ n) × (are_bytes p.1 ≡ true)
read_exact-bytes n d {p} bytes h =
    let (cut, size) = read_exact-eq-ok n d h in
    let (_, back) = bytes_parts p.0 p.1 d cut bytes in (cut, size, back)
