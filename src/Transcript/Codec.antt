-- ===== src/Transcript/Codec.antt =====
-- The FCC4 wire format, and the reader of app/compute_channel.py as its inverse.
use Prim.Native.String.{String}
use flop_proof_api.Base.{
  ℕ, zero, suc, ◌≡◌, refl, sym, ap, true, false, not, ◌++◌, List, [], ◌∷◌, Option, none, some,
  length, leb, ltb, ◌==◌, if◌then◌else◌, arith, Result, ok, >>=-eq-ok, raise_if-eq-ok, ok_inj,
  ◌>>=◌, subst, inl, inr, ◌⊎◌,
}
use flop_proof_api.Base.Bytes.{Bytes, to_le, same_bytes, same_bytes_iff}
use flop_proof_api.Base.Bytes.Pieces.{are_bytes}
use flop_proof_api.Transcript.{
  VerifiedTurnRecord, Fcc4Transcript, fcc4_magic, max_turns, read_exact, read_le, read_policy,
  read_ack, is_zero, validate_leaf_fields, require_flag, read_turn, read_turns,
  decode_fcc4_transcript,
}
use flop_proof_api.Transcript.Reads.{read_le-eq-ok, read_exact-bytes}

-- The wire format, written in front of `rest`: a flag tells whether the policy hash is there.
abbrev pub policy_flag : Bytes → ℕ
policy_flag hash = if is_zero hash then 0 else 1

abbrev pub write_policy : Bytes → Bytes → Bytes
write_policy hash rest = if is_zero hash then rest else hash ++ rest

abbrev pub ack_flag : Option (ℕ × ℕ × Bytes) → ℕ
ack_flag none = 0
ack_flag (some _) = 1

abbrev pub write_ack : Option (ℕ × ℕ × Bytes) → Bytes → Bytes
write_ack none rest = rest
write_ack (some (send_ms, receive_ms, agent_sig)) rest =
    to_le 8 send_ms ++ (to_le 8 receive_ms ++ (agent_sig ++ rest))

unfoldable pub write_turn : VerifiedTurnRecord → Bytes → Bytes
write_turn turn rest =
    to_le 1 turn.leaf_version
    ++ (to_le 4 turn.turn_index
        ++ (turn.h_in
            ++ (turn.h_out
                ++ (to_le 16 turn.g_n
                    ++ (to_le 1 (policy_flag turn.decode_policy_hash)
                        ++ write_policy turn.decode_policy_hash (
                            turn.h_ids
                            ++ (turn.toploc_commitment_hash
                                ++ (to_le 8 turn.miner_recv_ms
                                    ++ (to_le 8 turn.miner_done_ms
                                        ++ (to_le 8 turn.latency_ms
                                            ++ (turn.enclave_sig
                                                ++ (to_le 1 (ack_flag turn.agent_ack)
                                                    ++ write_ack turn.agent_ack rest))))))))))))

unfoldable pub write_turns : List VerifiedTurnRecord → Bytes → Bytes
write_turns [] rest = rest
write_turns (turn ∷ turns) rest = write_turn turn (write_turns turns rest)

unfoldable pub encode_fcc4 : Fcc4Transcript → Bytes
encode_fcc4 transcript =
    fcc4_magic
    ++ (transcript.channel_id
        ++ (to_le 4 (length transcript.turns) ++ write_turns transcript.turns []))

valid_flag :
    (leaf : ℕ) (hash ids toploc : Bytes) (flag : ℕ)
    → validate_leaf_fields leaf hash ids toploc flag ≡ ok tt
    → ((flag ≡ 0) × (is_zero hash ≡ true)) ⊎ ((flag ≡ 1) × (is_zero hash ≡ false))
unfolding validate_leaf_fields
valid_flag leaf hash ids toploc flag h = ground arith

policy_cut :
    (flag : ℕ) (d : Bytes) (leaf : ℕ) (ids toploc : Bytes) (p : Bytes × Bytes)
    → are_bytes d ≡ true
    → read_policy flag d ≡ ok p
    → validate_leaf_fields leaf p.0 ids toploc flag ≡ ok tt
    → (flag ≡ policy_flag p.0) × (write_policy p.0 p.1 ≡ d)
unfolding read_policy
policy_cut zero d leaf ids toploc p bytes h v = elim (valid_flag leaf p.0 ids toploc 0 v) [
  | inl (_, z) ↦ rw z (refl, sym (ap (λ q. q.1) (ok_inj h)))
  | inr (one, _) ↦ ground arith
]
policy_cut (suc n) d leaf ids toploc p bytes h v = elim (valid_flag leaf p.0 ids toploc (suc n) v) [
  | inl (zeroed, _) ↦ ground arith
  | inr (one, z) ↦ let (cut, _, _) = read_exact-bytes 32 d bytes h in rw z (one, cut)
]

policy_back :
    (flag : ℕ) (d : Bytes) (p : Bytes × Bytes)
    → are_bytes d ≡ true
    → read_policy flag d ≡ ok p
    → are_bytes p.1 ≡ true
unfolding read_policy
policy_back zero d p bytes h = rw (← ap (λ q. q.1) (ok_inj h)) bytes
policy_back (suc n) d p bytes h = let (_, _, back) = read_exact-bytes 32 d bytes h in back

ack_cut :
    (flag : ℕ) (d : Bytes) (p : Option (ℕ × ℕ × Bytes) × Bytes)
    → are_bytes d ≡ true
    → leb flag 1 ≡ true
    → read_ack flag d ≡ ok p
    → (flag ≡ ack_flag p.0) × (write_ack p.0 p.1 ≡ d) × (are_bytes p.1 ≡ true)
unfolding read_ack
ack_cut zero d p bytes f h =
    subst (λ p. (zero ≡ ack_flag p.0) × (write_ack p.0 p.1 ≡ d) × (are_bytes p.1 ≡ true)) (ok_inj h)
      (refl, refl, bytes)
ack_cut (suc n) d p bytes f h =
    let one : suc n ≡ 1 = ground arith in
    let (q, e, k) = >>=-eq-ok (read_le 8 d) _ h in
    let (cut, b) = read_le-eq-ok 8 d bytes e in
    let (q', e', k') = >>=-eq-ok (read_le 8 q.1) _ k in
    let (cut', b') = read_le-eq-ok 8 q.1 b e' in
    let (s, e'', k'') = >>=-eq-ok (read_exact 64 q'.1) _ k' in
    let (cut'', _, b'') = read_exact-bytes 64 q'.1 b' e'' in
    subst (λ p. (suc n ≡ ack_flag p.0) × (write_ack p.0 p.1 ≡ d) × (are_bytes p.1 ≡ true))
      (ok_inj k'') (one, rw (cut'', cut', cut) refl, b'')

flag_le :
    (flag : ℕ) (name : String) {u : Unit {0}} → require_flag flag name ≡ ok u → leb flag 1 ≡ true
flag_le flag name h = ground arith

module _ {ℓ κ} {C : Type ℓ} {Q : Type κ} where
  after_le :
      (n : ℕ) (d : Bytes) (f : ℕ × Bytes → Result C) {c : C}
      → are_bytes d ≡ true
      → (read_le n d >>= f) ≡ ok c
      → ((v : ℕ) (r : Bytes) → to_le n v ++ r ≡ d → are_bytes r ≡ true → f (v, r) ≡ ok c → Q)
      → Q
  after_le n d f b h k =
      let (p, e, g) = >>=-eq-ok (read_le n d) f h in
      let (cut, back) = read_le-eq-ok n d b e in k p.0 p.1 cut back g

  after_exact :
      (n : ℕ) (d : Bytes) (f : Bytes × Bytes → Result C) {c : C}
      → are_bytes d ≡ true
      → (read_exact n d >>= f) ≡ ok c
      → ((v r : Bytes) → v ++ r ≡ d → are_bytes r ≡ true → f (v, r) ≡ ok c → Q)
      → Q
  after_exact n d f b h k =
      let (p, e, g) = >>=-eq-ok (read_exact n d) f h in
      let (cut, _, back) = read_exact-bytes n d b e in k p.0 p.1 cut back g

  after_read {ι} :
      {A : Type ι} (m : Result A) (f : A → Result C) {c : C}
      → (m >>= f) ≡ ok c
      → ((a : A) → m ≡ ok a → f a ≡ ok c → Q)
      → Q
  after_read m f h k = let (a, e, g) = >>=-eq-ok m f h in k a e g

-- A turn that the reader gives is written as the bytes that it took.
write-read_turn :
    (d : Bytes) (p : VerifiedTurnRecord × Bytes)
    → are_bytes d ≡ true
    → read_turn d ≡ ok p
    → (write_turn p.0 p.1 ≡ d) × (are_bytes p.1 ≡ true)
unfolding read_turn write_turn
write-read_turn d p b h = after_le 1 d _ b h λ leaf d1 c1 b1 h1.
    after_le 4 d1 _ b1 h1 λ index d2 c2 b2 h2. after_exact 32 d2 _ b2 h2 λ h_in d3 c3 b3 h3.
      after_exact 32 d3 _ b3 h3 λ h_out d4 c4 b4 h4. after_le 16 d4 _ b4 h4 λ g_n d5 c5 b5 h5.
        after_le 1 d5 _ b5 h5 λ flag d6 c6 b6 h6.
          after_read (require_flag flag "has_policy") _ h6 λ _ _ g6.
            after_read (read_policy flag d6) _ g6 λ policy e7 h7.
              after_exact 32 policy.1 _ (policy_back flag d6 policy b6 e7) h7 λ ids d8 c8 b8 h8.
                after_exact 32 d8 _ b8 h8 λ toploc d9 c9 b9 h9.
                  after_le 8 d9 _ b9 h9 λ recv d10 c10 b10 h10.
                    after_le 8 d10 _ b10 h10 λ done d11 c11 b11 h11.
                      after_le 8 d11 _ b11 h11 λ latency d12 c12 b12 h12.
                        after_exact 64 d12 _ b12 h12 λ sig d13 c13 b13 h13.
                          after_read (validate_leaf_fields leaf policy.0 ids toploc flag) _ h13
                            λ _ valid h14. after_le 1 d13 _ b13 h14 λ acked d15 c15 b15 h15.
                              after_read (require_flag acked "has_ack") _ h15 λ _ flagged h16.
                                after_read (read_ack acked d15) _ h16 λ ack e17 h17.
                                  (let (f7, c7) =
                                      policy_cut flag d6 leaf ids toploc policy b6 e7 valid in
                                    let (f17, c17, b17) =
                                      ack_cut acked d15 ack b15 (flag_le acked "has_ack" flagged)
                                        e17 in
                                    subst (λ q. (write_turn q.0 q.1 ≡ d) × (are_bytes q.1 ≡ true))
                                      (ok_inj h17)
                                      (
                                        rw
                                            (
                                              ← f7,
                                              ← f17,
                                              c17,
                                              c15,
                                              c13,
                                              c12,
                                              c11,
                                              c10,
                                              c9,
                                              c8,
                                              c7,
                                              c6,
                                              c5,
                                              c4,
                                              c3,
                                              c2,
                                              c1,
                                            )
                                            refl,
                                        b17,
                                      ))

write-read_turns :
    (n : ℕ) (d : Bytes) (p : List VerifiedTurnRecord × Bytes)
    → are_bytes d ≡ true
    → read_turns n d ≡ ok p
    → (length p.0 ≡ n) × (write_turns p.0 p.1 ≡ d)
unfolding read_turns write_turns
write-read_turns zero d p b h =
    subst (λ p. (length p.0 ≡ 0) × (write_turns p.0 p.1 ≡ d)) (ok_inj h) (refl, refl)
write-read_turns (suc n) d p b h = after_read (read_turn d) _ h λ turn e h1.
    after_read (read_turns n turn.1) _ h1 λ turns e2 h2.
      (let (cut, back) = write-read_turn d turn b e in
        let (size, cuts) = write-read_turns n turn.1 turns back e2 in
        subst (λ p. (length p.0 ≡ suc n) × (write_turns p.0 p.1 ≡ d)) (ok_inj h2)
          (ap suc size, rw (cuts, cut) refl))

nothing_left : (d : Bytes) → not (length d == 0) ≡ false → d ≡ []
nothing_left [] h = refl
nothing_left (b ∷ d) h = ground arith

-- A byte string that the reader accepts is the encoding of the transcript that it gives: no two
-- byte strings are read as one transcript.
pub encode-decode_fcc4 :
    (bytes : Bytes) (transcript : Fcc4Transcript)
    → are_bytes bytes ≡ true
    → decode_fcc4_transcript bytes ≡ ok transcript
    → encode_fcc4 transcript ≡ bytes
unfolding decode_fcc4_transcript encode_fcc4
encode-decode_fcc4 bytes transcript b h = after_exact 4 bytes _ b h λ magic d1 c1 b1 h1.
    (let (is_magic, g1) = raise_if-eq-ok (not (same_bytes magic fcc4_magic)) _ _ h1 in
      after_exact 32 d1 _ b1 g1 λ channel d2 c2 b2 h2. after_le 4 d2 _ b2 h2 λ count d3 c3 b3 h3.
        (let (_, g3) = raise_if-eq-ok (ltb max_turns count) _ _ h3 in
          after_read (read_turns count d3) _ g3 λ turns e4 h4.
            (let (trailing, g4) = raise_if-eq-ok (not (length turns.1 == 0)) _ _ h4 in
              let (size, cuts) = write-read_turns count d3 turns b3 e4 in
              let cuts' = rw (nothing_left turns.1 trailing) at cuts in
              let magic_eq : magic ≡ fcc4_magic =
                (same_bytes_iff magic fcc4_magic).0 (ground arith) in
              subst (λ t. encode_fcc4 t ≡ bytes) (ok_inj g4)
                (rw (size, cuts', c3, c2) (rw magic_eq at c1)))))
