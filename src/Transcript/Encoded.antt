-- ===== src/Transcript/Encoded.antt =====
-- The FCC4 reader of app/compute_channel.py on an encoded transcript.
use flop_proof_api.Base.{
  ℕ, ◌^◌, ◌≤◌, ◌<◌, ◌≡◌, refl, sym, ap, true, false, ◌++◌, List, [], ◌∷◌, Option, none, some, All,
  length, leb, ltb, arith, ok, Bool-cases, ◌⊎◌, inl, inr,
}
use flop_proof_api.Base.Bytes.{Bytes, to_le, zeros, same_bytes, same_bytes_iff}
use flop_proof_api.Transcript.{
  VerifiedTurnRecord, Fcc4Transcript, fcc4_magic, max_turns, read_le, read_policy, read_ack,
  is_zero, validate_leaf_fields, read_turn, read_turns, decode_fcc4_transcript,
}
use flop_proof_api.Transcript.Reads.{read_exact-append, read_le-append}
use flop_proof_api.Transcript.Codec.{
  policy_flag, write_policy, ack_flag, write_ack, write_turn, write_turns, encode_fcc4,
}

abbrev AckFits : Option (ℕ × ℕ × Bytes) → Type 0
AckFits none = Unit
AckFits (some (send_ms, receive_ms, agent_sig)) =
    (send_ms < 256 ^ 8) × (receive_ms < 256 ^ 8) × (length agent_sig ≡ 64)

-- The widths of the fields of a turn, and the fields that its leaf version has.
pub record TurnFits (turn : VerifiedTurnRecord) : Type 0 where
  pub index_fits : turn.turn_index < 256 ^ 4
  pub h_in_fits : length turn.h_in ≡ 32
  pub h_out_fits : length turn.h_out ≡ 32
  pub g_n_fits : turn.g_n < 256 ^ 16
  pub policy_fits : length turn.decode_policy_hash ≡ 32
  pub ids_fits : length turn.h_ids ≡ 32
  pub toploc_fits : length turn.toploc_commitment_hash ≡ 32
  pub recv_fits : turn.miner_recv_ms < 256 ^ 8
  pub done_fits : turn.miner_done_ms < 256 ^ 8
  pub latency_fits : turn.latency_ms < 256 ^ 8
  pub sig_fits : length turn.enclave_sig ≡ 64
  pub ack_fits : AckFits turn.agent_ack
  -- Version 0 and 1 have neither a policy nor the last two hashes, 2 has a policy, 3 has all.
  pub version_fits :
      ((turn.leaf_version ≤ 1)
        × (is_zero turn.decode_policy_hash ≡ true)
        × (is_zero turn.h_ids ≡ true)
        × (is_zero turn.toploc_commitment_hash ≡ true))
      ⊎ (((turn.leaf_version ≡ 2)
            × (is_zero turn.decode_policy_hash ≡ false)
            × (is_zero turn.h_ids ≡ true)
            × (is_zero turn.toploc_commitment_hash ≡ true))
          ⊎ ((turn.leaf_version ≡ 3)
              × (is_zero turn.decode_policy_hash ≡ false)
              × (is_zero turn.h_ids ≡ false)
              × (is_zero turn.toploc_commitment_hash ≡ false)))

is_zero-eq : (hash : Bytes) → is_zero hash ≡ true → hash ≡ zeros 32
unfolding is_zero
is_zero-eq hash h = (same_bytes_iff hash (zeros 32)).0 h

flag_ok : (hash : Bytes) → leb (policy_flag hash) 1 ≡ true
flag_ok hash = ground arith

ack_flag_ok : (ack : Option (ℕ × ℕ × Bytes)) → leb (ack_flag ack) 1 ≡ true
ack_flag_ok ack = ground arith

policy_read :
    (hash rest : Bytes)
    → length hash ≡ 32
    → read_policy (policy_flag hash) (write_policy hash rest) ≡ ok (hash, rest)
unfolding read_policy
policy_read hash rest h = elim (Bool-cases (is_zero hash)) [
  | inl z ↦ rw z (ap (λ x. ok (x, rest)) (sym (is_zero-eq hash z)))
  | inr z ↦ rw z (read_exact-append 32 hash rest h)
]

ack_read :
    (ack : Option (ℕ × ℕ × Bytes)) (rest : Bytes)
    → AckFits ack
    → read_ack (ack_flag ack) (write_ack ack rest) ≡ ok (ack, rest)
unfolding read_ack
ack_read none rest h = refl
ack_read (some (s, r, g)) rest (hs, hr, hg) =
    rw (read_le-append 8 s _ hs, read_le-append 8 r _ hr, read_exact-append 64 g rest hg) refl

flag_read :
    (hash rest : Bytes)
    → read_le 1 (to_le 1 (policy_flag hash) ++ rest) ≡ ok (policy_flag hash, rest)
flag_read hash rest = read_le-append 1 (policy_flag hash) rest (ground arith)

ack_flag_read :
    (ack : Option (ℕ × ℕ × Bytes)) (rest : Bytes)
    → read_le 1 (to_le 1 (ack_flag ack) ++ rest) ≡ ok (ack_flag ack, rest)
ack_flag_read ack rest = read_le-append 1 (ack_flag ack) rest (ground arith)

fields_valid :
    (turn : VerifiedTurnRecord)
    → TurnFits turn
    → (validate_leaf_fields turn.leaf_version turn.decode_policy_hash turn.h_ids
          turn.toploc_commitment_hash
          (policy_flag turn.decode_policy_hash)
        ≡ ok tt)
      × (turn.leaf_version < 256 ^ 1)
unfolding validate_leaf_fields
fields_valid turn fits = (ground (arith, fits.version_fits), ground (arith, fits.version_fits))

read_turn-write_turn :
    (turn : VerifiedTurnRecord) (rest : Bytes)
    → TurnFits turn
    → read_turn (write_turn turn rest) ≡ ok (turn, rest)
unfolding read_turn write_turn
read_turn-write_turn turn rest fits =
    let (valid, version) = fields_valid turn fits in
    rw
      (
        read_le-append 1 turn.leaf_version _ version,
        read_le-append 4 turn.turn_index _ fits.index_fits,
        read_exact-append 32 turn.h_in _ fits.h_in_fits,
        read_exact-append 32 turn.h_out _ fits.h_out_fits,
        read_le-append 16 turn.g_n _ fits.g_n_fits,
        flag_read turn.decode_policy_hash _,
        flag_ok turn.decode_policy_hash,
        policy_read turn.decode_policy_hash _ fits.policy_fits,
        read_exact-append 32 turn.h_ids _ fits.ids_fits,
        read_exact-append 32 turn.toploc_commitment_hash _ fits.toploc_fits,
        read_le-append 8 turn.miner_recv_ms _ fits.recv_fits,
        read_le-append 8 turn.miner_done_ms _ fits.done_fits,
        read_le-append 8 turn.latency_ms _ fits.latency_fits,
        read_exact-append 64 turn.enclave_sig _ fits.sig_fits,
        valid,
        ack_flag_read turn.agent_ack _,
        ack_flag_ok turn.agent_ack,
        ack_read turn.agent_ack _ fits.ack_fits,
      )
      refl

read_turns-write_turns :
    (turns : List VerifiedTurnRecord) (rest : Bytes)
    → All TurnFits turns
    → read_turns (length turns) (write_turns turns rest) ≡ ok (turns, rest)
unfolding read_turns write_turns
read_turns-write_turns [] rest fits = refl
read_turns-write_turns (turn ∷ turns) rest (first, later) =
    rw
      (
        read_turn-write_turn turn (write_turns turns rest) first,
        read_turns-write_turns turns rest later,
      )
      refl

-- A transcript that keeps the widths of the wire format, with fields as its leaf versions have
-- them and at most 1024 turns, is read back from its encoding as it is.
pub decode-encode_fcc4 :
    (transcript : Fcc4Transcript)
    → length transcript.channel_id ≡ 32
    → length transcript.turns ≤ max_turns
    → All TurnFits transcript.turns
    → decode_fcc4_transcript (encode_fcc4 transcript) ≡ ok transcript
unfolding decode_fcc4_transcript encode_fcc4 same_bytes
decode-encode_fcc4 transcript channel few fits =
    let counted : length transcript.turns < 256 ^ 4 = omega arith in
    let not_many : ltb max_turns (length transcript.turns) ≡ false = ground arith in
    rw
      (
        read_exact-append 4 fcc4_magic _ refl,
        read_exact-append 32 transcript.channel_id _ channel,
        read_le-append 4 (length transcript.turns) _ counted,
        not_many,
        read_turns-write_turns transcript.turns [] fits,
      )
      refl
