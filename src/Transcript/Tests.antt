-- ===== src/Transcript/Tests.antt =====
-- Runs of the FCC4 reader, and its theorems at a transcript of two turns.
use flop_proof_api.Base.{
  ◌≡◌, refl, true, [], ◌∷◌, none, some, ok, err, value_error, arith, inl, inr, ◌++◌, length,
}
use flop_proof_api.Base.Bytes.{Bytes, to_le, from_le, zeros, same_bytes}
use flop_proof_api.Base.Bytes.Pieces.{are_bytes}
use flop_proof_api.Transcript.{
  VerifiedTurnRecord, Fcc4Transcript, read_exact, read_le, is_zero, validate_leaf_fields,
  read_policy, read_ack, read_turn, read_turns, decode_fcc4_transcript,
}
use flop_proof_api.Transcript.Codec.{write_turn, write_turns, encode_fcc4, encode-decode_fcc4}
use flop_proof_api.Transcript.Encoded.{TurnFits, decode-encode_fcc4}

abbrev pub ones : Bytes
ones = 1 ∷ zeros 31

-- A turn of leaf version 0, without an ack.
abbrev pub plain_turn : VerifiedTurnRecord
plain_turn = record {
  leaf_version = 0;
  turn_index = 7;
  h_in = ones;
  h_out = ones;
  g_n = 5;
  decode_policy_hash = zeros 32;
  h_ids = zeros 32;
  toploc_commitment_hash = zeros 32;
  miner_recv_ms = 0;
  miner_done_ms = 0;
  latency_ms = 0;
  enclave_sig = zeros 64;
  agent_ack = none;
}

-- A turn of leaf version 2, with an ack.
abbrev acked_turn : VerifiedTurnRecord
acked_turn = record plain_turn {
  leaf_version = 2;
  turn_index = 8;
  decode_policy_hash = ones;
  latency_ms = 300;
  agent_ack = some (1, 2, zeros 64);
}

abbrev sample : Fcc4Transcript
sample = record { channel_id = ones; turns = plain_turn ∷ acked_turn ∷ [] }

-- Opening this opens the reader for a test.
transcript : Unit {0}
unfolding to_le from_le zeros same_bytes read_exact read_le is_zero validate_leaf_fields read_policy
    read_ack read_turn read_turns decode_fcc4_transcript write_turn write_turns encode_fcc4
transcript = tt

sample_run :
    (decode_fcc4_transcript (encode_fcc4 sample) ≡ ok sample)
    × (are_bytes (encode_fcc4 sample) ≡ true)
unfolding transcript
sample_run = (refl, refl)

rejections :
    (decode_fcc4_transcript (0x46 ∷ []) ≡ err (value_error "truncated FCC4 transcript"))
    × (decode_fcc4_transcript (encode_fcc4 sample ++ (0 ∷ [])) ≡ err (value_error "TrailingBytes"))
    × (validate_leaf_fields 2 (zeros 32) (zeros 32) (zeros 32) 1
        ≡ err (value_error "LeafFieldsInconsistent"))
unfolding transcript
rejections = (refl, refl, refl)

encode-decode_fcc4_example : encode_fcc4 sample ≡ encode_fcc4 sample
encode-decode_fcc4_example =
    encode-decode_fcc4 (encode_fcc4 sample) sample sample_run.1 sample_run.0

plain_fits : TurnFits plain_turn
unfolding transcript
plain_fits = record {
  index_fits = omega arith;
  h_in_fits = refl;
  h_out_fits = refl;
  g_n_fits = omega arith;
  policy_fits = refl;
  ids_fits = refl;
  toploc_fits = refl;
  recv_fits = omega arith;
  done_fits = omega arith;
  latency_fits = omega arith;
  sig_fits = refl;
  ack_fits = tt;
  version_fits = inl (omega arith, refl, refl, refl);
}

acked_fits : TurnFits acked_turn
unfolding transcript
acked_fits = record {
  index_fits = omega arith;
  h_in_fits = refl;
  h_out_fits = refl;
  g_n_fits = omega arith;
  policy_fits = refl;
  ids_fits = refl;
  toploc_fits = refl;
  recv_fits = omega arith;
  done_fits = omega arith;
  latency_fits = omega arith;
  sig_fits = refl;
  ack_fits = (omega arith, omega arith, refl);
  version_fits = inr (inl (refl, refl, refl, refl));
}

channel_length : length ones ≡ 32
unfolding zeros
channel_length = refl

decode-encode_fcc4_example : decode_fcc4_transcript (encode_fcc4 sample) ≡ ok sample
decode-encode_fcc4_example =
    decode-encode_fcc4 sample channel_length (omega arith) (plain_fits, (acked_fits, tt))
