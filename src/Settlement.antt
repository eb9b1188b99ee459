-- ===== src/Settlement.antt =====
-- app/compute_channel.py: turn proofs, the verified work of a channel, and its receipt.
pub mod Work
mod Tests
use Prim.Native.String.{String}
use flop_proof_api.Base.{
  ℕ, zero, suc, ◌+◌, ◌-◌, Bool, true, false, not, ◌&&◌, ◌||◌, List, [], ◌∷◌, Option, none, some,
  all, length, ltb, leb, ◌==◌, if◌then◌else◌, Result, ok, err, value_error, raise_if, ◌>>=◌, ◌>>◌,
}
use flop_proof_api.Base.Bytes.{Bytes, same_bytes, fromhex}
use flop_proof_api.Host.{Host}
use flop_proof_api.Transcript.{VerifiedTurnRecord, max_turns, is_zero}
use flop_proof_api.Channel.{
  Leaf, max_u32, max_u128, channel_max_merkle_path_len, compute_verified_turn_leaf,
  verify_verified_turn_leaf_signature, verify_merkle_path, verify_agent_receipt_v1,
}

-- One item of `turn_proofs`.
pub record TurnProof : Type 0 where
  pub merkle_index : ℕ
  pub turn : VerifiedTurnRecord
  pub merkle_path : List (Bytes × Bool)

abbrev policy_length_ok : Option Bytes → Bool
policy_length_ok none = true
policy_length_ok (some hash) = length hash == 32

abbrev is_some {ℓ} : {A : Type ℓ} → Option A → Bool
is_some none = false
is_some (some a) = true

abbrev policy_mismatch : Bytes → Option Bytes → Bool
policy_mismatch hash none = false
policy_mismatch hash (some expected) = not (same_bytes hash expected)

abbrev pub leaf_of : Bytes → VerifiedTurnRecord → Leaf
leaf_of channel_id turn = record {
  leaf_version = turn.leaf_version;
  channel_id = channel_id;
  turn_index = turn.turn_index;
  h_in = turn.h_in;
  h_out = turn.h_out;
  g_n = turn.g_n;
  decode_policy_hash = turn.decode_policy_hash;
  h_ids = turn.h_ids;
  toploc_commitment_hash = turn.toploc_commitment_hash;
  miner_recv_ms = turn.miner_recv_ms;
  miner_done_ms = turn.miner_done_ms;
  latency_ms = turn.latency_ms;
}

-- The checks of a turn's policy against its leaf version.
unfoldable pub check_policy : VerifiedTurnRecord → Option Bytes → Result (Unit {0})
check_policy turn expected_decode_policy_hash =
    if leb turn.leaf_version 1
    then raise_if (not (is_zero turn.decode_policy_hash)) (value_error "LeafFieldsInconsistent")
      >> raise_if (is_some expected_decode_policy_hash) (value_error "UnsupportedLeafVersion")
    else raise_if (is_zero turn.decode_policy_hash) (value_error "LeafFieldsInconsistent")
      >> raise_if (policy_mismatch turn.decode_policy_hash expected_decode_policy_hash)
          (value_error "DecodePolicyMismatch")

unfoldable pub has_index : List ℕ → ℕ → Bool
has_index [] i = false
has_index (j ∷ seen) i = (j == i) || has_index seen i

module _ (host : Host) (channel_id : Bytes) (expected_root : Bytes) (enclave_public_key : Bytes)
    (expected_decode_policy_hash : Option Bytes) where
  unfoldable pub verify_turn_proof : TurnProof → Result Bytes
  verify_turn_proof proof = do
    let turn = proof.turn
    raise_if (not (length channel_id == 32)) (value_error "InvalidChannelID")
    raise_if (not (length expected_root == 32)) (value_error "InvalidRoot")
    raise_if (not (length enclave_public_key == 32)) (value_error "InvalidEnclavePublicKey")
    raise_if (not (length turn.enclave_sig == 64)) (value_error "InvalidEnclaveSignature")
    raise_if (not (policy_length_ok expected_decode_policy_hash))
        (value_error "InvalidDecodePolicyHash")
    raise_if (ltb 3 turn.leaf_version) (value_error "UnsupportedLeafVersion")
    check_policy turn expected_decode_policy_hash
    raise_if (turn.leaf_version == 3 && is_zero turn.h_ids) (value_error "LeafFieldsInconsistent")
    leaf_hex ← compute_verified_turn_leaf host (leaf_of channel_id turn)
    leaf_hash ← fromhex leaf_hex
    signed ← verify_verified_turn_leaf_signature host enclave_public_key turn.enclave_sig leaf_hash
    raise_if (not signed) (value_error "InvalidEnclaveSignature")
    raise_if (ltb channel_max_merkle_path_len (length proof.merkle_path))
        (value_error "MerklePathTooLong")
    raise_if (not (all (λ item. length item.0 == 32) proof.merkle_path))
        (value_error "InvalidMerkleProof")
    raise_if (ltb max_u32 proof.merkle_index) (value_error "InvalidMerkleProof")
    member ← verify_merkle_path host leaf_hash proof.merkle_index proof.merkle_path expected_root
    raise_if (not member) (value_error "LeafNotInRoot")
    ok leaf_hash

  -- The loop, with what it has seen and the sum so far.
  unfoldable pub settle : List ℕ → List ℕ → ℕ → List TurnProof → Result ℕ
  settle seen_merkle_indices seen_turn_indices total_gn [] = ok total_gn
  settle seen_merkle_indices seen_turn_indices total_gn (proof ∷ proofs) = do
    raise_if (not (ltb proof.merkle_index max_turns)) (value_error "OutOfRangeMerkleIndex")
    raise_if (has_index seen_merkle_indices proof.merkle_index) (value_error "DuplicateMerkleIndex")
    raise_if (ltb max_u32 proof.turn.turn_index) (value_error "OutOfRangeTurnIndex")
    raise_if (has_index seen_turn_indices proof.turn.turn_index)
        (value_error "DuplicateVerifiedTurn")
    raise_if (ltb max_u128 proof.turn.g_n) (value_error "InvalidGn")
    _ ← verify_turn_proof proof
    raise_if (ltb (max_u128 - proof.turn.g_n) total_gn) (value_error "AggregateGnOverflow")
    settle (proof.merkle_index ∷ seen_merkle_indices) (proof.turn.turn_index ∷ seen_turn_indices)
        (total_gn + proof.turn.g_n) proofs

  unfoldable pub verified_work_from_turns : ℕ → List TurnProof → Result ℕ
  verified_work_from_turns aggregate_gn turn_proofs = do
    raise_if (not (length channel_id == 32)) (value_error "InvalidChannelID")
    raise_if (not (length expected_root == 32)) (value_error "InvalidRoot")
    raise_if (ltb max_u128 aggregate_gn) (value_error "InvalidAggregateGn")
    raise_if (ltb max_turns (length turn_proofs)) (value_error "TooManySettlementTurns")
    total_gn ← settle [] [] 0 turn_proofs
    raise_if (not (total_gn == aggregate_gn)) (value_error "AggregateGnMismatch")
    ok total_gn

  unfoldable pub verify_receipt : ℕ → ℕ → Bytes → Bytes → List TurnProof → Result ℕ
  verify_receipt aggregate_gn payable agent_public_key agent_receipt_sig turn_proofs = do
    raise_if (not (length channel_id == 32)) (value_error "InvalidChannelID")
    raise_if (not (length expected_root == 32)) (value_error "InvalidRoot")
    raise_if (ltb max_u128 aggregate_gn) (value_error "InvalidAggregateGn")
    raise_if (ltb max_u128 payable) (value_error "InvalidPayable")
    raise_if (not (length agent_public_key == 32)) (value_error "InvalidAgentPublicKey")
    raise_if (not (length agent_receipt_sig == 64)) (value_error "InvalidReceiptSignature")
    signed ←
        verify_agent_receipt_v1 host agent_public_key agent_receipt_sig channel_id expected_root
          aggregate_gn payable
    raise_if (not signed) (value_error "BadReceiptSignature")
    verified_work_from_turns aggregate_gn turn_proofs
