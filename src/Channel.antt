-- ===== src/Channel.antt =====
-- The compute-channel primitives of app/crypto.py: identifiers, leaves, Merkle paths, receipts.
use Prim.Native.String
use Prim.Native.String.{String}
use flop_proof_api.Base.{
  or_false, ℕ, ◌+◌, ◌-◌, ◌/◌, ◌%◌, ◌^◌, Bool, true, false, not, ◌&&◌, ◌||◌, List, [], ◌∷◌, ◌++◌,
  length, ltb, leb, ◌==◌, if◌then◌else◌, Result, ok, value_error, raise_if, ◌>>=◌, ◌>>◌,
}
use flop_proof_api.Base.Bytes.{Bytes, same_bytes, to_le, to_hex, fromhex}
use flop_proof_api.Base.Strings.{codes}
use flop_proof_api.Host.{Host}
use flop_proof_api.Transcript.{is_zero}

abbrev pub max_u32 : ℕ
max_u32 = 2 ^ 32 - 1

abbrev pub max_u64 : ℕ
max_u64 = 2 ^ 64 - 1

abbrev pub max_u128 : ℕ
max_u128 = 2 ^ 128 - 1

abbrev pub channel_max_merkle_path_len : ℕ
channel_max_merkle_path_len = 64

-- `_h256`, and the loops that require 32 bytes of each value
abbrev pub h256 : Bytes → String → Result (Unit {0})
h256 value name =
    raise_if (not (length value == 32)) (value_error (String.◌++◌ name " must be exactly 32 bytes"))

-- `_sr25519_signature`
abbrev pub sr25519_signature : Bytes → String → Result (Unit {0})
sr25519_signature value name =
    raise_if (not (length value == 64)) (value_error (String.◌++◌ name " must be exactly 64 bytes"))

-- `if not 0 <= value <= limit: raise ValueError`
abbrev pub fits : ℕ → ℕ → String → String → Result (Unit {0})
fits limit value name width =
    raise_if (ltb limit value) (value_error (String.◌++◌ name (String.◌++◌ " must fit in " width)))

-- `_u32_le` and `_u64_le`, before they encode
abbrev pub u32 : ℕ → String → Result (Unit {0})
u32 value name = raise_if (ltb max_u32 value) (value_error (String.◌++◌ name " must be a u32"))

abbrev pub u64 : ℕ → String → Result (Unit {0})
u64 value name = raise_if (ltb max_u64 value) (value_error (String.◌++◌ name " must be a u64"))

module _ (host : Host) where
  unfoldable pub compute_channel_id_v1 : Bytes → Bytes → Bytes → ℕ → Result String
  compute_channel_id_v1 genesis_hash agent miner nonce = do
    h256 genesis_hash "genesis_hash"
    h256 agent "agent"
    h256 miner "miner"
    fits max_u64 nonce "nonce" "u64"
    ok (
        to_hex (
          host.blake2b (
            codes "FLOP/COMPUTE_CHANNEL/ID"
            ++ (1 ∷ (genesis_hash ++ (agent ++ (miner ++ to_le 8 nonce)))))))

  unfoldable pub compute_task_hash_v1 : Bytes → Bytes → ℕ → Bytes → Bytes → Bytes → Result String
  compute_task_hash_v1 genesis_hash agent nonce model_hash payload_hash commit_hash = do
    h256 genesis_hash "genesis_hash"
    h256 agent "agent"
    h256 model_hash "model_hash"
    h256 payload_hash "payload_hash"
    h256 commit_hash "commit_hash"
    fits max_u64 nonce "nonce" "u64"
    ok (
        to_hex (
          host.blake2b (
            codes "FLOP/POUI/TASK"
            ++ (1
                ∷ (genesis_hash
                    ++ (agent
                        ++ (to_le 8 nonce ++ (model_hash ++ (payload_hash ++ commit_hash)))))))))

-- The arguments of `compute_verified_turn_leaf_v0_v1_v2_v3`
pub record Leaf : Type 0 where
  pub leaf_version : ℕ
  pub channel_id : Bytes
  pub turn_index : ℕ
  pub h_in : Bytes
  pub h_out : Bytes
  pub g_n : ℕ
  pub decode_policy_hash : Bytes
  pub h_ids : Bytes
  pub toploc_commitment_hash : Bytes
  pub miner_recv_ms : ℕ
  pub miner_done_ms : ℕ
  pub latency_ms : ℕ

abbrev inconsistent : Bool → String → Result (Unit {0})
inconsistent bad what = raise_if bad (value_error (String.◌++◌ "LeafFieldsInconsistent: " what))

unfoldable pub check_leaf : Leaf → Result (Unit {0})
check_leaf leaf = do
  raise_if (ltb 3 leaf.leaf_version) (value_error "unsupported leaf_version")
  h256 leaf.channel_id "channel_id"
  h256 leaf.h_in "h_in"
  h256 leaf.h_out "h_out"
  h256 leaf.decode_policy_hash "decode_policy_hash"
  h256 leaf.h_ids "h_ids"
  h256 leaf.toploc_commitment_hash "toploc_commitment_hash"
  fits max_u32 leaf.turn_index "turn_index" "u32"
  fits max_u128 leaf.g_n "g_n" "u128"
  fits max_u64 leaf.miner_recv_ms "miner_recv_ms" "u64"
  fits max_u64 leaf.miner_done_ms "miner_done_ms" "u64"
  fits max_u64 leaf.latency_ms "latency_ms" "u64"
  inconsistent (leb leaf.leaf_version 1 && not (is_zero leaf.decode_policy_hash))
      "decode_policy_hash"
  inconsistent
      (leb leaf.leaf_version 2
        && (not (is_zero leaf.h_ids) || not (is_zero leaf.toploc_commitment_hash)))
      "V3 fields"
  inconsistent
      (leaf.leaf_version == 0
        && (not (leaf.miner_recv_ms == 0)
            || not (leaf.miner_done_ms == 0)
            || not (leaf.latency_ms == 0)))
      "timing fields"
  inconsistent
      (leaf.leaf_version == 3
        && (is_zero leaf.decode_policy_hash
            || is_zero leaf.h_ids
            || is_zero leaf.toploc_commitment_hash))
      "V3 bindings"

-- `if cond: preimage += piece`
abbrev pub when : Bool → Bytes → Bytes
when true piece = piece
when false piece = []

unfoldable pub leaf_preimage : Leaf → Bytes
leaf_preimage leaf =
    leaf.channel_id
    ++ (to_le 4 leaf.turn_index
        ++ (leaf.h_in
            ++ (leaf.h_out
                ++ (to_le 16 leaf.g_n
                    ++ (when (leb 2 leaf.leaf_version) leaf.decode_policy_hash
                        ++ (when (leaf.leaf_version == 3)
                              (leaf.h_ids ++ leaf.toploc_commitment_hash)
                            ++ when (leb 1 leaf.leaf_version) (
                                to_le 8 leaf.miner_recv_ms
                                ++ (to_le 8 leaf.miner_done_ms ++ to_le 8 leaf.latency_ms))))))))

same_bool : Bool → Bool → Bool
same_bool true b = b
same_bool false b = not b

module _ (host : Host) where
  unfoldable pub compute_verified_turn_leaf : Leaf → Result String
  compute_verified_turn_leaf leaf = do
    check_leaf leaf
    ok (to_hex (host.blake2b (leaf_preimage leaf)))

  unfoldable pub verify_verified_turn_leaf_signature : Bytes → Bytes → Bytes → Result Bool
  verify_verified_turn_leaf_signature public_key signature leaf_hash = do
    h256 public_key "public_key"
    sr25519_signature signature "signature"
    h256 leaf_hash "leaf_hash"
    ok (or_false (host.sr25519_verify signature leaf_hash public_key))

  unfoldable pub compute_merkle_node : Bytes → Bytes → Result String
  compute_merkle_node left right =
      raise_if (not (length left == 32) || not (length right == 32))
        (value_error "Merkle node inputs must be exactly 32 bytes")
      >> ok (to_hex (host.blake2b (left ++ right)))

  -- The loop of `verify_merkle_path`, from `level` on.
  unfoldable pub climb : ℕ → ℕ → Bytes → List (Bytes × Bool) → Bytes → Result Bool
  unfolding same_bool
  climb turn_index level current [] root = ok (same_bytes current root)
  climb turn_index level current ((sibling, sibling_is_left) ∷ path) root =
      if not (length sibling == 32)
      then ok false
      else if not (same_bool sibling_is_left (turn_index / 2 ^ level % 2 == 1))
      then ok false
      else (do
        node ←
            if sibling_is_left
            then compute_merkle_node sibling current
            else compute_merkle_node current sibling
        next ← fromhex node
        climb turn_index (level + 1) next path root)

  unfoldable pub verify_merkle_path : Bytes → ℕ → List (Bytes × Bool) → Bytes → Result Bool
  unfolding climb
  verify_merkle_path leaf_hash turn_index merkle_path root =
      if not (length leaf_hash == 32) || not (length root == 32)
      then ok false
      else if ltb max_u32 turn_index
      then ok false
      else if ltb channel_max_merkle_path_len (length merkle_path)
      then ok false
      else climb turn_index 0 leaf_hash merkle_path root

unfoldable pub compute_agent_receipt_v1_signable_payload : Bytes → Bytes → ℕ → ℕ → Result Bytes
compute_agent_receipt_v1_signable_payload channel_id final_root aggregate_gn payable = do
  h256 channel_id "channel_id"
  h256 final_root "final_root"
  fits max_u128 aggregate_gn "aggregate_gn" "u128"
  fits max_u128 payable "payable" "u128"
  ok (
      codes "FLOP/COMPUTE_CHANNEL/RECEIPT"
      ++ (1 ∷ (channel_id ++ (final_root ++ (to_le 16 aggregate_gn ++ to_le 16 payable)))))

unfoldable pub turn_ack_message : Bytes → ℕ → Bytes → ℕ → ℕ → Result Bytes
turn_ack_message channel_id turn_index leaf_hash agent_send_ms agent_recv_ms = do
  h256 channel_id "channel_id"
  u32 turn_index "turn_index"
  h256 leaf_hash "leaf_hash"
  u64 agent_send_ms "agent_send_ms"
  u64 agent_recv_ms "agent_recv_ms"
  ok (
      channel_id
      ++ (to_le 4 turn_index ++ (leaf_hash ++ (to_le 8 agent_send_ms ++ to_le 8 agent_recv_ms))))

module _ (host : Host) where
  unfoldable pub verify_agent_receipt_v1 : Bytes → Bytes → Bytes → Bytes → ℕ → ℕ → Result Bool
  verify_agent_receipt_v1 public_key signature channel_id final_root aggregate_gn payable = do
    h256 public_key "public_key"
    sr25519_signature signature "signature"
    h256 channel_id "channel_id"
    h256 final_root "final_root"
    payload ← compute_agent_receipt_v1_signable_payload channel_id final_root aggregate_gn payable
    ok (or_false (host.sr25519_verify signature payload public_key))

  unfoldable pub verify_turn_ack : Bytes → Bytes → ℕ → Bytes → ℕ → ℕ → Bytes → Result Bool
  verify_turn_ack agent_public_key channel_id turn_index leaf_hash agent_send_ms agent_recv_ms
        agent_sig =
      do
        h256 agent_public_key "agent_public_key"
        sr25519_signature agent_sig "agent_sig"
        message ← turn_ack_message channel_id turn_index leaf_hash agent_send_ms agent_recv_ms
        ok (or_false (host.sr25519_verify agent_sig message agent_public_key))
