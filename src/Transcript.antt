-- ===== src/Transcript.antt =====
-- app/compute_channel.py: the reader of an FCC4 transcript.
pub mod Reads
pub mod Codec
pub mod Tests
pub mod Encoded
use Prim.Native.String
use Prim.Native.String.{String}
use flop_proof_api.Base.{
  ℕ, zero, suc, ◌+◌, ◌-◌, Bool, true, false, not, ◌&&◌, ◌||◌, List, [], ◌∷◌, ◌++◌, Option, none,
  some, length, take, drop, ltb, leb, ◌==◌, if◌then◌else◌, Result, ok, err, value_error, raise_if,
  ◌>>=◌, ◌>>◌,
}
use flop_proof_api.Base.Bytes.{Bytes, same_bytes, from_le, zeros}

pub record VerifiedTurnRecord : Type 0 where
  pub leaf_version : ℕ
  pub turn_index : ℕ
  pub h_in : Bytes
  pub h_out : Bytes
  pub g_n : ℕ
  pub decode_policy_hash : Bytes
  pub h_ids : Bytes
  pub toploc_commitment_hash : Bytes
  pub miner_recv_ms : ℕ
  pub miner_done_ms : ℕ
  pub latency_ms : ℕ
  pub enclave_sig : Bytes
  pub agent_ack : Option (ℕ × ℕ × Bytes)

pub record Fcc4Transcript : Type 0 where
  pub channel_id : Bytes
  pub turns : List VerifiedTurnRecord

-- b"FCC4"
abbrev pub fcc4_magic : Bytes
fcc4_magic = 0x46 ∷ 0x43 ∷ 0x43 ∷ 0x34 ∷ []

abbrev pub max_turns : ℕ
max_turns = 1024

-- `_read_exact`: the bytes from the offset on come in, the ones after `end` go out.
unfoldable pub read_exact : ℕ → Bytes → Result (Bytes × Bytes)
read_exact size bytes =
    if ltb (length bytes) size
    then err (value_error "truncated FCC4 transcript")
    else ok (take size bytes, drop size bytes)

-- `_read_u8`, `_read_u32_le`, `_read_u64_le` and `_read_u128_le`, by their number of bytes
unfoldable pub read_le : ℕ → Bytes → Result (ℕ × Bytes)
read_le size bytes = do (raw, rest) ← read_exact size bytes; ok (from_le raw, rest)

-- `_require_flag`
abbrev pub require_flag : ℕ → String → Result (Unit {0})
require_flag value name =
    raise_if (not (leb value 1)) (value_error (String.◌++◌ name " must be exactly 0 or 1"))

unfoldable pub is_zero : Bytes → Bool
is_zero hash = same_bytes hash (zeros 32)

-- `_validate_leaf_fields`
unfoldable pub validate_leaf_fields : ℕ → Bytes → Bytes → Bytes → ℕ → Result (Unit {0})
validate_leaf_fields leaf_version decode_policy_hash h_ids toploc_commitment_hash has_policy =
    raise_if (ltb 3 leaf_version) (value_error "UnsupportedLeafVersion")
    >> require_flag has_policy "has_policy"
    >> (if leb leaf_version 1
        then raise_if (not (has_policy == 0) || not (is_zero decode_policy_hash))
            (value_error "LeafFieldsInconsistent")
          >> raise_if (not (is_zero h_ids) || not (is_zero toploc_commitment_hash))
              (value_error "LeafFieldsInconsistent")
        else if leaf_version == 2
        then raise_if (not (has_policy == 1) || is_zero decode_policy_hash)
            (value_error "LeafFieldsInconsistent")
          >> raise_if (not (is_zero h_ids) || not (is_zero toploc_commitment_hash))
              (value_error "LeafFieldsInconsistent")
        else raise_if (not (has_policy == 1) || is_zero decode_policy_hash)
            (value_error "LeafFieldsInconsistent")
          >> raise_if (is_zero h_ids || is_zero toploc_commitment_hash)
              (value_error "LeafFieldsInconsistent"))

-- `if has_policy: ... else: ...`
unfoldable pub read_policy : ℕ → Bytes → Result (Bytes × Bytes)
read_policy zero bytes = ok (zeros 32, bytes)
read_policy (suc _) bytes = read_exact 32 bytes

-- `if has_ack: ...`
unfoldable pub read_ack : ℕ → Bytes → Result (Option (ℕ × ℕ × Bytes) × Bytes)
read_ack zero bytes = ok (none, bytes)
read_ack (suc _) bytes = do
  (send_ms, bytes) ← read_le 8 bytes
  (receive_ms, bytes) ← read_le 8 bytes
  (agent_sig, bytes) ← read_exact 64 bytes
  ok (some (send_ms, receive_ms, agent_sig), bytes)

-- The body of the loop.
unfoldable pub read_turn : Bytes → Result (VerifiedTurnRecord × Bytes)
read_turn bytes = do
  (leaf_version, bytes) ← read_le 1 bytes
  (turn_index, bytes) ← read_le 4 bytes
  (h_in, bytes) ← read_exact 32 bytes
  (h_out, bytes) ← read_exact 32 bytes
  (g_n, bytes) ← read_le 16 bytes
  (has_policy, bytes) ← read_le 1 bytes
  require_flag has_policy "has_policy"
  (decode_policy_hash, bytes) ← read_policy has_policy bytes
  (h_ids, bytes) ← read_exact 32 bytes
  (toploc_commitment_hash, bytes) ← read_exact 32 bytes
  (miner_recv_ms, bytes) ← read_le 8 bytes
  (miner_done_ms, bytes) ← read_le 8 bytes
  (latency_ms, bytes) ← read_le 8 bytes
  (enclave_sig, bytes) ← read_exact 64 bytes
  validate_leaf_fields leaf_version decode_policy_hash h_ids toploc_commitment_hash has_policy
  (has_ack, bytes) ← read_le 1 bytes
  require_flag has_ack "has_ack"
  (agent_ack, bytes) ← read_ack has_ack bytes
  ok (
    record {
      leaf_version = leaf_version;
      turn_index = turn_index;
      h_in = h_in;
      h_out = h_out;
      g_n = g_n;
      decode_policy_hash = decode_policy_hash;
      h_ids = h_ids;
      toploc_commitment_hash = toploc_commitment_hash;
      miner_recv_ms = miner_recv_ms;
      miner_done_ms = miner_done_ms;
      latency_ms = latency_ms;
      enclave_sig = enclave_sig;
      agent_ack = agent_ack;
    },
    bytes,
  )

-- `for _ in range(turn_count): ...`
unfoldable pub read_turns : ℕ → Bytes → Result (List VerifiedTurnRecord × Bytes)
read_turns zero bytes = ok ([], bytes)
read_turns (suc turn_count) bytes = do
  (turn, bytes) ← read_turn bytes
  (turns, bytes) ← read_turns turn_count bytes
  ok (turn ∷ turns, bytes)

unfoldable pub decode_fcc4_transcript : Bytes → Result Fcc4Transcript
decode_fcc4_transcript bytes = do
  (magic, bytes) ← read_exact 4 bytes
  raise_if (not (same_bytes magic fcc4_magic)) (value_error "UnknownFCCVersion")
  (channel_id, bytes) ← read_exact 32 bytes
  (turn_count, bytes) ← read_le 4 bytes
  raise_if (ltb max_turns turn_count) (value_error "TooManyTurns")
  (turns, bytes) ← read_turns turn_count bytes
  raise_if (not (length bytes == 0)) (value_error "TrailingBytes")
  ok (record { channel_id = channel_id; turns = turns })
