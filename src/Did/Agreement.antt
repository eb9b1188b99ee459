-- ===== src/Did/Agreement.antt =====
-- The two readers of a did:key in app/crypto.py: the one before signature checks, and the one that
-- the API calls for its 422 answers.
use Prim.Native.String.{String}
use flop_proof_api.Base.{◌≡◌, arith}
use flop_proof_api.Value.{str}
use flop_proof_api.Host.{Host}
use flop_proof_api.Did.{did_key_to_public_key, ed25519_public_key_from_did}

-- On every text both readers of a did:key give the same key, or fail with the same error.
pub did_readers_agree :
    (host : Host) (did : String)
    → ed25519_public_key_from_did host (str did) ≡ did_key_to_public_key host did
unfolding ed25519_public_key_from_did did_key_to_public_key
did_readers_agree host did = ground arith
