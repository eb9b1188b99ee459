-- ===== src/Host.antt =====
-- What the program takes from the packages hashlib, base58, cryptography and sr25519, and the text
-- that Python gives a list or an object.
use Prim.Native.String.{String}
use flop_proof_api.Base.{Bool, Result}
use flop_proof_api.Base.Bytes.{Bytes}
use flop_proof_api.Value.{Value}

pub record Host : Type 0 where
  -- `hashlib.sha256(data).digest()`
  pub sha256 : Bytes → Bytes
  -- `hashlib.blake2b(data, digest_size=32).digest()`
  pub blake2b : Bytes → Bytes
  -- `base58.b58decode(text)`, which raises ValueError
  pub b58decode : String → Result Bytes
  -- `Ed25519PublicKey.from_public_bytes(key).verify(signature, message)` returns
  pub ed25519_verify : Bytes → Bytes → Bytes → Bool
  -- `sr25519.verify(signature, message, public_key)`, which raises ValueError
  pub sr25519_verify : Bytes → Bytes → Bytes → Result Bool
  -- `repr(value)` of a list or an object
  pub repr : Value → String
