-- ===== src/Lib.antt =====
-- The FLOP Proof API: proofs of work as chains of signed events.
--
-- A client opens a proof with a signed request and appends signed events; the service authorizes
-- each event, links it to the one before by a hash, and exports the proof; a verifier replays the
-- exported events. Beside this, the program checks compute-channel settlements (transcripts of
-- verified turns, Merkle paths, receipts) and bundles of validator attestations. The files here
-- follow app/ of the repository:
--
-- Base       Shared names, lists over the native numbers, bytes, sets of texts, results. An
--            exception of the source is the value `err` of the type Result, with its message.
-- Value      JSON values as Python holds them, with Python's equality and truth. Objects are
--            association lists of fields, lists are Items.
-- Host       The packages: hashlib, base58, cryptography and sr25519 as functions of a record, and
--            the repr that Python gives a list or an object.
-- Canonical  app/canonical.py: the tagged messages that requests and events sign.
-- Did        app/crypto.py: did_key_to_public_key, is_ed25519_point_encoding,
--            decode_ed25519_signature, verify_canonical_signature.
-- Authorization
--            app/authorization.py: creator_of, delegates_of, authorize_event.
-- Json, Records
--            app/crypto.py: sha256_json, hash_event_record, chain_head.
-- Formats, Verification
--            app/verification_core.py: verify_proof_events. The loop over the events is
--            check_events, which carries what the source's local variables hold in a record Seen;
--            the entry of "checks" is check_event, the end of the loop's body is seen_after. The
--            second loop, over result and artifact hashes, is outcome_of.
-- Command    app/verifier.py: verify_proof_data, check_expectations and the exit code of main. The
--            JSON value of the file, or the exception of its reading, is an argument.
-- Transcript app/compute_channel.py: decode_fcc4_transcript. The offset into the data is the part
--            of the data that is still to be read.
-- Channel    app/crypto.py: leaves, Merkle nodes and paths, receipts and acks of a channel.
-- Settlement app/compute_channel.py: verify_turn_proof, verified_work_from_turns, verify_receipt.
-- Attestation
--            app/crypto.py: ValidatorAttestation, calculate_validator_quorum, the quorum check,
--            and ProcessedTasks as a list of hashes that the calls pass on.
-- RateLimit  app/rate_limit.py: RateLimiter, with the clock as an argument. Its limit is a natural
--            number; 0, with which the source raises IndexError, is one.
-- Policy     app/crypto.py: encode_sampling_params, encode_decode_policy,
--            compute_decode_policy_hash.
-- Attestation/Bundle, Attestation/Endpoint
--            app/crypto.py, app/replay.py, app/main.py: the bundle that is bound to a result, the
--            endpoints that accept attestations and STARK batches, and claim_processed_task over
--            the rows of processed_tasks.
-- Store      app/main.py, app/events.py, app/models.py: the tables of proofs and events as lists
--            of rows in the order of insertion. create_proof and append_event are in two parts,
--            the checks (Store/Create, Store/Append) and the write, which is one transaction.
--            Store/System lets any number of waiting calls take their two parts in any order.
--            Store/Read has get_proof, verify_proof, list_proofs and list_actors; verify_proof
--            runs the verifier of Verification on the exported events.
-- Sdk        flop_proof_sdk/client.py: append_signed_event with its retries, current_head,
--            create_signed_proof. The server answers by functions on a state that is a parameter.
--
-- Identifiers, clock readings, the reading of a JSON text and the packages' functions are
-- arguments or parameters. Times are their texts, as isoformat writes them.
--
-- Most loops run over the lists that the source iterates over and need no fuel: the reader of
-- turns recurses on the turn count, and the powers modulo 2^255 - 19 on a number of bits (255, or 2
-- and 3 for the exponents 3 and 7) that holds their exponents. The loop of append_signed_event has
-- one turn for each allowed retry and one more.
-- Byte strings are lists of numbers; where a theorem needs each to be below 256 it says so.
--
-- Not modelled: the API key, the middleware and the health endpoint, which configure the framework;
-- the declarations of the database and its migrations; what the verifier's command prints and how
-- it reads its arguments; the SDK's copy of the message formats and its methods that only send
-- their arguments; compute_merkle_root, verify_floop_signature and
-- validator_attestation_fields_match; the dashboard and the scripts. Of JSON, floats are left out.
-- Where the source takes a Python integer from a typed caller (Transcript, Channel, Settlement,
-- Attestation, Policy), the model takes a natural number: values of other types and negative
-- numbers, which the source refuses, are no inputs of the model. A threshold is the fraction that
-- Python's Fraction makes of it, and reading an artifact file is a parameter of the verifier.
pub mod Base
pub mod Value
pub mod Host
pub mod Did
pub mod Authorization
pub mod Json
pub mod Records
pub mod Formats
pub mod Verification
pub mod Canonical
pub mod Transcript
pub mod Channel
pub mod Settlement
pub mod Attestation
pub mod RateLimit
pub mod Store
pub mod Sdk
pub mod Policy
pub mod Command
