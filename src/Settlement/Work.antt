-- ===== src/Settlement/Work.antt =====
-- When the verified work of a channel is accepted, and what it then is.
use flop_proof_api.Base.{
  ℕ, ◌+◌, ◌-◌, ◌≤◌, ◌<◌, ◌≡◌, refl, sym, ap, ◌∙◌, ◌↔◌, Bool, true, false, not, ◌&&◌, List, [], ◌∷◌,
  Option, map, all, All, length, ltb, ◌==◌, arith, ok, raise_if, value_error, ◌>>◌, >>=-eq-ok,
  raise_if-eq-ok, ok_inj,
}
use flop_proof_api.Base.Bytes.{Bytes}
use flop_proof_api.Host.{Host}
use flop_proof_api.Transcript.{max_turns}
use flop_proof_api.Channel.{max_u32, max_u128}
use flop_proof_api.Settlement.{
  TurnProof, has_index, settle, verify_turn_proof, verified_work_from_turns,
}

-- No index occurs twice.
unfoldable pub distinct : List ℕ → Bool
distinct [] = true
distinct (i ∷ is) = not (has_index is i) && distinct is

abbrev pub merkle_indices : List TurnProof → List ℕ
merkle_indices = map (λ proof. proof.merkle_index)

abbrev pub turn_indices : List TurnProof → List ℕ
turn_indices = map (λ proof. proof.turn.turn_index)

abbrev pub total_work : List TurnProof → ℕ
total_work [] = 0
total_work (proof ∷ proofs) = proof.turn.g_n + total_work proofs

-- None of the indices is among the seen ones, and none occurs twice.
fresh : List ℕ → List ℕ → Bool
fresh seen [] = true
fresh seen (i ∷ is) = not (has_index seen i) && fresh (i ∷ seen) is

apart : List ℕ → List ℕ → Bool
apart seen is = all (λ i. not (has_index seen i)) is

apart-cons :
    (i : ℕ) (seen is : List ℕ) → apart (i ∷ seen) is ≡ (not (has_index is i) && apart seen is)
unfolding apart has_index
apart-cons i seen [] = refl
apart-cons i seen (j ∷ is) = ground (arith, apart-cons i seen is)

fresh_lem : (seen is : List ℕ) → fresh seen is ≡ (apart seen is && distinct is)
unfolding fresh distinct apart
fresh_lem seen [] = refl
fresh_lem seen (i ∷ is) = ground (arith, fresh_lem (i ∷ seen) is, apart-cons i seen is)

apart-nil : (is : List ℕ) → apart [] is ≡ true
unfolding apart has_index
apart-nil [] = refl
apart-nil (i ∷ is) = apart-nil is

fresh-distinct : (is : List ℕ) → fresh [] is ≡ distinct is
fresh-distinct is = ground (arith, fresh_lem [] is, apart-nil is)

module _ (host : Host) (channel_id expected_root enclave_public_key : Bytes)
    (policy : Option Bytes) where
  -- A turn proof with its numbers in range that verifies against the root.
  pub record Sound (proof : TurnProof) : Type 0 where
    pub merkle_index_in : proof.merkle_index < max_turns
    pub turn_index_in : proof.turn.turn_index ≤ max_u32
    pub g_n_in : proof.turn.g_n ≤ max_u128
    pub leaf : Bytes
    pub verified :
        verify_turn_proof host channel_id expected_root enclave_public_key policy proof ≡ ok leaf

  settle-eq-ok :
      (ms ts : List ℕ) (total : ℕ) (proofs : List TurnProof) {r : ℕ}
      → settle host channel_id expected_root enclave_public_key policy ms ts total proofs ≡ ok r
      → All Sound proofs
        × (fresh ms (merkle_indices proofs) ≡ true)
        × (fresh ts (turn_indices proofs) ≡ true)
        × (r ≡ total + total_work proofs)
  unfolding settle fresh
  settle-eq-ok ms ts total [] h = (tt, refl, refl, ground arith)
  settle-eq-ok ms ts total (proof ∷ proofs) h =
      let (a, h1) = raise_if-eq-ok (not (ltb proof.merkle_index max_turns)) _ _ h in
      let (b, h2) = raise_if-eq-ok (has_index ms proof.merkle_index) _ _ h1 in
      let (c, h3) = raise_if-eq-ok (ltb max_u32 proof.turn.turn_index) _ _ h2 in
      let (d, h4) = raise_if-eq-ok (has_index ts proof.turn.turn_index) _ _ h3 in
      let (e, h5) = raise_if-eq-ok (ltb max_u128 proof.turn.g_n) _ _ h4 in
      let (leaf, v, h6) =
        >>=-eq-ok (verify_turn_proof host channel_id expected_root enclave_public_key policy proof)
          _ h5 in
      let (f, h7) = raise_if-eq-ok (ltb (max_u128 - proof.turn.g_n) total) _ _ h6 in
      let (sound, fm, ft, sum) =
        settle-eq-ok (proof.merkle_index ∷ ms) (proof.turn.turn_index ∷ ts) (total + proof.turn.g_n)
          proofs h7 in
      (
        (
          record {
            merkle_index_in = ground arith;
            turn_index_in = ground arith;
            g_n_in = ground arith;
            leaf = leaf;
            verified = v;
          },
          sound,
        ),
        ground arith,
        ground arith,
        omega (arith, sum),
      )

  settle_ok :
      (ms ts : List ℕ) (total : ℕ) (proofs : List TurnProof)
      → All Sound proofs
      → fresh ms (merkle_indices proofs) ≡ true
      → fresh ts (turn_indices proofs) ≡ true
      → total + total_work proofs ≤ max_u128
      → settle host channel_id expected_root enclave_public_key policy ms ts total proofs
        ≡ ok (total + total_work proofs)
  unfolding settle fresh
  settle_ok ms ts total [] sound fm ft small = ap ok (omega arith)
  settle_ok ms ts total (proof ∷ proofs) (sound, rest) fm ft small =
      let a : not (ltb proof.merkle_index max_turns) ≡ false = ground arith in
      let b : has_index ms proof.merkle_index ≡ false = ground arith in
      let c : ltb max_u32 proof.turn.turn_index ≡ false = ground arith in
      let d : has_index ts proof.turn.turn_index ≡ false = ground arith in
      let e : ltb max_u128 proof.turn.g_n ≡ false = ground arith in
      let f : ltb (max_u128 - proof.turn.g_n) total ≡ false = ground arith in
      let later =
        settle_ok (proof.merkle_index ∷ ms) (proof.turn.turn_index ∷ ts) (total + proof.turn.g_n)
          proofs rest (ground arith) (ground arith) (omega arith) in
      rw (a, b, c, d, e, sound.verified, f, later) (ap ok (omega arith))

  -- What the settlement of a channel requires of the turn proofs.
  pub record Settles (aggregate_gn : ℕ) (proofs : List TurnProof) (r : ℕ) : Type 0 where
    pub channel_id_length : length channel_id ≡ 32
    pub root_length : length expected_root ≡ 32
    pub aggregate_in : aggregate_gn ≤ max_u128
    pub few : length proofs ≤ max_turns
    pub sound : All Sound proofs
    pub distinct_leaves : distinct (merkle_indices proofs) ≡ true
    pub distinct_turns : distinct (turn_indices proofs) ≡ true
    pub work : total_work proofs ≡ aggregate_gn
    pub result : r ≡ aggregate_gn

  settles :
      (aggregate_gn : ℕ) (proofs : List TurnProof) (r : ℕ)
      → verified_work_from_turns host channel_id expected_root enclave_public_key policy
          aggregate_gn proofs
        ≡ ok r
      → Settles aggregate_gn proofs r
  unfolding verified_work_from_turns
  settles aggregate_gn proofs r h =
      let (a, h1) = raise_if-eq-ok (not (length channel_id == 32)) _ _ h in
      let (b, h2) = raise_if-eq-ok (not (length expected_root == 32)) _ _ h1 in
      let (c, h3) = raise_if-eq-ok (ltb max_u128 aggregate_gn) _ _ h2 in
      let (d, h4) = raise_if-eq-ok (ltb max_turns (length proofs)) _ _ h3 in
      let (total, e, h5) =
        >>=-eq-ok (settle host channel_id expected_root enclave_public_key policy [] [] 0 proofs) _
          h4 in
      let (f, h6) = raise_if-eq-ok (not (total == aggregate_gn)) _ _ h5 in
      let (sound, fm, ft, sum) = settle-eq-ok [] [] 0 proofs e in
      let same : total ≡ aggregate_gn = ground arith in
      record {
        channel_id_length = ground arith;
        root_length = ground arith;
        aggregate_in = ground arith;
        few = ground arith;
        sound = sound;
        distinct_leaves = sym (fresh-distinct (merkle_indices proofs)) ∙ fm;
        distinct_turns = sym (fresh-distinct (turn_indices proofs)) ∙ ft;
        work = omega (arith, sum, same);
        result = sym (ok_inj h6) ∙ same;
      }

  last_check :
      (total aggregate_gn r : ℕ)
      → total ≡ aggregate_gn
      → r ≡ aggregate_gn
      → (raise_if (not (total == aggregate_gn)) (value_error "AggregateGnMismatch") >> ok total)
        ≡ ok r
  last_check total aggregate_gn r h k = ground arith

  settled :
      (aggregate_gn : ℕ) (proofs : List TurnProof) (r : ℕ)
      → Settles aggregate_gn proofs r
      → verified_work_from_turns host channel_id expected_root enclave_public_key policy
          aggregate_gn proofs
        ≡ ok r
  unfolding verified_work_from_turns
  settled aggregate_gn proofs r s =
      let a : not (length channel_id == 32) ≡ false = ground (arith, s.channel_id_length) in
      let b : not (length expected_root == 32) ≡ false = ground (arith, s.root_length) in
      let c : ltb max_u128 aggregate_gn ≡ false = ground (arith, s.aggregate_in) in
      let d : ltb max_turns (length proofs) ≡ false = ground (arith, s.few) in
      let run =
        settle_ok [] [] 0 proofs s.sound
          (fresh-distinct (merkle_indices proofs) ∙ s.distinct_leaves)
          (fresh-distinct (turn_indices proofs) ∙ s.distinct_turns)
          (omega (arith, s.work, s.aggregate_in)) in
      rw (a, b, c, d, run)
        (last_check (0 + total_work proofs) aggregate_gn r (omega (arith, s.work)) s.result)

  -- `verified_work_from_turns` returns `r` exactly when the channel id and the root have 32 bytes,
  -- the aggregate is a u128, there are at most 1024 turn proofs, each of them verifies with its
  -- numbers in range, no Merkle index and no turn index occurs twice, and the aggregate and `r` are
  -- the sum of the turns' work.
  pub verified_work_iff :
      (aggregate_gn : ℕ) (proofs : List TurnProof) (r : ℕ)
      → (verified_work_from_turns host channel_id expected_root enclave_public_key policy
            aggregate_gn proofs
          ≡ ok r)
        ↔ Settles aggregate_gn proofs r
  verified_work_iff aggregate_gn proofs r =
      (settles aggregate_gn proofs r, settled aggregate_gn proofs r)
