-- ===== src/Examples/Consensus.antt =====
-- The theorems on finalization at concrete inputs. The hash pads with zeros and cuts at 32 bytes, and
-- every signature of no bytes verifies.
use primechain.Base.{
  false, ℕ, ◌*◌, ◌+◌, ◌≤◌, ◌≡◌, ◌≢◌, ◌↔◌, refl, true, List, [], ◌∷◌, ◌++◌, take, arith,
}
use Prim.Native.String.{String}
use mathlib.Core.List.{Memᴰ}
use primechain.Base.Text.{Bytes, text, eq_bytes, lt_bytes}
use primechain.Base.Result.{pass}
use primechain.Codec.{append_string, append_uint64, append_hash, le_bytes}
use primechain.Crypto.{
  Crypto, to_hex, is_protocol_signature_address, address_from_protocol_public_key,
  verify_protocol_message_signature,
}
use primechain.Crypto.Payloads.{
  record_finalization_vote_signing_payload, round_change_vote_signing_payload,
  locked_round_change_vote_signing_payload,
}
use primechain.Crypto.Separation.{record_finalization_payload-injective, vote_payloads-disjoint}
use primechain.Records.Types.{
  TransactionV0, ValidatorEpochTransitionV1, ValidatorVoteV0, RoundChangeVoteV1,
  FinalizationProofV0, zero_hash, signed_finalization_rule, empty_composite_lottery,
}
use primechain.Finalization.Quorum.{
  required_validator_quorum, has_quorum_vote_count, valid_validator_set_size, is_sorted,
  no_adjacent_equal, is_canonical_protocol_validator_set, binary_search, out_of_order,
  quorum_two_thirds,
}
use primechain.Finalization.Locks.{
  check_locks, check_against_lock, find_highest_lock, raise_lock, refuses_lock, conflicting,
  check_locks-highest,
}
use primechain.Finalization.RoundChange.{verify_round_change_certificate}
use primechain.Finalization.Verify.{
  verify_record_finalization, verify_quorum_finalization, verify_votes, check_votes, check_vote,
  front_round, is_quorum_rule,
}
use primechain.Records.Merkle.{transaction_merkle_root, transaction_merkle_root-duplicate}
use primechain.Finalization.RoundChange.{is_zero_hash}
use primechain.Finalization.Epoch.{
  is_absent_transition, has_explicit_vote_anchor, anchor_hash, anchor_integer, check_epoch_vote,
  check_epoch_votes, epoch_payload, verify_present_transition, verify_validator_epoch_transition,
}
use primechain.Finalization.EpochVotes.{Handover, verify_validator_epoch_transition-Handover}
use primechain.Finalization.Safety.{
  Finalized, SignedBoth, verify_record_finalization-Finalized, two_finalizations-share_voter,
}
use primechain.Finalization.Hashes.Composite
use primechain.Finalization.Hashes.Composite.{composite_hash-finalization_independent}
use primechain.Finalization.Hashes.Prime
use primechain.Finalization.Subject.{subject_of, subject_of-Fits, subject_record_hash_iff}
use primechain.Examples.Wire.{composite_nine, prime_seven, payment, prime_seven-FitsPrimeRecord}

abbrev pub toy : Crypto
toy = record {
  sha3_256 = λ bytes. take 32 (bytes ++ zero_hash);
  public_key_size = 1;
  signature_size = 0;
  mldsa_verify = λ signature message public_key. true;
}

-- The address of the key of one byte, 1 to 3.
abbrev address : String → Bytes
address digit = text "pcpq1_0" ++ (text digit ++ text "00000000000000000000000000000000000000")

abbrev three_validators : List Bytes
three_validators = address "1" ∷ (address "2" ∷ (address "3" ∷ []))

abbrev vote_of : String → ℕ → Bytes → ValidatorVoteV0
vote_of digit key hash = record {
  validator_address = address digit;
  public_key = key ∷ [];
  record_hash = hash;
  round = 1;
  signature = [];
}

abbrev one_hash : Bytes
one_hash = take 32 (1 ∷ zero_hash)

abbrev first_two : FinalizationProofV0
first_two = record {
  rule = signed_finalization_rule;
  round_changes = [];
  votes = vote_of "1" 1 zero_hash ∷ (vote_of "2" 2 zero_hash ∷ []);
}

abbrev last_two : FinalizationProofV0
last_two = record {
  rule = signed_finalization_rule;
  round_changes = [];
  votes = vote_of "2" 2 one_hash ∷ (vote_of "3" 3 one_hash ∷ []);
}

first_two_accepted :
    verify_record_finalization toy first_two zero_hash zero_hash 9 three_validators ≡ pass
unfolding verify_record_finalization verify_quorum_finalization verify_votes check_votes check_vote
    front_round is_quorum_rule verify_round_change_certificate required_validator_quorum
    has_quorum_vote_count valid_validator_set_size is_sorted no_adjacent_equal
    is_canonical_protocol_validator_set binary_search out_of_order to_hex
    is_protocol_signature_address address_from_protocol_public_key verify_protocol_message_signature
    record_finalization_vote_signing_payload append_string append_uint64 append_hash le_bytes text
    eq_bytes lt_bytes
first_two_accepted = refl

last_two_accepted :
    verify_record_finalization toy last_two one_hash zero_hash 9 three_validators ≡ pass
unfolding verify_record_finalization verify_quorum_finalization verify_votes check_votes check_vote
    front_round is_quorum_rule verify_round_change_certificate required_validator_quorum
    has_quorum_vote_count valid_validator_set_size is_sorted no_adjacent_equal
    is_canonical_protocol_validator_set binary_search out_of_order to_hex
    is_protocol_signature_address address_from_protocol_public_key verify_protocol_message_signature
    record_finalization_vote_signing_payload append_string append_uint64 append_hash le_bytes text
    eq_bytes lt_bytes
last_two_accepted = refl

verify_record_finalization-Finalized_example : Finalized toy zero_hash three_validators first_two
verify_record_finalization-Finalized_example =
    verify_record_finalization-Finalized toy first_two zero_hash zero_hash 9 three_validators refl
      first_two_accepted

two_finalizations-share_voter_example :
    (v w : ValidatorVoteV0) × Memᴰ v first_two.votes
    × Memᴰ w last_two.votes
    × SignedBoth toy three_validators zero_hash one_hash v w
two_finalizations-share_voter_example =
    two_finalizations-share_voter toy three_validators first_two zero_hash zero_hash 9 last_two
      one_hash zero_hash 9 refl first_two_accepted last_two_accepted

quorum_two_thirds_example :
    (2 * 7 ≤ 3 * required_validator_quorum 7)
    × (3 * required_validator_quorum 7 ≤ 2 * 7 + 2)
    × (required_validator_quorum 7 ≤ 7)
quorum_two_thirds_example = quorum_two_thirds 7

abbrev round_change : ℕ → Bytes → RoundChangeVoteV1
round_change locked_round hash = record {
  validator_address = [];
  public_key = [];
  previous_record_hash = zero_hash;
  integer = 9;
  new_round = 4;
  locked_round = locked_round;
  locked_candidate_kind = text "PRIME";
  locked_candidate_hash = hash;
  locked_candidate_payload = 1 ∷ [];
  signature = [];
}

-- A lock of round 1, no lock, and one of round 2.
abbrev three_changes : List RoundChangeVoteV1
three_changes =
    round_change 1 zero_hash ∷ (round_change 0 zero_hash ∷ (round_change 2 one_hash ∷ []))

three_changes_accepted : check_locks one_hash three_changes ≡ pass
unfolding check_locks check_against_lock find_highest_lock raise_lock refuses_lock conflicting
    eq_bytes
three_changes_accepted = refl

check_locks-highest_example : (round_change 2 one_hash).locked_candidate_hash ≡ one_hash
check_locks-highest_example =
    check_locks-highest one_hash three_changes three_changes_accepted (round_change 2 one_hash)
      (Memᴰ.tail (Memᴰ.tail (Memᴰ.head refl))) (omega arith)
      (omega arith, (omega arith, (omega arith, tt)))

composite_hash-finalization_independent_example :
    (Composite.canonical_stored_record_hash toy (record composite_nine {
      composite_lottery = empty_composite_lottery;
      finalized_by = first_two;
    })
      ≡ Composite.canonical_stored_record_hash toy composite_nine)
    × (Composite.canonical_stored_record_hash toy composite_nine
        ≡ Composite.candidate_record_hash toy composite_nine)
composite_hash-finalization_independent_example =
    composite_hash-finalization_independent toy composite_nine first_two empty_composite_lottery
      (omega arith)

-- A hash that tells all byte strings apart.
abbrev telling : Crypto
telling = record toy { sha3_256 = λ bytes. bytes }

subject_record_hash_iff_example :
    (Prime.subject_record_hash telling prime_seven
      ≡ Prime.subject_record_hash telling (subject_of prime_seven))
    ↔ (subject_of prime_seven ≡ subject_of (subject_of prime_seven))
subject_record_hash_iff_example =
    subject_record_hash_iff telling prime_seven (subject_of prime_seven) prime_seven-FitsPrimeRecord
      (subject_of-Fits prime_seven prime_seven-FitsPrimeRecord) (λ same. same)

abbrev five : ℕ
five = 5

record_finalization_payload-injective_example :
    (zero_hash ≡ zero_hash) × (five ≡ five) × (text "pcpq1_a" ≡ text "pcpq1_a")
unfolding text
record_finalization_payload-injective_example =
    record_finalization_payload-injective zero_hash zero_hash five five (text "pcpq1_a")
      (text "pcpq1_a") refl refl (omega arith) (omega arith) (omega arith) (omega arith) refl

vote_payloads-disjoint_example :
    (record_finalization_vote_signing_payload zero_hash 2 (address "1")
      ≢ round_change_vote_signing_payload zero_hash 9 2 (address "1"))
    × (record_finalization_vote_signing_payload zero_hash 2 (address "1")
        ≢ locked_round_change_vote_signing_payload zero_hash 9 2 1
            (text "PRIME")
            one_hash
            (1 ∷ [])
            (address "1"))
    × (round_change_vote_signing_payload zero_hash 9 2 (address "1")
        ≢ locked_round_change_vote_signing_payload zero_hash 9 2 1
            (text "PRIME")
            one_hash
            (1 ∷ [])
            (address "1"))
vote_payloads-disjoint_example =
    vote_payloads-disjoint zero_hash 2 (address "1") zero_hash 9 2 (address "1") zero_hash 9 2 1
      (text "PRIME") one_hash (1 ∷ []) (address "1")

abbrev two_payments : List TransactionV0
two_payments = payment ∷ (payment ∷ [])

transaction_merkle_root-duplicate_example :
    transaction_merkle_root toy (two_payments ++ (payment ∷ []))
    ≡ transaction_merkle_root toy (two_payments ++ (payment ∷ (payment ∷ [])))
transaction_merkle_root-duplicate_example =
    transaction_merkle_root-duplicate toy two_payments payment (omega arith) (omega arith)

-- Two of the three validators hand over to the first one alone.
abbrev handover : ValidatorEpochTransitionV1
handover = record {
  epoch = 1;
  vote_previous_record_hash = zero_hash;
  vote_record_integer = 0;
  activation_integer = 10;
  next_validator_set = address "1" ∷ [];
  votes =
      record { validator_address = address "1"; public_key = 1 ∷ []; signature = [] }
      ∷ (record { validator_address = address "2"; public_key = 2 ∷ []; signature = [] } ∷ []);
}

handover_present : is_absent_transition handover ≡ false
unfolding is_absent_transition
handover_present = refl

handover_accepted :
    verify_validator_epoch_transition toy handover three_validators 0 zero_hash 9 ≡ pass
unfolding verify_validator_epoch_transition verify_present_transition check_epoch_votes
    check_epoch_vote epoch_payload anchor_integer anchor_hash has_explicit_vote_anchor
    is_absent_transition is_zero_hash required_validator_quorum has_quorum_vote_count
    valid_validator_set_size is_sorted no_adjacent_equal is_canonical_protocol_validator_set
    binary_search out_of_order to_hex is_protocol_signature_address address_from_protocol_public_key
    verify_protocol_message_signature text eq_bytes lt_bytes
handover_accepted = refl

verify_validator_epoch_transition-Handover_example :
    Handover toy handover three_validators 0 zero_hash 9
verify_validator_epoch_transition-Handover_example =
    verify_validator_epoch_transition-Handover toy handover three_validators 0 zero_hash 9
      handover_present handover_accepted
