-- ===== src/Examples/Addresses.antt =====
-- The round trips of pool addresses and packed reveals at concrete inputs.
use primechain.Base.{◌≡◌, refl, true, some, none, [], ◌∷◌, not, arith, ◌^◌, ◌-◌}
use primechain.Base.Text.{text, eq_bytes}
use primechain.Base.Result.{refuse_if, ◌>>◌}
use primechain.Crypto.{composite_commitment}
use primechain.Records.Types.{zero_hash}
use primechain.Records.Addresses.{
  is_protocol_validator_reward_pool_address, validator_reward_pool_address,
  validator_reward_pool_epoch, stoull, skip_blanks, signed_value, unsigned_value, digits_value,
  negated,
}
use primechain.Records.Addresses.Epochs.{reward_pool_epoch-address}
use primechain.Crypto.Packed.{
  pack_composite_reveal_proof, verify_packed_composite_reveal_proof,
  packed_composite_reveal_matches_commitment,
}
use primechain.Crypto.Packed.RoundTrip.{check_reveal, verify_packed_composite_reveal_proof-pack}
use primechain.Examples.Consensus.{toy}

reward_pool_epoch-address_example :
    (is_protocol_validator_reward_pool_address (validator_reward_pool_address 1207) ≡ true)
    × (validator_reward_pool_epoch (validator_reward_pool_address 1207) ≡ some 1207)
reward_pool_epoch-address_example = reward_pool_epoch-address 1207 (omega arith)

verify_packed_composite_reveal_proof-pack_example :
    let packed = pack_composite_reveal_proof (7 ∷ []) 300 [] in
    let checks = check_reveal toy 9 3 3 (text "pcpq1_a") (7 ∷ []) 300 [] in
    (verify_packed_composite_reveal_proof toy 9 3 3 (text "pcpq1_a") packed ≡ checks)
    × (packed_composite_reveal_matches_commitment toy 9 3 3 (text "pcpq1_a") packed zero_hash ≡ (
        checks
        >> refuse_if
            (not (eq_bytes (composite_commitment toy 9 3 3 300 (text "pcpq1_a")) zero_hash))
            "composite reveal does not match selected commitment"))
verify_packed_composite_reveal_proof-pack_example =
    verify_packed_composite_reveal_proof-pack toy (7 ∷ []) 300 [] 9 3 3 (text "pcpq1_a") zero_hash
      refl (omega arith)

stoull_sign : stoull (text " +12") ≡ some 12
unfolding stoull skip_blanks signed_value unsigned_value digits_value text
stoull_sign = refl

stoull_minus : stoull (text "-1") ≡ some (2 ^ 64 - 1)
unfolding stoull skip_blanks signed_value unsigned_value digits_value negated text
stoull_minus = refl

stoull_behind : stoull (text "12x") ≡ none
unfolding stoull skip_blanks signed_value unsigned_value digits_value text
stoull_behind = refl
