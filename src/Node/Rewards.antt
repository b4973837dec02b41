-- ===== src/Node/Rewards.antt =====
-- applyCompositeLedger and applyPrimeLedger of node/sequential_node.cpp.
pub mod Minting
use primechain.Base.{
  ℕ, ◌+◌, ◌/◌, ◌%◌, Bool, not, ◌||◌, List, [], ◌∷◌, ◌++◌, length, is_empty, ◌==◌, if◌then◌else◌,
}
use primechain.Base.Text.{Bytes}
use primechain.Base.Result.{pass, refuse_if}
use primechain.Base.Dict.{at, number_order}
use primechain.Records.Types.{CompositeRecordV0, PrimeRecordV0}
use primechain.Records.Addresses.{validator_reward_pool_address}
use primechain.Node.Ledger.{Ledger, Step, ◌>>=◌, ◌>>◌, pure, check, credit}
use primechain.Node.Settings.{Settings}

abbrev pub asset_micro_units : ℕ
asset_micro_units = 1000000

abbrev pub prime_discovery_reward_micro_units : ℕ
prime_discovery_reward_micro_units = 450000

abbrev pub composite_discovery_reward_micro_units : ℕ
composite_discovery_reward_micro_units = 450000

abbrev pub validator_prime_reward_micro_units : ℕ
validator_prime_reward_micro_units = 100000

-- `pending_composite_providers_.push_back(record.proof.provider_address)`
unfoldable pub apply_composite_ledger : CompositeRecordV0 → Step (Unit {0})
apply_composite_ledger record0 l = (
  pass,
  record l {
    pending_composite_providers =
        l.pending_composite_providers ++ (record0.proof.provider_address ∷ []);
  },
)

unfoldable pub credit_each : List Bytes → ℕ → ℕ → Step (Unit {0})
credit_each [] prime units = pure tt
credit_each (provider ∷ providers) prime units =
    credit provider prime units >> credit_each providers prime units

-- The reward of the prime's provider, with the composite pool where nobody is pending, and with what is left
-- over of its equal shares where there is somebody.
unfoldable pub credit_discovery : Bytes → ℕ → ℕ → ℕ → List Bytes → Step (Unit {0})
credit_discovery provider prime prime_reward composite_pool [] =
    credit provider prime (prime_reward + composite_pool)
credit_discovery provider prime prime_reward composite_pool (first ∷ others) =
    let pending : List Bytes = first ∷ others in
    credit provider prime (prime_reward + composite_pool % length pending)
    >> credit_each pending prime (composite_pool / length pending)

unfoldable pub credit_rewards : Settings → PrimeRecordV0 → List Bytes → Step (Unit {0})
credit_rewards s record0 pending =
    let provider = record0.proof.provider_address in
    if is_empty s.validator_set || (record0.height == 0)
    then credit_discovery provider record0.integer (asset_micro_units / 2) (asset_micro_units / 2)
        pending
    else (credit (validator_reward_pool_address s.validator_epoch) record0.integer
          validator_prime_reward_micro_units
        >> credit_discovery provider record0.integer prime_discovery_reward_micro_units
            composite_discovery_reward_micro_units pending)

-- `pending_composite_providers_.clear()`
unfoldable pub clear_pending : Step (Unit {0})
clear_pending l = (pass, record l { pending_composite_providers = [] })

unfoldable pub apply_prime_ledger : Settings → PrimeRecordV0 → Step (Unit {0})
apply_prime_ledger s record0 =
    check
      (λ l. refuse_if (not (at record0.integer l.total_supply == 0)) "prime asset already minted")
    >> ((λ l. credit_rewards s record0 l.pending_composite_providers l)
        >> (clear_pending
            >> check (λ l.
              refuse_if (not (at record0.integer l.total_supply == asset_micro_units))
                "prime asset reward allocation does not conserve supply")))
