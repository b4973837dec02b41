-- ===== src/Node/Rewards/Minting.antt =====
-- A prime's reward, from start to end: every credit goes through, and one million units are there.
use native.Mathlib.Nat.{div-add-mod}
use primechain.Base.{
  ℕ, ◌+◌, ◌*◌, ◌/◌, ◌%◌, ◌^◌, ◌<◌, ◌≡◌, ◌≢◌, refl, sym, ap, subst, ◌∙◌, ◌||◌, List, [], ◌∷◌, length,
  is_empty, ◌==◌, arith, inl, inr, Bool-cases,
}
use primechain.Base.Text.{Bytes}
use primechain.Base.Result.{pass}
use primechain.Base.Dict.{at, number_order, bytes_order, asset_order}
use primechain.Records.Types.{PrimeRecordV0}
use primechain.Records.Addresses.{validator_reward_pool_address}
use primechain.Node.Ledger.{Ledger, Step, ◌>>◌, pure, check, credit, credited}
use primechain.Node.Ledger.Balance.{held, IsBalanced, units_at, credit-passes}
use primechain.Node.Ledger.Steps.{Moved, nothing, credit-Moved}
use primechain.Node.Settings.{Settings}
use primechain.Node.Rewards.{
  asset_micro_units, prime_discovery_reward_micro_units, composite_discovery_reward_micro_units,
  validator_prime_reward_micro_units, credit_each, credit_discovery, credit_rewards, clear_pending,
  apply_prime_ledger,
}

-- The step goes through and pays `units` of the prime.
abbrev pub Pays : Step (Unit {0}) → ℕ → ℕ → Ledger → Type 0
Pays m prime units l =
    (l' : Ledger) × (m l ≡ (pass, l')) × Moved l l' nothing (units_at prime units)

then-goes : (m k : Step (Unit {0})) (l l1 : Ledger) → m l ≡ (pass, l1) → (m >> k) l ≡ k l1
unfolding ◌>>◌
then-goes m k l l1 h = rw h refl

credit-Pays :
    (address : Bytes) (prime units : ℕ) (l : Ledger)
    → IsBalanced l
    → held prime l + units < 2 ^ 64
    → Pays (credit address prime units) prime units l
credit-Pays address prime units l balanced fits =
    let goes = credit-passes address prime units l balanced fits in
    (
      credited address prime units l,
      goes,
      credit-Moved address prime units l (credited address prime units l) balanced goes,
    )

-- Two steps that pay, in a row.
then-Pays :
    (m k : Step (Unit {0})) (prime one other total : ℕ) (l : Ledger)
    → Pays m prime one l
    → ((l1 : Ledger) → IsBalanced l1 → held prime l1 ≡ held prime l + one → Pays k prime other l1)
    → one + other ≡ total
    → Pays (m >> k) prime total l
then-Pays m k prime one other total l (l1, first, moved) second sum =
    let (l2, rest, moved2) = second l1 moved.balanced (ground (arith, moved.moved prime)) in
    (
      l2,
      then-goes m k l l1 first ∙ rest,
      record {
        balanced = moved2.balanced;
        moved = λ q. ground (arith, moved.moved q, moved2.moved q);
        nonces = moved2.nonces ∙ moved.nonces;
      },
    )

credit_each-Pays :
    (providers : List Bytes) (prime units : ℕ) (l : Ledger)
    → IsBalanced l
    → held prime l + length providers * units < 2 ^ 64
    → Pays (credit_each providers prime units) prime (length providers * units) l
unfolding credit_each pure
credit_each-Pays [] prime units l balanced fits =
    (l, refl, record { balanced = balanced; moved = λ q. ground arith; nonces = refl })
credit_each-Pays (provider ∷ providers) prime units l balanced fits =
    let total : units + length providers * units ≡ length (provider ∷ providers) * units =
      grind arith in
    then-Pays (credit provider prime units) (credit_each providers prime units) prime units
      (length providers * units) (length (provider ∷ providers) * units) l
      (credit-Pays provider prime units l balanced (omega (arith, fits, total)))
      (λ l1 balanced1 more.
        credit_each-Pays providers prime units l1 balanced1 (omega (arith, fits, total, more)))
      total

-- The shares of the pool and what is left of it are the pool.
credit_discovery-Pays :
    (provider : Bytes) (prime prime_reward composite_pool : ℕ) (pending : List Bytes) (l : Ledger)
    → IsBalanced l
    → held prime l + (prime_reward + composite_pool) < 2 ^ 64
    → Pays
        (credit_discovery provider prime prime_reward composite_pool pending)
        prime
        (prime_reward + composite_pool)
        l
unfolding credit_discovery
credit_discovery-Pays provider prime prime_reward composite_pool [] l balanced fits =
    credit-Pays provider prime (prime_reward + composite_pool) l balanced fits
credit_discovery-Pays provider prime prime_reward composite_pool (first ∷ others) l balanced fits =
    let pending : List Bytes = first ∷ others in
    let n = length pending in
    let share = composite_pool / n in
    let own = prime_reward + composite_pool % n in
    let whole : n * share + composite_pool % n ≡ composite_pool = div-add-mod composite_pool n in
    then-Pays (credit provider prime own) (credit_each pending prime share) prime own (n * share)
      (prime_reward + composite_pool) l
      (credit-Pays provider prime own l balanced (omega (arith, fits, whole)))
      (λ l1 balanced1 more.
        credit_each-Pays pending prime share l1 balanced1 (omega (arith, fits, whole, more)))
      (omega (arith, whole))

credit_rewards-Pays :
    (s : Settings) (record0 : PrimeRecordV0) (pending : List Bytes) (l : Ledger)
    → IsBalanced l
    → held record0.integer l ≡ 0
    → Pays (credit_rewards s record0 pending) record0.integer asset_micro_units l
unfolding credit_rewards
credit_rewards-Pays s record0 pending l balanced new =
    let provider = record0.proof.provider_address in
    let prime = record0.integer in
    elim (Bool-cases (is_empty s.validator_set || (record0.height == 0))) [
      | inl alone ↦ rw alone (
          credit_discovery-Pays provider prime (asset_micro_units / 2) (asset_micro_units / 2)
            pending l balanced (omega (arith, new)))
      | inr others ↦
          let pool = validator_reward_pool_address s.validator_epoch in
          rw others (
            then-Pays (credit pool prime validator_prime_reward_micro_units)
              (credit_discovery provider prime prime_discovery_reward_micro_units
                composite_discovery_reward_micro_units pending)
              prime validator_prime_reward_micro_units 900000 asset_micro_units l
              (credit-Pays pool prime validator_prime_reward_micro_units l balanced
                (omega (arith, new)))
              (λ l1 balanced1 more.
                credit_discovery-Pays provider prime prime_discovery_reward_micro_units
                  composite_discovery_reward_micro_units pending l1 balanced1
                  (omega (arith, new, more)))
              refl)
    ]

abbrev without_pending : Ledger → Ledger
without_pending l = record l { pending_composite_providers = [] }

-- One million units of the prime are there, and nothing else has changed but the pending providers.
pub record Minted (prime : ℕ) (l l' : Ledger) : Type 0 where
  pub balanced : IsBalanced l'
  pub minted : at prime l'.total_supply ≡ asset_micro_units
  pub others : (q : ℕ) → q ≢ prime → at q l'.total_supply ≡ at q l.total_supply
  pub nonces : l'.account_nonces ≡ l.account_nonces
  pub nobody_pending : l'.pending_composite_providers ≡ []

-- On a ledger in balance the reward of a prime that has no supply goes through, whoever is pending: the ledger
-- is in balance still, the prime has one million units, no other supply and no nonce changes, and nobody is
-- pending.
pub apply_prime_ledger-mints :
    (s : Settings) (record0 : PrimeRecordV0) (l : Ledger)
    → IsBalanced l
    → at record0.integer l.total_supply ≡ 0
    → (l' : Ledger) × (apply_prime_ledger s record0 l ≡ (pass, l')) × Minted record0.integer l l'
unfolding apply_prime_ledger check clear_pending ◌>>◌ held
apply_prime_ledger-mints s record0 l balanced new =
    let prime = record0.integer in
    let (l1, paid, moved) =
      credit_rewards-Pays s record0 l.pending_composite_providers l balanced
        (sym (balanced.supply_held prime) ∙ new) in
    let minted : at prime l1.total_supply ≡ asset_micro_units = ground (
      arith,
      moved.balanced.supply_held prime,
      moved.moved prime,
      balanced.supply_held prime,
      new,
    ) in
    let unchanged : (q : ℕ) → q ≢ prime → at q l1.total_supply ≡ at q l.total_supply = λ q other.
      ground (arith, moved.balanced.supply_held q, moved.moved q, balanced.supply_held q, other) in
    (
      without_pending l1,
      rw (new, paid, minted) refl,
      record {
        balanced = record {
          supply_held = moved.balanced.supply_held;
          held_fits = moved.balanced.held_fits;
        };
        minted = minted;
        others = unchanged;
        nonces = moved.nonces;
        nobody_pending = refl;
      },
    )

-- What a call that passed has done.
pub apply_prime_ledger-Minted :
    (s : Settings) (record0 : PrimeRecordV0) (l l' : Ledger)
    → IsBalanced l
    → at record0.integer l.total_supply ≡ 0
    → apply_prime_ledger s record0 l ≡ (pass, l')
    → Minted record0.integer l l'
apply_prime_ledger-Minted s record0 l l' balanced new h =
    let (l1, passed, minted) = apply_prime_ledger-mints s record0 l balanced new in
    subst (λ x. Minted record0.integer l x) (ap (λ x. x.1) (sym passed ∙ h)) minted
