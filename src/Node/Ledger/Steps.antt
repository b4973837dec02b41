-- ===== src/Node/Ledger/Steps.antt =====
-- What a step that went through has done: the parts it is made of, and the units that it moved.
use primechain.Base.{ℕ, ◌+◌, ◌≡◌, refl, sym, ap, arith, inl, inr}
use primechain.Base.Text.{Bytes}
use primechain.Base.Result.{Result, ok, err, pass, Result-cases}
use primechain.Base.Dict.{number_order, bytes_order, asset_order}
use primechain.Node.Ledger.{
  Ledger, Step, go_on, ◌>>=◌, ◌>>◌, check, credit, credited, debit, debited,
}
use primechain.Node.Ledger.Balance.{
  held, IsBalanced, units_at, credited-held, credited-IsBalanced, credit-inverts, debited-held,
  debit-inverts, debited-IsBalanced,
}

pub go_on-inverts {ℓ κ} :
    {A : Type ℓ} {B : Type κ} (x : Result A × Ledger) (f : A → Step B) (l' : Ledger) (b : B)
    → go_on x f ≡ (ok b, l')
    → (a : A) × (between : Ledger) × (x ≡ (ok a, between)) × (f a between ≡ (ok b, l'))
go_on-inverts (ok a, l) f l' b h = (a, l, refl, h)
go_on-inverts (err e, l) f l' b h = absurd (cc (ap (λ x. x.0) h))

pub step_bind-inverts {ℓ κ} :
    {A : Type ℓ} {B : Type κ} (m : Step A) (f : A → Step B) (l l' : Ledger) (b : B)
    → (m >>= f) l ≡ (ok b, l')
    → (a : A) × (between : Ledger) × (m l ≡ (ok a, between)) × (f a between ≡ (ok b, l'))
unfolding ◌>>=◌
step_bind-inverts m f l l' b h = go_on-inverts (m l) f l' b h

pub step_then-inverts {ℓ} :
    {B : Type ℓ} (m : Step (Unit {0})) (k : Step B) (l l' : Ledger) (b : B)
    → (m >> k) l ≡ (ok b, l')
    → (between : Ledger) × (m l ≡ (pass, between)) × (k between ≡ (ok b, l'))
unfolding ◌>>◌
step_then-inverts m k l l' b h =
    let (t, between, first, rest) = go_on-inverts (m l) (λ t. k) l' b h in (between, first, rest)

-- What stands behind a check that passed runs on the same ledger.
pub check-inverts {ℓ κ} :
    {A : Type ℓ} {B : Type κ} (c : Ledger → Result A) (f : A → Step B) (l l' : Ledger) (b : B)
    → (check c >>= f) l ≡ (ok b, l')
    → (a : A) × (c l ≡ ok a) × (f a l ≡ (ok b, l'))
unfolding check ◌>>=◌
check-inverts c f l l' b h = elim (Result-cases (c l)) [
  | inl (a, done) ↦ (a, done, rw done at h)
  | inr (e, failed) ↦ absurd (cc (ap (λ x. x.0) (rw failed at h)))
]

-- From `l` to `l'`: of each prime, `taken` went out of the balances and `paid` came in, and no nonce changed.
pub record Moved (l l' : Ledger) (taken paid : ℕ → ℕ) : Type 0 where
  pub balanced : IsBalanced l'
  pub moved : (q : ℕ) → held q l' + taken q ≡ held q l + paid q
  pub nonces : l'.account_nonces ≡ l.account_nonces

abbrev pub nothing : ℕ → ℕ
nothing q = 0

pub stay-Moved : (l l' : Ledger) → IsBalanced l → l ≡ l' → Moved l l' nothing nothing
stay-Moved l l' balanced same =
    rw (sym same) record { balanced = balanced; moved = λ q. refl; nonces = refl }

pub credit-Moved :
    (address : Bytes) (prime units : ℕ) (l l' : Ledger)
    → IsBalanced l
    → credit address prime units l ≡ (pass, l')
    → Moved l l' nothing (units_at prime units)
unfolding credited
credit-Moved address prime units l l' balanced h =
    let (same, fits) = credit-inverts address prime units l l' balanced h in
    rw same record {
      balanced = credited-IsBalanced address prime units l balanced fits;
      moved = λ q. omega (arith, credited-held address prime units l q);
      nonces = refl;
    }

pub debit-Moved :
    (address : Bytes) (prime units : ℕ) (l l' : Ledger)
    → IsBalanced l
    → debit address prime units l ≡ (pass, l')
    → Moved l l' (units_at prime units) nothing
unfolding debited
debit-Moved address prime units l l' balanced h =
    let (balance, found, enough, same) = debit-inverts address prime units l l' h in
    rw same record {
      balanced = debited-IsBalanced address prime units balance l balanced found enough;
      moved = λ q. omega (arith, debited-held address prime units balance l q found enough);
      nonces = refl;
    }
