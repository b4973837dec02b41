-- ===== src/Node/Append/Run.antt =====
-- Chains of appended records: a step relation on the node, one step for each record that it accepts.
use primechain.Base.{ℕ, suc, ◌+◌, ◌^◌, ◌<◌, ◌≡◌, arith}
use primechain.Base.Result.{Check, pass}
use primechain.Crypto.{Crypto}
use primechain.Records.Types.{CompositeRecordV0, PrimeRecordV0}
use primechain.Node.State.{SequentialNode, StoredRecord}
use primechain.Node.Append.{append_composite, append_prime}
use primechain.Node.Append.Invariant.{IsNode, append_composite-IsNode, append_prime-IsNode}

-- `Run crypto n node end`: from `node`, `n` records that were accepted in a row lead to `end`.
pub data Run (crypto : Crypto) : ℕ → SequentialNode → SequentialNode → Type 0 where
  stop : (node : SequentialNode) → Run crypto 0 node node
  composite :
      (append_stored : StoredRecord → Check) (r : CompositeRecordV0) (n : ℕ)
      (node after end : SequentialNode)
      → append_composite crypto append_stored r node ≡ (pass, after)
      → Run crypto n after end
      → Run crypto (suc n) node end
  prime :
      (append_stored : StoredRecord → Check) (r : PrimeRecordV0) (n : ℕ)
      (node after end : SequentialNode)
      → append_prime crypto append_stored r node ≡ (pass, after)
      → Run crypto n after end
      → Run crypto (suc n) node end

-- After any number of accepted records that stays below the last uint64, a node that was in balance is in
-- balance, and its frontier has moved by the number of the records.
pub Run-IsNode :
    (crypto : Crypto) (n : ℕ) (node end : SequentialNode)
    → IsNode node
    → node.status.frontier_integer + n < 2 ^ 64
    → Run crypto n node end
    → IsNode end × (end.status.frontier_integer ≡ node.status.frontier_integer + n)
Run-IsNode crypto n node end h fits (Run.stop node') = (h, omega arith)
Run-IsNode crypto n node end h fits (Run.composite store r m node' after end' appended rest) =
    let (h', next, _) =
      append_composite-IsNode crypto store r node after h (omega (arith, fits)) appended in
    let (last, moved) = Run-IsNode crypto m after end h' (omega (arith, fits, next)) rest in
    (last, omega (arith, next, moved))
Run-IsNode crypto n node end h fits (Run.prime store r m node' after end' appended rest) =
    let (h', next, _) =
      append_prime-IsNode crypto store r node after h (omega (arith, fits)) appended in
    let (last, moved) = Run-IsNode crypto m after end h' (omega (arith, fits, next)) rest in
    (last, omega (arith, next, moved))
