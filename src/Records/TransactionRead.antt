-- ===== src/Records/TransactionRead.antt =====
-- The stages of deserializeTransaction.
use primechain.Base.{ℕ}
use primechain.Base.Text.{Bytes}
use primechain.Codec.{Reader, ◌>>=◌, pure, read_uint64, read_bytes, read_string, read_count}
use primechain.Records.Types.{TxInputV0, TxOutputV0, FeeSpecV0}
use primechain.Records.Read.{max_decoded_tx_inputs, read_amount}

unfoldable pub read_tx_input : Reader TxInputV0
read_tx_input = do
  prime ← read_uint64
  amount ← read_amount
  pure (record { prime = prime; amount = amount })

unfoldable pub read_tx_output : Reader TxOutputV0
read_tx_output = do
  prime ← read_uint64
  amount ← read_amount
  receiver_address ← read_string
  pure (record { prime = prime; amount = amount; receiver_address = receiver_address })

unfoldable pub read_fee_spec : Reader FeeSpecV0
read_fee_spec = do
  prime ← read_uint64
  amount ← read_amount
  pure (record { prime = prime; amount = amount })

-- The members that are read in one test, `header` and `footer` of a transaction.
pub record TransactionHeader : Type 0 where
  pub version : ℕ
  pub input_count : ℕ

pub record TransactionFooter : Type 0 where
  pub fee : FeeSpecV0
  pub nonce : ℕ
  pub sender_address : Bytes
  pub sender_public_key : Bytes
  pub signature : Bytes

unfoldable pub read_transaction_header : Reader TransactionHeader
read_transaction_header = do
  version ← read_uint64
  input_count ← read_count max_decoded_tx_inputs
  pure (record { version = version; input_count = input_count })

unfoldable pub read_transaction_footer : Reader TransactionFooter
read_transaction_footer = do
  fee ← read_fee_spec
  nonce ← read_uint64
  sender_address ← read_string
  sender_public_key ← read_bytes
  signature ← read_bytes
  pure (record {
    fee = fee;
    nonce = nonce;
    sender_address = sender_address;
    sender_public_key = sender_public_key;
    signature = signature;
  })
