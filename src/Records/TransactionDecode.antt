-- ===== src/Records/TransactionDecode.antt =====
-- deserializeTransaction.
use primechain.Base.Text.{Bytes}
use primechain.Base.Result.{Result}
use primechain.Codec.{read_count, read_many}
use primechain.Codec.Stage.{Parse, ◌>>=◌, pure, stage, finish}
use primechain.Records.Types.{TransactionV0}
use primechain.Records.Read.{max_decoded_tx_outputs}
use primechain.Records.TransactionRead.{
  read_tx_input, read_tx_output, read_transaction_header, read_transaction_footer,
}

unfoldable pub parse_transaction : Parse TransactionV0
parse_transaction = do
  header ← stage "truncated or oversized transaction header" read_transaction_header
  inputs ← stage "truncated transaction input" (read_many header.input_count read_tx_input)
  output_count ←
      stage "truncated or oversized transaction output count" (read_count max_decoded_tx_outputs)
  outputs ← stage "truncated transaction output" (read_many output_count read_tx_output)
  footer ← stage "truncated transaction footer" read_transaction_footer
  pure (record {
    version = header.version;
    inputs = inputs;
    outputs = outputs;
    fee = footer.fee;
    nonce = footer.nonce;
    sender_address = footer.sender_address;
    sender_public_key = footer.sender_public_key;
    signature = footer.signature;
  })

unfoldable pub deserialize_transaction : Bytes → Result TransactionV0
deserialize_transaction = finish "trailing bytes in transaction" parse_transaction
