-- ===== src/Records/RoundTrip/Transactions.antt =====
-- A transaction comes back from its bytes.
use primechain.Base.{
  ◌≤◌, ◌≡◌, refl, true, List, ◌++◌, length, concat_map, All, All-map, arith, append_assoc,
}
use primechain.Base.Text.{Bytes}
use primechain.Base.Result.{ok}
use primechain.Codec.{◌>>=◌, append_uint64, append_string, append_bytes, append_list}
use primechain.Codec.Reads.{
  Reads, bind-Reads, last-Reads, read_uint64-Reads, read_bytes-Reads, read_string-Reads,
  read_count-Reads, read_many-Reads, read_list-Reads,
}
use primechain.Codec.Stage.{Parses, stage-Parses, bind-Parses, last-Parses, finish-ok, accepted}
use primechain.Records.Types.{TxInputV0, TxOutputV0, FeeSpecV0, TransactionV0}
use primechain.Records.WellFormed.{
  FitsTxInput, FitsTxOutput, FitsFeeSpec, FitsTransaction, FitsListed,
}
use primechain.Records.Write.{
  append_tx_input, append_tx_output, append_fee_spec, serialize_transaction,
  append_transaction_list,
}
use primechain.Records.TransactionRead.{
  read_tx_input, read_tx_output, read_fee_spec, TransactionHeader, TransactionFooter,
  read_transaction_header, read_transaction_footer,
}
use primechain.Records.TransactionDecode.{parse_transaction, deserialize_transaction}
use primechain.Records.RecordRead.{read_transaction, read_transaction_list}
use primechain.Records.RoundTrip.{read_amount-Reads}

read_tx_input-Reads : (x : TxInputV0) → FitsTxInput x → Reads read_tx_input (append_tx_input x) x
unfolding read_tx_input append_tx_input
read_tx_input-Reads x h =
    bind-Reads _ (read_uint64-Reads x.prime h.prime_fits)
      (last-Reads _ (read_amount-Reads x.amount h.amount_fits))

read_tx_output-Reads :
    (x : TxOutputV0) → FitsTxOutput x → Reads read_tx_output (append_tx_output x) x
unfolding read_tx_output append_tx_output
read_tx_output-Reads x h = bind-Reads _ (read_uint64-Reads x.prime h.prime_fits) (
    bind-Reads _ (read_amount-Reads x.amount h.amount_fits)
      (last-Reads _ (read_string-Reads x.receiver_address h.receiver_address_fits)))

read_fee_spec-Reads : (x : FeeSpecV0) → FitsFeeSpec x → Reads read_fee_spec (append_fee_spec x) x
unfolding read_fee_spec append_fee_spec
read_fee_spec-Reads x h =
    bind-Reads _ (read_uint64-Reads x.prime h.prime_fits)
      (last-Reads _ (read_amount-Reads x.amount h.amount_fits))

header_of : TransactionV0 → TransactionHeader
header_of tx = record { version = tx.version; input_count = length tx.inputs }

footer_of : TransactionV0 → TransactionFooter
footer_of tx = record {
  fee = tx.fee;
  nonce = tx.nonce;
  sender_address = tx.sender_address;
  sender_public_key = tx.sender_public_key;
  signature = tx.signature;
}

header_bytes : TransactionV0 → Bytes
header_bytes tx = append_uint64 tx.version ++ append_uint64 (length tx.inputs)

footer_bytes : TransactionV0 → Bytes
footer_bytes tx =
    append_fee_spec tx.fee
    ++ (append_uint64 tx.nonce
        ++ (append_string tx.sender_address
            ++ (append_bytes tx.sender_public_key ++ append_bytes tx.signature)))

header-Reads :
    (tx : TransactionV0)
    → FitsTransaction tx
    → Reads read_transaction_header (header_bytes tx) (header_of tx)
unfolding read_transaction_header header_bytes header_of
header-Reads tx h =
    bind-Reads _ (read_uint64-Reads tx.version h.version_fits)
      (last-Reads _ (read_count-Reads 1024 (length tx.inputs) h.input_count_fits (omega arith)))

footer-Reads :
    (tx : TransactionV0)
    → FitsTransaction tx
    → Reads read_transaction_footer (footer_bytes tx) (footer_of tx)
unfolding read_transaction_footer footer_bytes footer_of
footer-Reads tx h = bind-Reads _ (read_fee_spec-Reads tx.fee h.fee_fits) (
    bind-Reads _ (read_uint64-Reads tx.nonce h.nonce_fits) (
      bind-Reads _ (read_string-Reads tx.sender_address h.sender_address_fits) (
        bind-Reads _ (read_bytes-Reads tx.sender_public_key h.sender_public_key_fits)
          (last-Reads _ (read_bytes-Reads tx.signature h.signature_fits)))))

-- The bytes of a transaction, cut where the decoder's stages end.
staged_bytes : TransactionV0 → Bytes
staged_bytes tx =
    header_bytes tx
    ++ (concat_map append_tx_input tx.inputs
        ++ (append_uint64 (length tx.outputs)
            ++ (concat_map append_tx_output tx.outputs ++ footer_bytes tx)))

serialize-staged : (tx : TransactionV0) → serialize_transaction tx true ≡ staged_bytes tx
unfolding serialize_transaction staged_bytes header_bytes footer_bytes append_list
serialize-staged tx = simp append_assoc

parse_transaction-Parses :
    (tx : TransactionV0) → FitsTransaction tx → Parses parse_transaction (staged_bytes tx) tx
unfolding parse_transaction staged_bytes header_of footer_of
parse_transaction-Parses tx h = bind-Parses _ (stage-Parses _ (header-Reads tx h)) (
    bind-Parses _
      (stage-Parses _ (
        read_many-Reads read_tx_input append_tx_input tx.inputs
          (All-map read_tx_input-Reads tx.inputs h.inputs_fit)))
      (bind-Parses _
        (stage-Parses _
          (read_count-Reads 1024 (length tx.outputs) h.output_count_fits (omega arith)))
        (bind-Parses _
          (stage-Parses _ (
            read_many-Reads read_tx_output append_tx_output tx.outputs
              (All-map read_tx_output-Reads tx.outputs h.outputs_fit)))
          (last-Parses _ (stage-Parses _ (footer-Reads tx h))))))

-- A transaction whose numbers are uint64s, which has at most 1024 inputs and 1024 outputs, and whose byte
-- strings have lengths below 2 ^ 64, is decoded from its bytes, signature included.
pub deserialize-serialize_transaction :
    (tx : TransactionV0)
    → FitsTransaction tx
    → deserialize_transaction (serialize_transaction tx true) ≡ ok tx
unfolding deserialize_transaction
deserialize-serialize_transaction tx h =
    rw (serialize-staged tx)
      (finish-ok "trailing bytes in transaction" (parse_transaction-Parses tx h))

read_transaction-Reads :
    (tx : TransactionV0)
    → FitsListed tx
    → Reads read_transaction (append_bytes (serialize_transaction tx true)) tx
unfolding read_transaction ◌>>=◌ accepted
read_transaction-Reads tx h = record {
  run = λ rest.
      rw ((read_bytes-Reads (serialize_transaction tx true) h.serialized_fits).run rest, ◌>>=◌)
        (rw (deserialize-serialize_transaction tx h.transaction_fits, accepted) refl);
}

pub read_transaction_list-Reads :
    (txs : List TransactionV0)
    → length txs ≤ 10000
    → All FitsListed txs
    → Reads read_transaction_list (append_transaction_list txs) txs
unfolding read_transaction_list append_transaction_list
read_transaction_list-Reads txs count fits =
    read_list-Reads 10000 read_transaction _ txs count (omega arith)
      (All-map read_transaction-Reads txs fits)
