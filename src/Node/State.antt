-- ===== src/Node/State.antt =====
-- SequentialNode's state: SequentialNodeStatus, the ledger and the settings; and StoredRecord, which a record
-- store gets. The store and the snapshots do the file's input and output: what RecordStore::append returns
-- at a call is an argument, and saveSnapshot, whose result is ignored, has no part in the state.
use primechain.Base.{ℕ, Bool, false}
use primechain.Base.Text.{Bytes}
use primechain.Records.Types.{zero_hash}
use primechain.Crypto.{Crypto}
use primechain.Records.Types.{CompositeRecordV0, PrimeRecordV0}
use primechain.Records.Serialize.{serialize_composite_record, serialize_prime_record}
use primechain.Finalization.Hashes.Composite
use primechain.Finalization.Hashes.Prime
use primechain.Node.Ledger.{Ledger, empty_ledger}
use primechain.Node.Settings.{Settings, default_settings}

pub record SequentialNodeStatus : Type 0 where
  pub has_genesis : Bool
  pub height : ℕ
  pub frontier_integer : ℕ
  pub latest_record_hash : Bytes

pub record SequentialNode : Type 0 where
  pub status : SequentialNodeStatus
  pub ledger : Ledger
  pub settings : Settings

abbrev pub new_node : SequentialNode
new_node = record {
  status = record {
    has_genesis = false;
    height = 0;
    frontier_integer = 0;
    latest_record_hash = zero_hash;
  };
  ledger = empty_ledger;
  settings = default_settings;
}

pub data StoredRecordKind : Type 0 where
  composite : StoredRecordKind
  prime : StoredRecordKind

pub record StoredRecord : Type 0 where
  pub kind : StoredRecordKind
  pub height : ℕ
  pub integer : ℕ
  pub payload : Bytes
  pub record_hash : Bytes

module _ (crypto : Crypto) where
  unfoldable pub make_stored_composite_record : CompositeRecordV0 → StoredRecord
  make_stored_composite_record r = record {
    kind = StoredRecordKind.composite;
    height = r.height;
    integer = r.integer;
    payload = serialize_composite_record r;
    record_hash = Composite.canonical_stored_record_hash crypto r;
  }

  unfoldable pub make_stored_prime_record : PrimeRecordV0 → StoredRecord
  make_stored_prime_record r = record {
    kind = StoredRecordKind.prime;
    height = r.height;
    integer = r.integer;
    payload = serialize_prime_record r;
    record_hash = Prime.canonical_stored_record_hash crypto r;
  }
