-- ===== src/Records/RecordDecode.antt =====
-- deserializeCompositeRecord and deserializePrimeRecord.
use primechain.Base.{ℕ, ◌==◌, if◌then◌else◌}
use primechain.Base.Text.{Bytes}
use primechain.Base.Result.{Result}
use primechain.Codec.{Reader, ◌>>=◌, pure, fail, read_uint64}
use primechain.Codec.Stage
use primechain.Codec.Stage.{Parse, stage, finish}
use primechain.Records.Types.{CompositeRecordV0, PrimeRecordV0}
use primechain.Records.Write.{composite_record_tag, prime_record_tag}
use primechain.Records.RecordRead.{read_composite_payload, read_prime_payload, to_the_end}

-- `if (!reader.readUint64(tag) || tag != expected)`
unfoldable pub read_tag : ℕ → Reader ℕ
read_tag expected = do tag ← read_uint64; (if tag == expected then pure tag else fail)

unfoldable pub deserialize_composite_record : Bytes → Result CompositeRecordV0
deserialize_composite_record = finish "trailing bytes in composite record payload" (
    Stage.◌>>=◌ (stage "invalid composite record tag" (read_tag composite_record_tag))
      (λ _. stage "truncated composite record payload" read_composite_payload))

unfoldable pub deserialize_prime_record : Bytes → Result PrimeRecordV0
deserialize_prime_record = finish "trailing bytes in prime record payload" (
    Stage.◌>>=◌ (stage "invalid prime record tag" (read_tag prime_record_tag))
      (λ _. stage "truncated prime record payload" (to_the_end read_prime_payload)))
