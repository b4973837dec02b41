-- ===== src/Finalization/Identity.antt =====
-- usesSubjectRecordIdentity.
use primechain.Base.{ℕ, Bool, leb}
use primechain.Records.Write.{genesis_message_record_version}

unfoldable pub uses_subject_record_identity : ℕ → Bool
uses_subject_record_identity version = leb genesis_message_record_version version
