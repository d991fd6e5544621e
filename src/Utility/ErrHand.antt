-- ===== src/Utility/ErrHand.antt =====
-- src/utility/errHand.c: the texts of the errors.
use otic.Prelude.{ℕ, List, codes}
use otic.Base.Types.{OticError}
use otic.Base.Types

-- `otic_strError`
unfoldable pub str_error : OticError → List ℕ
str_error Types.no_error = codes "None"
str_error Types.invalid_pointer = codes "Invalid Pointer"
str_error Types.buffer_overflow = codes "Buffer Overflow"
str_error Types.invalid_timestamp = codes "Invalid Timestamp"
str_error Types.entry_insertion_failure = codes "Entry insertion failed"
str_error Types.zstd = codes "zstd operation failed"
str_error Types.flush_failed = codes "Flush failure"
str_error Types.end_of_file = codes "Invalid End Of File"
str_error Types.invalid_file = codes "Invalid file"
str_error Types.invalid_otic_file = codes "Invalid Otic File"
str_error Types.data_corrupted = codes "Data corrupted"
str_error Types.version_unsupported = codes "Unsupported Version detected"
str_error Types.row_count_mismatch = codes "Rows count mismatch"
str_error Types.invalid_argument = codes "Invalid Argument"
str_error Types.at_invalid_state = codes "Operation at invalid state"
str_error Types.allocation_failure = codes "Allocation failure"
