-- ===== src/Record.antt =====
-- `LogRecordView` of pans/src/Logger/log_record.h. Times are counts of nanoseconds, as the clocks of
-- the library count them; texts are the bytes that the views show.
use pans.Base.Int.{ℤ}
use pans.Base.{ℕ, Bytes}
use pans.LogLevel.{Level}

pub record LogRecordView : Type 0 where
  pub level : Level
  pub logger_name : Bytes
  pub message : Bytes
  pub timestamp : ℤ  -- since the epoch
  pub elapsed : ℤ
  pub thread_id : ℕ  -- u64
  pub fiber_id : ℕ  -- u64
  pub thread_name : Bytes
  pub file_name : Bytes
  pub line : ℕ  -- u32
