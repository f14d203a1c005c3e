-- ===== src/Formatter/Samples.antt =====
-- A record, a clock library and an allocator for the runs of the formatter and of the loggers.
use pans.Base.Int.{pos}
use pans.Base.{◌+◌, refl, false, some, ◌++◌, codes, arith, replicate}
use pans.Buffer.{Allocator}
use pans.Formatter.{TimeLibrary}
use pans.Formatter.Output.{InRange, DateAnswer}
use pans.LogLevel.{Level}
use pans.Record.{LogRecordView}

-- A C library that prints every hour as "09".
abbrev pub clock : TimeLibrary Unit
clock = record {
  localtime_r = λ _. some tt;
  strftime = λ format tm. (2, codes "09" ++ replicate 18 0);
}

abbrev pub none_left : Allocator
none_left = record {
  grants = λ _. false;
  growth = λ old needed. old + needed;
  growth_le = λ old needed. omega arith;
}

abbrev pub log_record : LogRecordView
log_record = record {
  level = Level.warn;
  file_name = codes "a.cc";
  line = 7;
  elapsed = pos 1500000;
  thread_id = 12;
  fiber_id = 0;
  timestamp = pos 1700000000123456789;
  logger_name = codes "net";
  thread_name = codes "io";
  message = codes "ok";
}

abbrev pub answer : DateAnswer clock (codes "%H") log_record
answer = record {
  tm = tt;
  size = 2;
  bytes = codes "09" ++ replicate 18 0;
  local_time = refl;
  formatted = refl;
  fitted = refl;
}

pub log_record-InRange : InRange log_record
log_record-InRange = record {
  elapsed_word = omega arith;
  thread_id_word = omega arith;
  fiber_id_word = omega arith;
  line_word = omega arith;
}
