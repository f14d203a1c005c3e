-- ===== src/Appender.antt =====
-- pans/src/Logger/apender.cc: appenders write formatted records to the standard output or to a file,
-- under a level of their own. The outcome of locking a mutex and of opening a file are parameters.
pub mod Durable
pub mod Streams
pub mod History
pub mod Lasting
pub mod Threads
mod Tests
use pans.Base.{
  ℕ, suc, Bool, true, false, Option, none, some, [], ◌++◌, Bytes, codes, ltb, ◌==◌, if◌then◌else◌,
  length, is_empty, take,
}
use pans.LogLevel.{Level, fatal, to_u8}

-- A stream of the C library or `std::cout`: the bytes given to it, how many of them are known to
-- have reached the operating system, and how many the disk.
pub record Sink : Type 0 where
  pub written : Bytes
  pub flushed : ℕ
  pub synced : ℕ

abbrev pub empty_sink : Sink
empty_sink = record { written = []; flushed = 0; synced = 0 }

-- `fwrite`, and `std::cout.write`.
abbrev pub write_sink : Bytes → Sink → Sink
write_sink text sink = record sink { written = sink.written ++ text }

-- `fflush`, and `std::cout.flush`.
abbrev pub flush_sink : Sink → Sink
flush_sink sink = record sink { flushed = length sink.written }

-- `fdatasync` of the file's descriptor.
abbrev pub sync_sink : Sink → Sink
sync_sink sink = record sink { synced = sink.flushed }

-- `StdoutAppenderImpl`, and `FileAppenderImpl` with its open file.
pub data Target : Type 0 where
  stdout : Target
  file : ℕ → Target

-- `Appender::Impl`: the derived class, and `level_`.
pub record AppenderImpl : Type 0 where
  pub target : Target
  pub level : Level

-- The heap of appenders, the open files, and the standard streams.
pub record Outputs : Type 0 where
  pub cout : Sink
  pub error_output : Bytes
  pub files : ℕ → Sink
  pub file_count : ℕ
  pub impls : ℕ → AppenderImpl
  pub impl_count : ℕ

abbrev pub update {ℓ} : {A : Type ℓ} → (ℕ → A) → ℕ → A → ℕ → A
update f i a j = if i == j then a else f j

abbrev pub on_target : (Sink → Sink) → Target → Outputs → Outputs
on_target f stdout o = record o { cout = f o.cout }
on_target f (file h) o = record o { files = update o.files h (f (o.files h)) }

-- The stream that a target stands for.
abbrev pub stream_of : Target → Outputs → Sink
stream_of stdout o = o.cout
stream_of (file h) o = o.files h

-- `writeUnlocked` of the two classes.
unfoldable pub write_unlocked : Bytes → Target → Outputs → Outputs
write_unlocked text = on_target (write_sink text)

-- `flushUnlocked` of the two classes.
unfoldable pub flush_unlocked : Target → Outputs → Outputs
flush_unlocked = on_target flush_sink

-- `syncUnlocked`: to the terminal it is a flush.
unfoldable pub sync_unlocked : Target → Outputs → Outputs
unfolding flush_unlocked
sync_unlocked stdout o = flush_unlocked stdout o
sync_unlocked (file h) o = on_target sync_sink (file h) (flush_unlocked (file h) o)

-- A call that may throw `std::system_error` where it locks the mutex.
pub data Locked : Type 0 where
  unlocked : Outputs → Locked
  system_error : Outputs → Locked

abbrev pub append_failed_message : Bytes
append_failed_message = codes "pans logger: appender operation failed\n"

-- `sizeof(message)`, for a `std::string_view`: a pointer and a length, of eight bytes each.
abbrev pub size_of_string_view : ℕ
size_of_string_view = 16

abbrev pub is_fatal : Level → Bool
is_fatal fatal = true
is_fatal _ = false

module _ (locks : ℕ → Bool) where
  -- `Appender::Impl::append`.
  unfoldable pub append : ℕ → Level → Bytes → Outputs → Outputs
  unfolding write_unlocked flush_unlocked
  append id level text o =
      let impl = o.impls id in
      if ltb (to_u8 level) (to_u8 impl.level)
      then o
      else if locks id
      then (if is_fatal level
          then flush_unlocked impl.target (write_unlocked text impl.target o)
          else write_unlocked text impl.target o)
      else record o {
        error_output = o.error_output ++ take size_of_string_view append_failed_message;
      }

  -- `AppenderAccess::Append`: a null pointer is passed over.
  unfoldable pub append_to : Option ℕ → Level → Bytes → Outputs → Outputs
  unfolding append
  append_to none level text o = o
  append_to (some id) level text o = append id level text o

  -- `Appender::flush`.
  unfoldable pub flush : ℕ → Outputs → Locked
  unfolding flush_unlocked
  flush id o = if locks id then unlocked (flush_unlocked (o.impls id).target o) else system_error o

  -- `Appender::sync`.
  unfoldable pub sync : ℕ → Outputs → Locked
  unfolding sync_unlocked
  sync id o = if locks id then unlocked (sync_unlocked (o.impls id).target o) else system_error o

-- `Appender::setLevel` and `getLevel`.
abbrev pub set_level : ℕ → Level → Outputs → Outputs
set_level id level o = record o {
  impls = update o.impls id (record (o.impls id) { level = level });
}

abbrev pub get_level : ℕ → Outputs → Level
get_level id o = (o.impls id).level

-- What making an appender ends with.
pub data Made : Type 0 where
  made : ℕ → Outputs → Made
  invalid_argument : Made
  open_failed : Made

abbrev pub add_impl : Target → Outputs → Outputs
add_impl target o = record o {
  impls = update o.impls o.impl_count (record { target = target; level = Level.debug });
  impl_count = suc o.impl_count;
}

-- `MakeStdoutAppender`.
unfoldable pub make_stdout_appender : Outputs → Made
make_stdout_appender o = made o.impl_count (add_impl stdout o)

-- `MakeFileAppender`, with the constructor of `FileAppenderImpl`: `opens` says whether `fopen` gives
-- a stream, which appends to the file from an empty buffer.
unfoldable pub make_file_appender : (Bytes → Bool) → Bytes → Outputs → Made
make_file_appender opens file_name o =
    if is_empty file_name
    then invalid_argument
    else if opens file_name
    then made o.impl_count (
        add_impl (file o.file_count) (record o {
          files = update o.files o.file_count empty_sink;
          file_count = suc o.file_count;
        }))
    else open_failed

-- The destructor of `FileAppenderImpl`: what is buffered goes to the system, and the file is closed.
abbrev pub close_file : ℕ → Outputs → Outputs
close_file h = on_target flush_sink (file h)
