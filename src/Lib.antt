-- ===== src/Lib.antt =====
-- A model of pans, a logging library in C++, and of its string and lock utilities.
--
-- A logger filters a record by level, formats it with a parsed pattern to a small buffer and hands
-- the text to its appenders, or hands the record to the root logger where it has none. An appender
-- filters by its own level and writes to the standard output or to a file. The manager keeps the
-- loggers by name and links each to the root logger.
--
-- The files, and the code that they model:
--   LogLevel    pans/src/Logger/Log_level.cc: LogLevel::ToString and LogLevel::FromString.
--   Buffer      pans/src/Logger/buffer.h: InlineBuffer; Buffer/Stream: SmallStreamBuffer.
--   Macros      pans/include/pans/macros.h: the assertions, in a debug and in a release build.
--   Record      pans/src/Logger/log_record.h: LogRecordView.
--   Decimal     the digits that std::to_chars and MicrosecondsFormatItem write.
--   Formatter   pans/src/Logger/formatter.cc: the items of a pattern and Formatter::format;
--               Formatter/Pattern: Formatter::parse and the constructor.
--   Appender    pans/src/Logger/apender.cc: Appender::Impl, its two classes and their makers;
--               Appender/Threads: one appender that threads share, a step at a time.
--   Logger      pans/src/Logger/Logger.cc: Logger::Impl; Logger/Manager: LoggerManager;
--               Logger/Manager/Threads: the manager that threads share, a step at a time;
--               Logger/Threads: one logger that threads share, a step at a time;
--               Logger/Client: the public methods, as a client calls them by names;
--               Logger/Client/Logging: clients that log, down to the streams.
--   LogLine     pans/src/Logger/LogLine.cc and the macros of pans/include/pans/Logger/Log.h.
--               LogLine/Assertion: the record of an assertion that fails in an item.
--   TypeName    pans/include/pans/type_name.h: ExtractTypeName.
--   Utf         pans/src/utils/string_utils.cc: WStringToString and StringToWString.
--   SpinLock    pans/include/pans/mutex.h: SpinLock, for any number of threads.
--   Backtrace   pans/src/utils/system_utils.cc: GetBacktrace and what it calls.
--   ThreadName  pans/src/utils/thread_utils.cc: the names of threads, on each platform.
--   Base        shared names and lemmas on lists, bytes, integers, bits and turns of threads.
-- Most files in a folder hold theorems on the module of the folder's name; the files Tests hold runs,
-- and the files Samples the values for these.
--
-- State is passed explicitly: a buffer, the outputs of the appenders, the world of the loggers and the
-- manager are records, and an operation gives the record afterwards. A pointer to a logger or an
-- appender is its place in a heap. An exception or an abort is a constructor of the result. Text is
-- a list of bytes, a wide text a list of code units.
--
-- Parameters: the allocator behind a vector (which requests are granted, and how a vector grows),
-- localtime_r, strftime and vsnprintf, the clocks and the ids of a thread, the calls that a system has
-- for the names of threads, the frames and symbols of a stack, the demangler and libdwfl, whether a
-- mutex can be locked, and whether a file can be opened.
--
-- Fuel: Formatter::parse runs on fuel that the length of the pattern gives, and shouldLog and submit
-- on fuel for the links to root loggers, of which there is one at most behind a logger of the manager;
-- in LogLine/Assertion and in Logger/Client also for the records of failed assertions, which may be
-- without an end: there a submit has fuel for itself, the root logger and one such record.
--
-- A failed assertion logs a record to the root logger. Logger.submit leaves that out; with it, submit
-- is submit_logging in LogLine/Assertion, which the methods in Logger/Client use. In Logger/Threads
-- it is a step to undefined behaviour, since the thread locks the root logger's mutex twice.
--
-- Not modelled: the records that failed assertions log in GetLogger for an empty name, in the
-- constructor of the manager and in the string utilities (such an assertion is noted as failed, and
-- ends a debug build); threads in the manager,
-- in loggers and in appenders all at once, since each of the three has a model of its own with
-- threads, in which the parts below do a call as a whole; short writes of the C library; failed
-- allocations of the converted strings; the headers that only declare; GetElapsedTime and GetThreadId,
-- which only ask the system.
pub mod Base
pub mod LogLevel
pub mod Buffer
pub mod Macros
pub mod Record
pub mod Decimal
pub mod Formatter
pub mod Appender
pub mod Logger
pub mod Utf
pub mod SpinLock
pub mod TypeName
pub mod LogLine
pub mod Backtrace
pub mod ThreadName
