-- ===== src/Logger.antt =====
-- server/src/utils/logger/logger.h and logger.cpp: the log, a file for each day and the console.
pub mod Entries
pub mod Days
use redis_like.Store.Objects.{Bytes, same_bytes}
use redis_like.Prelude.{
  ℕ, leb, if◌then◌else◌, Bool, true, false, Option, none, some, List, [], ◌∷◌, ◌++◌, bytes,
}

pub data LogLevel : Type 0 where
  debug : LogLevel
  info : LogLevel
  warning : LogLevel
  error : LogLevel
  fatal : LogLevel

pub record LogConfig : Type 0 where
  pub level : LogLevel
  pub output_to_console : Bool
  pub max_file_size : ℕ

-- The contents of each file, by its name.
abbrev pub Files : Type 0
Files = Bytes → Bytes

-- The static members, and what they write to: `out` is the name of the file that is open.
pub record Logger : Type 0 where
  pub out : Option Bytes
  pub config : LogConfig
  pub current_filename : Bytes
  pub console : Bytes
  pub files : Files

-- What `strftime` makes of the time for the name of a file, and `put_time` for an entry.
pub record Clock : Type 0 where
  pub date : Bytes
  pub timestamp : Bytes

-- `static_cast<int>`
abbrev pub code_of : LogLevel → ℕ
code_of debug = 0
code_of info = 1
code_of warning = 2
code_of error = 3
code_of fatal = 4

unfoldable pub should_log : Logger → LogLevel → Bool
should_log l level = leb (code_of l.config.level) (code_of level)

unfoldable pub level_to_string : LogLevel → Bytes
unfolding bytes
level_to_string debug = bytes "DEBUG"
level_to_string info = bytes "INFO"
level_to_string warning = bytes "WARNING"
level_to_string error = bytes "ERROR"
level_to_string fatal = bytes "FATAL"

-- "redis_%Y_%m_%d.log" of the time, below the directory of the logs.
unfoldable pub get_file_name : Clock → Bytes
unfolding bytes
get_file_name clock = bytes "../src/utils/log/" ++ clock.date

-- What `cout` gets: the name, and a line where the file is open.
abbrev pub file_notice : Bytes → Bool → Bytes
unfolding bytes
file_notice name is_open =
    bytes "文件名" ++ name ++ (10 ∷ []) ++ (if is_open then bytes "成功打开文件" ++ (10 ∷ []) else [])

-- `out << log_entry`
unfoldable pub append_file : Files → Bytes → Bytes → Files
unfolding same_bytes
append_file files name entry other =
    if same_bytes name other then files other ++ entry else files other

unfoldable pub shutdown : Logger → Logger
shutdown l = record l { out = none }

-- `log_entry`
unfoldable pub log_entry : Clock → LogLevel → Bytes → Bytes
unfolding bytes level_to_string
log_entry clock level message =
    bytes "["
    ++ clock.timestamp
    ++ bytes "] ["
    ++ level_to_string level
    ++ bytes "]: "
    ++ message
    ++ (10 ∷ [])

-- To the console and to the open file.
unfoldable pub write_entry : Logger → Bytes → Logger
unfolding append_file
write_entry l entry =
    let console' = if l.config.output_to_console then l.console ++ entry else l.console in
    elim l.out [
      | none ↦ record l { console = console' }
      | some name ↦ record l { console = console'; files = append_file l.files name entry }
    ]

-- `opens` is what opening the file to append to it comes to, where that is tried.
unfoldable pub ensure_file_open : Logger → Clock → Bool → Logger
unfolding get_file_name same_bytes
ensure_file_open l clock opens =
    let new_filename = get_file_name clock in
    if same_bytes new_filename l.current_filename then l else record l {
      out = if opens then some new_filename else none;
      current_filename = new_filename;
      console = l.console ++ file_notice new_filename opens;
    }

unfoldable pub init : Logger → LogConfig → Clock → Bool → Logger
unfolding ensure_file_open
init l cfg clock opens = ensure_file_open (record l { config = cfg }) clock opens

-- The clock is read for the name of the file and again for the timestamp.
unfoldable pub log : Logger → LogLevel → Bytes → Clock → Bool → Clock → Logger
unfolding should_log ensure_file_open log_entry write_entry
log l level message opened opens now =
    if should_log l level
    then write_entry (ensure_file_open l opened opens) (log_entry now level message)
    else l

-- `Logger::debug`
abbrev pub log_debug : Logger → Bytes → Clock → Bool → Clock → Logger
log_debug l message opened opens now = log l debug message opened opens now

-- `Logger::info`
abbrev pub log_info : Logger → Bytes → Clock → Bool → Clock → Logger
log_info l message opened opens now = log l info message opened opens now

-- `Logger::warning`
abbrev pub log_warning : Logger → Bytes → Clock → Bool → Clock → Logger
log_warning l message opened opens now = log l warning message opened opens now

-- `Logger::error`
abbrev pub log_error : Logger → Bytes → Clock → Bool → Clock → Logger
log_error l message opened opens now = log l error message opened opens now

-- `Logger::fatal`
abbrev pub log_fatal : Logger → Bytes → Clock → Bool → Clock → Logger
log_fatal l message opened opens now = log l fatal message opened opens now
