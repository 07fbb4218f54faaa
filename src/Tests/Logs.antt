-- ===== src/Tests/Logs.antt =====
-- A concrete day for server/src/utils/logger/logger.cpp.
use redis_like.Logger.{LogConfig, Logger, Clock, info, warning, error}
use redis_like.Logger.Entries.{Call, lines, log_all}
use redis_like.Logger.Days.{log_all-day}
use redis_like.Store.Objects.{Bytes, same_bytes}
use redis_like.Prelude.{
  true, false, ◌&&◌, none, List, [], ◌∷◌, ◌++◌, ◌≡◌, ◌≢◌, refl, bytes, if◌then◌else◌,
}

abbrev warnings : LogConfig
warnings = record { level = warning; output_to_console = true; max_file_size = 10485760 }

abbrev before_start : Logger
before_start = record {
  out = none;
  config = warnings;
  current_filename = [];
  console = [];
  files = λ _. [];
}

abbrev first_day : Clock
first_day = record { date = 49 ∷ []; timestamp = 49 ∷ [] }

abbrev first_call : Call
first_call = record {
  level = error;
  message = 97 ∷ [];
  opened = first_day;
  opens = true;
  now = first_day;
}

-- The information is dropped.
abbrev later_calls : List Call
later_calls =
    record { level = info; message = 98 ∷ []; opened = first_day; opens = false; now = first_day }
    ∷ record {
      level = warning;
      message = 99 ∷ [];
      opened = first_day;
      opens = false;
      now = first_day;
    }
    ∷ []

abbrev first_name : Bytes
unfolding bytes
first_name = bytes "../src/utils/log/" ++ (49 ∷ [])

first_name-named : first_name ≢ []
unfolding bytes
first_name-named e = cc

log_all-day_example :
    (log_all before_start (first_call ∷ later_calls)).files first_name
    ≡ []
      ++ (if true && same_bytes first_name first_name
          then lines warning (first_call ∷ later_calls)
          else [])
unfolding first_name bytes
log_all-day_example =
    log_all-day before_start first_call later_calls first_name first_name refl first_name-named refl
      (refl, (refl, tt))
