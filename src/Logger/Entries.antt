-- ===== src/Logger/Entries.antt =====
-- A call of `log` in server/src/utils/logger/logger.cpp writes its line to the file of the day.
use redis_like.Logger.{
  code_of, LogLevel, debug, info, warning, error, fatal, Files, Logger, Clock, should_log,
  level_to_string, get_file_name, append_file, log_entry, write_entry, ensure_file_open, log,
}
use redis_like.Store.Contents.{eq_of_same_bytes, same_bytes_refl}
use redis_like.Store.Objects.{Bytes, same_bytes}
use redis_like.Prelude.{
  leb, ap, subst, if◌then◌else◌, Bool, true, false, ◌&&◌, none, some, List, [], ◌∷◌, ◌++◌,
  append-nil, append_assoc, ◌≡◌, ◌≢◌, refl, sym, ◌∙◌, inl, inr, bytes, Bool-cases,
}

-- A call of `log`, with the clocks that it reads and what an attempt to open the file comes to.
pub record Call : Type 0 where
  pub level : LogLevel
  pub message : Bytes
  pub opened : Clock
  pub opens : Bool
  pub now : Clock

-- The levels from the lowest one of the configuration on.
abbrev pub at_least : LogLevel → LogLevel → Bool
at_least debug level = true
at_least info debug = false
at_least info info = true
at_least info warning = true
at_least info error = true
at_least info fatal = true
at_least warning debug = false
at_least warning info = false
at_least warning warning = true
at_least warning error = true
at_least warning fatal = true
at_least error debug = false
at_least error info = false
at_least error warning = false
at_least error error = true
at_least error fatal = true
at_least fatal debug = false
at_least fatal info = false
at_least fatal warning = false
at_least fatal error = false
at_least fatal fatal = true

abbrev pub label : LogLevel → Bytes
label debug = bytes "] [DEBUG]: "
label info = bytes "] [INFO]: "
label warning = bytes "] [WARNING]: "
label error = bytes "] [ERROR]: "
label fatal = bytes "] [FATAL]: "

-- The line of a call: `[time] [LEVEL]: message`.
abbrev pub line : Call → Bytes
line call = 91 ∷ call.now.timestamp ++ label call.level ++ call.message ++ (10 ∷ [])

-- The lines of the calls whose level is high enough, in order.
abbrev pub lines : LogLevel → List Call → Bytes
lines lowest [] = []
lines lowest (call ∷ calls) =
    (if at_least lowest call.level then line call else []) ++ lines lowest calls

-- The calls, in order.
abbrev pub log_all : Logger → List Call → Logger
log_all l [] = l
log_all l (call ∷ calls) =
    log_all (log l call.level call.message call.opened call.opens call.now) calls

-- The name of the file of a day.
abbrev pub IsOf : Bytes → Call → Type 0
IsOf day call = bytes "../src/utils/log/" ++ call.opened.date ≡ day

should_log-at_least :
    (l : Logger) (level : LogLevel) → should_log l level ≡ at_least l.config.level level
unfolding should_log
should_log-at_least l level = by_table l.config.level level
  where
    by_table :
        (lowest level : LogLevel) → leb (code_of lowest) (code_of level) ≡ at_least lowest level
    by_table debug debug = refl
    by_table debug info = refl
    by_table debug warning = refl
    by_table debug error = refl
    by_table debug fatal = refl
    by_table info debug = refl
    by_table info info = refl
    by_table info warning = refl
    by_table info error = refl
    by_table info fatal = refl
    by_table warning debug = refl
    by_table warning info = refl
    by_table warning warning = refl
    by_table warning error = refl
    by_table warning fatal = refl
    by_table error debug = refl
    by_table error info = refl
    by_table error warning = refl
    by_table error error = refl
    by_table error fatal = refl
    by_table fatal debug = refl
    by_table fatal info = refl
    by_table fatal warning = refl
    by_table fatal error = refl
    by_table fatal fatal = refl

label-level_to_string :
    (level : LogLevel) → label level ≡ bytes "] [" ++ level_to_string level ++ bytes "]: "
unfolding level_to_string bytes
label-level_to_string debug = refl
label-level_to_string info = refl
label-level_to_string warning = refl
label-level_to_string error = refl
label-level_to_string fatal = refl

log_entry-line : (call : Call) → log_entry call.now call.level call.message ≡ line call
unfolding log_entry bytes
log_entry-line call = rw (label-level_to_string call.level) (simp append_assoc)

append_file-append :
    (files : Files) (name entry other : Bytes)
    → append_file files name entry other
      ≡ files other ++ (if same_bytes name other then entry else [])
unfolding append_file
append_file-append files name entry other = elim (Bool-cases (same_bytes name other)) [
  | inl same ↦ rw (append_file, same) refl
  | inr apart ↦ rw (append_file, apart) (sym (append-nil (files other)))
]

pub if_empty : (b : Bool) → if◌then◌else◌ {A = Bytes} b [] [] ≡ []
if_empty true = refl
if_empty false = refl

-- It is this day for the logger, and whether the file of the day opened.
abbrev pub IsDay : Logger → Bytes → Bool → Type 0
IsDay l day is_open = (l.current_filename ≡ day) × (l.out ≡ (if is_open then some day else none))

-- What is added to a file where `added` goes to the file of the day.
abbrev pub gain : Bytes → Bool → Bytes → Bytes → Bytes
gain day is_open name added = if is_open && same_bytes day name then added else []

pub gain-append :
    (day : Bytes) (is_open : Bool) (name a b : Bytes)
    → gain day is_open name a ++ gain day is_open name b ≡ gain day is_open name (a ++ b)
gain-append day is_open name a b = elim (Bool-cases (is_open && same_bytes day name)) [
  | inl to_it ↦ rw to_it refl
  | inr away ↦ rw away refl
]

-- What a call leaves of a logger.
abbrev pub Adds : Logger → Bytes → Bool → Bytes → Bytes → Logger → Type 0
Adds l day is_open name added r =
    IsDay r day is_open
    × (r.config ≡ l.config)
    × (r.files name ≡ l.files name ++ gain day is_open name added)

write_entry-Adds :
    (l : Logger) (entry day : Bytes) (is_open : Bool) (name : Bytes)
    → IsDay l day is_open
    → Adds l day is_open name entry (write_entry l entry)
unfolding write_entry
write_entry-Adds l entry day true name (current, out) =
    rw (write_entry, out) ((current, out), refl, append_file-append l.files day entry name)
write_entry-Adds l entry day false name (current, out) =
    rw (write_entry, out) ((current, out), refl, sym (append-nil (l.files name)))

-- Neither the files nor the configuration change when a file is opened.
ensure_file_open-same :
    (l : Logger) (clock : Clock) (opens : Bool)
    → ((ensure_file_open l clock opens).files ≡ l.files)
      × ((ensure_file_open l clock opens).config ≡ l.config)
unfolding ensure_file_open
ensure_file_open-same l clock opens =
    elim (Bool-cases (same_bytes (get_file_name clock) l.current_filename)) [
      | inl same ↦ rw (ensure_file_open, same) (refl, refl)
      | inr new ↦ rw (ensure_file_open, new) (refl, refl)
    ]

-- On a new day the file is tried.
pub ensure_file_open_new :
    (l : Logger) (clock : Clock) (opens : Bool)
    → get_file_name clock ≢ l.current_filename
    → IsDay (ensure_file_open l clock opens) (get_file_name clock) opens
unfolding ensure_file_open
ensure_file_open_new l clock opens ne =
    elim (Bool-cases (same_bytes (get_file_name clock) l.current_filename)) [
      | inl same ↦ absurd (ne (eq_of_same_bytes (get_file_name clock) l.current_filename same))
      | inr new ↦ rw (ensure_file_open, new) (refl, refl)
    ]

-- On the same day it is not tried again, whether or not it is open.
pub ensure_file_open_again :
    (l : Logger) (clock : Clock) (opens : Bool)
    → get_file_name clock ≡ l.current_filename
    → ensure_file_open l clock opens ≡ l
unfolding ensure_file_open
ensure_file_open_again l clock opens e =
    let same : same_bytes (get_file_name clock) l.current_filename ≡ true =
      ap (λ n. same_bytes n l.current_filename) e ∙ same_bytes_refl l.current_filename in
    rw (ensure_file_open, same) refl

-- A call whose level is high enough, once the file of its day was tried.
pub log-Adds :
    (l : Logger) (call : Call) (day : Bytes) (is_open : Bool) (name : Bytes)
    → at_least l.config.level call.level ≡ true
    → IsDay (ensure_file_open l call.opened call.opens) day is_open
    → Adds l day is_open name
        (line call)
        (log l call.level call.message call.opened call.opens call.now)
unfolding log
log-Adds l call day is_open name high today =
    let logs = should_log-at_least l call.level ∙ high in
    let l' = ensure_file_open l call.opened call.opens in
    let step =
      ap (λ b. if b then write_entry l' (log_entry call.now call.level call.message) else l) logs
      ∙ ap (write_entry l') (log_entry-line call) in
    let (files, config) = ensure_file_open-same l call.opened call.opens in
    let (today', config', files') = write_entry-Adds l' (line call) day is_open name today in
    subst (Adds l day is_open name (line call)) (sym step) (
      today',
      config' ∙ config,
      files' ∙ ap (λ f. f name ++ gain day is_open name (line call)) files,
    )

-- A call whose level is too low.
pub log_low :
    (l : Logger) (call : Call)
    → at_least l.config.level call.level ≡ false
    → log l call.level call.message call.opened call.opens call.now ≡ l
unfolding log
log_low l call low =
    let quiet = should_log-at_least l call.level ∙ low in
    ap
      (λ b.
        if b
        then write_entry (ensure_file_open l call.opened call.opens)
            (log_entry call.now call.level call.message)
        else l)
      quiet
