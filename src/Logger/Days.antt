-- ===== src/Logger/Days.antt =====
-- What one day adds to the files of the log in server/src/utils/logger/logger.cpp.
use redis_like.Logger.Entries.{
  Call, at_least, line, lines, log_all, IsOf, if_empty, IsDay, gain, gain-append,
  ensure_file_open_new, ensure_file_open_again, log-Adds, log_low,
}
use redis_like.Logger.{Logger, get_file_name, ensure_file_open, log}
use redis_like.Store.Objects.{Bytes, same_bytes}
use redis_like.Prelude.{
  ap, subst, if◌then◌else◌, Bool, true, ◌&&◌, List, [], ◌∷◌, ◌++◌, append-nil, append_assoc, ◌≡◌,
  ◌≢◌, refl, sym, ◌∙◌, inl, inr, All, Bool-cases,
}

get_file_name-IsOf : (day : Bytes) (call : Call) → IsOf day call → get_file_name call.opened ≡ day
unfolding get_file_name
get_file_name-IsOf day call e = e

-- What a call wrote, and then the later ones.
then_lines :
    (l l' : Logger) (call : Call) (calls : List Call) (day : Bytes) (is_open : Bool) (name : Bytes)
    → at_least l.config.level call.level ≡ true
    → l'.config ≡ l.config
    → l'.files name ≡ l.files name ++ gain day is_open name (line call)
    → l'.files name ++ gain day is_open name (lines l'.config.level calls)
      ≡ l.files name ++ gain day is_open name (lines l.config.level (call ∷ calls))
then_lines l l' call calls day is_open name high config files =
    let more = lines l.config.level calls in
    let all : line call ++ more ≡ lines l.config.level (call ∷ calls) = rw high refl in
    ap (λ c. l'.files name ++ gain day is_open name (lines c.level calls)) config
    ∙ ap (λ w. w ++ gain day is_open name more) files
    ∙ append_assoc (l.files name) (gain day is_open name (line call)) (gain day is_open name more)
    ∙ ap (λ w. l.files name ++ w)
        (gain-append day is_open name (line call) more ∙ ap (gain day is_open name) all)

-- The later calls of the day.
log_all-later :
    (calls : List Call) (l : Logger) (day : Bytes) (is_open : Bool) (name : Bytes)
    → IsDay l day is_open
    → All (IsOf day) calls
    → (log_all l calls).files name
      ≡ l.files name ++ gain day is_open name (lines l.config.level calls)
log_all-later [] l day is_open name today k =
    sym (append-nil (l.files name))
    ∙ ap (λ w. l.files name ++ w) (sym (if_empty (is_open && same_bytes day name)))
log_all-later (call ∷ calls) l day is_open name today (own, k) =
    elim (Bool-cases (at_least l.config.level call.level)) [
      | inr low ↦
          let skip : lines l.config.level (call ∷ calls) ≡ lines l.config.level calls =
            rw low refl in
          ap (λ r. (log_all r calls).files name) (log_low l call low)
          ∙ log_all-later calls l day is_open name today k
          ∙ ap (λ w. l.files name ++ gain day is_open name w) (sym skip)
      | inl high ↦
          let again =
            ensure_file_open_again l call.opened call.opens
              (get_file_name-IsOf day call own ∙ sym today.0) in
          let l' = log l call.level call.message call.opened call.opens call.now in
          let (today', config, files) =
            log-Adds l call day is_open name high
              (subst (λ r. IsDay r day is_open) (sym again) today) in
          log_all-later calls l' day is_open name today' k
          ∙ then_lines l l' call calls day is_open name high config files
    ]

-- The calls of a day that is not the logger's, of which the first one has a high enough level. Where
-- the file of the day opens then, the calls add their lines to it, in order, those of a level from
-- the configured one on; where it does not open then, they add nothing, whatever a later attempt
-- would come to. No other file changes.
pub log_all-day :
    (l : Logger) (call : Call) (calls : List Call) (day name : Bytes)
    → at_least l.config.level call.level ≡ true
    → day ≢ l.current_filename
    → IsOf day call
    → All (IsOf day) calls
    → (log_all l (call ∷ calls)).files name
      ≡ l.files name
        ++ (if call.opens && same_bytes day name then lines l.config.level (call ∷ calls) else [])
log_all-day l call calls day name high new own k =
    let l' = log l call.level call.message call.opened call.opens call.now in
    let its = get_file_name-IsOf day call own in
    let tried =
      subst (λ d. IsDay (ensure_file_open l call.opened call.opens) d call.opens) its
        (ensure_file_open_new l call.opened call.opens (λ e. new (sym its ∙ e))) in
    let (today', config, files) = log-Adds l call day call.opens name high tried in
    log_all-later calls l' day call.opens name today' k
    ∙ then_lines l l' call calls day call.opens name high config files
