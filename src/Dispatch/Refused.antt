-- ===== src/Dispatch/Refused.antt =====
-- The requests that `execute_command` of server/src/command/command_dispatcher.cpp refuses.
use redis_like.Dispatch.Execute.{
  dispatch, make_error_response, regiser_command, Command, find_command, validate_args,
  register_commands, execute_command,
}
use redis_like.Protocol.Response.{simple_string}
use redis_like.Store.Contents.{eq_of_same_bytes}
use redis_like.Store.Objects.{Bytes, Double, Database, same_bytes}
use redis_like.Prelude.{
  ℕ, ltb, if◌then◌else◌, true, none, some, Option, List, [], ◌∷◌, ◌≡◌, ◌≢◌, refl, ◌⊎◌, ◌||◌, ◌++◌,
  inl, inr, arith, ap, ◌∙◌, sym, length, ok, bytes, Bool-cases,
}

-- The commands, with the number of strings that a request of each has, its name included.
abbrev pub documented : List (Bytes × ℕ)
documented =
    (bytes "ZDEL", 2)
    ∷ (bytes "ZALL", 2)
    ∷ (bytes "ZRANGE", 4)
    ∷ (bytes "ZCARD", 2)
    ∷ (bytes "ZRANK", 3)
    ∷ (bytes "ZSCORE", 3)
    ∷ (bytes "ZREM", 3)
    ∷ (bytes "ZADD", 4)
    ∷ (bytes "DEL", 2)
    ∷ (bytes "SET", 3)
    ∷ (bytes "GET", 2)
    ∷ []

-- The number of strings of a name.
abbrev pub arity : List (Bytes × ℕ) → Bytes → Option ℕ
arity [] name = none
arity ((known, n) ∷ table) name = if same_bytes known name then some n else arity table name

module _ {Score : Type 0} where
  -- A registry holds the commands of a table, in order.
  abbrev Matches : List (Command Score) → List (Bytes × ℕ) → Type 0
  Matches [] [] = Unit
  Matches [] (_ ∷ _) = ⊥
  Matches (_ ∷ _) [] = ⊥
  Matches (cmd ∷ registry) ((known, n) ∷ table) =
      (cmd.name ≡ known) × (cmd.min_args ≡ n) × (cmd.max_args ≡ n) × Matches registry table

  register_commands-Matches :
      (double : Double Score) → Matches (register_commands double) documented
  unfolding register_commands regiser_command
  register_commands-Matches double = (
    refl,
    refl,
    refl,
    (
      refl,
      refl,
      refl,
      (
        refl,
        refl,
        refl,
        (
          refl,
          refl,
          refl,
          (
            refl,
            refl,
            refl,
            (
              refl,
              refl,
              refl,
              (
                refl,
                refl,
                refl,
                (refl, refl, refl, (refl, refl, refl, (refl, refl, refl, (refl, refl, refl, tt)))),
              ),
            ),
          ),
        ),
      ),
    ),
  )

  abbrev Found : List (Command Score) → List (Bytes × ℕ) → Bytes → Type 0
  Found registry table name =
      ((find_command registry name ≡ none) × (arity table name ≡ none))
      ⊎ ((cmd : Command Score) × (find_command registry name ≡ some cmd)
          × (cmd.name ≡ name)
          × (arity table name ≡ some cmd.min_args)
          × (cmd.max_args ≡ cmd.min_args))

  find_command-arity :
      (registry : List (Command Score)) (table : List (Bytes × ℕ)) (name : Bytes)
      → Matches registry table
      → Found registry table name
  unfolding find_command
  find_command-arity [] [] name k = inl (refl, refl)
  find_command-arity [] (_ ∷ _) name k = absurd k
  find_command-arity (_ ∷ _) [] name k = absurd k
  find_command-arity (cmd ∷ registry) ((known, n) ∷ table) name (named, least, most, k) =
      elim (Bool-cases (same_bytes cmd.name name)) [
        | inl same ↦
            let known_same : same_bytes known name ≡ true =
              ap (λ s. same_bytes s name) (sym named) ∙ same in
            inr (
              cmd,
              rw (find_command, same) refl,
              eq_of_same_bytes cmd.name name same,
              rw known_same (ap some (sym least)),
              most ∙ sym least,
            )
        | inr apart ↦
            let known_apart = ap (λ s. same_bytes s name) (sym named) ∙ apart in
            elim (find_command-arity registry table name k) [
              | inl (missing, unknown) ↦
                  inl (rw (find_command, apart) missing, rw known_apart unknown)
              | inr (c, found, its_name, count, exact) ↦
                  inr (c, rw (find_command, apart) found, its_name, rw known_apart count, exact)
            ]
      ]

  validate_args_refused :
      (cmd : Command Score) (args : List Bytes)
      → cmd.max_args ≡ cmd.min_args
      → length args ≢ cmd.min_args
      → validate_args cmd args ≡ some (bytes "'" ++ cmd.name ++ bytes "'命令参数数量不对")
  unfolding validate_args
  validate_args_refused cmd args exact ne =
      let out : (ltb (length args) cmd.min_args || ltb cmd.max_args (length args)) ≡ true =
        ground arith in
      rw out refl

  -- The commands of the program are the eleven of the table, each with its number of strings, and no
  -- others: a request of a name that is not in the table is answered that the command is not known, and
  -- a request of a name in the table with another number of strings that the number is wrong, both
  -- with the name in a simple string; the database stays as it is.
  pub execute_command_refused :
      (double : Double Score) (name : Bytes) (args : List Bytes) (db : Database Score)
      → (arity documented name ≡ none
          → execute_command (register_commands double) (name ∷ args) db
            ≡ ok (simple_string (bytes "未知命令 '" ++ name ++ bytes "'"), db))
        × ((n : ℕ)
            → arity documented name ≡ some n
            → length (name ∷ args) ≢ n
            → execute_command (register_commands double) (name ∷ args) db
              ≡ ok (simple_string (bytes "'" ++ name ++ bytes "'命令参数数量不对"), db))
  unfolding execute_command dispatch make_error_response
  execute_command_refused double name args db =
      elim (find_command-arity (register_commands double) documented name
        (register_commands-Matches double)) [
          | inl (missing, unknown) ↦ (
            λ _. ap (λ found. dispatch found name (name ∷ args) db) missing,
            λ n known ne. absurd cc,
          )
          | inr (cmd, found, named, known, exact) ↦ (
            λ unknown. absurd cc,
            λ n known' ne.
                let same : cmd.min_args ≡ n = cc in
                let wrong : length (name ∷ args) ≢ cmd.min_args = λ e. ne (e ∙ same) in
                ap (λ found. dispatch found name (name ∷ args) db) found
                ∙ rw (dispatch, validate_args_refused cmd (name ∷ args) exact wrong)
                    (ap (λ s. ok (simple_string (bytes "'" ++ s ++ bytes "'命令参数数量不对"), db)) named),
          )
        ]
