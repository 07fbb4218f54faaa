-- ===== src/Network/Serving.antt =====
-- `handle_read` of server/src/network/connection.cpp: its loop ends.
use redis_like.Network.Connection.{
  Conntion, buffer_append, buffer_consume, run_request, try_one_request, respond, request_seen,
  k_max_msg,
}
use redis_like.Network.Events.{
  ReadResult, got, end_of_stream, read_delayed, read_failed, WriteResult, took, write_delayed,
  write_failed, handle_write, serve, answer, handle_read, after_write,
}
use redis_like.Protocol.Parser.{Bytes, parser_req}
use redis_like.Protocol.Response.{Response}
use redis_like.Protocol.Words.{of_bytes}
use redis_like.Prelude.{
  ◌>>=◌, sym, ℕ, zero, suc, ◌+◌, ◌-◌, ◌%◌, ◌^◌, ◌≤◌, ◌<◌, ltb, ◌==◌, Bool, true, false, List, [],
  ◌∷◌, ◌≡◌, refl, inl, inr, arith, length, take, drop, Run, ok, throw, undefined, ◌≢◌, ◌⊎◌, ◌∙◌,
  Returns, pos, ltb_ℤ, Bool-cases, some, none, Option,
}

pub length-drop : (n : ℕ) (xs : Bytes) → length (drop n xs) ≡ length xs - n
length-drop zero xs = omega arith
length-drop (suc n) [] = omega arith
length-drop (suc n) (x ∷ xs) = omega (arith, length-drop n xs)

length-buffer_consume : (n : ℕ) (xs : Bytes) → length (buffer_consume xs n) ≡ length xs - n
unfolding buffer_consume
length-buffer_consume n xs = length-drop n xs

-- No write changes the descriptor.
pub handle_write-fd :
    (result : WriteResult) (conn : Conntion) → (handle_write result conn).fd ≡ conn.fd
unfolding handle_write after_write
handle_write-fd result conn = elim (Bool-cases (ltb_ℤ conn.fd (pos 0))) [
  | inl closed ↦ rw (handle_write, closed) refl
  | inr fd ↦ elim (Bool-cases (length conn.write_buffer == 0)) [
    | inl done ↦ rw (handle_write, fd, done) refl
    | inr more ↦ from result fd more
  ]
]
  where
    after : (rv : ℕ) → (after_write conn rv).fd ≡ conn.fd
    after rv = elim (Bool-cases (length (buffer_consume conn.write_buffer (rv % 2 ^ 32)) == 0)) [
      | inl all ↦ rw (after_write, all) refl
      | inr some_left ↦ rw (after_write, some_left) refl
    ]

    from :
        (result : WriteResult)
        → ltb_ℤ conn.fd (pos 0) ≡ false
        → (length conn.write_buffer == 0) ≡ false
        → (handle_write result conn).fd ≡ conn.fd
    from write_delayed fd more = rw (handle_write, fd, more) refl
    from write_failed fd more = rw (handle_write, fd, more) refl
    from (took rv) fd more = rw (handle_write, fd, more) (after rv)

answer-fd : (result : WriteResult) (conn : Conntion) → (answer result conn).fd ≡ conn.fd
unfolding answer
answer-fd result conn = elim (Bool-cases (ltb 0 (length conn.write_buffer))) [
  | inl more ↦
      rw (answer, more) (handle_write-fd result (record conn { is_read = false; is_write = true }))
  | inr done ↦ rw (answer, done) refl
]

-- The connection is the same one, and a request that was served left its buffer.
abbrev Progress : {Db : Type 0} → Conntion → Bool × Conntion × Db → Type 0
Progress conn r =
    (r.1.fd ≡ conn.fd) × (r.0 ≡ true → length r.1.read_buffer < length conn.read_buffer)

-- A request that was not served.
unserved : {Db : Type 0} (conn : Conntion) (db : Db) → Progress conn (false, conn, db)
unserved conn db = (refl, λ h. absurd cc)

module _ {Db : Type 0} (execute : List Bytes → Db → Run (Response × Db)) where
  -- A request in the buffer of the connection is reached whose execution does not return: it is the
  -- first one, or the first one is served and it comes later.
  pub data FaultsIn : Conntion → Db → Type 0 where
    here :
        (conn : Conntion) (db : Db) (len : ℕ) (args : List Bytes)
        → try_one_request execute conn db ≡ run_request execute conn len db
        → parser_req (request_seen conn.read_buffer len) ≡ some args
        → ((r : Response × Db) → execute args db ≢ ok r)
        → FaultsIn conn db
    later :
        (conn : Conntion) (db : Db) (conn' : Conntion) (db' : Db)
        → try_one_request execute conn db ≡ ok (true, conn', db')
        → FaultsIn conn' db'
        → FaultsIn conn db

  -- Bytes came in on an open connection, and after them such a request is reached.
  abbrev pub ReadFaults : ReadResult → Conntion → Db → Type 0
  ReadFaults result conn db =
      (added : Bytes) × (result ≡ got added)
      × (ltb_ℤ conn.fd (pos 0) ≡ false)
      × FaultsIn (record conn { read_buffer = buffer_append conn.read_buffer added }) db

  -- The request that `run_request` reaches does not return.
  abbrev RequestFaults : Conntion → ℕ → Db → Type 0
  RequestFaults conn len db =
      (args : List Bytes) × (parser_req (request_seen conn.read_buffer len) ≡ some args)
      × ((r : Response × Db) → execute args db ≢ ok r)

  execute-cases :
      (args : List Bytes) (db : Db)
      → Returns (execute args db) (λ _. Unit {0}) ⊎ ((r : Response × Db) → execute args db ≢ ok r)
  execute-cases args db = from (execute args db) refl
    where
      from :
          (call : Run (Response × Db))
          → execute args db ≡ call
          → Returns (execute args db) (λ _. Unit {0})
            ⊎ ((r : Response × Db) → execute args db ≢ ok r)
      from (ok r) e = inl (r, e, tt)
      from (throw what) e = inr (λ r k. cc)
      from undefined e = inr (λ r k. cc)

  run_request_returns :
      (conn : Conntion) (len : ℕ) (db : Db)
      → len + 4 ≤ length conn.read_buffer
      → Returns (run_request execute conn len db) (Progress conn) ⊎ RequestFaults conn len db
  unfolding run_request respond
  run_request_returns conn len db h = from (parser_req (request_seen conn.read_buffer len)) refl
    where
      after : Conntion
      after = record conn { read_buffer = buffer_consume conn.read_buffer (len + 4) }

      shorter : length (buffer_consume conn.read_buffer (len + 4)) < length conn.read_buffer
      shorter = omega (arith, length-buffer_consume (len + 4) conn.read_buffer)

      from :
          (parsed : Option (List Bytes))
          → parser_req (request_seen conn.read_buffer len) ≡ parsed
          → Returns (run_request execute conn len db) (Progress conn) ⊎ RequestFaults conn len db
      from none e = inl ((false, after, db), rw (run_request, e) refl, (refl, λ h. absurd cc))
      from (some args) e = elim (execute-cases args db) [
        | inr fault ↦ inr (args, e, fault)
        | inl ((resp, db'), run, _) ↦
            inl
              ((true, respond after resp, db'), rw (run_request, e, run) refl, (refl, λ _. shorter))
      ]

  try_one_request_returns :
      (conn : Conntion) (db : Db)
      → Returns (try_one_request execute conn db) (Progress conn) ⊎ FaultsIn conn db
  unfolding try_one_request
  try_one_request_returns conn db =
      let len = of_bytes (take 4 conn.read_buffer) in
      let kept = unserved conn db in
      elim (Bool-cases (ltb_ℤ conn.fd (pos 0))) [
        | inl closed ↦ inl ((false, conn, db), rw (try_one_request, closed) refl, kept)
        | inr fd ↦ elim (Bool-cases (ltb (length conn.read_buffer) 4)) [
          | inl few ↦ inl ((false, conn, db), rw (try_one_request, fd, few) refl, kept)
          | inr front ↦ elim (Bool-cases (ltb k_max_msg len)) [
            | inl long ↦ inl ((false, conn, db), rw (try_one_request, fd, front, long) refl, kept)
            | inr fits ↦ elim (Bool-cases (ltb (length conn.read_buffer) ((len + 4) % 2 ^ 32))) [
              | inl part ↦
                  inl ((false, conn, db), rw (try_one_request, fd, front, fits, part) refl, kept)
              | inr whole ↦
                  let small : len ≤ k_max_msg = ground arith in
                  let enough : (len + 4) % 2 ^ 32 ≤ length conn.read_buffer = ground arith in
                  elim (run_request_returns conn len db (omega arith)) [
                    | inl (r, run, p) ↦ inl (r, rw (try_one_request, fd, front, fits, whole) run, p)
                    | inr (args, parsed, fault) ↦ inr (
                        here conn db len args (rw (try_one_request, fd, front, fits, whole) refl)
                          parsed fault)
                  ]
            ]
          ]
        ]
      ]

  -- The loop goes on after a request that was served.
  serve_on :
      (fuel : ℕ) (conn : Conntion) (db : Db) (more : Bool) (conn' : Conntion) (db' : Db)
      → try_one_request execute conn db ≡ ok (more, conn', db')
      → conn'.fd ≡ conn.fd
      → (more ≡ true
          → Returns (serve execute fuel conn' db') (λ r. r.0.fd ≡ conn'.fd) ⊎ FaultsIn conn' db')
      → Returns (serve execute (suc fuel) conn db) (λ r. r.0.fd ≡ conn.fd) ⊎ FaultsIn conn db
  unfolding serve
  serve_on fuel conn db true conn' db' run same next = elim (next refl) [
    | inl (r, rest, same') ↦ inl (r, rw (serve, run) rest, same' ∙ same)
    | inr fault ↦ inr (later conn db conn' db' run fault)
  ]
  serve_on fuel conn db false conn' db' run same next =
      inl ((conn', db'), rw (serve, run) refl, same)

  serve_returns :
      (fuel : ℕ) (conn : Conntion) (db : Db)
      → length conn.read_buffer < fuel
      → Returns (serve execute fuel conn db) (λ r. r.0.fd ≡ conn.fd) ⊎ FaultsIn conn db
  serve_returns zero conn db h = absurd (omega arith)
  serve_returns (suc fuel) conn db h = elim (try_one_request_returns conn db) [
    | inl ((more, conn', db'), run, (same, p)) ↦
        serve_on fuel conn db more conn' db' run same
          (λ on. serve_returns fuel conn' db' (omega (arith, p on)))
    | inr fault ↦ inr fault
  ]

  -- A call that does not return leaves nothing to go on with.
  pub bind_not_ok :
      {A B : Type 0} (call : Run A) (next : A → Run B) (r : B)
      → ((a : A) → call ≢ ok a)
      → (call >>= next) ≢ ok r
  bind_not_ok (ok a) next r h e = h a refl
  bind_not_ok (throw what) next r h e = cc
  bind_not_ok undefined next r h e = cc

  run_request_faults :
      (conn : Conntion) (len : ℕ) (db : Db) (args : List Bytes)
      → parser_req (request_seen conn.read_buffer len) ≡ some args
      → ((r : Response × Db) → execute args db ≢ ok r)
      → (r : Bool × Conntion × Db) → run_request execute conn len db ≢ ok r
  unfolding run_request
  run_request_faults conn len db args parsed fault r e =
      bind_not_ok (execute args db) _ r fault (rw (run_request, parsed) at e)

  serve_faults :
      (conn : Conntion) (db : Db)
      → FaultsIn conn db
      → (fuel : ℕ) (r : Conntion × Db) → serve execute fuel conn db ≢ ok r
  unfolding serve
  serve_faults conn db w zero r e = cc
  serve_faults _ _ (here conn db len args run parsed fault) (suc fuel) r e =
      bind_not_ok (try_one_request execute conn db) _ r
        (λ a k. run_request_faults conn len db args parsed fault a (sym run ∙ k)) e
  serve_faults _ _ (later conn db conn' db' run w) (suc fuel) r e =
      serve_faults conn' db' w fuel r (rw run at e)

  -- On every connection and whatever `read` and `write` return: `handle_read` returns and keeps the
  -- descriptor, its loop over the requests in the buffer ending before its fuel does, or bytes came
  -- in and a request is reached in the buffer whose execution does not return; then `handle_read`
  -- does not return.
  pub handle_read_returns :
      (result : ReadResult) (written : WriteResult) (conn : Conntion) (db : Db)
      → (Returns (handle_read execute result written conn db) (λ r. r.0.fd ≡ conn.fd)
          ⊎ ReadFaults result conn db)
        × (ReadFaults result conn db
            → (r : Conntion × Db) → handle_read execute result written conn db ≢ ok r)
  unfolding handle_read
  handle_read_returns result written conn db = (returns, faults)
    where
      from :
          (result : ReadResult)
          → ltb_ℤ conn.fd (pos 0) ≡ false
          → Returns (handle_read execute result written conn db) (λ r. r.0.fd ≡ conn.fd)
            ⊎ ReadFaults result conn db
      from read_delayed fd = inl ((conn, db), rw (handle_read, fd) refl, refl)
      from read_failed fd =
          inl ((record conn { is_close = true }, db), rw (handle_read, fd) refl, refl)
      from end_of_stream fd =
          inl ((record conn { is_close = true }, db), rw (handle_read, fd) refl, refl)
      from (got added) fd =
          let conn1 = record conn { read_buffer = buffer_append conn.read_buffer added } in
          elim (serve_returns (suc (length conn1.read_buffer)) conn1 db (omega arith)) [
            | inr fault ↦ inr (added, refl, fd, fault)
            | inl ((conn2, db'), run, same) ↦ inl (
              (answer written conn2, db'),
              rw (handle_read, fd, run) refl,
              answer-fd written conn2 ∙ same,
            )
          ]

      returns :
          Returns (handle_read execute result written conn db) (λ r. r.0.fd ≡ conn.fd)
          ⊎ ReadFaults result conn db
      returns = elim (Bool-cases (ltb_ℤ conn.fd (pos 0))) [
        | inl closed ↦
            inl ((record conn { is_close = true }, db), rw (handle_read, closed) refl, refl)
        | inr fd ↦ from result fd
      ]

      faults :
          ReadFaults result conn db
          → (r : Conntion × Db) → handle_read execute result written conn db ≢ ok r
      faults (added, came, fd, w) r e =
          let conn1 = record conn { read_buffer = buffer_append conn.read_buffer added } in
          bind_not_ok (serve execute (suc (length conn1.read_buffer)) conn1 db) _ r
            (serve_faults conn1 db w (suc (length conn1.read_buffer))) (rw (came, fd) at e)
