-- ===== src/Dispatch/Handlers.antt =====
-- server/src/command/command_dispatcher.cpp, the handlers. A handler answers or lets an exception
-- through; the database keeps what was done before.
use redis_like.Prelude.Numbers.{stoi}
use redis_like.Protocol.Response.{
  Response, Responses, nil, cons, simple_string, error, integer, bulk_string, array,
}
use redis_like.Store.Members.{zadd, zrem, zscore, zrank, zcard, zrange, zall}
use redis_like.Store.Objects.{Bytes, Double, Database, Value}
use redis_like.Store.Strings.{get, set, del}
use redis_like.Store.Zsets.{exsit, create, zdel, deref_value, put_value}
use redis_like.Prelude.{
  ℕ, Bool, false, if◌then◌else◌, none, some, List, [], ◌∷◌, Run, ok, throw, undefined, ◌>>=◌,
  get_elem?, pos, negsuc, bytes,
}

-- How a handler ends: with a response, or with a `std::exception` of this text.
pub data Outcome : Type 0 where
  answered : Response → Outcome
  raised : Bytes → Outcome

-- `args[i]`
abbrev pub arg : List Bytes → ℕ → Run Bytes
arg args i = elim (get_elem? args i) [ none ↦ undefined | some a ↦ ok a ]

-- `success ? 1 : -1`
abbrev pub one_or_minus : Bool → Response
one_or_minus success = integer (if success then pos 1 else negsuc 0)

-- A conversion that may throw, with the database as it stands.
abbrev pub converted {ℓ} : {A B : Type ℓ} → Run A → B → (A → Run (Outcome × B)) → Run (Outcome × B)
converted (ok a) db f = f a
converted (throw e) db f = ok (raised e, db)
converted undefined db f = undefined

module _ {Score : Type 0} where
  unfoldable pub handle_get : List Bytes → Database Score → Run (Outcome × Database Score)
  handle_get args db = do
    key ← arg args 1
    (value, db') ← get db key
    ok (answered (bulk_string value), db')

  unfoldable pub handle_set : List Bytes → Database Score → Run (Outcome × Database Score)
  handle_set args db = do
    key ← arg args 1
    value ← arg args 2
    (_, db') ← set db key value
    ok (answered (simple_string (bytes "OK")), db')

  unfoldable pub handle_del : List Bytes → Database Score → Run (Outcome × Database Score)
  handle_del args db = do
    key ← arg args 1
    (success, db') ← del db key
    ok (answered (one_or_minus success), db')

  -- `exsit`, and `create` where there is no set, as every handler of the sets starts.
  unfoldable pub open_zset : Database Score → Bytes → Run (ℕ × Database Score)
  open_zset db key = do
    (found, db') ← exsit db key
    elim found [ some a ↦ ok (a, db') | none ↦ create db' key ]

  -- A call on `*value`, with the value it leaves.
  unfoldable pub with_value {ℓ} :
      {A : Type ℓ}
      → Database Score
      → ℕ
      → (Value Score → Run (A × Value Score))
      → Run (A × Database Score)
  with_value db a f = do v ← deref_value db a; (x, v') ← f v; db' ← put_value db a v'; ok (x, db')

  unfoldable pub handle_zadd :
      Double Score → List Bytes → Database Score → Run (Outcome × Database Score)
  unfolding open_zset with_value
  handle_zadd double args db = do
    key ← arg args 1
    (a, db') ← open_zset db key
    text ← arg args 2
    converted (double.stod text) db' (λ score. do
      member ← arg args 3
      (success, db'') ← with_value db' a (λ v. zadd double v score member)
      ok (answered (one_or_minus success), db''))

  unfoldable pub handle_zrem : List Bytes → Database Score → Run (Outcome × Database Score)
  unfolding open_zset with_value
  handle_zrem args db = do
    key ← arg args 1
    (a, db') ← open_zset db key
    member ← arg args 2
    (success, db'') ← with_value db' a (λ v. zrem v member)
    ok (answered (one_or_minus success), db'')

  unfoldable pub handle_zscore :
      Double Score → List Bytes → Database Score → Run (Outcome × Database Score)
  unfolding open_zset with_value
  handle_zscore double args db = do
    key ← arg args 1
    (a, db') ← open_zset db key
    member ← arg args 2
    (score, db'') ← with_value db' a (λ v. zscore v member)
    elim score [
      | some s ↦ ok (answered (simple_string (double.to_string s)), db'')
      | none ↦ ok (answered (error (bytes "nil()")), db'')
    ]

  unfoldable pub handle_zrank : List Bytes → Database Score → Run (Outcome × Database Score)
  unfolding open_zset with_value
  handle_zrank args db = do
    key ← arg args 1
    (a, db') ← open_zset db key
    member ← arg args 2
    (rank, db'') ← with_value db' a (λ v. zrank v member)
    elim rank [
      | some r ↦ ok (answered (integer r), db'')
      | none ↦ ok (answered (error (bytes "nil()")), db'')
    ]

  unfoldable pub handle_zcard : List Bytes → Database Score → Run (Outcome × Database Score)
  unfolding open_zset
  handle_zcard args db = do
    key ← arg args 1
    (a, db') ← open_zset db key
    v ← deref_value db' a
    ok (answered (integer (zcard v)), db')

  -- The loops of `handle_zrange` and `handle_zall`: each entry is two responses, name and score.
  unfoldable pub listed : Double Score → List (Bytes × Score) → Responses
  listed double [] = nil
  listed double ((name, score) ∷ items) =
      cons (bulk_string name) (cons (simple_string (double.to_string score)) (listed double items))

  unfoldable pub handle_zrange :
      Double Score → List Bytes → Database Score → Run (Outcome × Database Score)
  unfolding open_zset listed
  handle_zrange double args db = do
    key ← arg args 1
    (a, db') ← open_zset db key
    min_rank ← arg args 2
    max_rank ← arg args 3
    converted (stoi min_rank) db' (λ lo. converted (stoi max_rank) db' (λ hi. do
      v ← deref_value db' a
      result ← zrange v lo hi
      ok (answered (array false (listed double result)), db')))

  unfoldable pub handle_zall :
      Double Score → List Bytes → Database Score → Run (Outcome × Database Score)
  unfolding open_zset listed
  handle_zall double args db = do
    key ← arg args 1
    (a, db') ← open_zset db key
    v ← deref_value db' a
    result ← zall v
    ok (answered (array false (listed double result)), db')

  unfoldable pub handle_zdel : List Bytes → Database Score → Run (Outcome × Database Score)
  handle_zdel args db = do
    key ← arg args 1
    (success, db') ← zdel db key
    ok (answered (if success then simple_string (bytes "成功") else error (bytes "nil()")), db')
