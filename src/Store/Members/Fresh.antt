-- ===== src/Store/Members/Fresh.antt =====
-- The sorted set that `new Value()` of server/src/data_structures/zset.cpp makes.
use redis_like.Avl.{leaf}
use redis_like.HashTable.Map.Valid.{tally, new_map-IsValid}
use redis_like.HashTable.Tab.Slots.{is}
use redis_like.Store.Members.Ordered.{IsOrderedSet}
use redis_like.Store.Members.Ranking.{ranking}
use redis_like.Store.Objects.{Double, new_value}
use redis_like.Prelude.{true, false, none, [], ◌≡◌, ◌==◌, refl, arith, Returns}

-- A new set is in order and empty.
pub new_value-IsOrderedSet :
    {Score : Type 0} (double : Double Score)
    → Returns new_value
        λ v. IsOrderedSet double v × (ranking v ≡ []) × (tally v.hmap (λ _. true) ≡ 0)
unfolding new_value
new_value-IsOrderedSet double =
    let (m, run, (valid, z)) = new_map-IsValid in
    (
      record { hmap = m; tree = leaf; entries = λ _. none; next = 0 },
      rw run refl,
      (
        record {
          table = record {
            valid = valid;
            live = λ n k. absurd (omega (arith, z (is n)));
            below = λ n k. absurd (omega (arith, z (is n)));
            once = λ key. omega (arith, z (λ _. false));
          };
          cached = tt;
          sorted = tt;
          numbered = tt;
          same = λ a. omega (arith, z (λ n. n.object == a));
          sized = omega (arith, z (λ _. true));
        },
        refl,
        z (λ _. true),
      ),
    )
