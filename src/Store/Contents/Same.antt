-- ===== src/Store/Contents/Same.antt =====
-- A step of the rehashing in server/src/data_structures/hashTable.cpp changes nothing of what the
-- database holds.
use redis_like.HashTable.Map.{HMap}
use redis_like.HashTable.Map.Valid.{tally, Contains, IsValid}
use redis_like.HashTable.Tab.{HNode}
use redis_like.HashTable.Tab.Slots.{is}
use redis_like.Store.Contents.{IsLive, Holds, keyed}
use redis_like.Store.Objects.{Bytes, Table, Keyed}
use redis_like.Prelude.{◌≡◌, Bool, arith}

module _ {A : Type 0} ⦃keys : Keyed A⦄ where
  -- Both databases hold the same objects under the same keys.
  pub record Same (db db' : Table A) : Type 0 where
    pub live : IsLive db'
    pub kept : (key : Bytes) (o : A) → Holds db key o → Holds db' key o
    pub back : (key : Bytes) (o : A) → Holds db' key o → Holds db key o
    pub missing : (key : Bytes) → tally db'.hmap (keyed db' key) ≡ tally db.hmap (keyed db key)

  pub hmap-Same :
      (db : Table A) (m : HMap)
      → IsValid m
      → ((p : HNode → Bool) → tally m p ≡ tally db.hmap p)
      → IsLive db
      → Same db (record db { hmap = m })
  hmap-Same db m v e l = record {
    live = record {
      valid = v;
      live = λ n k. l.live n (old n k);
      below = λ n k. l.below n (old n k);
      once = λ key. omega (arith, e (keyed db key), l.once key);
    };
    kept = λ key o x. record {
      hook = x.hook;
      inside = omega (arith, x.inside, e (is x.hook));
      stands = x.stands;
      named = x.named;
    };
    back = λ key o x. record {
      hook = x.hook;
      inside = old x.hook x.inside;
      stands = x.stands;
      named = x.named;
    };
    missing = λ key. e (keyed db key);
  }
    where
      old : (n : HNode) → Contains m n → Contains db.hmap n
      old n k = omega (arith, e (is n))
