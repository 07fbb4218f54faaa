-- ===== src/Store/Contents/Find.antt =====
-- The nodes that a search of a hash table of server/src/data_structures stops at.
use redis_like.HashTable.Map.Valid.{tally, Contains}
use redis_like.HashTable.Tab.{HNode}
use redis_like.HashTable.Tab.Slots.{matches}
use redis_like.Store.Contents.{IsLive, keyed, eq_of_same_bytes, tally-le}
use redis_like.Store.Objects.{Bytes, Table, Keyed, hash, same_bytes}
use redis_like.Prelude.{true, some, ◌≡◌, arith, ap, ◌∙◌}

module _ {A : Type 0} ⦃keys : Keyed A⦄ (db : Table A) (key : Bytes) (l : IsLive db) where
  -- A node that matches is in an object with this key.
  pub match_of :
      (n : HNode)
      → Contains db.hmap n
      → matches (hash key) (keyed db key) n ≡ true
      → (o : A) × (db.objects n.object ≡ some o) × (keys.key_of o ≡ key)
  match_of n k hit =
      let (o, at, h) = l.live n k in
      let same_key : keyed db key n ≡ true = ground arith in
      let named : same_bytes (keys.key_of o) key ≡ true = (rw at at same_key) in
      (o, at, eq_of_same_bytes (keys.key_of o) key named)

  -- Every node with the key stands under its hash.
  pub keyed-matches :
      tally db.hmap (matches (hash key) (keyed db key)) ≡ 0 → tally db.hmap (keyed db key) ≡ 0
  keyed-matches z = omega (
    arith,
    tally-le db.hmap (keyed db key) (matches (hash key) (keyed db key)) (λ n k e.
        let (o, at, h) = l.live n k in
        let named : same_bytes (keys.key_of o) key ≡ true = (rw at at e) in
        let same_hash : n.hcode ≡ hash key =
          h ∙ ap hash (eq_of_same_bytes (keys.key_of o) key named) in
        ground arith),
  )
