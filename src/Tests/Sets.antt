-- ===== src/Tests/Sets.antt =====
-- A concrete sorted set for server/src/data_structures/zset.cpp: one entry, `x` with the score 3.
use redis_like.Avl.{leaf, node, avl_insert, descend, avl_fix, fix_node, avl_update}
use redis_like.HashTable.Map.{
  hm_lookup, hm_insert, hm_help_rehashing, rehash_loop, search_tables, release_old, maybe_trigger,
  new_map,
}
use redis_like.HashTable.Tab.{HNode, no_table, new_table, h_lookup, h_insert}
use redis_like.Store.Members.{zadd, zrem, zscore, zrank, zcard, zrange, zall, add_entry}
use redis_like.Store.Members.Add.{Added, zadd-ranking}
use redis_like.Store.Members.Fresh.{new_value-IsOrderedSet}
use redis_like.Store.Members.Order.{IsOrdered}
use redis_like.Store.Members.Ordered.{IsOrderedSet}
use redis_like.Avl.Range.{slice}
use redis_like.Store.Members.Ranking.{ranking, score_of, rank_of, pairs}
use redis_like.Store.Members.Reads.{int_of, zscore-ranking, zrank-ranking, listings_ranking}
use redis_like.Store.Members.Remove.{Removed, zrem-ranking, zscore-zadd}
use redis_like.Store.Objects.{Bytes, Double, Value, new_value, hash, write}
use redis_like.HashTable.Map.Valid.{tally}
use redis_like.Prelude.{
  length, ◌+◌, ◌^◌, ◌<◌, ℕ, ◌-◌, ◌+◌, ◌==◌, ltb, true, none, some, [], ◌∷◌, ◌≡◌, refl, arith, ok,
  throw, Returns, returned, ◌>>=◌, ℤ, pos,
}

-- Scores that are numbers of one digit.
abbrev pub digit : Double ℕ
digit = record {
  eq = λ a b. a == b;
  lt = ltb;
  zero_score = 0;
  to_string = λ n. (48 + n) ∷ [];
  stod = λ s. elim s [ [] ↦ throw [] | c ∷ _ ↦ ok (c - 48) ];
}

digit-IsOrdered : IsOrdered digit
digit-IsOrdered = record {
  eq_sym = λ a b h. ground arith;
  eq_trans = λ a b c h k. ground arith;
  lt_trans = λ a b c h k. ground arith;
  lt_eq = λ a b c h k. ground arith;
  eq_lt = λ a b c h k. ground arith;
  lt_apart = λ a b h. ground arith;
  total = λ a b h k. ground arith;
}

abbrev name_x : Bytes
name_x = 120 ∷ []

abbrev hook_x : HNode
hook_x = record { hcode = hash name_x; object = 0 }

abbrev v_start : Value ℕ
v_start = record {
  hmap = record {
    new_tab = record {
      tab = some ([] ∷ [] ∷ [] ∷ [] ∷ [] ∷ [] ∷ [] ∷ [] ∷ []);
      mask = 7;
      size = 0;
    };
    old_tab = no_table;
    migrate_pos = 0;
  };
  tree = leaf;
  entries = λ _. none;
  next = 0;
}

v_start_new : new_value ≡ ok v_start
unfolding new_value new_map new_table
v_start_new = refl

v_start-IsOrderedSet : IsOrderedSet digit v_start
v_start-IsOrderedSet =
    (returned (λ v. IsOrderedSet digit v × (ranking v ≡ []) × (tally v.hmap (λ _. true) ≡ 0))
      new_value v_start (new_value-IsOrderedSet digit) v_start_new).0

-- After `zadd` of `x` with the score 3.
abbrev v_first : Value ℕ
v_first = record {
  hmap = record {
    new_tab = record {
      tab = some ([] ∷ [] ∷ [] ∷ [] ∷ [] ∷ [] ∷ [] ∷ (hook_x ∷ []) ∷ []);
      mask = 7;
      size = 1;
    };
    old_tab = no_table;
    migrate_pos = 0;
  };
  tree = node leaf 0 1 1 leaf;
  entries = write (λ _. none) 0 (some (record { score = 3; name = name_x }));
  next = 1;
}

v_first-zadd : zadd digit v_start 3 name_x ≡ ok (true, v_first)
unfolding zadd hm_lookup hm_insert hash hm_help_rehashing rehash_loop search_tables h_lookup
    release_old h_insert maybe_trigger add_entry avl_insert descend avl_fix fix_node avl_update
v_first-zadd = refl

zadd-ranking_example :
    Returns
      (zadd digit v_start 3 name_x)
      λ r. (r.0 ≡ true) × Added digit digit-IsOrdered v_start v_start-IsOrderedSet 3 name_x refl r.1
zadd-ranking_example =
    zadd-ranking digit digit-IsOrdered v_start v_start-IsOrderedSet 3 name_x refl (omega arith)

v_first-IsOrderedSet : IsOrderedSet digit v_first
v_first-IsOrderedSet =
    (returned
      (λ r.
        (r.0 ≡ true) × Added digit digit-IsOrdered v_start v_start-IsOrderedSet 3 name_x refl r.1)
      (zadd digit v_start 3 name_x) (true, v_first)
      (zadd-ranking digit digit-IsOrdered v_start v_start-IsOrderedSet 3 name_x refl (omega arith))
      v_first-zadd).1.0

zrem-ranking_example :
    Returns
      (zrem v_first name_x)
      λ r. (r.0 ≡ true) × Removed digit v_first v_first-IsOrderedSet name_x r.1
zrem-ranking_example = zrem-ranking digit v_first v_first-IsOrderedSet name_x

zscore-ranking_example : Returns (zscore v_first name_x) λ r.
    IsOrderedSet digit r.1
    × (ranking r.1 ≡ ranking v_first)
    × (r.0 ≡ score_of name_x (ranking v_first))
zscore-ranking_example = zscore-ranking digit v_first v_first-IsOrderedSet name_x

zrank-ranking_example : Returns (zrank v_first name_x) λ r.
    IsOrderedSet digit r.1
    × (ranking r.1 ≡ ranking v_first)
    × (r.0 ≡ int_of (rank_of name_x (ranking v_first)))
zrank-ranking_example = zrank-ranking digit v_first v_first-IsOrderedSet name_x

listings_ranking_example :
    (zcard v_first ≡ pos 1)
    × ((lo hi : ℤ)
        → length (ranking v_first) + 1 < 2 ^ 31
        → zrange v_first lo hi ≡ ok (pairs (slice lo hi (ranking v_first))))
    × (zall v_first ≡ ok ((name_x, 3) ∷ []))
listings_ranking_example = listings_ranking digit v_first v_first-IsOrderedSet

zscore-zadd_example :
    Returns (zadd digit v_first 5 name_x >>= λ r. zscore r.1 name_x) λ r. r.0 ≡ some 5
zscore-zadd_example =
    zscore-zadd digit v_first v_first-IsOrderedSet name_x digit-IsOrdered 5 refl (omega arith)
