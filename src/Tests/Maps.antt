-- ===== src/Tests/Maps.antt =====
-- Concrete maps for server/src/data_structures/hashTable.cpp: one with two nodes that share a hash
-- code, and one in the middle of a rehashing.
use redis_like.HashTable.Map.{HMap, hm_help_rehashing, hm_lookup, hm_insert, hm_delete}
use redis_like.HashTable.Map.Find.{Answer, Removal, hm_lookup-Answer, hm_delete-Removal}
use redis_like.HashTable.Map.Insert.{hm_insert-tally}
use redis_like.HashTable.Map.Rehash.{Helped, hm_help_rehashing-Helped}
use redis_like.HashTable.Map.Valid.{tally, Contains, IsValid}
use redis_like.HashTable.Tab.{HNode, HTab}
use redis_like.HashTable.Tab.Ready.{IsReady, IsPlaced, Answers, slots_of}
use redis_like.Prelude.Bits.{one, double}
use redis_like.Prelude.{
  get_or, ℕ, zero, suc, ◌+◌, ◌<◌, ◌==◌, Bool, some, [], ◌∷◌, ◌≡◌, refl, inr, arith, one_if, ok,
  Returns,
}

abbrev node_1 : HNode
node_1 = record { hcode = 3; object = 10 }

abbrev node_2 : HNode
node_2 = record { hcode = 3; object = 11 }

abbrev node_3 : HNode
node_3 = record { hcode = 1; object = 12 }

-- Four slots, both nodes in the last one.
abbrev full_table : HTab
full_table = record { tab = some ([] ∷ [] ∷ [] ∷ (node_1 ∷ node_2 ∷ []) ∷ []); mask = 3; size = 2 }

full_table-IsReady : IsReady full_table
full_table-IsReady = record {
  allocated = refl;
  wide = refl;
  power = double 2 4 (double 1 2 (one 1 refl) refl) refl;
  counted = refl;
  placed = placed;
}
  where
    placed : IsPlaced 3 (slots_of full_table)
    placed zero = tt
    placed (suc zero) = tt
    placed (suc (suc zero)) = tt
    placed (suc (suc (suc zero))) = (refl, (refl, tt))
    placed (suc (suc (suc (suc i)))) = tt

abbrev small_table : HTab
small_table = record { tab = some ([] ∷ (node_3 ∷ []) ∷ []); mask = 1; size = 1 }

small_table-IsReady : IsReady small_table
small_table-IsReady = record {
  allocated = refl;
  wide = refl;
  power = double 1 2 (one 1 refl) refl;
  counted = refl;
  placed = placed;
}
  where
    placed : IsPlaced 1 (slots_of small_table)
    placed zero = tt
    placed (suc zero) = (refl, tt)
    placed (suc (suc i)) = tt

-- A rehashing has passed the first slot of the old table.
abbrev draining_map : HMap
draining_map = record { new_tab = full_table; old_tab = small_table; migrate_pos = 1 }

draining_map-IsValid : IsValid draining_map
draining_map-IsValid = record {
  ready = full_table-IsReady;
  narrow = omega arith;
  small = omega arith;
  old = inr record { old_ready = small_table-IsReady; old_narrow = omega arith; cleared = cleared };
}
  where
    cleared : (i : ℕ) → i < 1 → get_or (slots_of small_table) i [] ≡ []
    cleared zero h = refl
    cleared (suc i) h = absurd (omega arith)

-- The test for the object at address 11.
abbrev is_eleven : HNode → Bool
is_eleven n = n.object == 11

eleven : (n : HNode) → Contains draining_map n → Answers 3 (λ n. ok (is_eleven n)) is_eleven n
eleven n k e = refl

hm_lookup-Answer_example : Returns (hm_lookup draining_map 3 (λ n. ok (is_eleven n))) λ r.
    IsValid r.1
    × ((p : HNode → Bool) → tally r.1 p ≡ tally draining_map p)
    × Answer draining_map 3 is_eleven r.0
hm_lookup-Answer_example =
    hm_lookup-Answer 3 (λ n. ok (is_eleven n)) is_eleven draining_map draining_map-IsValid eleven

hm_delete-Removal_example :
    Returns
      (hm_delete draining_map 3 (λ n. ok (is_eleven n)))
      λ r. IsValid r.1 × Removal draining_map r.1 3 is_eleven r.0
hm_delete-Removal_example =
    hm_delete-Removal 3 (λ n. ok (is_eleven n)) is_eleven draining_map draining_map-IsValid eleven

hm_insert-tally_example :
    Returns (hm_insert draining_map (some node_3)) λ m'.
      IsValid m' × ((p : HNode → Bool) → tally m' p ≡ one_if (p node_3) + tally draining_map p)
hm_insert-tally_example = hm_insert-tally draining_map node_3 draining_map-IsValid (omega arith)

hm_help_rehashing-Helped_example : Returns (hm_help_rehashing draining_map) (Helped draining_map)
hm_help_rehashing-Helped_example = hm_help_rehashing-Helped draining_map draining_map-IsValid
