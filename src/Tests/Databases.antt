-- ===== src/Tests/Databases.antt =====
-- A concrete database for server/src/data_structures/string.cpp: one string, under the key `a`.
use redis_like.Store.Strings.Reached.{start, after_set, Reached-IsLive}
use redis_like.HashTable.Map.{
  new_map, hm_lookup, hm_insert, hm_help_rehashing, rehash_loop, search_tables, release_old,
  maybe_trigger,
}
use redis_like.HashTable.Map.Valid.{Contains}
use redis_like.HashTable.Tab.{HNode, HTab, no_table, new_table, h_lookup, h_insert}
use redis_like.Store.Strings.Reached.{start, after_set, Reached-IsLive}
use redis_like.HashTable.Tab.Ready.{IsReady, IsPlaced, slots_of}
use redis_like.HashTable.Tab.Slots.{is, eq_of_is}
use redis_like.Prelude.Bits.{one, bit_and-le}
use redis_like.Store.Contents.{IsLive}
use redis_like.Store.Contents.Write.{With}
use redis_like.Store.Strings.Kinds.{IsStringKey}
use redis_like.Store.Contents.Same.{Same}
use redis_like.Store.Objects.{Bytes, entry_str, object_keyed, Database, hash, new_database, write}
use redis_like.Store.Strings.{get, set, del}
use redis_like.Store.Strings.Assign.{set-With, get-set, get-del}
use redis_like.Store.Strings.Delete.{Deleted, del-Deleted}
use redis_like.Store.Strings.Lookup.{Got, get-Got}
use redis_like.Prelude.{
  ok, ℕ, zero, suc, ◌==◌, true, none, some, [], ◌∷◌, ◌≡◌, refl, inl, arith, if◌then◌else◌, Returns,
  ◌>>=◌, Bool-cases, inr, one_if,
}

abbrev pub key_a : Bytes
key_a = 97 ∷ []

abbrev hook_a : HNode
hook_a = record { hcode = hash key_a; object = 0 }

abbrev one_slot : HTab
one_slot = record { tab = some ((hook_a ∷ []) ∷ []); mask = 0; size = 1 }

abbrev pub db_a : Database ℕ
db_a = record {
  hmap = record { new_tab = one_slot; old_tab = no_table; migrate_pos = 0 };
  objects = λ a. if a == 0 then some (entry_str key_a (49 ∷ [])) else none;
  next = 1;
}

one_slot-IsReady : IsReady one_slot
one_slot-IsReady = record {
  allocated = refl;
  wide = refl;
  power = one 1 refl;
  counted = refl;
  placed = placed;
}
  where
    placed : IsPlaced 0 (slots_of one_slot)
    placed zero = (omega (arith, bit_and-le (hash key_a) 0), tt)
    placed (suc i) = tt

db_a_hook : (n : HNode) → Contains db_a.hmap n → n ≡ hook_a
db_a_hook n k = elim (Bool-cases (is n hook_a)) [
  | inl same ↦ eq_of_is n hook_a same
  | inr apart ↦ absurd (let off : one_if (is n hook_a) ≡ 0 = rw apart refl in omega (arith, off))
]

pub db_a-IsLive : IsLive db_a
db_a-IsLive = record {
  valid = record {
    ready = one_slot-IsReady;
    narrow = omega arith;
    small = omega arith;
    old = inl refl;
  };
  live = λ n k. rw (db_a_hook n k) (entry_str key_a (49 ∷ []), refl, refl);
  below = λ n k. rw (db_a_hook n k) (omega arith);
  once = λ key. ground arith;
}

pub key_a-IsStringKey : IsStringKey db_a key_a
key_a-IsStringKey n k e = rw (db_a_hook n k) (key_a, 49 ∷ [], refl)

get-Got_example : Returns (get db_a key_a) λ r. Same db_a r.1 × Got db_a key_a r.0
get-Got_example = get-Got db_a key_a db_a-IsLive key_a-IsStringKey

del-Deleted_example : Returns (del db_a key_a) λ r. Deleted db_a key_a r.1 r.0
del-Deleted_example = del-Deleted db_a key_a db_a-IsLive key_a-IsStringKey

set-With_example :
    Returns
      (set db_a key_a (50 ∷ []))
      λ r. (r.0 ≡ true) × With db_a key_a (entry_str key_a (50 ∷ [])) r.1
set-With_example = set-With db_a key_a db_a-IsLive key_a-IsStringKey (50 ∷ []) (omega arith)

get-set_example : Returns (set db_a key_a (50 ∷ []) >>= λ r. get r.1 key_a) λ r. r.0 ≡ 50 ∷ []
get-set_example = get-set db_a key_a db_a-IsLive key_a-IsStringKey (50 ∷ []) (omega arith)

get-del_example : Returns (del db_a key_a >>= λ r. get r.1 key_a) λ r. r.0 ≡ []
get-del_example = get-del db_a key_a db_a-IsLive key_a-IsStringKey

-- The database at the start.
abbrev pub db_start : Database ℕ
db_start = record {
  hmap = record {
    new_tab = record {
      tab = some ([] ∷ [] ∷ [] ∷ [] ∷ [] ∷ [] ∷ [] ∷ [] ∷ []);
      mask = 7;
      size = 0;
    };
    old_tab = no_table;
    migrate_pos = 0;
  };
  objects = λ _. none;
  next = 0;
}

db_start_new : new_database ≡ ok db_start
unfolding new_database new_map new_table
db_start_new = refl

-- After `SET a 1`.
abbrev pub db_first : Database ℕ
db_first = record {
  hmap = record {
    new_tab = record {
      tab = some ([] ∷ [] ∷ (hook_a ∷ []) ∷ [] ∷ [] ∷ [] ∷ [] ∷ [] ∷ []);
      mask = 7;
      size = 1;
    };
    old_tab = no_table;
    migrate_pos = 0;
  };
  objects = write (λ _. none) 0 (some (entry_str key_a (49 ∷ [])));
  next = 1;
}

pub db_first-set : set db_start key_a (49 ∷ []) ≡ ok (true, db_first)
unfolding set hm_lookup hm_insert hash hm_help_rehashing rehash_loop search_tables h_lookup
    release_old h_insert maybe_trigger
db_first-set = refl

Reached-IsLive_example : IsLive db_first × ((key : Bytes) → IsStringKey db_first key)
Reached-IsLive_example = Reached-IsLive db_first (
    after_set db_start key_a (49 ∷ []) true db_first (start db_start db_start_new) (omega arith)
      db_first-set)
