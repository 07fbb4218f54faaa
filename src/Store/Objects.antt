-- ===== src/Store/Objects.antt =====
-- The objects that server/src/data_structures/string.h and zset.h embed their hooks in, where they
-- stand in memory, and the hash of a key.
use redis_like.Avl.{Tree, leaf}
use redis_like.HashTable.Map.{HMap, new_map}
use redis_like.Prelude.{
  ℕ, ◌+◌, ◌-◌, ◌*◌, ◌%◌, ◌^◌, ltb, ◌==◌, if◌then◌else◌, Bool, true, false, ◌&&◌, Option, none, some,
  List, [], ◌∷◌, Run, ok, undefined, ◌>>=◌,
}

abbrev pub Bytes : Type 0
Bytes = List ℕ

-- `double`, with what the program does with scores: `==`, `<`, `std::to_string` and `std::stod`.
pub record Double (Score : Type 0) : Type 0 where
  pub eq : Score → Score → Bool
  pub lt : Score → Score → Bool
  pub zero_score : Score
  pub to_string : Score → Bytes
  pub stod : Bytes → Run Score

-- `==` of two strings.
unfoldable pub same_bytes : Bytes → Bytes → Bool
same_bytes [] [] = true
same_bytes (a ∷ s) (b ∷ t) = (a == b) && same_bytes s t
same_bytes _ _ = false

-- `<` of two strings: the bytes are compared without sign.
unfoldable pub bytes_lt : Bytes → Bytes → Bool
bytes_lt [] [] = false
bytes_lt [] (b ∷ t) = true
bytes_lt (a ∷ s) [] = false
bytes_lt (a ∷ s) (b ∷ t) =
    let rest = bytes_lt s t in if ltb a b then true else (if ltb b a then false else rest)

-- `char` is signed here: a byte from 128 on is added as a negative number.
abbrev pub signed_char : ℕ → ℕ
signed_char ch = if ltb ch 128 then ch else ch + (2 ^ 32 - 256)

-- The loop of `hash`.
unfoldable pub hash_from : ℕ → Bytes → ℕ
hash_from h [] = h
hash_from h (ch ∷ s) = hash_from ((h + signed_char ch) % 2 ^ 32 * 0x0100_0193 % 2 ^ 32) s

-- `hash()` of `StringEntry`, `Zset` and `ZsetEntry`.
unfoldable pub hash : Bytes → ℕ
unfolding hash_from
hash key = hash_from 0x811c_9dc5 key

-- What stands at an address: `none` is memory that holds no live object.
abbrev pub Memory : Type 0 → Type 0
Memory A = ℕ → Option A

abbrev pub write {ℓ} : {A : Type ℓ} → (ℕ → A) → ℕ → A → ℕ → A
write memory a x b = if b == a then x else memory b

-- Reading through a pointer.
abbrev pub load {ℓ} : {A : Type ℓ} → (ℕ → Option A) → ℕ → Run A
load memory a = elim (memory a) [ none ↦ undefined | some x ↦ ok x ]

-- `Entry_zset`
pub record Entry (Score : Type 0) : Type 0 where
  pub score : Score
  pub name : Bytes

-- `Value`: a sorted set, with its entries at their addresses. Each belongs to one set.
pub record Value (Score : Type 0) : Type 0 where
  pub hmap : HMap
  pub tree : Tree
  pub entries : Memory (Entry Score)
  pub next : ℕ

-- What the hooks of the top-level table are embedded in.
pub data Object (Score : Type 0) : Type 0 where
  entry_str : Bytes → Bytes → Object Score
  zset_node : Bytes → Value Score → Object Score

-- A hash table with the objects that its hooks are embedded in; `next` is an address not in use.
pub record Table (A : Type 0) : Type 0 where
  pub hmap : HMap
  pub objects : Memory A
  pub next : ℕ

-- `HMap_string`
abbrev pub Database : Type 0 → Type 0
Database Score = Table (Object Score)

-- Objects that a hash table finds by a key.
pub record Keyed (A : Type 0) : Type 0 where
  pub key_of : A → Bytes

abbrev pub object_key : {Score : Type 0} → Object Score → Bytes
object_key (entry_str k _) = k
object_key (zset_node k _) = k

instance abbrev pub object_keyed : {Score : Type 0} → Keyed (Object Score)
object_keyed = record { key_of = object_key }

instance abbrev pub entry_keyed : {Score : Type 0} → Keyed (Entry Score)
entry_keyed = record { key_of = λ e. e.name }

-- The hash table of a sorted set.
abbrev pub table_of : {Score : Type 0} → Value Score → Table (Entry Score)
table_of v = record { hmap = v.hmap; objects = v.entries; next = v.next }

-- `new Value()`
unfoldable pub new_value : {Score : Type 0} → Run (Value Score)
new_value = do m ← new_map; ok (record { hmap = m; tree = leaf; entries = λ _. none; next = 0 })

-- The database when the server starts.
unfoldable pub new_database : {Score : Type 0} → Run (Database Score)
new_database = do m ← new_map; ok (record { hmap = m; objects = λ _. none; next = 0 })
