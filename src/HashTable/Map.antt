-- ===== src/HashTable/Map.antt =====
-- server/src/data_structures/hashTable.cpp, `HMap`: a new and an old table; every operation moves up
-- to 128 nodes from the old one to the new one.
pub mod Valid
pub mod Rehash
pub mod Insert
pub mod Find
use redis_like.HashTable.Tab.{
  HNode, HTab, From, no_table, new_table, slot_at, h_insert, h_lookup, node_at, h_detach,
  h_clean_up,
}
use redis_like.Prelude.{
  ℕ, zero, suc, ◌+◌, ◌*◌, ◌%◌, ◌^◌, ◌==◌, ltb, leb, if◌then◌else◌, Bool, true, false, ◌&&◌, Option,
  none, some, [], ◌∷◌, length, Run, ok, undefined, ◌>>=◌,
}

abbrev pub k_rehashing_work : ℕ
k_rehashing_work = 128

abbrev pub k_max_load_factor : ℕ
k_max_load_factor = 8

abbrev pub init_size : ℕ
init_size = 8

pub record HMap : Type 0 where
  pub new_tab : HTab
  pub old_tab : HTab
  pub migrate_pos : ℕ

-- `HMap()`
unfoldable pub new_map : Run HMap
new_map = do
  table ← new_table init_size
  ok (record { new_tab = table; old_tab = no_table; migrate_pos = 0 })

-- `data() != nullptr`
abbrev pub has_data : HTab → Bool
has_data t = elim t.tab [ none ↦ false | some _ ↦ true ]

-- The number of slots.
abbrev pub width : HTab → ℕ
width t = elim t.tab [ none ↦ 0 | some slots ↦ length slots ]

-- One round of the loop of `hm_help_rehashing`, with what it adds to `nwork`.
unfoldable pub rehash_round : HMap → Run (ℕ × HMap)
rehash_round m = do
  chain ← slot_at m.old_tab.tab m.migrate_pos
  elim chain [
    | [] ↦ ok (0, record m { migrate_pos = (m.migrate_pos + 1) % 2 ^ 32 })
    | _ ∷ _ ↦ do
      (node, old) ← h_detach m.old_tab (some (m.migrate_pos, 0))
      new ← h_insert m.new_tab node
      ok (1, record m { new_tab = new; old_tab = old })
  ]

-- The loop, on fuel: `undefined` where the fuel runs out, which `rehash_fuel` rules out.
unfoldable pub rehash_loop : ℕ → ℕ → HMap → Run HMap
rehash_loop zero nwork m = undefined
rehash_loop (suc fuel) nwork m = elim (ltb nwork k_rehashing_work && ltb 0 m.old_tab.size) [
  | false ↦ ok m
  | true ↦ do (work, m') ← rehash_round m; rehash_loop fuel (nwork + work) m'
]

-- A round moves a node or passes a slot.
abbrev pub rehash_fuel : HMap → ℕ
rehash_fuel m = suc (k_rehashing_work + width m.old_tab)

-- The end of `hm_help_rehashing`: an old table with no node left is let go.
unfoldable pub release_old : HMap → HMap
release_old m =
    if m.old_tab.size == 0 && has_data m.old_tab then record m { old_tab = no_table } else m

unfoldable pub hm_help_rehashing : HMap → Run HMap
hm_help_rehashing m = do m' ← rehash_loop (rehash_fuel m) 0 m; ok (release_old m')

unfoldable pub hm_trigger_rehashing : HMap → Run HMap
hm_trigger_rehashing m = if has_data m.old_tab then ok m else do
  table ← new_table ((m.new_tab.mask + 1) * 2 % 2 ^ 32)
  ok (record { new_tab = table; old_tab = m.new_tab; migrate_pos = 0 })

-- The test of `hm_insert`, before it helps with the rehashing.
unfoldable pub maybe_trigger : HMap → Run HMap
maybe_trigger m =
    if has_data m.old_tab
    then ok m
    else if leb ((m.new_tab.mask + 1) * k_max_load_factor % 2 ^ 32) m.new_tab.size
    then hm_trigger_rehashing m
    else ok m

unfoldable pub hm_insert : HMap → Option HNode → Run HMap
hm_insert m node = do
  new ← h_insert m.new_tab node
  m' ← maybe_trigger (record m { new_tab = new })
  hm_help_rehashing m'

-- `from ? *from : nullptr`
unfoldable pub deref : HTab → Option From → Run (Option HNode)
deref t none = ok none
deref t (some from) = do n ← node_at t from; ok (some n)

-- The searches of `hm_lookup`: the new table first, then the old one.
unfoldable pub search_tables : HMap → ℕ → (HNode → Run Bool) → Run (Option HNode × HMap)
unfolding deref
search_tables m hcode eq = do
  from ← h_lookup m.new_tab hcode eq
  elim from [
    | some f ↦ do n ← deref m.new_tab (some f); ok (n, m)
    | none ↦ do from' ← h_lookup m.old_tab hcode eq; n ← deref m.old_tab from'; ok (n, m)
  ]

-- The node found, and the map after the step of the rehashing.
unfoldable pub hm_lookup : HMap → ℕ → (HNode → Run Bool) → Run (Option HNode × HMap)
hm_lookup m hcode eq = do m' ← hm_help_rehashing m; search_tables m' hcode eq

-- The searches of `hm_delete`, each with the detaching of what it finds.
unfoldable pub detach_from_tables : HMap → ℕ → (HNode → Run Bool) → Run (Option HNode × HMap)
detach_from_tables m hcode eq = do
  from ← h_lookup m.new_tab hcode eq
  elim from [
    | some f ↦ do (n, new) ← h_detach m.new_tab (some f); ok (n, record m { new_tab = new })
    | none ↦ do
      from' ← h_lookup m.old_tab hcode eq
      elim from' [
        | some f ↦ do (n, old) ← h_detach m.old_tab (some f); ok (n, record m { old_tab = old })
        | none ↦ ok (none, m)
      ]
  ]

-- The node taken out, and the map without it.
unfoldable pub hm_delete : HMap → ℕ → (HNode → Run Bool) → Run (Option HNode × HMap)
hm_delete m hcode eq = do m' ← hm_help_rehashing m; detach_from_tables m' hcode eq

unfoldable pub hm_size : HMap → ℕ
hm_size m = (m.new_tab.size + m.old_tab.size) % 2 ^ 32

unfoldable pub hm_clean_up : HMap → HMap
unfolding h_clean_up
hm_clean_up m = record {
  new_tab = if has_data m.new_tab then h_clean_up m.new_tab else m.new_tab;
  old_tab = if has_data m.old_tab then h_clean_up m.old_tab else m.old_tab;
  migrate_pos = 0;
}
