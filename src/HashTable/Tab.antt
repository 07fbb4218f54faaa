-- ===== src/HashTable/Tab.antt =====
-- server/src/data_structures/hashTable.cpp, `HTab`: an array of chains. A chain is the list of the
-- nodes that its `next` pointers join, and `HNode **from` is a slot with a position in its chain.
pub mod Slots
pub mod Ready
pub mod Laws
use Prim.Native.String.{String}
use mathlib.Core.Option
use redis_like.Prelude.{
  ℕ, zero, suc, ◌+◌, ◌-◌, ◌%◌, ◌^◌, ◌==◌, if◌then◌else◌, Bool, true, false, not, ◌&&◌, ◌||◌, Option,
  none, some, List, [], ◌∷◌, get_elem?, set, replicate, bit_and, Run, ok, throw, undefined, ◌>>=◌,
  bytes,
}

-- The hook embedded in a stored object: `object` is the address of the object around it, which
-- `container_of` computes. `next` is the chain's.
pub record HNode : Type 0 where
  pub hcode : ℕ
  pub object : ℕ

abbrev pub Chain : Type 0
Chain = List HNode

-- `tab` is the pointer to the slots, `none` for `nullptr`.
pub record HTab : Type 0 where
  pub tab : Option (List Chain)
  pub mask : ℕ
  pub size : ℕ

-- `HNode **`: the slot, and how many nodes stand before the one pointed at.
abbrev pub From : Type 0
From = ℕ × ℕ

-- `HTab()`
abbrev pub no_table : HTab
no_table = record { tab = none; mask = 0; size = 0 }

-- `HTab(uint32_t n)`
unfoldable pub new_table : ℕ → Run HTab
new_table n =
    if n == 0 || not (bit_and (n - 1) n == 0)
    then throw (bytes "哈希表大小必须是2的幂")
    else ok (record { tab = some (replicate n []); mask = n - 1; size = 0 })

unfoldable pub get_pos : HTab → ℕ → ℕ
get_pos t hcode = bit_and hcode t.mask

-- `tab[pos]`
unfoldable pub slot_at : Option (List Chain) → ℕ → Run Chain
slot_at none pos = undefined
slot_at (some slots) pos = elim (get_elem? slots pos) [ none ↦ undefined | some c ↦ ok c ]

-- `tab[pos] = chain`
abbrev pub set_slot : Option (List Chain) → ℕ → Chain → Option (List Chain)
set_slot none pos chain = none
set_slot (some slots) pos chain = some (set slots pos chain)

unfoldable pub h_insert : HTab → Option HNode → Run HTab
unfolding get_pos slot_at
h_insert t none = ok t
h_insert t (some node) = do
  let pos = get_pos t node.hcode
  next ← slot_at t.tab pos
  ok (record t { tab = set_slot t.tab pos (node ∷ next); size = (t.size + 1) % 2 ^ 32 })

-- The loop of `h_lookup` from position `i` of the chain; `eq n` is `eq(n, key)`.
unfoldable pub scan : ℕ → (HNode → Run Bool) → Chain → ℕ → Run (Option ℕ)
scan hcode eq [] i = ok none
scan hcode eq (cur ∷ rest) i =
    let on_miss = scan hcode eq rest (i + 1) in
    if cur.hcode == hcode
    then eq cur >>= (λ same. if same then ok (some i) else on_miss)
    else on_miss

unfoldable pub h_lookup : HTab → ℕ → (HNode → Run Bool) → Run (Option From)
unfolding get_pos slot_at scan
h_lookup t hcode eq = elim t.tab [
  | none ↦ ok none
  | some slots ↦ do
    let pos = get_pos t hcode
    chain ← slot_at (some slots) pos
    found ← scan hcode eq chain 0
    ok (Option.map (λ i. (pos, i)) found)
]

-- `*from = node->next`, with the node that `*from` was.
unfoldable pub remove_at : Chain → ℕ → Run (HNode × Chain)
remove_at [] i = undefined
remove_at (n ∷ c) zero = ok (n, c)
remove_at (n ∷ c) (suc i) = do (found, rest) ← remove_at c i; ok (found, n ∷ rest)

-- `*from`
unfoldable pub node_at : HTab → From → Run HNode
unfolding slot_at
node_at t (pos, i) = do
  chain ← slot_at t.tab pos
  elim (get_elem? chain i) [ none ↦ undefined | some n ↦ ok n ]

unfoldable pub h_detach : HTab → Option From → Run (Option HNode × HTab)
unfolding slot_at remove_at
h_detach t none = ok (none, t)
h_detach t (some (pos, i)) = do
  chain ← slot_at t.tab pos
  (node, rest) ← remove_at chain i
  ok (some node, record t { tab = set_slot t.tab pos rest; size = (t.size + 2 ^ 32 - 1) % 2 ^ 32 })

-- The guard tests whether there is a table to forget.
unfoldable pub h_clean_up : HTab → HTab
h_clean_up t = elim t.tab [ none ↦ t | some _ ↦ no_table ]
