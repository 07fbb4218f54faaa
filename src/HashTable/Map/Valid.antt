-- ===== src/HashTable/Map/Valid.antt =====
-- What holds of a map between operations, and how many of its nodes pass a test.
use redis_like.HashTable.Map.{HMap, new_map, init_size}
use redis_like.HashTable.Tab.{HNode, no_table}
use redis_like.HashTable.Tab.Slots.{is, total}
use redis_like.HashTable.Tab.Ready.{slots_of, IsReady, new_table-IsReady}
use redis_like.Prelude.Bits.{IsPowerOfTwo, one, double}
use redis_like.Prelude.{
  ℕ, ◌+◌, ◌^◌, ◌≤◌, ◌<◌, Bool, true, [], ◌≡◌, refl, ◌⊎◌, inl, arith, get_or, Returns,
}

-- How many nodes of both tables pass a test: the contents, with the order of the chains forgotten.
abbrev pub tally : HMap → (HNode → Bool) → ℕ
tally m p = total p (slots_of m.new_tab) + total p (slots_of m.old_tab)

abbrev pub Contains : HMap → HNode → Type 0
Contains m n = 1 ≤ tally m (is n)

-- An old table that is being emptied: the slots before `migrate_pos` are empty already.
pub record IsDraining (m : HMap) : Type 0 where
  pub old_ready : IsReady m.old_tab
  pub old_narrow : m.old_tab.mask + 1 < 2 ^ 29
  pub cleared : (i : ℕ) → i < m.migrate_pos → get_or (slots_of m.old_tab) i [] ≡ []

-- The bounds keep every `uint32_t` of the tables from wrapping.
pub record IsValid (m : HMap) : Type 0 where
  pub ready : IsReady m.new_tab
  pub narrow : m.new_tab.mask + 1 < 2 ^ 29
  pub small : tally m (λ _. true) < 2 ^ 31
  pub old : (m.old_tab ≡ no_table) ⊎ IsDraining m

-- The constructor makes a valid empty map.
pub new_map-IsValid : Returns new_map λ m. IsValid m × ((p : HNode → Bool) → tally m p ≡ 0)
unfolding new_map
new_map-IsValid =
    let power : IsPowerOfTwo init_size =
      double 4 8 (double 2 4 (double 1 2 (one 1 refl) refl) refl) refl in
    let (t, run, (r, wide, empty)) = new_table-IsReady init_size power in
    let m : HMap = record { new_tab = t; old_tab = no_table; migrate_pos = 0 } in
    (
      m,
      rw run refl,
      (
        record {
          ready = r;
          narrow = omega arith;
          small = omega (arith, empty (λ _. true));
          old = inl refl;
        },
        λ p. omega (arith, empty p),
      ),
    )
