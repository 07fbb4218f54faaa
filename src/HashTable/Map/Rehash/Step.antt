-- ===== src/HashTable/Map/Rehash/Step.antt =====
-- One round of the loop of `hm_help_rehashing` in server/src/data_structures/hashTable.cpp.
use redis_like.HashTable.Map.{HMap, rehash_round}
use redis_like.HashTable.Map.Valid.{tally, IsDraining}
use redis_like.HashTable.Tab.{HNode, Chain, h_insert}
use redis_like.HashTable.Tab.Slots.{total_nowhere}
use redis_like.HashTable.Tab.Ready.{slots_of, IsReady}
use redis_like.HashTable.Tab.Laws.{slot_at-lt, h_insert-Inserted, h_detach-Detached}
use native.Mathlib.Decide.{dec_lt}
use redis_like.Prelude.{
  ℕ, zero, suc, ◌+◌, ◌%◌, ◌^◌, ◌≤◌, ◌<◌, Bool, true, some, List, [], ◌∷◌, ◌≡◌, refl, ap, ◌∙◌, arith,
  length, get_or, get_elem?, count, ok, Returns,
}

get_or-ge : (slots : List Chain) (i : ℕ) → length slots ≤ i → get_or slots i [] ≡ []
get_or-ge [] i h = refl
get_or-ge (c ∷ slots) zero h = absurd (omega arith)
get_or-ge (c ∷ slots) (suc i) h = get_or-ge slots i (omega arith)

-- While the old table holds nodes, `migrate_pos` is in range.
pub migrate_pos-lt :
    (m : HMap) → IsDraining m → 0 < m.old_tab.size → m.migrate_pos < length (slots_of m.old_tab)
migrate_pos-lt m d pos = elim (dec_lt m.migrate_pos (length (slots_of m.old_tab))) [
  | yes h ↦ h
  | no h ↦
      let empty =
        total_nowhere (λ _. true) (slots_of m.old_tab)
          (λ i. ap (count (λ _. true)) (nothing i (dec_lt i m.migrate_pos) h)) in
      absurd (omega (arith, empty, d.old_ready.counted))
]
  where
    nothing :
        (i : ℕ)
        → Dec (i < m.migrate_pos)
        → ¬ (m.migrate_pos < length (slots_of m.old_tab))
        → get_or (slots_of m.old_tab) i [] ≡ []
    nothing i (yes h) _ = d.cleared i h
    nothing i (no h) k = get_or-ge (slots_of m.old_tab) i (omega arith)

-- What a round does: `work` nodes leave the old table.
pub record Round (m : HMap) (r : ℕ × HMap) : Type 0 where
  pub ready : IsReady r.1.new_tab
  pub mask : r.1.new_tab.mask ≡ m.new_tab.mask
  pub draining : IsDraining r.1
  pub totals : (p : HNode → Bool) → tally r.1 p ≡ tally m p
  pub work : r.0 + r.1.old_tab.size ≡ m.old_tab.size
  pub width : length (slots_of r.1.old_tab) ≡ length (slots_of m.old_tab)
  pub progress : r.0 + r.1.migrate_pos ≡ m.migrate_pos + 1
  pub in_range : r.1.migrate_pos ≤ length (slots_of m.old_tab)
  pub one_at_most : r.0 ≤ 1

module _ (m : HMap) (ready : IsReady m.new_tab) (d : IsDraining m)
    (small : tally m (λ _. true) < 2 ^ 31) (some_left : 0 < m.old_tab.size) where
  Round-at :
      (c : Chain)
      → get_or (slots_of m.old_tab) m.migrate_pos [] ≡ c
      → Returns (rehash_round m) (Round m)
  unfolding rehash_round
  Round-at [] e =
      let lt = migrate_pos-lt m d some_left in
      let run = slot_at-lt m.old_tab m.migrate_pos d.old_ready lt ∙ ap ok e in
      (
        (0, record m { migrate_pos = (m.migrate_pos + 1) % 2 ^ 32 }),
        rw run refl,
        record {
          ready = ready;
          mask = refl;
          draining = record {
            old_ready = d.old_ready;
            old_narrow = d.old_narrow;
            cleared = λ i h. passed i h (dec_lt i m.migrate_pos);
          };
          totals = λ p. refl;
          work = omega arith;
          width = refl;
          progress = omega (arith, d.old_ready.wide, d.old_narrow);
          in_range = omega (arith, d.old_ready.wide, d.old_narrow);
          one_at_most = omega arith;
        },
      )
    where
      passed :
          (i : ℕ)
          → i < (m.migrate_pos + 1) % 2 ^ 32
          → Dec (i < m.migrate_pos)
          → get_or (slots_of m.old_tab) i [] ≡ []
      passed i h (yes before) = d.cleared i before
      passed i h (no after) = let at : i ≡ m.migrate_pos = omega arith in rw at e
  Round-at (n ∷ c) e =
      let lt = migrate_pos-lt m d some_left in
      let at_slot = slot_at-lt m.old_tab m.migrate_pos d.old_ready lt ∙ ap ok e in
      let at : get_elem? (get_or (slots_of m.old_tab) m.migrate_pos []) 0 ≡ some n = rw e refl in
      let ((node, old), detach, o) =
        h_detach-Detached m.old_tab m.migrate_pos 0 n d.old_ready (omega arith) lt at in
      let (new, insert, k) = h_insert-Inserted m.new_tab n ready (omega arith) in
      let insert' : h_insert m.new_tab node ≡ ok new = rw o.node insert in
      (
        (1, record m { new_tab = new; old_tab = old }),
        rw (at_slot, detach, insert') refl,
        record {
          ready = k.ready;
          mask = k.mask;
          draining = record {
            old_ready = o.ready;
            old_narrow = rw o.mask d.old_narrow;
            cleared = λ i h. o.empty i (d.cleared i h);
          };
          totals = λ p. omega (arith, k.totals p, o.totals p);
          work = omega (arith, o.totals (λ _. true), o.ready.counted, d.old_ready.counted);
          width = omega (arith, o.ready.wide, d.old_ready.wide, o.mask);
          progress = omega arith;
          in_range = omega arith;
          one_at_most = omega arith;
        },
      )

  pub rehash_round-Round : Returns (rehash_round m) (Round m)
  rehash_round-Round = Round-at (get_or (slots_of m.old_tab) m.migrate_pos []) refl
