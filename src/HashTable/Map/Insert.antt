-- ===== src/HashTable/Map/Insert.antt =====
-- `hm_insert`: it returns, adds the one node, and starts a rehashing where the load asks for it.
use redis_like.HashTable.Map.{
  HMap, k_max_load_factor, has_data, hm_trigger_rehashing, maybe_trigger, hm_insert,
}
use redis_like.HashTable.Map.Rehash.{hm_help_rehashing-Helped, total-none}
use redis_like.HashTable.Map.Valid.{tally, IsDraining, IsValid}
use redis_like.HashTable.Tab.{HNode, HTab, no_table}
use redis_like.HashTable.Tab.Ready.{IsReady, new_table-IsReady}
use redis_like.HashTable.Tab.Laws.{h_insert-Inserted}
use redis_like.Prelude.Bits.{double}
use redis_like.Prelude.{
  ◌+◌, ◌*◌, ◌%◌, ◌^◌, ◌≤◌, ◌<◌, leb, leb→le, Bool, true, false, some, ◌≡◌, refl, ◌⊎◌, inl, inr,
  arith, one_if, Returns, Bool-cases,
}

-- The draining of the old table does not depend on the new one.
IsDraining-new_tab : (m : HMap) (t : HTab) → IsDraining m → IsDraining (record m { new_tab = t })
IsDraining-new_tab m t d = record {
  old_ready = d.old_ready;
  old_narrow = d.old_narrow;
  cleared = d.cleared;
}

pub old-new_tab :
    (m : HMap) (t : HTab)
    → (m.old_tab ≡ no_table) ⊎ IsDraining m
    → (m.old_tab ≡ no_table) ⊎ IsDraining (record m { new_tab = t })
old-new_tab m t (inl e) = inl e
old-new_tab m t (inr d) = inr (IsDraining-new_tab m t d)

pub has_data-no_table : (t : HTab) → t ≡ no_table → has_data t ≡ false
has_data-no_table t e = rw e refl

pub has_data-IsReady : (t : HTab) → IsReady t → has_data t ≡ true
has_data-IsReady t r = rw r.allocated refl

-- A step that may start a rehashing, and leaves the contents as they are.
pub record Triggered (m m' : HMap) : Type 0 where
  pub valid : IsValid m'
  pub totals : (p : HNode → Bool) → tally m' p ≡ tally m p

-- The new table, twice as wide, takes over, and the full one becomes the old one.
triggered :
    (m : HMap)
    → IsValid m
    → m.old_tab ≡ no_table
    → (m.new_tab.mask + 1) * k_max_load_factor ≤ m.new_tab.size
    → Returns (hm_trigger_rehashing m) (Triggered m)
unfolding hm_trigger_rehashing
triggered m v e full =
    let bound : (m.new_tab.mask + 1) * 2 < 2 ^ 29 = omega (arith, v.ready.counted, v.small) in
    let n = (m.new_tab.mask + 1) * 2 % 2 ^ 32 in
    let exact : n ≡ (m.new_tab.mask + 1) * 2 = omega arith in
    let (t, run, (r, wide, empty)) =
      new_table-IsReady n (double (m.new_tab.mask + 1) n v.ready.power exact) in
    (
      record { new_tab = t; old_tab = m.new_tab; migrate_pos = 0 },
      rw (has_data-no_table m.old_tab e, run) refl,
      record {
        valid = record {
          ready = r;
          narrow = omega arith;
          small = omega (arith, empty (λ _. true), v.small, total-none m.old_tab (λ _. true) e);
          old = inr (record {
            old_ready = v.ready;
            old_narrow = v.narrow;
            cleared = λ i h. absurd (omega arith);
          });
        };
        totals = λ p. omega (arith, empty p, total-none m.old_tab p e);
      },
    )

module _ (m : HMap) (v : IsValid m) where
  trigger_from : (m.old_tab ≡ no_table) ⊎ IsDraining m → Returns (maybe_trigger m) (Triggered m)
  unfolding maybe_trigger
  trigger_from (inr d) = (
    m,
    rw (has_data-IsReady m.old_tab d.old_ready) refl,
    record { valid = v; totals = λ p. refl },
  )
  trigger_from (inl e) =
      let limit = (m.new_tab.mask + 1) * k_max_load_factor % 2 ^ 32 in
      let off = has_data-no_table m.old_tab e in
      elim (Bool-cases (leb limit m.new_tab.size)) [
        | inr light ↦ (m, rw (off, light) refl, record { valid = v; totals = λ p. refl })
        | inl full ↦
            let (m', run, t) =
              triggered m v e (omega (arith, leb→le limit m.new_tab.size full, v.narrow)) in
            (m', rw (off, full) run, t)
      ]

  -- The test of the load returns and keeps the contents.
  maybe_trigger-Triggered : Returns (maybe_trigger m) (Triggered m)
  maybe_trigger-Triggered = trigger_from v.old

-- `hm_insert` of a node, from any valid map with room in its counters: it returns, the map is valid,
-- and its contents are the old ones and the node.
pub hm_insert-tally :
    (m : HMap) (n : HNode)
    → IsValid m
    → tally m (λ _. true) + 1 < 2 ^ 31
    → Returns
        (hm_insert m (some n))
        λ m'. IsValid m' × ((p : HNode → Bool) → tally m' p ≡ one_if (p n) + tally m p)
unfolding hm_insert
hm_insert-tally m n v room =
    let (new, insert, k) = h_insert-Inserted m.new_tab n v.ready (omega arith) in
    let m1 : HMap = record m { new_tab = new } in
    let v1 : IsValid m1 = record {
      ready = k.ready;
      narrow = omega (arith, k.mask, v.narrow);
      small = omega (arith, k.totals (λ _. true));
      old = old-new_tab m new v.old;
    } in
    let (m2, trigger, t) = maybe_trigger-Triggered m1 v1 in
    let (m3, help, w) = hm_help_rehashing-Helped m2 t.valid in
    (
      m3,
      rw (insert, trigger, help) refl,
      (w.valid, λ p. omega (arith, w.totals p, t.totals p, k.totals p)),
    )
