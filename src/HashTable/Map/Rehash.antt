-- ===== src/HashTable/Map/Rehash.antt =====
-- `hm_help_rehashing`: every round keeps the map valid and its contents, the loop ends, and it moves
-- as many nodes as there are, up to 128.
pub mod Step
use redis_like.HashTable.Map.{
  HMap, k_rehashing_work, width, rehash_round, rehash_loop, rehash_fuel, release_old,
  hm_help_rehashing,
}
use redis_like.HashTable.Map.Rehash.Step.{Round, migrate_pos-lt, rehash_round-Round}
use redis_like.HashTable.Map.Valid.{tally, IsDraining, IsValid}
use redis_like.HashTable.Tab.{HNode, Chain, HTab, no_table, h_insert}
use redis_like.HashTable.Tab.Slots.{total, total_nowhere, total-le-true}
use redis_like.HashTable.Tab.Ready.{slots_in, slots_of, IsReady}
use redis_like.HashTable.Tab.Laws.{slot_at-lt, h_insert-Inserted, h_detach-Detached}
use native.Mathlib.Decide.{dec_lt}
use redis_like.Prelude.{
  ℕ, zero, suc, ◌+◌, ◌-◌, ◌%◌, ◌^◌, ◌≤◌, ◌<◌, ◌==◌, ltb, Bool, true, ◌&&◌, Option, none, some, List,
  [], ◌∷◌, ◌≡◌, refl, ap, ◌∙◌, ◌⊎◌, inl, inr, arith, length, get_or, get_elem?, count, ok, Returns,
  Bool-cases,
}

-- What the loop leaves, starting with `nwork` nodes moved.
pub record Drained (m : HMap) (nwork : ℕ) (m' : HMap) : Type 0 where
  pub ready : IsReady m'.new_tab
  pub mask : m'.new_tab.mask ≡ m.new_tab.mask
  pub draining : IsDraining m'
  pub totals : (p : HNode → Bool) → tally m' p ≡ tally m p
  pub left : m'.old_tab.size ≡ m.old_tab.size - (k_rehashing_work - nwork)

-- A round and what the rest of the loop leaves.
Drained-step :
    (m m' m'' : HMap) (nwork work : ℕ)
    → nwork < k_rehashing_work
    → Round m (work, m')
    → Drained m' (nwork + work) m''
    → Drained m nwork m''
Drained-step m m' m'' nwork work lt r d = record {
  ready = d.ready;
  mask = d.mask ∙ r.mask;
  draining = d.draining;
  totals = λ p. d.totals p ∙ r.totals p;
  left = omega (arith, d.left, r.work, r.one_at_most);
}

rehash_loop-Drained :
    (fuel nwork : ℕ) (m : HMap)
    → IsReady m.new_tab
    → IsDraining m
    → tally m (λ _. true) < 2 ^ 31
    → nwork ≤ k_rehashing_work
    → k_rehashing_work - nwork + (length (slots_of m.old_tab) - m.migrate_pos) < fuel
    → Returns (rehash_loop fuel nwork m) (Drained m nwork)
unfolding rehash_loop
rehash_loop-Drained zero nwork m r d small le enough = absurd (omega arith)
rehash_loop-Drained (suc fuel) nwork m r d small le enough =
    elim (Bool-cases (ltb nwork k_rehashing_work && ltb 0 m.old_tab.size)) [
      | inr stop ↦ (
        m,
        rw (rehash_loop, stop) refl,
        record { ready = r; mask = refl; draining = d; totals = λ p. refl; left = ground arith },
      )
      | inl go ↦
          let more : nwork < k_rehashing_work = ground arith in
          let some_left : 0 < m.old_tab.size = ground arith in
          let ((work, m'), run, k) = rehash_round-Round m r d small some_left in
          let (m'', rest, t) =
            rehash_loop-Drained fuel (nwork + work) m' k.ready k.draining
              (omega (arith, k.totals (λ _. true))) (omega (arith, k.one_at_most))
              (omega (
                arith,
                migrate_pos-lt m d some_left,
                k.progress,
                k.in_range,
                k.width,
                k.one_at_most,
              )) in
          (m'', rw (rehash_loop, go, run) rest, Drained-step m m' m'' nwork work more k t)
    ]

pub record Helped (m m' : HMap) : Type 0 where
  pub valid : IsValid m'
  pub totals : (p : HNode → Bool) → tally m' p ≡ tally m p
  pub mask : m'.new_tab.mask ≡ m.new_tab.mask
  pub left : m'.old_tab.size ≡ m.old_tab.size - k_rehashing_work
  pub freed : m'.old_tab.size ≡ 0 → m'.old_tab ≡ no_table

width-slots_of : (t : HTab) → width t ≡ length (slots_of t)
width-slots_of t = of_tab t.tab
  where
    of_tab :
        (tab : Option (List Chain))
        → ◌≡◌ {A = ℕ} (elim tab [ none ↦ 0 | some slots ↦ length slots ]) (length (slots_in tab))
    of_tab none = refl
    of_tab (some slots) = refl

pub total-none : (t : HTab) (p : HNode → Bool) → t ≡ no_table → total p (slots_of t) ≡ 0
total-none t p e = rw e refl

-- Letting an empty old table go changes no contents.
release_old-Helped :
    (m m' : HMap)
    → m.new_tab.mask + 1 < 2 ^ 29
    → tally m (λ _. true) < 2 ^ 31
    → Drained m 0 m'
    → Helped m (release_old m')
unfolding release_old
release_old-Helped m m' narrow small d = elim (Bool-cases (m'.old_tab.size == 0)) [
  | inr more ↦ rw more record {
    valid = record {
      ready = d.ready;
      narrow = rw d.mask narrow;
      small = rw d.totals small;
      old = inr d.draining;
    };
    totals = d.totals;
    mask = d.mask;
    left = d.left;
    freed = λ e. absurd (ground arith);
  }
  | inl done ↦
      let nothing = λ (p : HNode → Bool). total-le-true p (slots_of m'.old_tab) in
      let gone : m'.old_tab.size ≡ 0 = ground arith in
      rw (done, d.draining.old_ready.allocated)
        record {
          valid = record {
            ready = d.ready;
            narrow = rw d.mask narrow;
            small = omega (arith, d.totals (λ _. true));
            old = inl refl;
          };
          totals = λ p. omega (
            arith,
            d.totals p,
            total-le-true p (slots_of m'.old_tab),
            d.draining.old_ready.counted,
          );
          mask = d.mask;
          left = omega (arith, d.left);
          freed = λ e. refl;
        }
]

-- Without an old table the step does nothing.
help_idle : (m : HMap) → m.old_tab ≡ no_table → hm_help_rehashing m ≡ ok m
unfolding hm_help_rehashing rehash_loop release_old
help_idle m e =
    let size : m.old_tab.size ≡ 0 = rw e refl in
    let tab : m.old_tab.tab ≡ none = rw e refl in
    rw (rehash_loop, size) (rw (release_old, size, tab) refl)

module _ (m : HMap) (v : IsValid m) where
  -- The loop, from either state of the old table.
  help_from : (m.old_tab ≡ no_table) ⊎ IsDraining m → Returns (hm_help_rehashing m) (Helped m)
  unfolding hm_help_rehashing
  help_from (inr d) =
      let (m', run, k) =
        rehash_loop-Drained (rehash_fuel m) 0 m v.ready d v.small (omega arith)
          (omega (arith, width-slots_of m.old_tab)) in
      (release_old m', rw run refl, release_old-Helped m m' v.narrow v.small k)
  help_from (inl e) = (
    m,
    help_idle m e,
    record { valid = v; totals = λ p. refl; mask = refl; left = rw e refl; freed = λ _. e },
  )

  -- The step of the rehashing returns, moves 128 nodes or all that are left, and keeps the contents.
  pub hm_help_rehashing-Helped : Returns (hm_help_rehashing m) (Helped m)
  hm_help_rehashing-Helped = help_from v.old
