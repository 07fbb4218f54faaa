-- ===== src/HashTable/Tab/Laws.antt =====
-- `h_insert`, `h_lookup` and `h_detach` on an allocated table.
use redis_like.HashTable.Tab.{
  HNode, Chain, HTab, From, get_pos, slot_at, set_slot, h_insert, scan, h_lookup, h_detach,
}
use redis_like.HashTable.Tab.Slots.{
  is, matches, total, total-set, total_only, count-le-total, All-of_count, All-map, count_nowhere,
  get_or-set_self, get_or-set_ne,
}
use redis_like.HashTable.Tab.Ready.{
  slots_in, slots_of, IsReady, get_pos-lt, Answers, Scanned, missed, hit, scan-Scanned,
  remove_at-Returns,
}
use redis_like.Prelude.{
  ℕ, ◌+◌, ◌-◌, ◌≤◌, ◌<◌, ◌%◌, ◌^◌, ◌==◌, Bool, true, false, Option, none, some, List, [], ◌∷◌, ◌≡◌,
  ◌≢◌, refl, ap, ◌∙◌, ◌⊎◌, inl, inr, arith, length, get_elem?, get_or, set, bit_and, count, one_if,
  All, Run, ok, ◌>>=◌, Returns, Bool-cases, get_elem?-lt, length-set,
}
use mathlib.Core.Option
use native.Mathlib.Decide.{ℕ_discrete}

slot_in-lt :
    (tab : Option (List Chain)) (i : ℕ)
    → tab ≡ some (slots_in tab)
    → i < length (slots_in tab)
    → slot_at tab i ≡ ok (get_or (slots_in tab) i [])
unfolding slot_at
slot_in-lt none i e h = cc
slot_in-lt (some slots) i e h = rw (get_elem?-lt slots i [] h, slot_at) refl

-- `tab[pos]` in range.
pub slot_at-lt :
    (t : HTab) (i : ℕ)
    → IsReady t
    → i < length (slots_of t)
    → slot_at t.tab i ≡ ok (get_or (slots_of t) i [])
slot_at-lt t i r h = slot_in-lt t.tab i r.allocated h

slots_in-set_slot :
    (tab : Option (List Chain)) (i : ℕ) (c : Chain)
    → slots_in (set_slot tab i c) ≡ set (slots_in tab) i c
slots_in-set_slot none i c = refl
slots_in-set_slot (some slots) i c = refl

set_slot_allocated :
    (tab : Option (List Chain)) (i : ℕ) (c : Chain)
    → tab ≡ some (slots_in tab)
    → set_slot tab i c ≡ some (slots_in (set_slot tab i c))
set_slot_allocated none i c h = cc
set_slot_allocated (some slots) i c h = refl

-- A write of one slot keeps the table ready if the chain belongs there and the size is adjusted.
set_slot-IsReady :
    (t : HTab) (i : ℕ) (c : Chain) (size : ℕ)
    → IsReady t
    → i < length (slots_of t)
    → size + count (λ _. true) (get_or (slots_of t) i []) ≡ t.size + count (λ _. true) c
    → All (λ n. bit_and n.hcode t.mask ≡ i) c
    → IsReady (record t { tab = set_slot t.tab i c; size = size })
set_slot-IsReady t i c size r h counted here = record {
  allocated = set_slot_allocated t.tab i c r.allocated;
  wide = rw (slots_in-set_slot t.tab i c, length-set (slots_of t) i c) r.wide;
  power = r.power;
  counted =
      rw (slots_in-set_slot t.tab i c)
        (omega (arith, r.counted, total-set (λ _. true) (slots_of t) i c h));
  placed = λ j. rw (slots_in-set_slot t.tab i c) (placed_at j (ℕ_discrete i j));
}
  where
    placed_at :
        (j : ℕ)
        → Dec (i ≡ j)
        → All (λ n. bit_and n.hcode t.mask ≡ j) (get_or (set (slots_of t) i c) j [])
    placed_at j (yes e) = rw (← e, get_or-set_self (slots_of t) i c h) here
    placed_at j (no e) = rw (get_or-set_ne (slots_of t) i j c e) (r.placed j)

pub record Inserted (t : HTab) (n : HNode) (t' : HTab) : Type 0 where
  pub ready : IsReady t'
  pub mask : t'.mask ≡ t.mask
  pub totals : (p : HNode → Bool) → total p (slots_of t') ≡ one_if (p n) + total p (slots_of t)

-- `h_insert` adds the node in its slot.
pub h_insert-Inserted :
    (t : HTab) (n : HNode)
    → IsReady t
    → total (λ _. true) (slots_of t) < 2 ^ 31
    → Returns (h_insert t (some n)) (Inserted t n)
unfolding h_insert
h_insert-Inserted t n r small =
    let pos = get_pos t n.hcode in
    let lt : pos < length (slots_of t) = get_pos-lt t n.hcode r in
    let old = get_or (slots_of t) pos [] in
    (
      record t { tab = set_slot t.tab pos (n ∷ old); size = (t.size + 1) % 2 ^ 32 },
      rw (slot_at-lt t pos r lt) refl,
      record {
        ready =
            set_slot-IsReady t pos (n ∷ old) ((t.size + 1) % 2 ^ 32) r lt (omega (arith, r.counted))
              (refl, r.placed pos);
        mask = refl;
        totals = λ p.
            rw (slots_in-set_slot t.tab pos (n ∷ old))
              (omega (arith, total-set p (slots_of t) pos (n ∷ old) lt));
      },
    )

pub record Detached (t : HTab) (n : HNode) (r : Option HNode × HTab) : Type 0 where
  pub node : r.0 ≡ some n
  pub ready : IsReady r.1
  pub mask : r.1.mask ≡ t.mask
  pub totals : (p : HNode → Bool) → total p (slots_of t) ≡ one_if (p n) + total p (slots_of r.1)
  pub empty : (i : ℕ) → get_or (slots_of t) i [] ≡ [] → get_or (slots_of r.1) i [] ≡ []

-- `h_detach` takes out the node that `*from` is.
pub h_detach-Detached :
    (t : HTab) (pos j : ℕ) (n : HNode)
    → IsReady t
    → total (λ _. true) (slots_of t) < 2 ^ 31
    → pos < length (slots_of t)
    → get_elem? (get_or (slots_of t) pos []) j ≡ some n
    → Returns (h_detach t (some (pos, j))) (Detached t n)
unfolding h_detach
h_detach-Detached t pos j n r small lt at =
    let old = get_or (slots_of t) pos [] in
    let ((n', rest), run, (same, counts, kept)) =
      remove_at-Returns (λ m. bit_and m.hcode t.mask ≡ pos) old j n at (r.placed pos) in
    let size' = (t.size + 2 ^ 32 - 1) % 2 ^ 32 in
    let t' : HTab = record t { tab = set_slot t.tab pos rest; size = size' } in
    (
      (some n', t'),
      rw (slot_at-lt t pos r lt, ◌>>=◌, run) refl,
      record {
        node = ap some same;
        ready =
            set_slot-IsReady t pos rest size' r lt
              (omega
                (arith, r.counted, counts (λ _. true), count-le-total (λ _. true) (slots_of t) pos))
              kept;
        mask = refl;
        totals = λ p.
            rw (slots_in-set_slot t.tab pos rest)
              (omega (arith, total-set p (slots_of t) pos rest lt, counts p));
        empty = λ i e. rw (slots_in-set_slot t.tab pos rest) (empty_at rest i e (ℕ_discrete pos i));
      },
    )
  where
    empty_at :
        (rest : Chain) (i : ℕ)
        → get_or (slots_of t) i [] ≡ []
        → Dec (pos ≡ i)
        → get_or (set (slots_of t) pos rest) i [] ≡ []
    empty_at rest i e (no off) = rw (get_or-set_ne (slots_of t) pos i rest off) e
    empty_at rest i e (yes on) = let gone : none ≡ some n = (rw (on, e) at at) in cc

-- What `h_lookup` may answer.
pub data Found (t : HTab) (h : ℕ) (same : HNode → Bool) : Option From → Type 0 where
  absent : total (matches h same) (slots_of t) ≡ 0 → Found t h same none
  present :
      (pos j : ℕ) (n : HNode)
      → pos < length (slots_of t)
      → get_elem? (get_or (slots_of t) pos []) j ≡ some n
      → matches h same n ≡ true
      → Found t h same (some (pos, j))

-- No node with the hash code stands in another slot.
elsewhere :
    (t : HTab) (h : ℕ) (same : HNode → Bool)
    → IsReady t
    → (j : ℕ) → j ≢ get_pos t h
    → count (matches h same) (get_or (slots_of t) j []) ≡ 0
unfolding get_pos
elsewhere t h same r j off = count_nowhere (matches h same) (get_or (slots_of t) j []) (
    All-map (λ n (e : bit_and n.hcode t.mask ≡ j). misses n e (Bool-cases (n.hcode == h)))
      (get_or (slots_of t) j []) (r.placed j))
  where
    misses :
        (n : HNode)
        → bit_and n.hcode t.mask ≡ j
        → ((n.hcode == h) ≡ true) ⊎ ((n.hcode == h) ≡ false)
        → matches h same n ≡ false
    misses n e (inl same_code) =
        let code : n.hcode ≡ h = ground arith in absurd (off (rw (← e, code) refl))
    misses n e (inr other) = rw other refl

to_from : ℕ → Option ℕ → Option From
to_from pos = Option.map (λ i. (pos, i))

h_lookup_run :
    (t : HTab) (h : ℕ) (eq : HNode → Run Bool)
    → IsReady t
    → h_lookup t h eq
      ≡ scan h eq (get_or (slots_of t) (get_pos t h) []) 0 >>= (λ f. ok (to_from (get_pos t h) f))
unfolding h_lookup to_from
h_lookup_run t h eq r =
    let lt : get_pos t h < length (slots_of t) = get_pos-lt t h r in
    rw (h_lookup, r.allocated, slot_in-lt (some (slots_of t)) (get_pos t h) refl lt) refl

module _ (t : HTab) (h : ℕ) (same : HNode → Bool) (r : IsReady t) where
  Found-of_scan :
      (i : Option ℕ)
      → Scanned h same (get_or (slots_of t) (get_pos t h) []) 0 i
      → Found t h same (to_from (get_pos t h) i)
  unfolding to_from
  Found-of_scan none (missed z) =
      absent (total_only (matches h same) (slots_of t) (get_pos t h) (elsewhere t h same r) ∙ z)
  Found-of_scan (some _) (hit j n e k) =
      let at : 0 + j ≡ j = omega arith in rw at (present (get_pos t h) j n (get_pos-lt t h r) e k)

  -- `h_lookup` finds a matching node, and none only if the table has none.
  pub h_lookup-Found :
      (eq : HNode → Run Bool)
      → ((n : HNode) → 1 ≤ total (is n) (slots_of t) → Answers h eq same n)
      → Returns (h_lookup t h eq) (Found t h same)
  h_lookup-Found eq answers =
      let pos = get_pos t h in
      let chain = get_or (slots_of t) pos [] in
      let all =
        All-of_count (Answers h eq same) chain
          (λ n k. answers n (omega (arith, count-le-total (is n) (slots_of t) pos))) in
      let (i, run, s) = scan-Scanned h eq same chain 0 all in
      (to_from pos i, h_lookup_run t h eq r ∙ rw run refl, Found-of_scan i s)
