-- ===== src/Store/Members/Ordered.antt =====
-- The sorted sets of server/src/data_structures/zset.cpp: the hash table and the tree hold the same
-- entries. What a search of the hash table says of the tree.
use redis_like.Avl.Shape.{items, size, IsCached}
use redis_like.Avl.Sorted.{occurs, IsSorted}
use redis_like.HashTable.Map.{HMap, hm_lookup}
use redis_like.HashTable.Map.Find.{Answer, nothing, found, hm_lookup-Answer}
use redis_like.HashTable.Map.Valid.{tally, Contains, IsValid}
use redis_like.HashTable.Tab.{HNode}
use redis_like.HashTable.Tab.Ready.{Answers}
use redis_like.HashTable.Tab.Slots.{is, eq_of_is}
use redis_like.Store.Contents.{
  IsLive, keyed, has_key, same_bytes_refl, tally-le, tally-disjoint, tally-false,
}
use redis_like.Store.Contents.Find.{match_of, keyed-matches}
use redis_like.Store.Contents.Same.{hmap-Same}
use redis_like.Store.Members.{less, equals_entry}
use redis_like.Store.Members.Entries.{Numbered, All-occurs}
use redis_like.Store.Objects.{Bytes, Double, Entry, Value, entry_keyed, table_of, hash, load}
use redis_like.Prelude.{
  ℕ, ◌≤◌, ◌==◌, Bool, true, false, Option, none, some, ◌≡◌, refl, inl, inr, arith, All, one_if,
  Returns, Bool-cases, Option-cases,
}

module _ {Score : Type 0} (double : Double Score) where
  -- The tree is in order with right caches, and holds the addresses of the hash table, each once.
  -- Every score is a number.
  pub record IsOrderedSet (v : Value Score) : Type 0 where
    pub table : IsLive (table_of v)
    pub cached : IsCached v.tree
    pub sorted : IsSorted (less double v.entries) (items v.tree)
    pub numbered : All (Numbered double v.entries) (items v.tree)
    pub same : (a : ℕ) → occurs a (items v.tree) ≡ tally v.hmap (λ n. n.object == a)
    pub sized : size v.tree ≡ tally v.hmap (λ _. true)

  -- A step of the rehashing changes nothing of a set.
  pub IsOrderedSet-hmap :
      (v : Value Score) (m : HMap)
      → IsOrderedSet v
      → IsValid m
      → ((p : HNode → Bool) → tally m p ≡ tally v.hmap p)
      → IsOrderedSet (record v { hmap = m })
  IsOrderedSet-hmap v m s valid e = record {
    table = (hmap-Same (table_of v) m valid e s.table).live;
    cached = s.cached;
    sorted = s.sorted;
    numbered = s.numbered;
    same = λ a. omega (arith, s.same a, e (λ n. n.object == a));
    sized = omega (arith, s.sized, e (λ _. true));
  }

module _ {Score : Type 0} (v : Value Score) (l : IsLive (table_of v)) where
  -- The nodes at an address.
  abbrev at : ℕ → HNode → Bool
  at a n = n.object == a

  -- The nodes at an entry with this name are among those that have the name.
  at-keyed :
      (a : ℕ) (name : Bytes)
      → has_key (v.entries a) name ≡ true
      → (n : HNode) → one_if (at a n) ≤ one_if (keyed (table_of v) name n)
  at-keyed a name h n = elim (Bool-cases (at a n)) [
    | inr apart ↦ rw apart (omega arith)
    | inl same ↦ (let e : n.object ≡ a = ground arith in rw (e, h) (ground arith))
  ]

  -- The next address is in no node.
  pub tally-next : tally v.hmap (at v.next) ≡ 0
  tally-next = omega (
    arith,
    tally-false v.hmap,
    tally-le v.hmap (at v.next) (λ _. false) (λ n k h. absurd (ground (arith, l.below n k))),
  )

  pub tally-at : (a : ℕ) → tally v.hmap (at a) ≤ 1
  tally-at a = elim (Option-cases (v.entries a)) [
    | inl gone ↦ omega (
      arith,
      tally-le v.hmap (at a) (λ _. false)
          (λ n k h.
            let (e, stands, _) = l.live n k in
            let there : n.object ≡ a = ground arith in
            let here : v.entries a ≡ some e = rw (← there) stands in
            let no : none ≡ some e = (rw gone at here) in absurd cc),
      tally-false v.hmap,
    )
    | inr (e, stands) ↦
        let h : has_key (v.entries a) e.name ≡ true = rw stands (same_bytes_refl e.name) in
        omega (
          arith,
          l.once e.name,
          tally-le v.hmap (at a) (keyed (table_of v) e.name)
              (λ n _ k. let le = at-keyed a e.name h n in ground arith),
        )
  ]

module _ {Score : Type 0} (double : Double Score) (v : Value Score) (name : Bytes) where
  -- What a search by name says of the addresses in the tree.
  pub data Hit : Option HNode → Type 0 where
    absent :
        tally v.hmap (keyed (table_of v) name) ≡ 0
        → All (λ b. has_key (v.entries b) name ≡ false) (items v.tree)
        → Hit none
    present :
        (n : HNode) (e : Entry Score)
        → Contains v.hmap n
        → v.entries n.object ≡ some e
        → e.name ≡ name
        → All (λ b. has_key (v.entries b) name ≡ (b == n.object)) (items v.tree)
        → occurs n.object (items v.tree) ≡ 1
        → Hit (some n)

  module _ (s : IsOrderedSet double v) where
    absent_everywhere :
        tally v.hmap (keyed (table_of v) name) ≡ 0
        → All (λ b. has_key (v.entries b) name ≡ false) (items v.tree)
    absent_everywhere z =
        All-occurs (λ b. has_key (v.entries b) name ≡ false) (items v.tree)
          (λ b k. elim (Bool-cases (has_key (v.entries b) name)) [
            | inr miss ↦ miss
            | inl hit ↦ absurd (
                omega (
                  arith,
                  z,
                  s.same b,
                  tally-le v.hmap (at v s.table b) (keyed (table_of v) name)
                      (λ n _ h. let le = at-keyed v s.table b name hit n in ground arith),
                ))
          ])

    occurs_of : (n : HNode) → Contains v.hmap n → occurs n.object (items v.tree) ≡ 1
    occurs_of n k = omega (
      arith,
      k,
      s.same n.object,
      tally-at v s.table n.object,
      tally-le v.hmap (is n) (at v s.table n.object)
          (λ x _ h. let e = eq_of_is n x h in rw (← e) (ground arith)),
    )

    alone :
        (n : HNode)
        → Contains v.hmap n
        → has_key (v.entries n.object) name ≡ true
        → All (λ b. has_key (v.entries b) name ≡ (b == n.object)) (items v.tree)
    alone n inside h =
        All-occurs (λ b. has_key (v.entries b) name ≡ (b == n.object)) (items v.tree)
          (λ b k. elim (Bool-cases (b == n.object)) [
            | inl same ↦ (let e : b ≡ n.object = ground arith in rw same (rw e h))
            | inr apart ↦ elim (Bool-cases (has_key (v.entries b) name)) [
              | inr miss ↦ rw apart miss
              | inl hit ↦ absurd (
                  omega (
                    arith,
                    s.table.once name,
                    occurs_of n inside,
                    s.same n.object,
                    s.same b,
                    tally-disjoint v.hmap (at v s.table n.object) (at v s.table b)
                        (keyed (table_of v) name)
                        (λ x.
                          let first = at-keyed v s.table n.object name h x in
                          let second = at-keyed v s.table b name hit x in
                          elim (Bool-cases (x.object == n.object)) [
                            | inr off ↦ rw off (omega (arith, second))
                            | inl on ↦
                                let off : (x.object == b) ≡ false = ground arith in
                                rw off (omega (arith, first))
                          ]),
                  ))
            ]
          ])

    pub equals_entry-Answers :
        (n : HNode)
        → Contains v.hmap n
        → Answers (hash name) (equals_entry v.entries name) (keyed (table_of v) name) n
    unfolding equals_entry
    equals_entry-Answers n k e =
        let (o, stands, _) = s.table.live n k in rw (equals_entry, load, stands) refl

    -- The search of the hash table returns, and its step of the rehashing keeps the set as it is.
    pub lookup-Hit : Returns (hm_lookup v.hmap (hash name) (equals_entry v.entries name)) λ r.
        IsOrderedSet double (record v { hmap = r.1 })
        × ((p : HNode → Bool) → tally r.1 p ≡ tally v.hmap p)
        × Hit r.0
    lookup-Hit =
        let ((node, m), run, (valid, totals, a)) =
          hm_lookup-Answer (hash name) (equals_entry v.entries name) (keyed (table_of v) name)
            v.hmap s.table.valid equals_entry-Answers in
        ((node, m), run, (IsOrderedSet-hmap double v m s valid totals, totals, from node a))
      where
        from :
            (node : Option HNode)
            → Answer v.hmap (hash name) (keyed (table_of v) name) node
            → Hit node
        from none (nothing z) =
            let none_there = keyed-matches (table_of v) name s.table z in
            absent none_there (absent_everywhere none_there)
        from (some _) (found n k hit) =
            let (e, stands, named) = match_of (table_of v) name s.table n k hit in
            let here : has_key (v.entries n.object) name ≡ true =
              rw (stands, named) (same_bytes_refl name) in
            present n e k stands named (alone n k here) (occurs_of n k)
