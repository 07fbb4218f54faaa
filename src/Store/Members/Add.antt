-- ===== src/Store/Members/Add.antt =====
-- `zadd` of server/src/data_structures/zset.cpp puts an entry where its score belongs.
use redis_like.Avl.Delete.{avl_delete_-items}
use redis_like.Avl.Shape.{items, size, length-items}
use redis_like.Avl.Sorted.{occurs, remove, All-remove, remove-IsSorted}
use redis_like.HashTable.Map.{HMap, hm_lookup}
use redis_like.HashTable.Map.Insert.{hm_insert-tally}
use redis_like.HashTable.Map.Valid.{tally, Contains}
use redis_like.HashTable.Tab.{HNode}
use redis_like.HashTable.Tab.Slots.{is}
use redis_like.Store.Contents.{has_key, keyed}
use redis_like.Store.Contents.Write.{updated-With, inserted-With}
use redis_like.Store.Members.{less, equals_entry, change_score, add_entry, zadd}
use redis_like.Store.Members.Entries.{
  Numbered, occurs-remove, length-remove, without-remove, without_absent,
}
use redis_like.Store.Members.Order.{IsOrdered}
use redis_like.Store.Members.Ordered.{IsOrderedSet, Hit, absent, present, lookup-Hit, tally-next}
use redis_like.Store.Members.Put.{others_remove, avl_insert-Placed}
use redis_like.Store.Members.Ranking.{ranking, place, without}
use redis_like.Store.Objects.{Bytes, Double, Entry, entry_keyed, Value, table_of, hash, load, write}
use redis_like.Prelude.{
  ◌+◌, ◌^◌, ◌<◌, ◌==◌, Bool, true, false, Option, none, some, ◌≡◌, refl, sym, ap, ◌∙◌, inl, inr,
  arith, All, length, one_if, ok, Returns, Bool-cases,
}

module _ {Score : Type 0} (double : Double Score) (laws : IsOrdered double) (v : Value Score)
    (s : IsOrderedSet double v) (score : Score) (name : Bytes)
    (number : double.eq score score ≡ true) where
  -- The set with the entry of the name at its new place.
  abbrev pub Added : Value Score → Type 0
  Added v' =
      IsOrderedSet double v'
      × (ranking v'
          ≡ place double (record { score = score; name = name }) (without name (ranking v)))

  module _ (m : HMap) (s' : IsOrderedSet double (record v { hmap = m }))
      (totals : (p : HNode → Bool) → tally m p ≡ tally v.hmap p) where
    change_score-Added :
        (n : HNode) (e : Entry Score)
        → Contains v.hmap n
        → v.entries n.object ≡ some e
        → e.name ≡ name
        → All (λ b. has_key (v.entries b) name ≡ (b == n.object)) (items v.tree)
        → occurs n.object (items v.tree) ≡ 1
        → Returns (change_score double (record v { hmap = m }) n.object score) Added
    unfolding change_score
    change_score-Added n e k at named others once =
        let x = n.object in
        let new : Entry Score = record e { score = score } in
        let rest = remove x (items v.tree) in
        let small : size v.tree < 2 ^ 31 = omega (arith, s.sized, s.table.valid.small) in
        let (t, del, (kt, it)) = avl_delete_-items x v.tree s.cached small once in
        let gone : occurs x rest ≡ 0 = ground (arith, occurs-remove x x (items v.tree)) in
        let fewer : size t + 1 ≡ size v.tree = omega (
          arith,
          length-items t,
          length-items v.tree,
          ap length it,
          length-remove x (items v.tree),
          once,
        ) in
        let away : All (λ b. has_key (v.entries b) new.name ≡ false) rest =
          rw named (others_remove v.entries name x (items v.tree) others) in
        let (t', ins, p) =
          avl_insert-Placed double laws v.entries x new number t rest it kt
            (remove-IsSorted (less double v.entries) x (items v.tree) s.sorted)
            (All-remove (Numbered double v.entries) x (items v.tree) s.numbered) away gone
            (omega (arith, fewer, small)) in
        let inside : Contains m n = omega (arith, totals (is n), k) in
        let w =
          updated-With (table_of (record v { hmap = m })) name new e named named s'.table n inside
            at in
        (
          record { hmap = m; tree = t'; entries = write v.entries x (some new); next = v.next },
          rw (del, load, at) (rw ins refl),
          (
            record {
              table = w.live;
              cached = p.cached;
              sorted = p.sorted;
              numbered = p.numbered;
              same = λ a. elim (Bool-cases (x == a)) [
                | inl here ↦
                    let e : a ≡ x = ground arith in
                    let one : occurs a (items v.tree) ≡ 1 = rw e once in
                    let none_left : occurs a rest ≡ 0 = rw e gone in
                    let put : one_if (x == a) ≡ 1 = rw here refl in
                    omega (arith, one, none_left, put, p.counts a, s'.same a)
                | inr apart ↦
                    let kept : occurs a rest ≡ occurs a (items v.tree) =
                      occurs-remove a x (items v.tree) ∙ rw apart refl in
                    let not_put : one_if (x == a) ≡ 0 = rw apart refl in
                    omega (arith, kept, not_put, p.counts a, s'.same a)
              ];
              sized = omega (arith, p.sized, length-items t, ap length it, fewer, s'.sized);
            },
            p.ranks
                ∙ ap (place double new)
                    (sym (without-remove double v.entries name x (items v.tree) others))
                ∙ ap
                    (λ w.
                      place double (record { score = score; name = w }) (without name (ranking v)))
                    named,
          ),
        )

    add_entry-Added :
        tally v.hmap (keyed (table_of v) name) ≡ 0
        → All (λ b. has_key (v.entries b) name ≡ false) (items v.tree)
        → tally v.hmap (λ _. true) + 1 < 2 ^ 31
        → Returns (add_entry double (record v { hmap = m }) score name) Added
    unfolding add_entry
    add_entry-Added z k room =
        let new : Entry Score = record { score = score; name = name } in
        let hook : HNode = record { hcode = hash name; object = v.next } in
        let gone : occurs v.next (items v.tree) ≡ 0 =
          omega (arith, s.same v.next, tally-next v s.table) in
        let (t', ins, p) =
          avl_insert-Placed double laws v.entries v.next new number v.tree (items v.tree) refl
            s.cached s.sorted s.numbered k gone (omega (arith, s.sized, room)) in
        let (m', insert, (valid, more)) =
          hm_insert-tally m hook s'.table.valid (omega (arith, totals (λ _. true), room)) in
        let missing : tally m (keyed (table_of v) name) ≡ 0 =
          omega (arith, z, totals (keyed (table_of v) name)) in
        let w =
          inserted-With (table_of (record v { hmap = m })) name new refl s'.table missing m' valid
            more in
        (
          record {
            hmap = m';
            tree = t';
            entries = write v.entries v.next (some new);
            next = v.next + 1;
          },
          rw (ins, insert) refl,
          (
            record {
              table = w.live;
              cached = p.cached;
              sorted = p.sorted;
              numbered = p.numbered;
              same = λ a. omega (arith, p.counts a, more (λ n. n.object == a), s'.same a);
              sized = omega (arith, p.sized, length-items v.tree, more (λ _. true), s'.sized);
            },
            p.ranks
                ∙ ap (place double new)
                    (sym (without_absent double v.entries name (items v.tree) k)),
          ),
        )

  -- `zadd` of a score that is a number, with room in the counters, returns `true`: the set is in order
  -- again, and its ranking is the old one with the entry of the name, if there was one, taken out and
  -- the new entry put where its score and its name belong.
  pub zadd-ranking :
      tally v.hmap (λ _. true) + 1 < 2 ^ 31
      → Returns (zadd double v score name) λ r. (r.0 ≡ true) × Added r.1
  unfolding zadd
  zadd-ranking room =
      let ((node, m), run, (s', totals, h)) = lookup-Hit double v name s in
      from node m run s' totals h
    where
      from :
          (node : Option HNode) (m : HMap)
          → hm_lookup v.hmap (hash name) (equals_entry v.entries name) ≡ ok (node, m)
          → IsOrderedSet double (record v { hmap = m })
          → ((p : HNode → Bool) → tally m p ≡ tally v.hmap p)
          → Hit double v name node
          → Returns (zadd double v score name) λ r. (r.0 ≡ true) × Added r.1
      from none m run s' totals (absent z k) =
          let (v', add, (ordered, ranks)) = add_entry-Added m s' totals z k room in
          ((true, v'), rw (zadd, run) (rw add refl), (refl, (ordered, ranks)))
      from (some _) m run s' totals (present n e k at named others once) =
          let (v', change, (ordered, ranks)) =
            change_score-Added m s' totals n e k at named others once in
          ((true, v'), rw (zadd, run) (rw change refl), (refl, (ordered, ranks)))
