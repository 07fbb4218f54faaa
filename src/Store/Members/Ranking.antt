-- ===== src/Store/Members/Ranking.antt =====
-- What server/src/data_structures/zset.h promises: a sorted set is a list of entries in order, with
-- one entry for each name. The hash table, the tree and the addresses are forgotten.
use redis_like.Avl.Range.{ranked}
use redis_like.Store.Members.{less_entry}
use redis_like.Store.Objects.{Bytes, Double, Memory, Entry, Value, same_bytes}
use redis_like.Avl.Shape.{items}
use redis_like.Prelude.{ℕ, suc, if◌then◌else◌, Option, none, some, List, [], ◌∷◌, map, ℤ}

module _ {Score : Type 0} where
  -- The entries at the addresses of a list.
  abbrev pub entries_at : Memory (Entry Score) → List ℕ → List (Entry Score)
  entries_at m [] = []
  entries_at m (a ∷ items) = elim (m a) [
    | none ↦ entries_at m items
    | some e ↦ e ∷ entries_at m items
  ]

  -- The entries of a set, from the lowest to the highest.
  abbrev pub ranking : Value Score → List (Entry Score)
  ranking v = entries_at v.entries (items v.tree)

  abbrev pub score_of : Bytes → List (Entry Score) → Option Score
  score_of name [] = none
  score_of name (e ∷ es) = if same_bytes e.name name then some e.score else score_of name es

  -- Ranks count from one.
  abbrev pub rank_of : Bytes → List (Entry Score) → Option ℕ
  rank_of name [] = none
  rank_of name (e ∷ es) =
      if same_bytes e.name name
      then some 1
      else elim (rank_of name es) [ none ↦ none | some rank ↦ some (suc rank) ]

  -- Without the entry of a name.
  abbrev pub without : Bytes → List (Entry Score) → List (Entry Score)
  without name [] = []
  without name (e ∷ es) = if same_bytes e.name name then without name es else e ∷ without name es

  -- Before the first entry that is greater.
  abbrev pub place : Double Score → Entry Score → List (Entry Score) → List (Entry Score)
  place double e [] = e ∷ []
  place double e (x ∷ es) = if less_entry double e x then e ∷ (x ∷ es) else x ∷ place double e es

  -- The entries whose rank, of those from `rank` on, lies in the range.
  abbrev pub stretch : ℤ → ℤ → ℕ → List (Entry Score) → List (Entry Score)
  stretch lo hi rank es = ranked lo hi rank es

  abbrev pub pairs : List (Entry Score) → List (Bytes × Score)
  pairs = map (λ e. (e.name, e.score))
