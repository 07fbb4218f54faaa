-- ===== src/Store/Contents/Free.antt =====
-- What a hash table of server/src/data_structures holds after a node was detached and its object freed.
use mathlib.Core.Option.{some-injective}
use redis_like.HashTable.Map.{HMap}
use redis_like.HashTable.Map.Valid.{tally, Contains, IsValid}
use redis_like.HashTable.Tab.{HNode}
use redis_like.HashTable.Tab.Slots.{is, eq_of_is}
use redis_like.Store.Contents.{IsLive, Holds, keyed, tally-le, same_bytes_refl}
use redis_like.Store.Objects.{Bytes, Table, Keyed, write}
use redis_like.Prelude.{
  ◌+◌, ◌≤◌, ◌==◌, Bool, true, false, none, some, ◌≡◌, ◌≢◌, refl, sym, ap, ◌∙◌, arith, one_if,
  Bool-cases, inl, inr,
}

module _ {A : Type 0} ⦃keys : Keyed A⦄ where
  -- The second database is the first one without what it holds under a key.
  pub record Without (db : Table A) (key : Bytes) (db' : Table A) : Type 0 where
    pub live : IsLive db'
    pub gone : tally db'.hmap (keyed db' key) ≡ 0
    pub kept : (k : Bytes) (o : A) → k ≢ key → Holds db k o → Holds db' k o
    pub back : (k : Bytes) (o : A) → Holds db' k o → Holds db k o

  module _ (db : Table A) (key : Bytes) (l : IsLive db) (n : HNode) (m : HMap) (valid : IsValid m)
      (o : A) (at : db.objects n.object ≡ some o) (named : keys.key_of o ≡ key)
      (totals : (p : HNode → Bool) → tally db.hmap p ≡ one_if (p n) + tally m p) where
    abbrev pub freed : Table A
    freed = record db { hmap = m; objects = write db.objects n.object none }

    pub old : (x : HNode) → Contains m x → Contains db.hmap x
    old x k = omega (arith, totals (is x))

    keyed_here : keyed db key n ≡ true
    keyed_here = rw (at, named) (same_bytes_refl key)

    -- Another node stands at another address.
    pub elsewhere : (x : HNode) → Contains m x → (x.object == n.object) ≡ false
    elsewhere x k = elim (Bool-cases (x.object == n.object)) [
      | inr apart ↦ apart
      | inl same ↦
          let e : x.object ≡ n.object = ground arith in
          let too : keyed db key x ≡ true = rw e keyed_here in
          let more = tally-le m (is x) (keyed db key) (λ y _ h. rw (← eq_of_is x y h) too) in
          let first : one_if (keyed db key n) ≡ 1 = rw keyed_here refl in
          absurd (omega (arith, totals (keyed db key), l.once key, more, first))
    ]

    pub untouched : (x : HNode) → Contains m x → freed.objects x.object ≡ db.objects x.object
    untouched x k = rw (elsewhere x k) refl

    fewer : (k : Bytes) → tally m (keyed freed k) ≤ tally m (keyed db k)
    fewer k = tally-le m (keyed freed k) (keyed db k) (λ x i h. rw (← untouched x i) h)

    stays : (k : Bytes) (o' : A) → k ≢ key → (x : Holds db k o') → Contains m x.hook
    stays k o' ne x = elim (Bool-cases (is x.hook n)) [
      | inr apart ↦
          let off : one_if (is x.hook n) ≡ 0 = rw apart refl in
          omega (arith, totals (is x.hook), x.inside, off)
      | inl same ↦
          let e = eq_of_is x.hook n same in
          let here : db.objects n.object ≡ some o' = rw (← e) x.stands in
          absurd (ne (sym x.named ∙ ap keys.key_of (some-injective o' o (sym here ∙ at)) ∙ named))
    ]

    pub freed-Without : Without db key freed
    freed-Without = record {
      live = record {
        valid = valid;
        live = λ x k. rw (untouched x k) (l.live x (old x k));
        below = λ x k. l.below x (old x k);
        once = λ k. omega (arith, fewer k, totals (keyed db k), l.once k);
      };
      gone =
          (let first : one_if (keyed db key n) ≡ 1 = rw keyed_here refl in
            omega (arith, fewer key, totals (keyed db key), l.once key, first));
      kept = λ k o' ne x. record {
        hook = x.hook;
        inside = stays k o' ne x;
        stands = untouched x.hook (stays k o' ne x) ∙ x.stands;
        named = x.named;
      };
      back = λ k o' x. record {
        hook = x.hook;
        inside = old x.hook x.inside;
        stands = sym (untouched x.hook x.inside) ∙ x.stands;
        named = x.named;
      };
    }
