-- ===== src/Store/Contents/Write.antt =====
-- What a hash table of server/src/data_structures holds after an object was written: in the place of
-- one with the same key, or at a new address with a node of its own.
use mathlib.Core.Option.{some-injective}
use redis_like.HashTable.Map.{HMap}
use redis_like.HashTable.Map.Valid.{tally, Contains, IsValid}
use redis_like.HashTable.Tab.{HNode}
use redis_like.HashTable.Tab.Slots.{is, is_refl, eq_of_is}
use redis_like.Store.Contents.{IsLive, Holds, keyed, tally-le, eq_of_same_bytes}
use redis_like.Store.Objects.{Bytes, Table, Keyed, hash, same_bytes, write}
use redis_like.Prelude.{
  ◌+◌, ◌≤◌, ◌==◌, Bool, true, false, some, ◌≡◌, ◌≢◌, refl, sym, ap, ◌∙◌, ◌⊎◌, arith, one_if,
  Bool-cases, inl, inr,
}

module _ {A : Type 0} ⦃keys : Keyed A⦄ where
  -- The second table holds the object under the key, and all else that the first one holds.
  pub record With (db : Table A) (key : Bytes) (new : A) (db' : Table A) : Type 0 where
    pub live : IsLive db'
    pub holds : Holds db' key new
    pub kept : (k : Bytes) (o : A) → k ≢ key → Holds db k o → Holds db' k o
    pub back : (k : Bytes) (o : A) → k ≢ key → Holds db' k o → Holds db k o

  module _ (db : Table A) (key : Bytes) (new was : A) (new_key : keys.key_of new ≡ key)
      (was_key : keys.key_of was ≡ key) (l : IsLive db) (n : HNode) (inside : Contains db.hmap n)
      (at : db.objects n.object ≡ some was) where
    abbrev updated : Table A
    updated = record db { objects = write db.objects n.object (some new) }

    -- Every object has the key that it had.
    keyed_as_before : (k : Bytes) (x : HNode) → keyed updated k x ≡ keyed db k x
    keyed_as_before k x = elim (Bool-cases (x.object == n.object)) [
      | inr apart ↦ rw apart refl
      | inl same ↦
          let e : x.object ≡ n.object = ground arith in
          let here : (n.object == n.object) ≡ true = ground arith in
          rw (e, at, here, new_key, was_key) refl
    ]

    -- An object with another key is as it was.
    other :
        (x : HNode) (o : A)
        → db.objects x.object ≡ some o
        → keys.key_of o ≢ key
        → (x.object == n.object) ≡ false
    other x o e ne = elim (Bool-cases (x.object == n.object)) [
      | inr apart ↦ apart
      | inl same ↦
          let a : x.object ≡ n.object = ground arith in
          let here : db.objects n.object ≡ some o = rw (← a) e in
          absurd (ne (ap keys.key_of (some-injective o was (sym here ∙ at)) ∙ was_key))
    ]

    other_back :
        (x : HNode) (o : A)
        → updated.objects x.object ≡ some o
        → keys.key_of o ≢ key
        → db.objects x.object ≡ some o
    other_back x o e ne = elim (Bool-cases (x.object == n.object)) [
      | inr apart ↦ (rw apart at e)
      | inl same ↦
          let here : some new ≡ some o = (rw same at e) in
          absurd (ne (sym (ap keys.key_of (some-injective new o here)) ∙ new_key))
    ]

    pub updated-With : With db key new updated
    updated-With = record {
      live = record {
        valid = l.valid;
        live = λ x k. elim (Bool-cases (x.object == n.object)) [
          | inr apart ↦ rw apart (l.live x k)
          | inl same ↦
              let e : x.object ≡ n.object = ground arith in
              let (o, stands, h) = l.live x k in
              let here : db.objects n.object ≡ some o = rw (← e) stands in
              let named = ap keys.key_of (some-injective o was (sym here ∙ at)) in
              (new, rw same refl, h ∙ ap hash (named ∙ was_key ∙ sym new_key))
        ];
        below = l.below;
        once = λ k. omega (
          arith,
          l.once k,
          tally-le db.hmap (keyed updated k) (keyed db k) (λ x _ h. rw (← keyed_as_before k x) h),
        );
      };
      holds =
          (let here : (n.object == n.object) ≡ true = ground arith in
            record { hook = n; inside = inside; stands = rw here refl; named = new_key });
      kept = λ k o ne x. record {
        hook = x.hook;
        inside = x.inside;
        stands = rw (other x.hook o x.stands (λ e. ne (sym x.named ∙ e))) x.stands;
        named = x.named;
      };
      back = λ k o ne x. record {
        hook = x.hook;
        inside = x.inside;
        stands = other_back x.hook o x.stands (λ e. ne (sym x.named ∙ e));
        named = x.named;
      };
    }

  module _ (db : Table A) (key : Bytes) (new : A) (new_key : keys.key_of new ≡ key) (l : IsLive db)
      (none_yet : tally db.hmap (keyed db key) ≡ 0) (m : HMap) (valid : IsValid m)
      (totals : (p : HNode → Bool)
        → tally m p
          ≡ one_if (p (record { hcode = hash key; object = db.next })) + tally db.hmap p) where
    abbrev hook_of : HNode
    hook_of = record { hcode = hash key; object = db.next }

    abbrev inserted : Table A
    inserted = record {
      hmap = m;
      objects = write db.objects db.next (some new);
      next = db.next + 1;
    }

    -- A node of the map is the new one or an old one, at an address that was in use.
    new_or_old : (x : HNode) → Contains m x → (x ≡ hook_of) ⊎ Contains db.hmap x
    new_or_old x k = elim (Bool-cases (is x hook_of)) [
      | inl same ↦ inl (eq_of_is x hook_of same)
      | inr apart ↦
          let off : one_if (is x hook_of) ≡ 0 = rw apart refl in
          inr (omega (arith, totals (is x), off))
    ]

    untouched : (x : HNode) → Contains db.hmap x → inserted.objects x.object ≡ db.objects x.object
    untouched x k =
        let apart : (x.object == db.next) ≡ false = ground (arith, l.below x k) in rw apart refl

    here : inserted.objects db.next ≡ some new
    here = let same : (db.next == db.next) ≡ true = ground arith in rw same refl

    still : (x : HNode) → Contains db.hmap x → Contains m x
    still x k = omega (arith, totals (is x))

    once_still : (k : Bytes) → tally m (keyed inserted k) ≤ 1
    once_still k =
        let olds =
          tally-le db.hmap (keyed inserted k) (keyed db k) (λ x i h. rw (← untouched x i) h) in
        elim (Bool-cases (same_bytes key k)) [
          | inr apart ↦
              let off : one_if (keyed inserted k hook_of) ≡ 0 = rw (here, new_key, apart) refl in
              omega (arith, totals (keyed inserted k), off, l.once k, olds)
          | inl same ↦
              let on : one_if (keyed inserted k hook_of) ≡ 1 = rw (here, new_key, same) refl in
              let zero_there : tally db.hmap (keyed db k) ≡ 0 =
                rw (← eq_of_same_bytes key k same) none_yet in
              omega (arith, totals (keyed inserted k), on, zero_there, olds)
        ]

    pub inserted-With : With db key new inserted
    inserted-With = record {
      live = record {
        valid = valid;
        live = λ x k. elim (new_or_old x k) [
          | inl e ↦ rw e (new, here, ap hash (sym new_key))
          | inr i ↦ rw (untouched x i) (l.live x i)
        ];
        below = λ x k. elim (new_or_old x k) [
          | inl e ↦ rw e (omega arith)
          | inr i ↦ omega (arith, l.below x i)
        ];
        once = once_still;
      };
      holds = record {
        hook = hook_of;
        inside = ground (arith, totals (is hook_of), is_refl hook_of);
        stands = here;
        named = new_key;
      };
      kept = λ k o ne x. record {
        hook = x.hook;
        inside = still x.hook x.inside;
        stands = untouched x.hook x.inside ∙ x.stands;
        named = x.named;
      };
      back = λ k o ne x. elim (new_or_old x.hook x.inside) [
        | inl e ↦
            let there : inserted.objects db.next ≡ some o = (rw e at x.stands) in
            let o_is = some-injective new o (sym here ∙ there) in
            absurd (ne (sym x.named ∙ sym (ap keys.key_of o_is) ∙ new_key))
        | inr i ↦ record {
          hook = x.hook;
          inside = i;
          stands = sym (untouched x.hook i) ∙ x.stands;
          named = x.named;
        }
      ];
    }
