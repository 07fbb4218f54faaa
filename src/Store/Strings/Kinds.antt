-- ===== src/Store/Strings/Kinds.antt =====
-- The keys that the functions of server/src/data_structures/string.cpp may be called on: what stands
-- under their hash is a string.
use mathlib.Core.Option.{some-injective}
use redis_like.HashTable.Map.Valid.{Contains}
use redis_like.HashTable.Tab.{HNode}
use redis_like.Store.Contents.{
  IsLive, Holds, Holds-unique, hold_of, eq_of_same_bytes, same_bytes_refl,
}
use redis_like.Store.Contents.Free.{Without}
use redis_like.Store.Contents.Same.{Same}
use redis_like.Store.Contents.Write.{With}
use redis_like.Store.Objects.{
  Bytes, Object, entry_str, Database, object_key, object_keyed, hash, same_bytes,
}
use redis_like.Prelude.{true, some, ◌≡◌, ◌≢◌, sym, ap, ◌∙◌, ◌⊎◌, inl, inr, Bool-cases}

module _ {Score : Type 0} where
  -- `equals` is not undefined on the nodes with the hash of the key.
  abbrev pub IsStringKey : Database Score → Bytes → Type 0
  IsStringKey db key =
      (n : HNode)
      → Contains db.hmap n
      → n.hcode ≡ hash key
      → (k v : Bytes) × (db.objects n.object ≡ some (entry_str k v))

  IsStringKey-step :
      (db db' : Database Score) (key : Bytes)
      → IsLive db
      → IsLive db'
      → ((k : Bytes) (o : Object Score)
          → Holds db' k o
          → Holds db k o ⊎ ((k' v : Bytes) × (o ≡ entry_str k' v)))
      → IsStringKey db key
      → IsStringKey db' key
  IsStringKey-step db db' key l l' back s n k e =
      let (o, at, h, x) = hold_of db' n l' k in
      elim (back (object_key o) o x) [
        | inr (k', v, is_string) ↦ (k', v, at ∙ ap some is_string)
        | inl y ↦
            let (o', at', h') = l.live y.hook y.inside in
            let same = some-injective o' o (sym at' ∙ y.stands) in
            let hashed : y.hook.hcode ≡ hash key =
              h' ∙ ap (λ o. hash (object_key o)) same ∙ sym h ∙ e in
            let (k', v, is_string) = s y.hook y.inside hashed in
            (k', v, at ∙ sym y.stands ∙ is_string)
      ]

  pub IsStringKey-Same :
      (db db' : Database Score) (key : Bytes)
      → IsLive db
      → Same db db'
      → IsStringKey db key
      → IsStringKey db' key
  IsStringKey-Same db db' key l w =
      IsStringKey-step db db' key l w.live (λ k o x. inl (w.back k o x))

  pub IsStringKey-Without :
      (db : Database Score) (gone : Bytes) (db' : Database Score) (key : Bytes)
      → IsLive db
      → Without db gone db'
      → IsStringKey db key
      → IsStringKey db' key
  IsStringKey-Without db gone db' key l w =
      IsStringKey-step db db' key l w.live (λ k o x. inl (w.back k o x))

  pub IsStringKey-With :
      (db : Database Score) (name value : Bytes) (db' : Database Score) (key : Bytes)
      → IsLive db
      → With db name (entry_str name value) db'
      → IsStringKey db key
      → IsStringKey db' key
  IsStringKey-With db name value db' key l w = IsStringKey-step db db' key l w.live (λ k o x.
      elim (Bool-cases (same_bytes k name)) [
        | inl same ↦
            let here : Holds db' name o = rw (← eq_of_same_bytes k name same) x in
            inr (name, value, Holds-unique db' name o (entry_str name value) w.live here w.holds)
        | inr apart ↦
            let ne : k ≢ name =
              λ e. let same : same_bytes k name ≡ true = rw e (same_bytes_refl name) in cc in
            inl (w.back k o ne x)
      ])
