-- ===== src/Prelude/Effects.antt =====
-- What a call does: it returns, it throws a `std::exception`, or its behaviour is undefined (a null
-- or dangling pointer is followed, an index is out of range, a node is cast to another type).
use Prim.Native.Nat.{ℕ}
use mathlib.Core.Path.{◌≡◌, sym, subst, ◌∙◌}
use mathlib.Core.List.{List}

pub data Run {ℓ} (A : Type ℓ) : Type ℓ where
  ok : A → Run A
  throw : List ℕ → Run A
  undefined : Run A

-- The call returns, and what it returns satisfies `P`.
abbrev pub Returns {ℓ κ} : {A : Type ℓ} → Run A → (A → Type κ) → Type (ℓ ⊔ κ)
Returns {A} call Post = (result : A) × (call ≡ ok result) × Post result

infixl 5 ◌>>=◌
abbrev pub ◌>>=◌ {ℓ μ} : {A : Type ℓ} {B : Type μ} → Run A → (A → Run B) → Run B
undefined >>= next = undefined
throw what >>= next = throw what
ok result >>= next = next result

pub ok-injective {ℓ} : {A : Type ℓ} (a b : A) → ok a ≡ ok b → a ≡ b
ok-injective a b h = cc

-- What a call returns is what it was shown to return.
pub returned {ℓ κ} :
    {A : Type ℓ} (P : A → Type κ) (call : Run A) (a : A) → Returns call P → call ≡ ok a → P a
returned P call a (b, run, p) e = subst P (ok-injective b a (sym run ∙ e)) p
