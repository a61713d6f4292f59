-- ===== src/Base/Dict.antt =====
-- Python's `dict`: at most one value for a key, entries in the order of their first insertion.
pub mod Laws
use Prim.Native.Nat.{ℕ}
use mathlib.Core.Path.{◌≡◌, refl}
use mathlib.Core.Logic.{ite}
use mathlib.Core.Bool.{Bool, true, false}
use interlatent.Base.Tests.{if◌then◌else◌}
use mathlib.Core.Option.{Option, none, some}
use mathlib.Core.List.{List, [], ◌∷◌, map}
use native.Mathlib.Omega.{arith}
use native.Mathlib.Decide.{ℕ_discrete}

pub record Key {ℓ} (K : Type ℓ) : Type ℓ where
  pub dec : Discrete K

abbrev pub same {ℓ} : {K : Type ℓ} ⦃key : Key K⦄ → Discrete K
same ⦃key⦄ = key.dec

instance abbrev pub ℕ_key : Key ℕ
ℕ_key = record { dec = ℕ_discrete }

abbrev pub Dict {ℓ} : Type ℓ → Type ℓ → Type ℓ
Dict K V = List (K × V)

-- `d.values()`
abbrev pub values {ℓ} : {K V : Type ℓ} → Dict K V → List V
values = map (λ e. e.1)

module _ {ℓ} {K V : Type ℓ} ⦃key : Key K⦄ where
  -- `d.get(k)`
  unfoldable pub get : K → Dict K V → Option V
  get k [] = none
  get k ((j, v) ∷ d) = ite (same j k) (some v) (get k d)

  -- `d[k] = v`
  unfoldable pub put : K → V → Dict K V → Dict K V
  put k v [] = (k, v) ∷ []
  put k v ((j, w) ∷ d) = ite (same j k) ((j, v) ∷ d) ((j, w) ∷ put k v d)

  -- `d.pop(k, None)`
  unfoldable pub remove : K → Dict K V → Dict K V
  remove k [] = []
  remove k ((j, v) ∷ d) = ite (same j k) (remove k d) ((j, v) ∷ remove k d)

  pub get-put :
      (k j : K) (v : V) (d : Dict K V) → get j (put k v d) ≡ ite (same k j) (some v) (get j d)
  unfolding get put
  get-put k j v [] = refl
  get-put k j v ((i, w) ∷ d) = ground (arith, get-put k j v d)

  pub get-remove : (k j : K) (d : Dict K V) → get j (remove k d) ≡ ite (same k j) none (get j d)
  unfolding get remove
  get-remove k j [] = ground arith
  get-remove k j ((i, w) ∷ d) = ground (arith, get-remove k j d)

-- Loops over `d.values()` and `d.items()`.
module _ {ℓ} {K V : Type ℓ} where
  -- the first value with the property
  unfoldable pub find_value : (V → Bool) → Dict K V → Option V
  find_value p [] = none
  find_value p ((j, v) ∷ d) = if p v then some v else find_value p d

  -- the key of the first value with the property
  unfoldable pub find_key : (V → Bool) → Dict K V → Option K
  find_key p [] = none
  find_key p ((j, v) ∷ d) = if p v then some j else find_key p d

  -- assigns to the first value with the property, in place
  unfoldable pub update_first : (V → Bool) → (V → V) → Dict K V → Dict K V
  update_first p f [] = []
  update_first p f ((j, v) ∷ d) = if p v then (j, f v) ∷ d else (j, v) ∷ update_first p f d

  -- pops the key of each value with the property
  unfoldable pub drop_where : (V → Bool) → Dict K V → Dict K V
  drop_where p [] = []
  drop_where p ((j, v) ∷ d) = let rest = drop_where p d in if p v then rest else (j, v) ∷ rest
