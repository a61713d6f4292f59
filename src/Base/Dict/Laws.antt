-- ===== src/Base/Dict/Laws.antt =====
-- Laws of dictionaries: statements about every entry, and what the loops find.
use Prim.Native.Nat.{suc, ◌≤◌}
use mathlib.Core.Path.{◌≡◌, refl, sym, ◌∙◌, subst, ap}
use mathlib.Core.Logic.{inl, inr, ◌≢◌, if_pos, if_neg}
use mathlib.Core.Bool.{Bool, true, false}
use mathlib.Core.Option.{none, some}
use mathlib.Core.List.{[], ◌∷◌, map}
use native.Mathlib.Omega.{arith}
use interlatent.Base.Tests.{is_some, Bool-cases}
use interlatent.Base.Lists.{All, length}
use interlatent.Base.Dict.{
  Dict, Key, same, get, put, get-put, remove, find_value, find_key, update_first, drop_where,
}

abbrev pub Each {ℓ κ} : {K V : Type ℓ} → (K → V → Type κ) → Dict K V → Type κ
Each P = All (λ e. P e.0 e.1)

module _ {ℓ} {K V : Type ℓ} (P : K → V → Type 0) where
  pub Each-put :
      ⦃key : Key K⦄ (k : K) (v : V) (d : Dict K V) → P k v → Each P d → Each P (put k v d)
  unfolding put
  Each-put k v [] p h = (p, tt)
  Each-put k v ((j, w) ∷ d) p h = elim (same j k) [
    | yes e ↦ rw (if_pos _ e) (subst (λ x. P x v) (sym e) p, h.1)
    | no e ↦ rw (if_neg _ e) (h.0, Each-put k v d p h.1)
  ]

  pub Each-remove : ⦃key : Key K⦄ (k : K) (d : Dict K V) → Each P d → Each P (remove k d)
  unfolding remove
  Each-remove k [] h = tt
  Each-remove k ((j, w) ∷ d) h = elim (same j k) [
    | yes e ↦ rw (if_pos _ e) (Each-remove k d h.1)
    | no e ↦ rw (if_neg _ e) (h.0, Each-remove k d h.1)
  ]

  pub Each-drop_where : (p : V → Bool) (d : Dict K V) → Each P d → Each P (drop_where p d)
  unfolding drop_where
  Each-drop_where p [] h = tt
  Each-drop_where p ((j, w) ∷ d) h = elim (Bool-cases (p w)) [
    | inl e ↦ rw e (Each-drop_where p d h.1)
    | inr e ↦ rw e (h.0, Each-drop_where p d h.1)
  ]

  -- What holds of each entry holds of what a lookup finds.
  pub Each-get : ⦃key : Key K⦄ (k : K) (v : V) (d : Dict K V) → Each P d → get k d ≡ some v → P k v
  unfolding get
  Each-get k v [] h e = cc
  Each-get k v ((j, w) ∷ d) h e = elim (same j k) [
    | yes q ↦
        let found : some w ≡ some v = rw (if_pos _ q) at e in
        subst (λ x. P x v) q (subst (P j) (cc) h.0)
    | no q ↦ Each-get k v d h.1 (rw (if_neg _ q) at e)
  ]

  pub Each-map :
      {W : Type ℓ} (Q : K → W → Type 0) (f : V → W) (d : Dict K V)
      → ((k : K) (v : V) → P k v → Q k (f v))
      → Each P d
      → Each Q (map (λ e. (e.0, f e.1)) d)
  Each-map Q f [] i h = tt
  Each-map Q f ((j, w) ∷ d) i h = (i j w h.0, Each-map Q f d i h.1)

  pub Each-implies :
      (Q : K → V → Type 0) (d : Dict K V) → ((k : K) (v : V) → P k v → Q k v) → Each P d → Each Q d
  Each-implies Q [] i h = tt
  Each-implies Q ((j, w) ∷ d) i h = (i j w h.0, Each-implies Q d i h.1)

  pub Each-both :
      (Q R : K → V → Type 0) (d : Dict K V)
      → ((k : K) (v : V) → P k v → Q k v → R k v)
      → Each P d
      → Each Q d
      → Each R d
  Each-both Q R [] i h g = tt
  Each-both Q R ((j, w) ∷ d) i h g = (i j w h.0 g.0, Each-both Q R d i h.1 g.1)

  pub Each-update_first :
      (p : V → Bool) (f : V → V) (d : Dict K V)
      → ((k : K) (v : V) → P k v → P k (f v))
      → Each P d
      → Each P (update_first p f d)
  unfolding update_first
  Each-update_first p f [] i h = tt
  Each-update_first p f ((j, w) ∷ d) i h = elim (Bool-cases (p w)) [
    | inl e ↦ rw e (i j w h.0, h.1)
    | inr e ↦ rw e (h.0, Each-update_first p f d i h.1)
  ]

module _ {ℓ} {K V : Type ℓ} where
  -- A loop that finds nothing has seen every value.
  pub find_value-none :
      ⦃key : Key K⦄ (p : V → Bool) (k : K) (v : V) (d : Dict K V)
      → find_value p d ≡ none
      → get k d ≡ some v
      → p v ≡ false
  unfolding find_value get
  find_value-none p k v [] h e = cc
  find_value-none p k v ((j, w) ∷ d) h e = ground (arith, find_value-none p k v d)

  pub find_value-some : (p : V → Bool) (v : V) (d : Dict K V) → find_value p d ≡ some v → p v ≡ true
  unfolding find_value
  find_value-some p v [] h = cc
  find_value-some p v ((j, w) ∷ d) h = ground (arith, find_value-some p v d)

  -- After the loop that pops matching entries none is left.
  pub drop_where-Each : (p : V → Bool) (d : Dict K V) → Each (λ k v. p v ≡ false) (drop_where p d)
  unfolding drop_where
  drop_where-Each p [] = tt
  drop_where-Each p ((j, w) ∷ d) = elim (Bool-cases (p w)) [
    | inl e ↦ rw e (drop_where-Each p d)
    | inr e ↦ rw e (e, drop_where-Each p d)
  ]

  pub Each-found : ⦃key : Key K⦄ (d : Dict K V) → Each (λ k v. is_some (get k d) ≡ true) d
  unfolding get
  Each-found [] = tt
  Each-found ((j, w) ∷ d) = (
    ground arith,
    Each-implies (λ k v. is_some (get k d) ≡ true) (λ k v. is_some (get k ((j, w) ∷ d)) ≡ true) d
        (λ k v h. ground arith) (Each-found d),
  )

  pub find_key-found :
      ⦃key : Key K⦄ (p : V → Bool) (k : K) (d : Dict K V)
      → find_key p d ≡ some k
      → is_some (get k d) ≡ true
  unfolding find_key get
  find_key-found p k [] h = cc
  find_key-found p k ((j, w) ∷ d) h = ground (arith, find_key-found p k d)

  -- A pop of a key that is not there changes nothing.
  pub remove_absent : ⦃key : Key K⦄ (k : K) (d : Dict K V) → get k d ≡ none → remove k d ≡ d
  unfolding remove get
  remove_absent k [] h = refl
  remove_absent k ((j, w) ∷ d) h = ground (arith, remove_absent k d)

  pub drop_where_none :
      (p : V → Bool) (d : Dict K V) → Each (λ k v. p v ≡ false) d → drop_where p d ≡ d
  unfolding drop_where
  drop_where_none p [] h = refl
  drop_where_none p ((j, w) ∷ d) h = rw h.0 (ap (◌∷◌ (j, w)) (drop_where_none p d h.1))

  pub get-put_self : ⦃key : Key K⦄ (k : K) (v : V) (d : Dict K V) → get k (put k v d) ≡ some v
  get-put_self k v d = get-put k k v d ∙ if_pos (same k k) refl _ _

  pub get-put_ne :
      ⦃key : Key K⦄ (k j : K) (v : V) (d : Dict K V) → k ≢ j → get j (put k v d) ≡ get j d
  get-put_ne k j v d h = get-put k j v d ∙ if_neg (same k j) h _ _

-- The number of entries.
module _ {ℓ} {K V : Type ℓ} ⦃key : Key K⦄ where
  pub length-put_found :
      (k : K) (v w : V) (d : Dict K V) → get k d ≡ some w → length (put k v d) ≡ length d
  unfolding get put
  length-put_found k v w [] e = ground (arith, e)
  length-put_found k v w ((j, u) ∷ d) e = elim (same j k) [
    | yes q ↦ rw (if_pos _ q) refl
    | no n ↦ rw (if_neg _ n) (ap suc (length-put_found k v w d (rw (if_neg _ n) at e)))
  ]

  pub length-put : (k : K) (v : V) (d : Dict K V) → length (put k v d) ≤ suc (length d)
  unfolding put
  length-put k v [] = omega arith
  length-put k v ((j, u) ∷ d) = ground (arith, length-put k v d)

  pub length-remove : (k : K) (d : Dict K V) → length (remove k d) ≤ length d
  unfolding remove
  length-remove k [] = omega arith
  length-remove k ((j, u) ∷ d) = ground (arith, length-remove k d)

  pub remove-put : (k : K) (v : V) (d : Dict K V) → remove k (put k v d) ≡ remove k d
  unfolding remove put
  remove-put k v [] = ground arith
  remove-put k v ((j, u) ∷ d) = ground (arith, remove-put k v d)
