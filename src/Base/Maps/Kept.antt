-- ===== src/Base/Maps/Kept.antt =====
-- A key that a smaller map still has keeps its value.
use mathlib.Core.Path.{◌≡◌, refl, ap}
use mathlib.Core.Logic.{◌≢◌, inl, inr}
use mathlib.Core.Bool.{Bool, true, false}
use mathlib.Core.Option.{none}
use mathlib.Core.List.{[], ◌∷◌}
use native.Mathlib.Omega.{arith}
use shipstern.Base.Tests.{Bool-cases}
use shipstern.Base.Maps.{
  Ord, Map, get, remove, retain, contains, Above, IsSorted, get-Above, retain-Above, lt_asymmetric,
  Above-trans,
}

module _ {ℓ κ} {K : Type ℓ} {V : Type κ} ⦃o : Ord K⦄ where
  found-Above :
      (k j : K) (m : Map K V)
      → Above j m
      → contains k m ≡ true
      → (o.lt k j ≡ false) × (o.lt j k ≡ true)
  found-Above k j m a h = elim (Bool-cases (o.lt j k)) [
    | inl later ↦ (lt_asymmetric j k later, later)
    | inr early ↦ absurd (elim (Bool-cases (o.lt k j)) [
      | inl before ↦ missing k (get-Above k m (Above-trans k j m before a)) h
      | inr here ↦ missing k (get-Above k m (same here early)) h
    ])
  ]
    where
      missing : (k : K) → get k m ≡ none → contains k m ≡ true → ⊥
      missing k e h = ground arith

      same : o.lt k j ≡ false → o.lt j k ≡ false → Above k m
      same here early = rw (o.connex k j here early) a

  -- The front entry of a sorted map does not hide a key behind it.
  pub get-tail :
      (k j : K) (w : V) (m : Map K V)
      → Above j m
      → contains k m ≡ true
      → get k ((j, w) ∷ m) ≡ get k m
  unfolding get
  get-tail k j w m a h = let found = found-Above k j m a h in rw (found.0, found.1)

  pub get-retain_kept :
      (p : K → V → Bool) (k : K) (m : Map K V)
      → IsSorted m
      → contains k (retain p m) ≡ true
      → get k (retain p m) ≡ get k m
  unfolding retain get
  get-retain_kept p k [] s h = refl
  get-retain_kept p k ((j, w) ∷ m) s h = elim (Bool-cases (p j w)) [
    | inl kept ↦ rw kept (front kept (λ c. get-retain_kept p k m s.1 c))
    | inr gone ↦ rw gone (behind gone (λ c. get-retain_kept p k m s.1 c))
  ]
    where
      behind :
          p j w ≡ false
          → (contains k (retain p m) ≡ true → get k (retain p m) ≡ get k m)
          → get k (retain p m) ≡ get k ((j, w) ∷ m)
      behind gone ih =
          let c : contains k (retain p m) ≡ true = ground arith in
          let f = found-Above k j (retain p m) (retain-Above p j m s.0) c in rw (f.0, f.1) (ih c)

      front :
          p j w ≡ true
          → (contains k (retain p m) ≡ true → get k (retain p m) ≡ get k m)
          → get k ((j, w) ∷ retain p m) ≡ get k ((j, w) ∷ m)
      front kept ih = elim (Bool-cases (o.lt k j)) [
        | inl before ↦ rw before
        | inr reached ↦ elim (Bool-cases (o.lt j k)) [
          | inl later ↦ rw (reached, later) (ih (ground arith))
          | inr here ↦ rw (reached, here)
        ]
      ]

  -- A removal leaves the other keys.
  pub get-remove_ne : (k j : K) (m : Map K V) → k ≢ j → IsSorted m → get j (remove k m) ≡ get j m
  unfolding get remove
  get-remove_ne k j [] h s = refl
  get-remove_ne k j ((i, w) ∷ m) h s = ground (
    arith,
    o.connex k j,
    o.connex k i,
    o.transitive j k i,
    o.transitive j i k,
    get-Above j m,
    Above-trans j i m,
    same_key k i j,
    s.0,
    get-remove_ne k j m h s.1,
  )
    where
      same_key : (k i j : K) → o.lt k i ≡ false → o.lt i k ≡ false → o.lt j k ≡ o.lt j i
      same_key k i j a b = ap (o.lt j) (o.connex k i a b)
