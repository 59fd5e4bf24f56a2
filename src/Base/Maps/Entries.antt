-- ===== src/Base/Maps/Entries.antt =====
-- A property of every entry of a map, and what keeps it.
use shipstern.Base.Tests.{Option-cases}
use mathlib.Core.Path.{◌≡◌, subst}
use mathlib.Core.Logic.{◌⊎◌, inl, inr}
use mathlib.Core.Bool.{Bool}
use mathlib.Core.Option.{none, some}
use mathlib.Core.List.{[], ◌∷◌}
use native.Mathlib.Omega.{arith}
use shipstern.Base.Maps.{
  Ord, Map, get, insert, remove, retain, modify, Above, IsSorted, lt_asymmetric,
}

module _ {ℓ κ} {K : Type ℓ} {V : Type κ} where
  abbrev pub AllEntries {μ} : (K → V → Type μ) → Map K V → Type μ
  AllEntries P [] = Unit
  AllEntries P ((k, v) ∷ m) = P k v × AllEntries P m

  pub AllEntries-retain {μ} :
      (P : K → V → Type μ) (p : K → V → Bool) (m : Map K V)
      → AllEntries P m
      → AllEntries P (retain p m)
  unfolding retain
  AllEntries-retain P p [] a = tt
  AllEntries-retain P p ((j, w) ∷ m) a = ground (arith, AllEntries-retain P p m a.1)

  pub AllEntries-weaken {μ ν} :
      (P : K → V → Type μ) (Q : K → V → Type ν)
      → ((k : K) (v : V) → P k v → Q k v)
      → (m : Map K V) → AllEntries P m
      → AllEntries Q m
  AllEntries-weaken P Q h [] a = tt
  AllEntries-weaken P Q h ((j, w) ∷ m) a = (h j w a.0, AllEntries-weaken P Q h m a.1)

module _ {ℓ κ} {K : Type ℓ} {V : Type κ} ⦃o : Ord K⦄ where
  get_cases :
      (k j : K) (w : V) (m : Map K V) (v : V)
      → get k ((j, w) ∷ m) ≡ some v
      → ((k ≡ j) × (w ≡ v)) ⊎ (get k m ≡ some v)
  unfolding get
  get_cases k j w m v e = ground (arith, o.connex k j)

module _ {ℓ κ μ} {K : Type ℓ} {V : Type κ} ⦃o : Ord K⦄ (P : K → V → Type μ) (k : K) where
  pub AllEntries-insert :
      (v : V) (m : Map K V) → P k v → AllEntries P m → AllEntries P (insert k v m)
  unfolding insert
  AllEntries-insert v [] h a = (h, tt)
  AllEntries-insert v ((j, w) ∷ m) h a = ground (arith, AllEntries-insert v m h a.1)

  pub AllEntries-remove : (m : Map K V) → AllEntries P m → AllEntries P (remove k m)
  unfolding remove
  AllEntries-remove [] a = tt
  AllEntries-remove ((j, w) ∷ m) a = ground (arith, AllEntries-remove m a.1)

  pub AllEntries-get : (m : Map K V) (v : V) → AllEntries P m → get k m ≡ some v → P k v
  unfolding get
  AllEntries-get [] v a e = cc
  AllEntries-get ((j, w) ∷ m) v a e = elim (get_cases k j w m v e) [
    | inl (same, found) ↦ subst (P k) found (rw same a.0)
    | inr later ↦ AllEntries-get m v a.1 later
  ]

  pub AllEntries-modify :
      (d : V) (f : V → V) (m : Map K V)
      → (get k m ≡ none → P k (f d))
      → ((v : V) → P k v → P k (f v))
      → AllEntries P m
      → AllEntries P (modify k d f m)
  AllEntries-modify d f m absent present a = elim (Option-cases (get k m)) [
    | inl e ↦ rw e (AllEntries-insert (f d) m (absent e) a)
    | inr (v, e) ↦ rw e (AllEntries-insert (f v) m (present v (AllEntries-get m v a e)) a)
  ]

module _ {ℓ κ} {K : Type ℓ} {V : Type κ} ⦃o : Ord K⦄ where
  -- The entries of `n` are found in `m`.
  abbrev pub Found : Map K V → Map K V → Type κ
  Found m n = AllEntries (λ k v. get k m ≡ some v) n

  Found-cons : (j : K) (w : V) (m n : Map K V) → Above j n → Found m n → Found ((j, w) ∷ m) n
  unfolding get
  Found-cons j w m [] a f = tt
  Found-cons j w m ((k, v) ∷ n) a f =
      (ground (arith, lt_asymmetric j k), Found-cons j w m n a.1 f.1)

  -- Every entry of a sorted map is found by its key.
  pub Found-self : (m : Map K V) → IsSorted m → Found m m
  unfolding get
  Found-self [] s = tt
  Found-self ((j, w) ∷ m) s =
      (ground (arith, o.irrefl j), Found-cons j w m m s.0 (Found-self m s.1))
