-- ===== src/Base/Maps.antt =====
-- Rust's `BTreeMap`, `BTreeSet` and `HashMap`, as association lists in the order of their keys.
-- A set is a map into `Unit`. The program never reads the order of its `HashMap`.
pub mod Append
pub mod Entries
pub mod Kept
pub mod Sets
use Prim.Native.Nat.{ℕ}
use mathlib.Core.Path.{◌≡◌, refl, ap}
use mathlib.Core.Logic.{◌≢◌, inl, inr}
use mathlib.Core.Bool.{Bool, true, false}
use mathlib.Core.Option.{Option, none, some}
use mathlib.Core.List.{List, [], ◌∷◌}
use native.Mathlib.Omega.{arith}
use shipstern.Base.Tests.{Bool-cases, ltb, if◌then◌else◌, unwrap_or, is_some}

-- A strict linear order, decided by a Boolean.
pub record Ord {ℓ} (K : Type ℓ) : Type ℓ where
  pub lt : K → K → Bool
  pub irrefl : (a : K) → lt a a ≡ false
  pub transitive : (a b c : K) → lt a b ≡ true → lt b c ≡ true → lt a c ≡ true
  pub connex : (a b : K) → lt a b ≡ false → lt b a ≡ false → a ≡ b

pub ltb_irrefl : (a : ℕ) → ltb a a ≡ false
ltb_irrefl a = ground arith

pub ltb_transitive : (a b c : ℕ) → ltb a b ≡ true → ltb b c ≡ true → ltb a c ≡ true
ltb_transitive a b c h k = ground arith

pub ltb_connex : (a b : ℕ) → ltb a b ≡ false → ltb b a ≡ false → a ≡ b
ltb_connex a b h k = ground arith

instance abbrev pub nat_ord : Ord ℕ
nat_ord = record { lt = ltb; irrefl = ltb_irrefl; transitive = ltb_transitive; connex = ltb_connex }

abbrev pub Map {ℓ κ} : Type ℓ → Type κ → Type (ℓ ⊔ κ)
Map K V = List (K × V)

abbrev pub Set {ℓ} : Type ℓ → Type ℓ
Set K = Map K (Unit {0})

module _ {ℓ κ} {K : Type ℓ} {V : Type κ} where
  abbrev pub keys : Map K V → List K
  keys [] = []
  keys ((k, v) ∷ m) = k ∷ keys m

  -- `into_values().collect()`
  abbrev pub values : Map K V → List V
  values [] = []
  values ((k, v) ∷ m) = v ∷ values m

  -- `retain`
  unfoldable pub retain : (K → V → Bool) → Map K V → Map K V
  retain p [] = []
  retain p ((k, v) ∷ m) = let rest = retain p m in if p k v then (k, v) ∷ rest else rest

module _ {ℓ} {K : Type ℓ} ⦃o : Ord K⦄ where
  pub lt_asymmetric : (a b : K) → o.lt a b ≡ true → o.lt b a ≡ false
  lt_asymmetric a b h = ground (arith, o.irrefl a, o.transitive a b a)

module _ {ℓ κ} {K : Type ℓ} {V : Type κ} ⦃o : Ord K⦄ where
  unfoldable pub get : K → Map K V → Option V
  get k [] = none
  get k ((j, v) ∷ m) = if o.lt k j then none else if o.lt j k then get k m else some v

  unfoldable pub insert : K → V → Map K V → Map K V
  insert k v [] = (k, v) ∷ []
  insert k v ((j, w) ∷ m) =
      if o.lt k j
      then (k, v) ∷ (j, w) ∷ m
      else if o.lt j k
      then (j, w) ∷ insert k v m
      else (k, v) ∷ m

  unfoldable pub remove : K → Map K V → Map K V
  remove k [] = []
  remove k ((j, w) ∷ m) =
      if o.lt k j then (j, w) ∷ m else if o.lt j k then (j, w) ∷ remove k m else m

  -- `entry(k).or_insert(d)`, then a change of the value through the reference.
  abbrev pub modify : K → V → (V → V) → Map K V → Map K V
  modify k d f m = insert k (f (unwrap_or (get k m) d)) m

  abbrev pub contains : K → Map K V → Bool
  contains k m = is_some (get k m)

  -- Every key of the map lies above `k`.
  abbrev pub Above : K → Map K V → Type 0
  Above k [] = Unit
  Above k ((j, v) ∷ m) = (o.lt k j ≡ true) × Above k m

  abbrev pub IsSorted : Map K V → Type 0
  IsSorted [] = Unit
  IsSorted ((k, v) ∷ m) = Above k m × IsSorted m

  pub Above-trans : (j k : K) (m : Map K V) → o.lt j k ≡ true → Above k m → Above j m
  Above-trans j k [] h a = tt
  Above-trans j k ((i, v) ∷ m) h a = (o.transitive j k i h a.0, Above-trans j k m h a.1)

  pub get-Above : (k : K) (m : Map K V) → Above k m → get k m ≡ none
  unfolding get
  get-Above k [] a = refl
  get-Above k ((j, v) ∷ m) a = rw a.0

  pub get-insert_self : (k : K) (v : V) (m : Map K V) → get k (insert k v m) ≡ some v
  unfolding get insert
  get-insert_self k v [] = rw (o.irrefl k)
  get-insert_self k v ((j, w) ∷ m) =
      ground (arith, o.irrefl k, lt_asymmetric j k, get-insert_self k v m)

  pub get-insert_ne : (k j : K) (v : V) (m : Map K V) → k ≢ j → get j (insert k v m) ≡ get j m
  unfolding get insert
  get-insert_ne k j v [] h = ground (arith, o.connex k j, o.irrefl k)
  get-insert_ne k j v ((i, w) ∷ m) h = ground (
    arith,
    o.connex k j,
    o.connex k i,
    o.irrefl k,
    o.transitive j k i,
    o.transitive i k j,
    get-insert_ne k j v m h,
  )

  pub insert-Above :
      (j k : K) (v : V) (m : Map K V) → o.lt j k ≡ true → Above j m → Above j (insert k v m)
  unfolding insert
  insert-Above j k v [] h a = (h, tt)
  insert-Above j k v ((i, w) ∷ m) h a = ground (arith, insert-Above j k v m h a.1)

  pub insert-IsSorted : (k : K) (v : V) (m : Map K V) → IsSorted m → IsSorted (insert k v m)
  unfolding insert
  insert-IsSorted k v [] s = (tt, tt)
  insert-IsSorted k v ((j, w) ∷ m) s =
      ground
        (arith, o.connex k j, Above-trans k j m, insert-Above j k v m, insert-IsSorted k v m s.1)

  pub remove-Above : (j k : K) (m : Map K V) → Above j m → Above j (remove k m)
  unfolding remove
  remove-Above j k [] a = tt
  remove-Above j k ((i, w) ∷ m) a = ground (arith, remove-Above j k m a.1)

  pub remove-IsSorted : (k : K) (m : Map K V) → IsSorted m → IsSorted (remove k m)
  unfolding remove
  remove-IsSorted k [] s = tt
  remove-IsSorted k ((j, w) ∷ m) s = ground (arith, remove-Above j k m s.0, remove-IsSorted k m s.1)

  pub get-remove_self : (k : K) (m : Map K V) → IsSorted m → get k (remove k m) ≡ none
  unfolding get remove
  get-remove_self k [] s = refl
  get-remove_self k ((j, w) ∷ m) s =
      ground (arith, o.connex k j, get-Above j m s.0, get-remove_self k m s.1)

  pub retain-Above : (p : K → V → Bool) (k : K) (m : Map K V) → Above k m → Above k (retain p m)
  unfolding retain
  retain-Above p k [] a = tt
  retain-Above p k ((j, w) ∷ m) a = ground (arith, retain-Above p k m a.1)

  pub retain-IsSorted : (p : K → V → Bool) (m : Map K V) → IsSorted m → IsSorted (retain p m)
  unfolding retain
  retain-IsSorted p [] s = tt
  retain-IsSorted p ((j, w) ∷ m) s = ground (arith, retain-Above p j m s.0, retain-IsSorted p m s.1)

  -- The value behind each key after an insertion.
  pub get-insert :
      (k j : K) (v : V) (m : Map K V)
      → get j (insert k v m) ≡ (if o.lt k j then get j m else if o.lt j k then get j m else some v)
  unfolding get insert
  get-insert k j v [] = ground (arith, lt_asymmetric k j)
  get-insert k j v ((i, w) ∷ m) = ground (
    arith,
    lt_asymmetric k j,
    lt_asymmetric j i,
    lt_asymmetric k i,
    o.connex k j,
    o.connex k i,
    o.transitive j k i,
    o.transitive i k j,
    get-insert k j v m,
  )

  pub get-retain :
      (p : K → V → Bool) (k : K) (v : V) (m : Map K V)
      → get k m ≡ some v
      → p k v ≡ true
      → get k (retain p m) ≡ some v
  unfolding get retain
  get-retain p k v [] e h = cc
  get-retain p k v ((j, w) ∷ m) e h = elim (Bool-cases (o.lt k j)) [
    | inl before ↦ absurd (not_found before e)
    | inr reached ↦ elim (Bool-cases (o.lt j k)) [
      | inl later ↦ ground (arith, get-retain p k v m)
      | inr here ↦ ground (arith, ap (λ i. p i w) (o.connex k j reached here))
    ]
  ]
    where
      not_found : o.lt k j ≡ true → get k ((j, w) ∷ m) ≡ some v → ⊥
      not_found before e = ground arith

  -- A key below all others goes to the front.
  pub insert_front : (k : K) (v : V) (m : Map K V) → Above k m → insert k v m ≡ (k, v) ∷ m
  unfolding insert
  insert_front k v [] a = refl
  insert_front k v ((j, w) ∷ m) a = rw a.0
