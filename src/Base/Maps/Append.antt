-- ===== src/Base/Maps/Append.antt =====
-- A sorted map in two parts: what a loop over its keys has behind it, and what lies ahead.
use mathlib.Core.Path.{◌≡◌}
use mathlib.Core.Bool.{true}
use mathlib.Core.Option.{some}
use mathlib.Core.List.{[], ◌∷◌, ◌++◌}
use native.Mathlib.Omega.{arith}
use shipstern.Base.Maps.{Ord, Map, get, insert, Above, lt_asymmetric}

module _ {ℓ κ} {K : Type ℓ} {V : Type κ} ⦃o : Ord K⦄ where
  -- Every key of the map lies below `k`.
  abbrev pub Below : K → Map K V → Type 0
  Below k [] = Unit
  Below k ((j, v) ∷ m) = (o.lt j k ≡ true) × Below k m

  -- Every key of the first map lies below every key of the second.
  abbrev pub Before : Map K V → Map K V → Type 0
  Before m [] = Unit
  Before m ((k, v) ∷ n) = Below k m × Before m n

  pub Before-nil : (n : Map K V) → Before [] n
  Before-nil [] = tt
  Before-nil ((k, v) ∷ n) = (tt, Before-nil n)

  pub get-append : (k : K) (v : V) (m n : Map K V) → Below k m → get k (m ++ (k, v) ∷ n) ≡ some v
  unfolding get
  get-append k v [] n b = ground (arith, o.irrefl k)
  get-append k v ((j, w) ∷ m) n b = ground (arith, lt_asymmetric j k, get-append k v m n b.1)

  pub insert-append :
      (k : K) (v w : V) (m n : Map K V) → Below k m → insert k w (m ++ (k, v) ∷ n) ≡ m ++ (k, w) ∷ n
  unfolding insert
  insert-append k v w [] n b = ground (arith, o.irrefl k)
  insert-append k v w ((j, u) ∷ m) n b =
      ground (arith, lt_asymmetric j k, insert-append k v w m n b.1)

  Below-snoc :
      (j k : K) (w : V) (m : Map K V) → o.lt k j ≡ true → Below j m → Below j (m ++ (k, w) ∷ [])
  Below-snoc j k w [] h b = (h, tt)
  Below-snoc j k w ((i, u) ∷ m) h b = (b.0, Below-snoc j k w m h b.1)

  pub Before-snoc :
      (k : K) (w : V) (m n : Map K V) → Before m n → Above k n → Before (m ++ (k, w) ∷ []) n
  Before-snoc k w m [] b a = tt
  Before-snoc k w m ((j, v) ∷ n) b a = (Below-snoc j k w m a.0 b.0, Before-snoc k w m n b.1 a.1)
