-- ===== src/Base/Maps/Sets.antt =====
-- Sets of keys: membership after a union, a restriction and a collection.
use mathlib.Core.Path.{◌≡◌, refl, ap, subst}
use mathlib.Core.Bool.{Bool, true, false, ◌&&◌, ◌||◌}
use mathlib.Core.List.{List, [], ◌∷◌, ◌++◌}
use native.Mathlib.Omega.{arith}
use shipstern.Base.Tests.{if◌then◌else◌}
use shipstern.Base.Maps.{
  Ord, Set, keys, retain-Above, get, insert, retain, contains, Above, IsSorted, get-insert,
  insert_front, get-Above, insert-IsSorted,
}

module _ {ℓ} {K : Type ℓ} ⦃o : Ord K⦄ where
  -- `==` on keys
  unfoldable pub same : K → K → Bool
  same a b = if o.lt a b then false else if o.lt b a then false else true

  pub same_refl : (a : K) → same a a ≡ true
  unfolding same
  same_refl a = rw (o.irrefl a)

  pub same→≡ : (a b : K) → same a b ≡ true → a ≡ b
  unfolding same
  same→≡ a b h = ground (arith, o.connex a b)

  -- `HashSet::extend` and `Vec::extend` with a sort and a removal of repeats.
  unfoldable pub extend : Set K → Set K → Set K
  extend s [] = s
  extend s ((k, v) ∷ t) = insert k v (extend s t)

  unfoldable pub collect : List K → Set K
  collect [] = []
  collect (k ∷ ks) = insert k tt (collect ks)

  unfoldable pub any : (K → Bool) → List K → Bool
  any p [] = false
  any p (k ∷ ks) = p k || any p ks

  -- Some of the keys is in the set.
  abbrev pub meets : List K → Set K → Bool
  meets ks s = any (λ k. contains k s) ks

  pub contains-insert :
      (k j : K) (s : Set K) → contains j (insert k tt s) ≡ (same k j || contains j s)
  unfolding same
  contains-insert k j s = ground (arith, get-insert k j tt s)

  contains-cons :
      (k j : K) (t : Set K) → Above k t → contains j ((k, tt) ∷ t) ≡ (same k j || contains j t)
  contains-cons k j t h =
      subst (λ s. contains j s ≡ (same k j || contains j t)) (insert_front k tt t h)
        (contains-insert k j t)

  pub contains-extend :
      (j : K) (s t : Set K) → IsSorted t → contains j (extend s t) ≡ (contains j s || contains j t)
  unfolding extend get
  contains-extend j s [] h = ground arith
  contains-extend j s ((k, v) ∷ t) h =
      ground (
        arith,
        contains-insert k j (extend s t),
        contains-extend j s t h.1,
        contains-cons k j t h.0,
      )

  pub extend-IsSorted : (s t : Set K) → IsSorted s → IsSorted (extend s t)
  unfolding extend
  extend-IsSorted s [] h = h
  extend-IsSorted s ((k, v) ∷ t) h = insert-IsSorted k v (extend s t) (extend-IsSorted s t h)

  pub collect-IsSorted : (ks : List K) → IsSorted (collect ks)
  unfolding collect
  collect-IsSorted [] = tt
  collect-IsSorted (k ∷ ks) = insert-IsSorted k tt (collect ks) (collect-IsSorted ks)

  -- A set holds the keys that it is collected from.
  pub contains-collect : (j : K) (ks : List K) → contains j (collect ks) ≡ any (λ k. same k j) ks
  unfolding collect any get
  contains-collect j [] = refl
  contains-collect j (k ∷ ks) =
      ground (arith, contains-insert k j (collect ks), contains-collect j ks)

  pub any_mono :
      (p q : K → Bool) (ks : List K)
      → ((k : K) → p k ≡ true → q k ≡ true)
      → any p ks ≡ true
      → any q ks ≡ true
  unfolding any
  any_mono p q [] h e = e
  any_mono p q (k ∷ ks) h e = ground (arith, h k, any_mono p q ks h)

  unfoldable pub every : (K → Bool) → List K → Bool
  every p [] = true
  every p (k ∷ ks) = p k && every p ks

  pub any-append : (p : K → Bool) (xs ys : List K) → any p (xs ++ ys) ≡ (any p xs || any p ys)
  unfolding any
  any-append p [] ys = refl
  any-append p (x ∷ xs) ys = ground (arith, any-append p xs ys)

  every-insert :
      (p : K → Bool) (k : K) (s : Set K)
      → p k ≡ true
      → every p (keys s) ≡ true
      → every p (keys (insert k tt s)) ≡ true
  unfolding every insert
  every-insert p k [] h e = ground arith
  every-insert p k ((j, v) ∷ s) h e = ground (arith, every-insert p k s h)

  pub every-extend :
      (p : K → Bool) (s t : Set K)
      → every p (keys s) ≡ true
      → every p (keys t) ≡ true
      → every p (keys (extend s t)) ≡ true
  unfolding every extend
  every-extend p s [] h e = h
  every-extend p s ((k, v) ∷ t) h e =
      ground (arith, every-insert p k (extend s t), every-extend p s t h)

  pub every_mono :
      (p q : K → Bool) (ks : List K)
      → ((k : K) → p k ≡ true → q k ≡ true)
      → every p ks ≡ true
      → every q ks ≡ true
  unfolding every
  every_mono p q [] h e = e
  every_mono p q (k ∷ ks) h e = ground (arith, h k, every_mono p q ks h)

  -- A restriction holds a key that the set and the test both have.
  pub contains-retain :
      (p : K → Bool) (j : K) (s : Set K)
      → IsSorted s
      → contains j (retain (λ k v. p k) s) ≡ (contains j s && p j)
  unfolding retain get
  contains-retain p j [] h = refl
  contains-retain p j ((k, v) ∷ s) h = ground (
    arith,
    contains-retain p j s h.1,
    contains-cons k j s h.0,
    o.connex j k,
    o.irrefl k,
    get-Above k s h.0,
    contains-cons k j (retain (λ k v. p k) s) (retain-Above (λ k v. p k) k s h.0),
    same_key k j,
  )
    where
      same_key : (k j : K) → same k j ≡ true → p k ≡ p j
      same_key k j e = ap p (same→≡ k j e)
