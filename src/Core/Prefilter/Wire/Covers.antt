-- ===== src/Core/Prefilter/Wire/Covers.antt =====
-- Every key of a prefilter reaches the server, crates/core/src/lib.rs: in the list of keys or in the
-- cuckoo filter.
use shipstern.Base.{
  ◌≡◌, ap, subst, Bool, true, false, ◌||◌, not, Option, none, some, List, [], ◌∷◌, ◌++◌, arith, map,
  length, keep, Bool-cases, inl, inr,
}
use shipstern.Base.Maps.{Set, keys, contains, get}
use shipstern.Base.Maps.Sets.{same, same_refl, same→≡, any, any-append}
use shipstern.BlockCoordinator.Keys.{lex_ord}
use shipstern.Core.Prefilter.{Bytes, Pubkey, CuckooAccounts}
use shipstern.Core.Prefilter.Wire.{
  CuckooFilter, insert_each, missed_keys, build_with, build_cuckoo, doubled, rebuilt, first_or,
  filter_of_keys, to_filter, listed, wire_keys,
}

abbrev pub listing : Bytes → List Bytes → Bool
listing k ks = any (same k) ks

module _ (c : CuckooFilter) where
  insert_each-fine :
      (ks : List Pubkey) (evicted : Bool) (f : c.Filter)
      → (insert_each c ks evicted f).0 ≡ false
      → evicted ≡ false
  unfolding insert_each
  insert_each-fine [] evicted f e = e
  insert_each-fine (k ∷ ks) evicted f e =
      ground (arith, insert_each-fine ks (evicted || not (c.insert k f).0) (c.insert k f).1 e)

  -- Where no insertion failed, the filter holds all the keys, and what it held.
  insert_each-holds :
      (j : Pubkey) (ks : List Pubkey) (evicted : Bool) (f : c.Filter)
      → (insert_each c ks evicted f).0 ≡ false
      → (c.holds f j || listing j ks) ≡ true
      → c.holds (insert_each c ks evicted f).1 j ≡ true
  unfolding insert_each any
  insert_each-holds j [] evicted f e h = ground arith
  insert_each-holds j (k ∷ ks) evicted f e h =
      insert_each-holds j ks (evicted || not (c.insert k f).0) (c.insert k f).1 e (
        ground (
          arith,
          insert_each-fine ks (evicted || not (c.insert k f).0) (c.insert k f).1 e,
          c.inserted k f,
          c.keeps k j f,
          same_held,
        ))
    where
      same_held : same j k ≡ true → c.holds (c.insert k f).1 j ≡ c.holds (c.insert k f).1 k
      same_held s = ap (c.holds (c.insert k f).1) (same→≡ j k s)

  listing-keep :
      (j : Pubkey) (p : Pubkey → Bool) (ks : List Pubkey)
      → listing j ks ≡ true
      → p j ≡ true
      → listing j (keep p ks) ≡ true
  unfolding any keep
  listing-keep j p [] h e = h
  listing-keep j p (k ∷ ks) h e = ground (arith, listing-keep j p ks, same_test)
    where
      same_test : same j k ≡ true → p j ≡ p k
      same_test s = ap p (same→≡ j k s)

  abbrev pub holds_some : Option c.Filter → Pubkey → Bool
  holds_some none j = false
  holds_some (some f) j = c.holds f j

  -- A key is among the missed ones or in the filter.
  abbrev Reaches : Pubkey → Option c.Filter × List Pubkey → Type 0
  Reaches j (f, missed) = (listing j missed || holds_some f j) ≡ true

  missed-Reaches :
      (j : Pubkey) (ks : List Pubkey) (f : c.Filter)
      → listing j ks ≡ true
      → Reaches j (some (insert_each c ks false f).1, missed_keys c ks (insert_each c ks false f))
  unfolding missed_keys any
  missed-Reaches j ks f h = elim (Bool-cases (insert_each c ks false f).0) [
    | inl evicted ↦
        let g = (insert_each c ks false f).1 in
        rw evicted (ground (arith, listing-keep j (λ k. not (c.holds g k)) ks h))
    | inr fine ↦ rw fine (insert_each-holds j ks false f fine (ground arith))
  ]

  abbrev ReachesBuilt : Pubkey → Option (c.Filter × List Pubkey) → Type 0
  ReachesBuilt j none = Unit
  ReachesBuilt j (some (f, missed)) = Reaches j (some f, missed)

  build_with-Reaches :
      (j : Pubkey) (ks : List Pubkey) (o : Option c.Filter)
      → listing j ks ≡ true
      → ReachesBuilt j (build_with c ks o)
  unfolding build_with
  build_with-Reaches j ks none h = tt
  build_with-Reaches j ks (some f) h = missed-Reaches j ks f h

  rebuilt-Reaches :
      (j : Pubkey) (ks : List Pubkey) (o : Option (c.Filter × List Pubkey))
      → listing j ks ≡ true
      → ReachesBuilt j o
      → Reaches j (rebuilt c ks o)
  unfolding rebuilt
  rebuilt-Reaches j ks none h r = ground arith
  rebuilt-Reaches j ks (some (f, missed)) h r = r

  first_or-Reaches :
      (j : Pubkey) (o : Option (c.Filter × List Pubkey)) (other : Option c.Filter × List Pubkey)
      → ReachesBuilt j o
      → Reaches j other
      → Reaches j (first_or c o other)
  unfolding first_or
  first_or-Reaches j none other h r = r
  first_or-Reaches j (some (f, [])) other h r = h
  first_or-Reaches j (some (f, k ∷ ks)) other h r = r

  filter_of_keys-Reaches :
      (j : Pubkey) (ks : List Pubkey) → listing j ks ≡ true → Reaches j (filter_of_keys c ks)
  unfolding filter_of_keys any build_cuckoo
  filter_of_keys-Reaches j [] h = cc
  filter_of_keys-Reaches j (k ∷ ks) h =
      let ks' = k ∷ ks in
      let once = c.with_capacity (length ks') in
      let twice = c.with_capacity (doubled (length ks')) in
      let again = build_with c ks' twice in
      first_or-Reaches j (build_with c ks' once) (rebuilt c ks' again)
        (build_with-Reaches j ks' once h)
        (rebuilt-Reaches j ks' again h (build_with-Reaches j ks' twice h))

module _ (c : CuckooFilter) (to_string : Pubkey → Bytes) where
  contains→listing : (j : Pubkey) (s : Set Pubkey) → contains j s ≡ true → listing j (keys s) ≡ true
  unfolding any get same
  contains→listing j [] h = cc
  contains→listing j ((k, v) ∷ s) h = ground (arith, contains→listing j s)

  listing-map :
      (j : Pubkey) (ks : List Pubkey)
      → listing j ks ≡ true
      → listing (to_string j) (map to_string ks) ≡ true
  unfolding any
  listing-map j [] h = h
  listing-map j (k ∷ ks) h = ground (arith, listing-map j ks, same_text)
    where
      same_text : same j k ≡ true → same (to_string j) (to_string k) ≡ true
      same_text s =
          subst (λ x. same (to_string j) (to_string x) ≡ true) (same→≡ j k s)
            (same_refl (to_string j))

  -- Every key of the set or of the cuckoo set stands in the list that is sent, or the filter that is sent
  -- holds it. What the filter's crate promises is used: no key is lost until an insertion fails.
  pub wire_keys-Covers :
      (raw : Set Pubkey) (cuckoo : CuckooAccounts) (j : Pubkey)
      → (contains j raw || contains j cuckoo) ≡ true
      → (listing (to_string j) (wire_keys c to_string raw cuckoo).0
          || holds_some c (wire_keys c to_string raw cuckoo).1 j)
        ≡ true
  unfolding wire_keys listed to_filter
  wire_keys-Covers raw cuckoo j h =
      let missed = (filter_of_keys c (keys cuckoo)).1 in
      let fresh = keep (λ k. not (contains k raw)) missed in
      ground (
        arith,
        contains→listing j raw,
        contains→listing j cuckoo,
        filter_of_keys-Reaches c j (keys cuckoo),
        any-append (same j) (keys raw) fresh,
        listing-keep c j (λ k. not (contains k raw)) missed,
        listing-map j (keys raw ++ fresh),
      )
