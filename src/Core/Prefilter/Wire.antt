-- ===== src/Core/Prefilter/Wire.antt =====
-- The subscription request made of the prefilters, crates/core/src/lib.rs. The cuckoo filter of
-- yellowstone-grpc-proto and the base58 text of a key are parameters. A map of the request holds its
-- entries in the order of the parser ids, a list of keys in that of the keys; the code's order is any.
pub mod Covers
pub mod Entries
pub mod Request
use shipstern.Base.{
  ℕ, ◌*◌, ◌-◌, ◌+◌, ◌^◌, ◌≡◌, refl, Bool, true, false, ◌&&◌, ◌||◌, not, Option, none, some, List,
  [], ◌∷◌, ◌++◌, arith, map, min, length, if◌then◌else◌, keep,
}
use shipstern.Base.Maps.{Set, keys, contains}
use shipstern.BlockCoordinator.Keys.{lex_ord}
use shipstern.Core.Prefilter.{Bytes, Pubkey, CuckooAccounts}

-- The filter, whose insertion says whether it succeeded. No key is lost until an insertion fails.
pub record CuckooFilter : Type 1 where
  pub Filter : Type 0
  pub with_capacity : ℕ → Option Filter
  pub insert : Pubkey → Filter → Bool × Filter
  pub holds : Filter → Pubkey → Bool
  pub inserted : (k : Pubkey) (f : Filter) → (insert k f).0 ≡ true → holds (insert k f).1 k ≡ true
  pub keeps :
      (k j : Pubkey) (f : Filter)
      → (insert k f).0 ≡ true
      → holds f j ≡ true
      → holds (insert k f).1 j ≡ true

-- `usize::saturating_mul` by 2
unfoldable pub doubled : ℕ → ℕ
doubled n = min (n * 2) (2 ^ 64 - 1)

-- The keys that are listed.
unfoldable pub listed : Set Pubkey → List Pubkey → List Pubkey
listed raw missed = keys raw ++ keep (λ k. not (contains k raw)) missed

module _ (c : CuckooFilter) where
  -- The loop over the keys, with `evicted`.
  unfoldable pub insert_each : List Pubkey → Bool → c.Filter → Bool × c.Filter
  insert_each [] evicted f = (evicted, f)
  insert_each (k ∷ ks) evicted f =
      let (fine, f') = c.insert k f in insert_each ks (evicted || not fine) f'

  unfoldable pub missed_keys : List Pubkey → Bool × c.Filter → List Pubkey
  missed_keys ks (evicted, f) = if evicted then keep (λ k. not (c.holds f k)) ks else []

  unfoldable pub build_with : List Pubkey → Option c.Filter → Option (c.Filter × List Pubkey)
  unfolding insert_each missed_keys
  build_with ks none = none
  build_with ks (some f) = let done = insert_each ks false f in some (done.1, missed_keys ks done)

  unfoldable pub build_cuckoo : List Pubkey → ℕ → Option (c.Filter × List Pubkey)
  unfolding build_with
  build_cuckoo ks capacity = build_with ks (c.with_capacity capacity)

  unfoldable pub rebuilt :
      List Pubkey → Option (c.Filter × List Pubkey) → Option c.Filter × List Pubkey
  rebuilt ks (some (f, missed)) = (some f, missed)
  rebuilt ks none = (none, ks)

  -- The first build, kept when it misses no key.
  unfoldable pub first_or :
      Option (c.Filter × List Pubkey)
      → Option c.Filter × List Pubkey
      → Option c.Filter × List Pubkey
  first_or (some (f, [])) other = (some f, [])
  first_or (some (f, k ∷ ks)) other = other
  first_or none other = other

  unfoldable pub filter_of_keys : List Pubkey → Option c.Filter × List Pubkey
  unfolding build_cuckoo doubled rebuilt first_or
  filter_of_keys [] = (none, [])
  filter_of_keys (k ∷ ks) =
      let len = length (k ∷ ks) in
      first_or (build_cuckoo (k ∷ ks) len) (rebuilt (k ∷ ks) (build_cuckoo (k ∷ ks) (doubled len)))

  unfoldable pub to_filter : CuckooAccounts → Option c.Filter × List Pubkey
  unfolding filter_of_keys
  to_filter accounts = filter_of_keys (keys accounts)

module _ (c : CuckooFilter) (to_string : Pubkey → Bytes) where
  unfoldable pub wire_keys : Set Pubkey → CuckooAccounts → List Bytes × Option c.Filter
  unfolding to_filter listed
  wire_keys raw cuckoo =
      let (filter, missed) = to_filter c cuckoo in (map to_string (listed raw missed), filter)
