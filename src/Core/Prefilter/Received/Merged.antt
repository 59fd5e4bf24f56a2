-- ===== src/Core/Prefilter/Received/Merged.antt =====
-- A merge of two transaction prefilters, crates/core/src/lib.rs, part by part.
use shipstern.Base.{
  ◌≡◌, refl, sym, subst, Bool, true, false, ◌&&◌, ◌||◌, not, List, [], ◌∷◌, arith, if◌then◌else◌,
  Bool-cases, inl, inr,
}
use shipstern.Base.Maps.{Set, keys, retain, contains, IsSorted, get}
use shipstern.Base.Maps.Sets.{
  same, same→≡, extend, any, meets, contains-retain, any_mono, every-extend, every_mono,
}
use shipstern.BlockCoordinator.Keys.{lex_ord}
use shipstern.Core.Prefilter.{Pubkey, TransactionPrefilter, bool_eq, opt_eq, token_eq}
use shipstern.Core.Prefilter.Comparisons.Filters.{bool_eq→≡}
use shipstern.Core.Prefilter.Merge.{merge_cuckoo, wider_tokens, merge_transaction}
use shipstern.Core.Prefilter.Received.{
  Seen, touched, is_nil, includes_all, includes, requires, receives, HasSortedSets, agreed-Both,
  merge_failed-Both, merged_tokens, touched-Both, is_nil-extend, meets-extend, opt_eq→≡, token_eq→≡,
}

unfoldable merged_includes : TransactionPrefilter → TransactionPrefilter → List Pubkey → Bool
merged_includes l r ks =
    (is_nil (extend l.accounts_include r.accounts_include)
      && is_nil (extend l.cuckoo_accounts_include r.cuckoo_accounts_include))
    || (meets ks (extend l.accounts_include r.accounts_include)
        || meets ks (extend l.cuckoo_accounts_include r.cuckoo_accounts_include))

merged_includes_lem :
    (l r : TransactionPrefilter) (tx : Seen)
    → HasSortedSets r
    → includes_all l ≡ includes_all r
    → (includes l (touched l.token_accounts tx) ≡ true
        → merged_includes l r (touched (merged_tokens l r) tx) ≡ true)
      × (includes r (touched r.token_accounts tx) ≡ true
          → merged_includes l r (touched (merged_tokens l r) tx) ≡ true)
unfolding merged_includes
merged_includes_lem l r tx s alike =
    let ks = touched (merged_tokens l r) tx in
    let inc = meets-extend ks l.accounts_include r.accounts_include s.include in
    let cuc = meets-extend ks l.cuckoo_accounts_include r.cuckoo_accounts_include s.cuckoo in
    let li = touched-Both (λ k. contains k l.accounts_include) l r tx in
    let ri = touched-Both (λ k. contains k r.accounts_include) l r tx in
    let lc = touched-Both (λ k. contains k l.cuckoo_accounts_include) l r tx in
    let rc = touched-Both (λ k. contains k r.cuckoo_accounts_include) l r tx in
    ground (
      arith,
      inc.0,
      inc.1,
      cuc.0,
      cuc.1,
      li.0,
      ri.1,
      lc.0,
      rc.1,
      is_nil-extend l.accounts_include r.accounts_include,
      is_nil-extend l.cuckoo_accounts_include r.cuckoo_accounts_include,
    )

merged_required :
    (s t : Set Pubkey) (ks merged : List Pubkey)
    → ((p : Pubkey → Bool) → any p ks ≡ true → any p merged ≡ true)
    → requires s ks ≡ true
    → requires t ks ≡ true
    → requires (extend s t) merged ≡ true
merged_required s t ks merged wider hs ht =
    every-extend (λ k. any (same k) merged) s t (every_mono _ _ (keys s) (λ k. wider (same k)) hs)
      (every_mono _ _ (keys t) (λ k. wider (same k)) ht)

merged_exclude : TransactionPrefilter → TransactionPrefilter → Set Pubkey
merged_exclude l r =
    if opt_eq token_eq l.token_accounts r.token_accounts
    then retain (λ k v. contains k r.accounts_exclude) l.accounts_exclude
    else []

meets-empty : (ks : List Pubkey) → meets ks [] ≡ false
unfolding any get
meets-empty [] = refl
meets-empty (k ∷ ks) = meets-empty ks

-- A restricted exclusion drops no more than either side does.
meets-retain :
    (ks : List Pubkey) (s t : Set Pubkey)
    → IsSorted s
    → (meets ks (retain (λ k v. contains k t) s) ≡ true → meets ks s ≡ true)
      × (meets ks (retain (λ k v. contains k t) s) ≡ true → meets ks t ≡ true)
meets-retain ks s t h =
    let restricted : Pubkey → Bool = λ k. contains k (retain (λ k v. contains k t) s) in
    (
      any_mono restricted (λ k. contains k s) ks
          (λ k e. ground (arith, contains-retain (λ k. contains k t) k s h)),
      any_mono restricted (λ k. contains k t) ks
          (λ k e. ground (arith, contains-retain (λ k. contains k t) k s h)),
    )

merged_exclude_lem :
    (l r : TransactionPrefilter) (tx : Seen)
    → HasSortedSets l
    → (not (meets (touched l.token_accounts tx) l.accounts_exclude) ≡ true
        → not (meets (touched (merged_tokens l r) tx) (merged_exclude l r)) ≡ true)
      × (not (meets (touched r.token_accounts tx) r.accounts_exclude) ≡ true
          → not (meets (touched (merged_tokens l r) tx) (merged_exclude l r)) ≡ true)
unfolding merged_exclude merged_tokens
merged_exclude_lem l r tx s =
    elim (Bool-cases (opt_eq token_eq l.token_accounts r.token_accounts)) [
      | inl same' ↦
          let tokens = opt_eq→≡ token_eq token_eq→≡ l.token_accounts r.token_accounts same' in
          let kept =
            meets-retain (touched l.token_accounts tx) l.accounts_exclude r.accounts_exclude
              s.exclude in
          rw same' (
            λ h. ground (arith, kept.0),
            subst
                (λ o.
                  not (meets (touched o tx) r.accounts_exclude) ≡ true
                  → not (
                      meets (touched l.token_accounts tx)
                        (retain (λ k v. contains k r.accounts_exclude) l.accounts_exclude))
                    ≡ true)
                tokens (λ h. ground (arith, kept.1)),
          )
      | inr differ ↦
          rw (differ, meets-empty (touched (wider_tokens l.token_accounts r.token_accounts) tx))
            (λ h. refl, λ h. refl)
    ]

-- The parts of `receives`, each of them kept by a merge.
all_parts :
    (a b c d e f a' b' c' d' e' f' : Bool)
    → (a ≡ true → a' ≡ true)
    → (b ≡ true → b' ≡ true)
    → (c ≡ true → c' ≡ true)
    → (d ≡ true → d' ≡ true)
    → (e ≡ true → e' ≡ true)
    → (f ≡ true → f' ≡ true)
    → (a && (b && (c && (d && (e && f))))) ≡ true
    → (a' && (b' && (c' && (d' && (e' && f'))))) ≡ true
all_parts a b c d e f a' b' c' d' e' f' pa pb pc pd pe pf h = ground arith

-- Where both prefilters ask for keys or neither does, and both require the same accounts, their merge
-- receives every transaction that either of them receives.
pub merge_transaction-receives :
    (l r : TransactionPrefilter) (tx : Seen)
    → HasSortedSets l
    → HasSortedSets r
    → includes_all l ≡ includes_all r
    → l.accounts_required ≡ r.accounts_required
    → (receives l tx || receives r tx) ≡ true
    → receives (merge_transaction l r) tx ≡ true
unfolding receives merge_transaction merged_includes merged_exclude merged_tokens merge_cuckoo
merge_transaction-receives l r tx sl sr alike required h = elim (Bool-cases (receives l tx)) [
  | inl left ↦
      all_parts _ _ _ _ _ _ _ _ _ _ _ _ (merged_includes_lem l r tx sr alike).0
        (λ e.
          merged_required l.accounts_required r.accounts_required _ _
            (λ p. (touched-Both p l r tx).0) e
            (subst (λ s. requires s (touched l.token_accounts tx) ≡ true) required e))
        (merged_exclude_lem l r tx sl).0 (agreed-Both bool_eq tx.is_vote l.vote r.vote bool_eq→≡).0
        (agreed-Both same tx.signature l.signature r.signature same→≡).0
        (merge_failed-Both tx.is_failed l.failed r.failed).0 left
  | inr not_left ↦
      all_parts _ _ _ _ _ _ _ _ _ _ _ _ (merged_includes_lem l r tx sr alike).1
        (λ e.
          merged_required l.accounts_required r.accounts_required _ _
            (λ p. (touched-Both p l r tx).1)
            (subst (λ s. requires s (touched r.token_accounts tx) ≡ true) (sym required) e) e)
        (merged_exclude_lem l r tx sl).1 (agreed-Both bool_eq tx.is_vote l.vote r.vote bool_eq→≡).1
        (agreed-Both same tx.signature l.signature r.signature same→≡).1
        (merge_failed-Both tx.is_failed l.failed r.failed).1 (right not_left h)
]
  where
    right : {a b : Bool} → a ≡ false → (a || b) ≡ true → b ≡ true
    right e h = ground arith
