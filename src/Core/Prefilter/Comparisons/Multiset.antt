-- ===== src/Core/Prefilter/Comparisons/Multiset.antt =====
-- The signed counts of `same_account_filters` of crates/core/src/lib.rs decide the equality of two
-- multisets.
use shipstern.Base.{
  ℕ, zero, suc, ◌+◌, ◌<◌, ◌≡◌, ◌↔◌, refl, ap, ◌∙◌, Bool, true, false, ◌||◌, Option, none, some,
  List, [], ◌∷◌, arith, ◌==◌, length, if◌then◌else◌, inl, inr, Bool-cases, under_if, subst,
  Option-cases, is_some,
}
use shipstern.Base.Maps.{Map}
use shipstern.Core.Prefilter.Comparisons.{
  ℤ, pos, negsuc, succ, pred, is_zero, lookup, count_up, count_down, count_lhs, all_zero, count_rhs,
  same_lists,
}

-- `z` is `x - y`.
abbrev Diff : ℤ → ℕ → ℕ → Type 0
Diff (pos n) x y = x ≡ y + n
Diff (negsuc n) x y = y ≡ x + n + 1

succ-Diff : (z : ℤ) (x y : ℕ) → Diff z x y → Diff (succ z) (1 + x) y
unfolding succ
succ-Diff (pos n) x y h = omega arith
succ-Diff (negsuc zero) x y h = omega arith
succ-Diff (negsuc (suc n)) x y h = omega arith

pred-Diff : (z : ℤ) (x y : ℕ) → Diff z x y → Diff (pred z) x (1 + y)
unfolding pred
pred-Diff (pos zero) x y h = omega arith
pred-Diff (pos (suc n)) x y h = omega arith
pred-Diff (negsuc n) x y h = omega arith

is_zero-Diff : (z : ℤ) (x y : ℕ) → Diff z x y → (is_zero z ≡ true) ↔ (x ≡ y)
unfolding is_zero
is_zero-Diff (pos n) x y h = (λ e. ground arith, λ e. ground arith)
is_zero-Diff (negsuc n) x y h = (λ e. ground arith, λ e. ground arith)

plus_zero : (n : ℕ) → n ≡ 0 + n
plus_zero n = omega arith

regroup : (a b c : ℕ) → a + (b + c) ≡ b + a + c
regroup a b c = omega arith

abbrev or_zero : Option ℤ → ℤ
or_zero none = pos 0
or_zero (some z) = z

module _ {A : Type 0} (eq : A → A → Bool) (eq_refl : (a : A) → eq a a ≡ true)
    (eq→≡ : (a b : A) → eq a b ≡ true → a ≡ b) where
  -- How often a value occurs.
  abbrev pub count : A → List A → ℕ
  count a [] = 0
  count a (b ∷ bs) = (if eq a b then 1 else 0) + count a bs

  abbrev value : A → Map A ℤ → ℤ
  value a m = or_zero (lookup eq a m)

  abbrev IsDistinct : Map A ℤ → Type 0
  IsDistinct [] = Unit
  IsDistinct ((a, z) ∷ m) = (lookup eq a m ≡ none) × IsDistinct m

  eq_step : (a b c : A) → eq a b ≡ true → eq c a ≡ eq c b
  eq_step a b c h = rw (eq→≡ a b h)

  eq_left : (a b c : A) → eq a b ≡ true → eq a c ≡ eq b c
  eq_left a b c h = ap (λ x. eq x c) (eq→≡ a b h)

  value-count_up :
      (j a : A) (m : Map A ℤ)
      → value j (count_up eq a m) ≡ (if eq j a then succ (value j m) else value j m)
  unfolding count_up lookup
  value-count_up j a [] = ground arith
  value-count_up j a ((b, z) ∷ m) =
      ground (arith, value-count_up j a m, eq_step a b j, eq_left j a b)

  found-count_up :
      (j a : A) (m : Map A ℤ)
      → is_some (lookup eq j (count_up eq a m)) ≡ (eq j a || is_some (lookup eq j m))
  unfolding count_up lookup
  found-count_up j a [] = ground arith
  found-count_up j a ((b, z) ∷ m) = ground (arith, found-count_up j a m, eq_step a b j)

  found-count_down :
      (j a : A) (m : Map A ℤ) → is_some (lookup eq j (count_down eq a m)) ≡ is_some (lookup eq j m)
  unfolding count_down lookup
  found-count_down j a [] = refl
  found-count_down j a ((b, z) ∷ m) = ground (arith, found-count_down j a m)

  value-count_down :
      (j a : A) (m : Map A ℤ)
      → is_some (lookup eq a m) ≡ true
      → value j (count_down eq a m) ≡ (if eq j a then pred (value j m) else value j m)
  unfolding count_down lookup
  value-count_down j a [] h = ground arith
  value-count_down j a ((b, z) ∷ m) h =
      ground (arith, value-count_down j a m, eq_step a b j, eq_left j a b)

  found→value : (j : A) (m : Map A ℤ) → lookup eq j m ≡ none → value j m ≡ pos 0
  found→value j m h = ap or_zero h

  all_zero→value : (j : A) (m : Map A ℤ) → all_zero eq m ≡ true → is_zero (value j m) ≡ true
  unfolding all_zero lookup is_zero
  all_zero→value j [] h = refl
  all_zero→value j ((b, z) ∷ m) h = ground (arith, all_zero→value j m)

  value-tail :
      (j b : A) (z : ℤ) (m : Map A ℤ)
      → lookup eq b m ≡ none
      → is_zero (value j ((b, z) ∷ m)) ≡ true
      → is_zero (value j m) ≡ true
  unfolding lookup is_zero
  value-tail j b z m d h = elim (Bool-cases (eq j b)) [
    | inl e ↦ ap (λ o. is_zero (or_zero o)) (ap (λ x. lookup eq x m) (eq→≡ j b e) ∙ d)
    | inr e ↦ ground arith
  ]

  value_head :
      (b : A) (z : ℤ) (m : Map A ℤ) → is_zero (value b ((b, z) ∷ m)) ≡ true → is_zero z ≡ true
  unfolding lookup
  value_head b z m h = ground (arith, eq_refl b)

  value→all_zero :
      (m : Map A ℤ) → IsDistinct m → ((j : A) → is_zero (value j m) ≡ true) → all_zero eq m ≡ true
  unfolding all_zero
  value→all_zero [] d h = refl
  value→all_zero ((b, z) ∷ m) d h =
      let rest = value→all_zero m d.1 (λ j. value-tail j b z m d.0 (h j)) in
      ground (arith, value_head b z m (h b))

  count_up-IsDistinct : (a : A) (m : Map A ℤ) → IsDistinct m → IsDistinct (count_up eq a m)
  unfolding count_up lookup
  count_up-IsDistinct a [] d = (refl, tt)
  count_up-IsDistinct a ((b, z) ∷ m) d = ground (
    arith,
    count_up-IsDistinct a m d.1,
    found-count_up b a m,
    eq_step a b a,
    eq_left b a b,
    eq_refl b,
  )

  count_down-IsDistinct : (a : A) (m : Map A ℤ) → IsDistinct m → IsDistinct (count_down eq a m)
  unfolding count_down
  count_down-IsDistinct a [] d = tt
  count_down-IsDistinct a ((b, z) ∷ m) d =
      ground (arith, count_down-IsDistinct a m d.1, found-count_down b a m)

  -- What the two loops keep: the counts are differences, and only counted keys are there.
  record Tally (x y : A → ℕ) (m : Map A ℤ) : Type 0 where
    distinct : IsDistinct m
    differs : (j : A) → Diff (value j m) (x j) (y j)
    known : (j : A) → lookup eq j m ≡ none → x j ≡ 0

  abbrev one : A → A → ℕ
  one j a = if eq j a then 1 else 0

  count_up-Tally :
      (x y : A → ℕ) (a : A) (m : Map A ℤ)
      → Tally x y m
      → Tally (λ j. one j a + x j) y (count_up eq a m)
  count_up-Tally x y a m c = record {
    distinct = count_up-IsDistinct a m c.distinct;
    differs = λ j. rw (value-count_up j a m) (
        under_if (λ z. Diff z ((if eq j a then 1 else 0) + x j) (y j)) (eq j a) _ _
          (λ h. rw h (succ-Diff (value j m) (x j) (y j) (c.differs j)))
          (λ h. rw h (subst (λ n. Diff (value j m) n (y j)) (plus_zero (x j)) (c.differs j))));
    known = λ j h. ground (arith, found-count_up j a m, c.known j);
  }

  count_down-Tally :
      (x y : A → ℕ) (a : A) (m : Map A ℤ)
      → is_some (lookup eq a m) ≡ true
      → Tally x y m
      → Tally x (λ j. one j a + y j) (count_down eq a m)
  count_down-Tally x y a m f c = record {
    distinct = count_down-IsDistinct a m c.distinct;
    differs = λ j. rw (value-count_down j a m f) (
        under_if (λ z. Diff z (x j) ((if eq j a then 1 else 0) + y j)) (eq j a) _ _
          (λ h. rw h (pred-Diff (value j m) (x j) (y j) (c.differs j)))
          (λ h. rw h (subst (λ n. Diff (value j m) (x j) n) (plus_zero (y j)) (c.differs j))));
    known = λ j h. ground (arith, found-count_down j a m, c.known j);
  }

  count_lhs-Tally :
      (x y : A → ℕ) (as' : List A) (m : Map A ℤ)
      → Tally x y m
      → Tally (λ j. count j as' + x j) y (count_lhs eq as' m)
  unfolding count_lhs
  count_lhs-Tally x y [] m c = record {
    distinct = c.distinct;
    differs = λ j. subst (λ n. Diff (value j m) n (y j)) (plus_zero (x j)) (c.differs j);
    known = λ j h. omega (arith, c.known j h);
  }
  count_lhs-Tally x y (a ∷ as') m c =
      let next =
        count_lhs-Tally (λ j. one j a + x j) y as' (count_up eq a m) (count_up-Tally x y a m c) in
      record {
        distinct = next.distinct;
        differs = λ j.
            subst (λ n. Diff (value j (count_lhs eq as' (count_up eq a m))) n (y j))
              (regroup (count j as') (one j a) (x j)) (next.differs j);
        known = λ j h. omega (arith, next.known j h);
      }

  count_rhs_iff :
      (x y : A → ℕ) (bs : List A) (m : Map A ℤ)
      → Tally x y m
      → (count_rhs eq bs m ≡ true) ↔ ((j : A) → x j ≡ count j bs + y j)
  unfolding count_rhs
  count_rhs_iff x y [] m c = (
    λ h j.
        omega
          (arith, (is_zero-Diff (value j m) (x j) (y j) (c.differs j)).0 (all_zero→value j m h)),
    λ h.
        value→all_zero m c.distinct
          (λ j. (is_zero-Diff (value j m) (x j) (y j) (c.differs j)).1 (omega (arith, h j))),
  )
  count_rhs_iff x y (b ∷ bs) m c = elim (Option-cases (lookup eq b m)) [
    | inl e ↦ rw (e, count_rhs) (λ h. cc, λ h. absurd (unknown (c.known b e) (h b)))
    | inr (z, e) ↦
        let next =
          count_rhs_iff x (λ j. one j b + y j) bs (count_down eq b m)
            (count_down-Tally x y b m (rw e refl) c) in
        rw (e, count_rhs) (λ h j. omega (arith, next.0 h j), λ h. next.1 (λ j. omega (arith, h j)))
  ]
    where
      unknown : x b ≡ 0 → x b ≡ count b (b ∷ bs) + y b → ⊥
      unknown e h = ground (arith, eq_refl b)

  -- The list without the first entry of a value.
  without : A → List A → List A
  without a [] = []
  without a (b ∷ bs) = let rest = without a bs in if eq a b then bs else b ∷ rest

  count-without :
      (j a : A) (bs : List A) → 0 < count a bs → one j a + count j (without a bs) ≡ count j bs
  unfolding without
  count-without j a [] h = omega arith
  count-without j a (b ∷ bs) h = elim (Bool-cases (eq a b)) [
    | inl e ↦ ground (arith, eq_step a b j)
    | inr e ↦ ground (arith, count-without j a bs)
  ]

  length-without : (a : A) (bs : List A) → 0 < count a bs → 1 + length (without a bs) ≡ length bs
  unfolding without
  length-without a [] h = omega arith
  length-without a (b ∷ bs) h = ground (arith, length-without a bs)

  count→length : (as' bs : List A) → ((j : A) → count j as' ≡ count j bs) → length as' ≡ length bs
  count→length [] [] h = refl
  count→length [] (b ∷ bs) h = absurd (some_left b bs (h b))
    where
      some_left : (b : A) (bs : List A) → 0 ≡ count b (b ∷ bs) → ⊥
      some_left b bs e = ground (arith, eq_refl b)
  count→length (a ∷ as') bs h =
      let found = at_least_one (h a) in
      let rest =
        count→length as' (without a bs) (λ j. cancel j (h j) (count-without j a bs found)) in
      omega (arith, rest, length-without a bs found)
    where
      at_least_one : count a (a ∷ as') ≡ count a bs → 0 < count a bs
      at_least_one e = ground (arith, eq_refl a)

      cancel :
          (j : A)
          → count j (a ∷ as') ≡ count j bs
          → one j a + count j (without a bs) ≡ count j bs
          → count j as' ≡ count j (without a bs)
      cancel j e k = omega arith

  pub same_lists_iff :
      (lhs rhs : List A) → (same_lists eq lhs rhs ≡ true) ↔ ((j : A) → count j lhs ≡ count j rhs)
  unfolding same_lists
  same_lists_iff lhs rhs =
      let counted =
        count_lhs-Tally (λ j. 0) (λ j. 0) lhs []
          (record { distinct = tt; differs = λ j. refl; known = λ j h. refl }) in
      let decided =
        count_rhs_iff (λ j. count j lhs + 0) (λ j. 0) rhs (count_lhs eq lhs []) counted in
      (
        λ h. λ j. omega (arith, decided.0 (second (length lhs == length rhs) _ h) j),
        λ h.
            both (length lhs) (length rhs) _ (count→length lhs rhs h)
              (decided.1 (λ j. omega (arith, h j))),
      )
    where
      second : (b c : Bool) → (if b then c else false) ≡ true → c ≡ true
      second b c h = ground arith

      both : (m n : ℕ) (c : Bool) → m ≡ n → c ≡ true → (if m == n then c else false) ≡ true
      both m n c e h = ground arith
