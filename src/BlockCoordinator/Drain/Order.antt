-- ===== src/BlockCoordinator/Drain/Order.antt =====
-- Facts of every pass over the buffers: the order of what goes out, the frontier that it leaves,
-- and what becomes of the entries.
use shipstern.Base.{
  ◌<◌, ◌≡◌, refl, Bool, true, false, Option, none, some, List, [], ◌∷◌, ◌⊎◌, inl, inr, arith, map,
  Bool-cases, Option-cases, AscFrom, IsAscending, ltb→lt,
}
use shipstern.Base.Maps.{Map, nat_ord, Above, IsSorted}
use shipstern.Base.Maps.Entries.{AllEntries}
use shipstern.BlockCoordinator.Types.{Slot}
use shipstern.BlockCoordinator.Drain.Sweep.{Swept, sweep, passing, emitting}

-- Strictly ascending, and above the last flushed slot if there is one.
abbrev pub AscFromLast : Option Slot → List Slot → Type 0
AscFromLast none xs = IsAscending xs
AscFromLast (some l) xs = AscFrom l xs

-- The frontier that a pass leaves: the last slot that went out, or the old one.
abbrev pub frontier : Option Slot → List Slot → Option Slot
frontier last [] = last
frontier last (slot ∷ slots) = frontier (some slot) slots

module _ {ℓ} {V : Type ℓ} where
  -- Every entry that is not drained lies above the last flushed slot.
  abbrev pub AheadOf : (V → Bool) → Option Slot → Slot → V → Type 0
  AheadOf drained none slot b = Unit
  AheadOf drained (some l) slot b = (drained b ≡ true) ⊎ (l < slot)

  abbrev pub Ahead : (V → Bool) → Option Slot → Map Slot V → Type 0
  Ahead drained last = AllEntries (AheadOf drained last)

  pub Above-Ahead :
      (drained : V → Bool) (l : Slot) (m : Map Slot V) → Above l m → Ahead drained (some l) m
  Above-Ahead drained l [] a = tt
  Above-Ahead drained l ((slot, b) ∷ m) a = (inr (ltb→lt l slot a.0), Above-Ahead drained l m a.1)

  pub drained-AheadOf :
      (drained : V → Bool) (last : Option Slot) (slot : Slot) (b : V)
      → drained b ≡ true
      → AheadOf drained last slot b
  drained-AheadOf drained none slot b h = tt
  drained-AheadOf drained (some l) slot b h = inl h

pub AscFromLast-nil : (last : Option Slot) → AscFromLast last []
AscFromLast-nil none = tt
AscFromLast-nil (some l) = tt

pub AscFromLast-cons :
    (last : Option Slot) (slot : Slot) (xs : List Slot)
    → ((l : Slot) → last ≡ some l → l < slot)
    → AscFrom slot xs
    → AscFromLast last (slot ∷ xs)
AscFromLast-cons none slot xs h a = a
AscFromLast-cons (some l) slot xs h a = (h l refl, a)

AheadOf-fresh {ℓ} :
    {V : Type ℓ} (drained : V → Bool) (last : Option Slot) (slot : Slot) (b : V)
    → drained b ≡ false
    → AheadOf drained last slot b
    → (l : Slot) → last ≡ some l
    → l < slot
AheadOf-fresh drained none slot b f a l e = cc
AheadOf-fresh drained (some k) slot b f a l e = ground arith

module _ {ℓ} {V A : Type ℓ} (drained : V → Bool) (yield : Option Slot → Slot → V → Option A)
    (settled : V → V) where
  abbrev pub outs_of : Swept V A → List A
  outs_of s = s.0

  -- What a pass does at its first entry.
  pub sweep_cases {κ} :
      (P : Swept V A → Type κ) (last : Option Slot) (slot : Slot) (b : V) (m : Map Slot V)
      → (drained b ≡ true → P (passing slot b (sweep drained yield settled last m)))
      → (drained b ≡ false → P ([], (slot, b) ∷ m, last))
      → (drained b ≡ false
          → (a : A) → yield last slot b ≡ some a
          → P (emitting a slot (settled b) (sweep drained yield settled (some slot) m)))
      → P (sweep drained yield settled last ((slot, b) ∷ m))
  unfolding sweep
  sweep_cases P last slot b m pass end emit = elim (Bool-cases (drained b)) [
    | inl old ↦ rw old (pass old)
    | inr fresh ↦ elim (Option-cases (yield last slot b)) [
      | inl early ↦ rw (fresh, early) (end fresh)
      | inr (a, ready) ↦ rw (fresh, ready) (emit fresh a ready)
    ]
  ]

  sweep-Above :
      (k : Slot) (last : Option Slot) (m : Map Slot V)
      → Above k m
      → Above k (sweep drained yield settled last m).1
  unfolding sweep
  sweep-Above k last [] a = tt
  sweep-Above k last ((slot, b) ∷ m) a =
      ground (arith, sweep-Above k last m a.1, sweep-Above k (some slot) m a.1)

  pub sweep-IsSorted :
      (last : Option Slot) (m : Map Slot V)
      → IsSorted m
      → IsSorted (sweep drained yield settled last m).1
  unfolding sweep
  sweep-IsSorted last [] s = tt
  sweep-IsSorted last ((slot, b) ∷ m) s = ground (
    arith,
    sweep-Above slot last m s.0,
    sweep-Above slot (some slot) m s.0,
    sweep-IsSorted last m s.1,
    sweep-IsSorted (some slot) m s.1,
  )

  -- An entry keeps a property that settling keeps.
  pub sweep-AllEntries :
      (P : Slot → V → Type 0)
      → ((slot : Slot) (b : V) → P slot b → P slot (settled b))
      → (last : Option Slot) (m : Map Slot V) → AllEntries P m
      → AllEntries P (sweep drained yield settled last m).1
  unfolding sweep
  sweep-AllEntries P h last [] a = tt
  sweep-AllEntries P h last ((slot, b) ∷ m) a =
      ground (
        arith,
        h slot b a.0,
        sweep-AllEntries P h last m a.1,
        sweep-AllEntries P h (some slot) m a.1,
      )

  module _ (tag : A → Slot)
      (tagged : (last : Option Slot) (slot : Slot) (b : V) (a : A)
        → yield last slot b ≡ some a
        → tag a ≡ slot)
      (settles : (b : V) → drained (settled b) ≡ true) where
    pub sweep-frontier :
        (last : Option Slot) (m : Map Slot V)
        → (sweep drained yield settled last m).2
          ≡ frontier last (map tag (sweep drained yield settled last m).0)
    unfolding sweep
    sweep-frontier last [] = refl
    sweep-frontier last ((slot, b) ∷ m) = elim (Bool-cases (drained b)) [
      | inl old ↦ rw old (sweep-frontier last m)
      | inr fresh ↦ elim (Option-cases (yield last slot b)) [
        | inl early ↦ rw (fresh, early)
        | inr (a, ready) ↦
            rw (fresh, ready, tagged last slot b a ready) (sweep-frontier (some slot) m)
      ]
    ]

    AscendsFrom : Slot → Swept V A → Type 0
    AscendsFrom k (outs, m, l) = AscFrom k (map tag outs)

    sweep-AscendsFrom :
        (k : Slot) (last : Option Slot) (m : Map Slot V)
        → IsSorted m
        → Above k m
        → AscendsFrom k (sweep drained yield settled last m)
    unfolding AscendsFrom sweep
    sweep-AscendsFrom k last [] s a = tt
    sweep-AscendsFrom k last ((slot, b) ∷ m) s a =
        sweep_cases (AscendsFrom k) last slot b m (λ _. sweep-AscendsFrom k last m s.1 a.1)
          (λ _. tt)
          (λ _ o ready.
            rw (tagged last slot b o ready)
              (ltb→lt k slot a.0, sweep-AscendsFrom slot (some slot) m s.1 s.0))

    Ascends : Swept V A → Type 0
    Ascends (outs, m, l) = IsAscending (map tag outs)

    sweep-Ascends :
        (last : Option Slot) (m : Map Slot V)
        → IsSorted m
        → Ascends (sweep drained yield settled last m)
    unfolding Ascends AscendsFrom sweep
    sweep-Ascends last [] s = tt
    sweep-Ascends last ((slot, b) ∷ m) s =
        sweep_cases Ascends last slot b m (λ _. sweep-Ascends last m s.1) (λ _. tt)
          (λ _ o ready.
            rw (tagged last slot b o ready) (sweep-AscendsFrom slot (some slot) m s.1 s.0))

    pub sweep-IsAscending :
        (last : Option Slot) (m : Map Slot V)
        → IsSorted m
        → IsAscending (map tag (sweep drained yield settled last m).0)
    unfolding Ascends
    sweep-IsAscending last m s = sweep-Ascends last m s

    OrderIs : Option Slot → Swept V A → Type 0
    OrderIs last (outs, m, l) = AscFromLast last (map tag outs) × Ahead drained l m

    sweep_order :
        (last : Option Slot) (m : Map Slot V)
        → IsSorted m
        → Ahead drained last m
        → OrderIs last (sweep drained yield settled last m)
    unfolding OrderIs sweep
    sweep_order none [] s a = (tt, tt)
    sweep_order (some l) [] s a = (tt, tt)
    sweep_order last ((slot, b) ∷ m) s a =
        sweep_cases (OrderIs last) last slot b m
          (λ old.
            let ih = sweep_order last m s.1 a.1 in
            (
              ih.0,
              (drained-AheadOf drained (sweep drained yield settled last m).2 slot b old, ih.1),
            ))
          (λ fresh. (AscFromLast-nil last, a))
          (λ fresh o ready.
            let ih = sweep_order (some slot) m s.1 (Above-Ahead drained slot m s.0) in
            (
              rw (tagged last slot b o ready)
                  (AscFromLast-cons last slot _ (AheadOf-fresh drained last slot b fresh a.0) ih.0),
              (
                drained-AheadOf drained (sweep drained yield settled (some slot) m).2 slot
                    (settled b) (settles b),
                ih.1,
              ),
            ))

    pub sweep-order :
        (last : Option Slot) (m : Map Slot V)
        → IsSorted m
        → Ahead drained last m
        → AscFromLast last (map tag (sweep drained yield settled last m).0)
          × Ahead drained
              (sweep drained yield settled last m).2
              (sweep drained yield settled last m).1
    unfolding OrderIs
    sweep-order last m s a = sweep_order last m s a
