-- ===== src/BlockCoordinator/Drain/Sweep.antt =====
-- What a drain computes, said without a loop over keys: one pass over the entries of the buffer
-- in slot order. The pass knows the last flushed slot and the entry, and nothing else of the state.
use shipstern.Base.{
  ◌≡◌, refl, ◌∙◌, Bool, true, false, Option, none, some, List, [], ◌∷◌, ◌++◌, inl, inr, Bool-cases,
  Option-cases, if◌then◌else◌,
}
use mathlib.Core.List.{append_assoc}
use shipstern.Base.Maps.{Map, nat_ord, keys, IsSorted}
use shipstern.Base.Maps.Append.{Below, Before, Before-snoc}
use shipstern.BlockCoordinator.Types.{Slot, ok}
use shipstern.BlockCoordinator.Drain.{Visit, stop, skip, flush, visit_all, pushed}

-- The slots that go out, the entries, and the last flushed slot.
abbrev pub Swept {ℓ} : Type ℓ → Type ℓ → Type ℓ
Swept V A = List A × Map Slot V × Option Slot

abbrev pub passing {ℓ} : {V A : Type ℓ} → Slot → V → Swept V A → Swept V A
passing slot b (outs, m, last) = (outs, (slot, b) ∷ m, last)

abbrev pub emitting {ℓ} : {V A : Type ℓ} → A → Slot → V → Swept V A → Swept V A
emitting a slot b (outs, m, last) = (a ∷ outs, (slot, b) ∷ m, last)

-- A drained entry is passed over, one with nothing to give ends the pass, any other gives its slot.
module _ {ℓ} {V A : Type ℓ} (drained : V → Bool) (yield : Option Slot → Slot → V → Option A)
    (settled : V → V) where
  unfoldable pub sweep : Option Slot → Map Slot V → Swept V A
  sweep last [] = ([], [], last)
  sweep last ((slot, b) ∷ m) =
      let passed = passing slot b (sweep last m) in
      let flushed = λ (a : A). emitting a slot (settled b) (sweep (some slot) m) in
      if drained b
      then passed
      else elim (yield last slot b) [ none ↦ ([], (slot, b) ∷ m, last) | some a ↦ flushed a ]

unfoldable pub visit_as {ℓ} : {A S : Type ℓ} → Bool → Option A → S → Visit A S
visit_as true o s = skip
visit_as false none s = stop
visit_as false (some a) s = flush a s

module _ {ℓ} {A S : Type ℓ} (visit : S → Slot → Visit A S) (slot : Slot) (slots : List Slot) where
  visit_all-skip :
      (s : S) → visit s slot ≡ skip → visit_all visit (slot ∷ slots) s ≡ visit_all visit slots s
  unfolding visit_all
  visit_all-skip s e = rw (e, visit_all)

  visit_all-stop : (s : S) → visit s slot ≡ stop → visit_all visit (slot ∷ slots) s ≡ (ok [], s)
  unfolding visit_all
  visit_all-stop s e = rw (e, visit_all)

  visit_all-flush :
      (s : S) (a : A) (s' : S)
      → visit s slot ≡ flush a s'
      → visit_all visit (slot ∷ slots) s ≡ pushed a (visit_all visit slots s')
  unfolding visit_all
  visit_all-flush s a s' e = rw (e, visit_all)

module _ {ℓ} {V A S : Type ℓ} (drained : V → Bool) (yield : Option Slot → Slot → V → Option A)
    (settled : V → V) (visit : S → Slot → Visit A S) (reached : Map Slot V → Option Slot → S) where
  -- The loop over the keys of `ahead`, with `behind` done, does what the pass says.
  unfoldable pub LoopIs : Map Slot V → Map Slot V → Option Slot → Swept V A → Type ℓ
  LoopIs behind ahead last (outs, ahead', last') =
      visit_all visit (keys ahead) (reached (behind ++ ahead) last)
      ≡ (ok outs, reached (behind ++ ahead') last')

  abbrev pub VisitFinds : Type ℓ
  VisitFinds =
      (behind ahead : Map Slot V) (slot : Slot) (b : V) (last : Option Slot)
      → Below slot behind
      → visit (reached (behind ++ (slot, b) ∷ ahead) last) slot
        ≡ visit_as (drained b) (yield last slot b)
            (reached (behind ++ (slot, settled b) ∷ ahead) (some slot))

  LoopIs-skip :
      (behind m : Map Slot V) (slot : Slot) (b : V) (last : Option Slot) (s : Swept V A)
      → visit (reached (behind ++ (slot, b) ∷ m) last) slot ≡ skip
      → LoopIs (behind ++ (slot, b) ∷ []) m last s
      → LoopIs behind ((slot, b) ∷ m) last (passing slot b s)
  unfolding LoopIs
  LoopIs-skip behind m slot b last (outs, m', l) e h =
      visit_all-skip visit slot (keys m) _ e ∙ (simp append_assoc at h)

  LoopIs-flush :
      (behind m : Map Slot V) (slot : Slot) (b b' : V) (last : Option Slot) (a : A) (s : Swept V A)
      → visit (reached (behind ++ (slot, b) ∷ m) last) slot
        ≡ flush a (reached (behind ++ (slot, b') ∷ m) (some slot))
      → LoopIs (behind ++ (slot, b') ∷ []) m (some slot) s
      → LoopIs behind ((slot, b) ∷ m) last (emitting a slot b' s)
  unfolding LoopIs
  LoopIs-flush behind m slot b b' last a (outs, m', l) e h =
      visit_all-flush visit slot (keys m) _ a _ e ∙ rw (simp append_assoc at h)

  module _ (finds : VisitFinds) where
    pub loop-sweep :
        (behind ahead : Map Slot V) (last : Option Slot)
        → Before behind ahead
        → IsSorted ahead
        → LoopIs behind ahead last (sweep drained yield settled last ahead)
    unfolding LoopIs sweep visit_all visit_as
    loop-sweep behind [] last sep sorted = refl
    loop-sweep behind ((slot, b) ∷ m) last sep sorted = elim (Bool-cases (drained b)) [
      | inl old ↦ rw old (
          LoopIs-skip behind m slot b last _ (finds behind m slot b last sep.0 ∙ rw old) (
            loop-sweep (behind ++ (slot, b) ∷ []) m last
              (Before-snoc slot b behind m sep.1 sorted.0) sorted.1))
      | inr fresh ↦ elim (Option-cases (yield last slot b)) [
        | inl early ↦
            rw (fresh, early)
              (visit_all-stop visit slot (keys m) _
                (finds behind m slot b last sep.0 ∙ rw (fresh, early)))
        | inr (a, ready) ↦
            rw (fresh, ready)
              (LoopIs-flush behind m slot b (settled b) last a _
                (finds behind m slot b last sep.0 ∙ rw (fresh, ready))
                (loop-sweep (behind ++ (slot, settled b) ∷ []) m (some slot)
                  (Before-snoc slot (settled b) behind m sep.1 sorted.0) sorted.1))
      ]
    ]
