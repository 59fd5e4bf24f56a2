-- ===== src/BlockCoordinator/Coordinator/Channel.antt =====
-- What one output channel of crates/block-coordinator/src/coordinator.rs has carried.
use shipstern.Base.{
  ◌≡◌, refl, subst, Option, none, some, List, [], ◌∷◌, ◌++◌, inl, inr, map, Option-cases, AscFrom,
  IsAscending, arith,
}
use mathlib.Core.List.{map-append}
use shipstern.BlockCoordinator.Types.{Slot, CoordinatorError, Outcome, ok}
use shipstern.BlockCoordinator.Drain.Order.{AscFromLast, frontier}
use shipstern.BlockCoordinator.Coordinator.{Output, send, send_all, deliver}

frontier-append :
    (last : Option Slot) (xs ys : List Slot)
    → frontier last (xs ++ ys) ≡ frontier (frontier last xs) ys
frontier-append last [] ys = refl
frontier-append last (x ∷ xs) ys = frontier-append (some x) xs ys

AscFrom-append :
    (x : Slot) (xs ys : List Slot)
    → AscFrom x xs
    → AscFromLast (frontier (some x) xs) ys
    → AscFrom x (xs ++ ys)
AscFrom-append x [] ys h k = k
AscFrom-append x (y ∷ xs) ys h k = (h.0, AscFrom-append y xs ys h.1 k)

IsAscending-append :
    (xs ys : List Slot)
    → IsAscending xs
    → AscFromLast (frontier none xs) ys
    → IsAscending (xs ++ ys)
IsAscending-append [] ys h k = k
IsAscending-append (x ∷ xs) ys h k = AscFrom-append x xs ys h k

AscFromLast-tail :
    (last : Option Slot) (x : Slot) (xs : List Slot) → AscFromLast last (x ∷ xs) → AscFrom x xs
AscFromLast-tail none x xs h = h
AscFromLast-tail (some l) x xs h = h.1

AscFromLast-head :
    (last : Option Slot) (x : Slot) (xs : List Slot)
    → AscFromLast last (x ∷ xs)
    → AscFromLast last (x ∷ [])
AscFromLast-head none x xs h = tt
AscFromLast-head (some l) x xs h = (h.0, tt)

module _ {ℓ} {A : Type ℓ} (tag : A → Slot) where
  abbrev pub tags : List A → List Slot
  tags = map tag

  -- What was sent is ascending, and after a full delivery the frontier is its last slot.
  pub record Sent (last : Option Slot) (r : Outcome (Unit {0}) × Output A) : Type 0 where
    pub in_order : IsAscending (tags r.1.sent)
    pub up_to : r.0 ≡ ok tt → frontier none (tags r.1.sent) ≡ last

  -- A channel, if there is one, has ascending slots, up to the frontier.
  abbrev pub SentUpTo : Option Slot → Option (Output A) → Type 0
  SentUpTo last none = Unit
  SentUpTo last (some out) = IsAscending (tags out.sent) × (frontier none (tags out.sent) ≡ last)

  abbrev pub InOrder : Option (Output A) → Type 0
  InOrder none = Unit
  InOrder (some out) = IsAscending (tags out.sent)

  pub InOrder-of : (last : Option Slot) (o : Option (Output A)) → SentUpTo last o → InOrder o
  InOrder-of last none h = tt
  InOrder-of last (some out) h = h.0

  pub record Delivered (last : Option Slot) (r : Outcome (Unit {0}) × Option (Output A))
      : Type 0 where
    pub in_order : InOrder r.1
    pub up_to : r.0 ≡ ok tt → SentUpTo last r.1

module _ {ℓ} {A : Type ℓ} (tag : A → Slot) (closed : A → CoordinatorError) where
  send-sent :
      (a : A) (out out' : Output A) → send a out ≡ some out' → out'.sent ≡ out.sent ++ a ∷ []
  unfolding send
  send-sent a out out' e = ground arith

  send_all-Sent :
      (as' : List A) (out : Output A)
      → IsAscending (tags tag out.sent)
      → AscFromLast (frontier none (tags tag out.sent)) (tags tag as')
      → Sent tag
          (frontier (frontier none (tags tag out.sent)) (tags tag as'))
          (send_all closed as' out)
  unfolding send_all
  send_all-Sent [] out h k = record { in_order = h; up_to = λ _. refl }
  send_all-Sent (a ∷ as') out h k = elim (Option-cases (send a out)) [
    | inl e ↦ rw (e, send_all) (record { in_order = h; up_to = λ e. cc })
    | inr (out', e) ↦
        rw (e, send_all)
          (subst (λ f. Sent tag (frontier f (tags tag as')) (send_all closed as' out')) (fr out' e)
            (send_all-Sent as' out'
              (rw (tags' out' e) (
                IsAscending-append (tags tag out.sent) (tag a ∷ []) h
                  (AscFromLast-head (frontier none (tags tag out.sent)) (tag a) (tags tag as') k)))
              (rw (fr out' e)
                (AscFromLast-tail (frontier none (tags tag out.sent)) (tag a) (tags tag as') k))))
  ]
    where
      tags' :
          (out' : Output A)
          → send a out ≡ some out'
          → tags tag out'.sent ≡ tags tag out.sent ++ tag a ∷ []
      tags' out' e = rw (send-sent a out out' e, map-append)

      fr :
          (out' : Output A)
          → send a out ≡ some out'
          → frontier none (tags tag out'.sent) ≡ some (tag a)
      fr out' e = rw (tags' out' e) (frontier-append none (tags tag out.sent) (tag a ∷ []))

  pub deliver-Delivered :
      (as' : List A) (last : Option Slot) (o : Option (Output A))
      → SentUpTo tag last o
      → AscFromLast last (tags tag as')
      → Delivered tag (frontier last (tags tag as')) (deliver closed as' o)
  unfolding deliver
  deliver-Delivered as' last none h k = record { in_order = tt; up_to = λ _. tt }
  deliver-Delivered as' last (some out) h k = record {
    in_order = (sent h.0 h.1 k).in_order;
    up_to = λ e. ((sent h.0 h.1 k).in_order, (sent h.0 h.1 k).up_to e);
  }
    where
      sent :
          IsAscending (tags tag out.sent)
          → frontier none (tags tag out.sent) ≡ last
          → AscFromLast last (tags tag as')
          → Sent tag (frontier last (tags tag as')) (send_all closed as' out)
      sent h e k =
          subst (λ f. Sent tag (frontier f (tags tag as')) (send_all closed as' out)) e
            (send_all-Sent as' out h (rw e k))
