-- ===== src/Etl/Closer.antt =====
-- utils/closer.py. A callable is an action on the outside world. The stack's top, which is the end
-- of the Python list, is the head here. A callable that registers another one while the closer is
-- closing is not modelled.
use mathlib.Core.List.{reverse, reverse-append, append-nil, append_assoc}
use amundsen_fork.Prelude.{
  ◌≡◌, refl, ap, sym, ◌∙◌, Option, none, some, List, [], ◌∷◌, ◌++◌, arith, map, map,
}
use amundsen_fork.Prelude.Effects.{Result, return, raise, Action}

-- The exception of a call, or else the one before it.
abbrev pub later_exception : {E : Type 0} → Result E (Unit {0}) → Option E → Option E
later_exception (return _) last = last
later_exception (raise e) last = some e

-- `if last_exception: raise last_exception`
abbrev pub raise_last : {E : Type 0} → Option E → Result E (Unit {0})
raise_last none = return tt
raise_last (some e) = raise e

unfoldable pub register : {C : Type 0} → C → List C → List C
register c stack = c ∷ stack

module _ {W E C : Type 0} (call : C → Action W E (Unit {0})) where
  -- Calls each in turn, goes on past an exception, and keeps the last one.
  unfoldable pub call_all : List C → Option E → W → Option E × W
  call_all [] last w = (last, w)
  call_all (c ∷ cs) last w = let (r, w') = call c w in call_all cs (later_exception r last) w'

  -- The stack is empty afterwards.
  unfoldable pub close : List C → W → Result E (Unit {0}) × W × List C
  unfolding call_all
  close stack w = let (last, w') = call_all stack none w in (raise_last last, w', [])

  -- What each call gives, in order of the calls, from the world that the calls before it leave.
  unfoldable pub outcomes : List C → W → List (Result E (Unit {0}))
  outcomes [] w = []
  outcomes (c ∷ cs) w = (call c w).0 ∷ outcomes cs (call c w).1

-- The last exception among results, read from the end.
unfoldable pub last_raised : {E : Type 0} → List (Result E (Unit {0})) → Option E
last_raised [] = none
last_raised (r ∷ rs) = elim (last_raised rs) [ some e ↦ some e | none ↦ later_exception r none ]

module _ {W E C : Type 0} (call : C → Action W E (Unit {0})) where
  pub call_all-eq-last_raised :
      (cs : List C) (last : Option E) (w : W)
      → (call_all call cs last w).0
        ≡ elim (last_raised (outcomes call cs w)) [ some e ↦ some e | none ↦ last ]
  unfolding call_all outcomes last_raised
  call_all-eq-last_raised [] last w = refl
  call_all-eq-last_raised (c ∷ cs) last w =
      ground (arith, call_all-eq-last_raised cs (later_exception (call c w).0 last) (call c w).1)

  -- Closing raises the last exception of the calls, and returns if none of them raised.
  pub close-eq-last_raised :
      (stack : List C) (w : W)
      → (close call stack w).0 ≡ raise_last (last_raised (outcomes call stack w))
  unfolding close
  close-eq-last_raised stack w =
      ap raise_last (call_all-eq-last_raised stack none w)
      ∙ none_last (last_raised (outcomes call stack w))
    where
      none_last :
          (o : Option E) → raise_last (elim o [ some e ↦ some e | none ↦ none ]) ≡ raise_last o
      none_last none = refl
      none_last (some e) = refl

  -- `log` records the calls: each callable adds an entry, whether it raises or not.
  module _ {L : Type 0} (entry : C → L) (log : W → List L)
      (logs : (c : C) (w : W) → log (call c w).1 ≡ log w ++ entry c ∷ []) where
    pub log-call_all :
        (cs : List C) (last : Option E) (w : W)
        → log (call_all call cs last w).1 ≡ log w ++ map entry cs
    unfolding call_all
    log-call_all [] last w = sym (append-nil (log w))
    log-call_all (c ∷ cs) last w =
        log-call_all cs (later_exception (call c w).0 last) (call c w).1
        ∙ ap (λ l. l ++ map entry cs) (logs c w)
        ∙ append_assoc (log w) (entry c ∷ []) (map entry cs)

-- Registering in order, from an empty closer.
unfoldable pub registered : {C : Type 0} → List C → List C → List C
registered [] stack = stack
registered (c ∷ cs) stack = registered cs (register c stack)

registered-eq-reverse : {C : Type 0} (cs stack : List C) → registered cs stack ≡ reverse cs ++ stack
unfolding registered register
registered-eq-reverse [] stack = refl
registered-eq-reverse (c ∷ cs) stack =
    registered-eq-reverse cs (c ∷ stack)
    ∙ sym (append_assoc (reverse cs) (c ∷ []) stack)
    ∙ sym (ap (λ l. l ++ stack) (reverse-append (c ∷ []) cs))

-- Where each callable adds an entry of its own to a log, whether it raises or not: closing after
-- the callables `cs` have been registered in this order calls every one of them exactly once, the
-- last registered first, whatever any of them raises; it leaves the closer empty; and it raises
-- the last exception of the calls, or none if none of them raised.
pub close-registered :
    {W E C L : Type 0} (call : C → Action W E (Unit {0})) (entry : C → L) (log : W → List L)
    (cs : List C) (w : W)
    → ((c : C) (w : W) → log (call c w).1 ≡ log w ++ entry c ∷ [])
    → (log (close call (registered cs []) w).1 ≡ log w ++ map entry (reverse cs))
      × ((close call (registered cs []) w).2 ≡ [])
      × ((close call (registered cs []) w).0
          ≡ raise_last (last_raised (outcomes call (registered cs []) w)))
unfolding close
close-registered call entry log cs w logs = (
  log-call_all call entry log logs (registered cs []) none w
      ∙ ap (λ l. log w ++ map entry l) (registered-eq-reverse cs [] ∙ append-nil (reverse cs)),
  refl,
  close-eq-last_raised call (registered cs []) w,
)
