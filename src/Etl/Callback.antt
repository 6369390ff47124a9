-- ===== src/Etl/Callback.antt =====
-- callback/call_back.py, and `Publisher.publish` of publisher/base_publisher.py.
use amundsen_fork.Prelude.{
  ◌≡◌, refl, ap, ◌∙◌, Bool, true, false, Option, none, some, List, [], ◌∷◌, ◌++◌, map, arith,
}
use amundsen_fork.Prelude.Effects.{Result, return, raise, Action}
use amundsen_fork.Etl.Closer.{
  call_all, outcomes, raise_last, last_raised, call_all-eq-last_raised, log-call_all,
}

-- `on_success` or `on_failure`, by the flag.
module _ {W E C : Type 0} (notify : Bool → C → Action W E (Unit {0})) where
  unfoldable pub notify_callbacks : List C → Bool → Action W E (Unit {0})
  notify_callbacks [] is_success w = (return tt, w)
  notify_callbacks (c ∷ cs) is_success w =
      let (last, w') = call_all (notify is_success) (c ∷ cs) none w in (raise_last last, w')

  -- What follows `publish_impl`, by its result. An exception of a callback comes out instead.
  after_publish : List C → Result E (Unit {0}) → Action W E (Unit {0})
  unfolding notify_callbacks
  after_publish cs (return _) w = notify_callbacks cs true w
  after_publish cs (raise e) w =
      let (r, w') = notify_callbacks cs false w in
      (elim r [ return _ ↦ raise e | raise e' ↦ raise e' ], w')

  unfoldable pub publish : List C → Action W E (Unit {0}) → Action W E (Unit {0})
  unfolding after_publish
  publish cs publish_impl w = let (r, w') = publish_impl w in after_publish cs r w'

abbrev pub is_return : {E : Type 0} → Result E (Unit {0}) → Bool
is_return (return _) = true
is_return (raise _) = false

module _ {W E C : Type 0} (notify : Bool → C → Action W E (Unit {0})) where
  notify_callbacks-eq :
      (cs : List C) (b : Bool) (w : W)
      → notify_callbacks notify cs b w
        ≡ (raise_last (call_all (notify b) cs none w).0, (call_all (notify b) cs none w).1)
  unfolding notify_callbacks call_all
  notify_callbacks-eq [] b w = refl
  notify_callbacks-eq (c ∷ cs) b w = refl

raise_last-elim :
    {E : Type 0} (x : Unit {0}) (o : Option E)
    → raise_last (elim o [ some e ↦ some e | none ↦ none ])
      ≡ elim o [ some e ↦ raise e | none ↦ return x ]
raise_last-elim x none = refl
raise_last-elim x (some e) = refl

module _ {W E C : Type 0} (notify : Bool → C → Action W E (Unit {0})) where
  abbrev raised_by : Bool → List C → W → Option E
  raised_by b cs w = last_raised (outcomes (notify b) cs w)

  notified-eq :
      (cs : List C) (b : Bool) (x : Unit {0}) (w : W)
      → (notify_callbacks notify cs b w).0
        ≡ elim (raised_by b cs w) [ some e ↦ raise e | none ↦ return x ]
  notified-eq cs b x w =
      ap (λ p. p.0) (notify_callbacks-eq notify cs b w)
      ∙ ap raise_last (call_all-eq-last_raised (notify b) cs none w)
      ∙ raise_last-elim x (raised_by b cs w)

  after_publish-eq :
      (cs : List C) (r : Result E (Unit {0})) (w : W)
      → (after_publish notify cs r w).0
        ≡ elim (raised_by (is_return r) cs w) [ some e ↦ raise e | none ↦ r ]
  unfolding after_publish
  after_publish-eq cs (return x) w = notified-eq cs true x w
  after_publish-eq cs (raise e) w = ground (arith, notified-eq cs false tt w)

  log-after_publish :
      (log : W → List (Bool × C))
      → ((b : Bool) (c : C) (w : W) → log (notify b c w).1 ≡ log w ++ (b, c) ∷ [])
      → (cs : List C) (r : Result E (Unit {0})) (w : W)
      → log (after_publish notify cs r w).1 ≡ log w ++ map (λ c. (is_return r, c)) cs
  unfolding after_publish
  log-after_publish log logs cs (return x) w =
      ap (λ p. log p.1) (notify_callbacks-eq notify cs true w)
      ∙ log-call_all (notify true) (λ c. (true, c)) log (logs true) cs none w
  log-after_publish log logs cs (raise e) w =
      ap (λ p. log p.1) (notify_callbacks-eq notify cs false w)
      ∙ log-call_all (notify false) (λ c. (false, c)) log (logs false) cs none w

-- Where each callback adds an entry with its flag to a log, whether it raises or not: publishing
-- notifies every registered callback exactly once, in order, all of them of success if
-- `publish_impl` returned and all of them of failure if it raised, whatever the callbacks raise.
-- It returns only if `publish_impl` and every callback returned; with callbacks that all return,
-- an exception of `publish_impl` comes out as it is.
pub log-publish :
    {W E C : Type 0} (notify : Bool → C → Action W E (Unit {0})) (log : W → List (Bool × C))
    (cs : List C) (publish_impl : Action W E (Unit {0})) (w : W)
    → ((b : Bool) (c : C) (w : W) → log (notify b c w).1 ≡ log w ++ (b, c) ∷ [])
    → let done = is_return (publish_impl w).0 in
      let after = (publish_impl w).1 in
      (log (publish notify cs publish_impl w).1 ≡ log after ++ map (λ c. (done, c)) cs)
      × ((publish notify cs publish_impl w).0
          ≡ elim (last_raised (outcomes (notify done) cs after)) [
            | some e ↦ raise e
            | none ↦ (publish_impl w).0
          ])
unfolding publish
log-publish notify log cs publish_impl w logs = (
  log-after_publish notify log logs cs (publish_impl w).0 (publish_impl w).1,
  after_publish-eq notify cs (publish_impl w).0 (publish_impl w).1,
)
