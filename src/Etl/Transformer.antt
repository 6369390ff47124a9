-- ===== src/Etl/Transformer.antt =====
-- transformer/base_transformer.py: `NoopTransformer` and `ChainedTransformer`.
use mathlib.Core.List.{append-nil}
use amundsen_fork.Prelude.{◌≡◌, refl, ap, sym, ◌∙◌, Bool, List, [], ◌∷◌, ◌++◌, if◌then◌else◌}
use amundsen_fork.Prelude.Effects.{Result, return, raise, Action, pure, ◌>>=◌, and_then}

-- A Python iterator: `next` acts on the world, and stops, raises, or gives an item and the rest.
mutual
  pub data Iter (W E R : Type 0) : Type 0 where
    iter : (W → Next W E R) → Iter W E R

  pub data Next (W E R : Type 0) : Type 0 where
    stop : W → Next W E R
    raised : E → W → Next W E R
    item : R → Iter W E R → W → Next W E R

-- What `transform` gives for one record: a value, which may be `None`, or an iterator.
pub data Output (W E R : Type 0) : Type 0 where
  single : R → Output W E R
  iterator : Iter W E R → Output W E R

abbrev pub Transform : Type 0 → Type 0 → Type 0 → Type 0
Transform W E R = R → Action W E (Output W E R)

module _ {W E R : Type 0} where
  unfoldable pub next : Iter W E R → W → Next W E R
  next (iter f) w = f w

  cons_result : R → Result E (List R) × W → Result E (List R) × W
  cons_result r (return rs, w) = (return (r ∷ rs), w)
  cons_result r (raise e, w) = (raise e, w)

  -- `list(iterator)`
  unfoldable mutual
    unfolding cons_result

    pub to_list : Iter W E R → Action W E (List R)
    to_list (iter f) w = next_to_list (f w)

    pub next_to_list : Next W E R → Result E (List R) × W
    next_to_list (stop w) = (return [], w)
    next_to_list (raised e w) = (raise e, w)
    next_to_list (item r it w) = cons_result r (to_list it w)

  -- `yield from` a list
  unfoldable pub yield_from : List R → Iter W E R
  yield_from [] = iter (λ w. stop w)
  yield_from (r ∷ rs) = iter (λ w. item r (yield_from rs) w)

  -- The first item of a generator that has computed its records.
  first : Result E (List R) × W → Next W E R
  first (return rs, w) = next (yield_from rs) w
  first (raise e, w) = raised e w

  -- `NoopTransformer.transform`
  unfoldable pub noop : Transform W E R
  noop r = pure (single r)

module _ {W E R : Type 0} (is_none : R → Bool) where
  -- What one result adds to `new_records`.
  unfoldable pub records_of : Output W E R → Action W E (List R)
  records_of (iterator it) = to_list it
  records_of (single r) = pure (if is_none r then [] else r ∷ [])

  -- The loop over `records` for one transformer.
  unfoldable pub apply_one : Transform W E R → List R → Action W E (List R)
  apply_one t [] = pure []
  apply_one t (r ∷ rs) =
      t r >>= λ result. records_of result >>= λ mine. apply_one t rs >>= λ rest. pure (mine ++ rest)

  -- The loop over the transformers.
  unfoldable pub chain : List (Transform W E R) → List R → Action W E (List R)
  chain [] records = pure records
  chain (t ∷ ts) records = apply_one t records >>= λ new_records. chain ts new_records

  -- `ChainedTransformer.transform`
  -- A generator does all of its work when its first item is asked for.
  unfoldable pub chained : List (Transform W E R) → Transform W E R
  unfolding first
  chained ts r = pure (iterator (iter (λ w. first (chain ts (r ∷ []) w))))

module _ {W E : Type 0} where
  >>=_assoc :
      {A B C : Type 0} (p : Result E A × W) (f : A → Action W E B) (g : B → Action W E C)
      → and_then (and_then p.0 f p.1).0 g (and_then p.0 f p.1).1 ≡ and_then p.0 (λ a. f a >>= g) p.1
  >>=_assoc (return a, w) f g = refl
  >>=_assoc (raise e, w) f g = refl

  >>=_congr :
      {A B : Type 0} (p : Result E A × W) (f g : A → Action W E B)
      → ((a : A) (w : W) → f a w ≡ g a w)
      → and_then p.0 f p.1 ≡ and_then p.0 g p.1
  >>=_congr (return a, w) f g h = h a w
  >>=_congr (raise e, w) f g h = refl

module _ {W E R : Type 0} where
  to_list-next : (it : Iter W E R) (w : W) → to_list it w ≡ next_to_list (next it w)
  unfolding to_list next
  to_list-next (iter f) w = refl

  to_list-yield_from :
      (rs : List R) (w : W) → next_to_list (next (yield_from {W = W} {E = E} rs) w) ≡ (return rs, w)
  unfolding yield_from to_list next
  to_list-yield_from [] w = refl
  to_list-yield_from (r ∷ rs) w =
      ap (cons_result r) (to_list-next (yield_from rs) w ∙ to_list-yield_from rs w)

  to_list-first : (p : Result E (List R) × W) → next_to_list (first p) ≡ p
  unfolding first to_list
  to_list-first (return rs, w) = to_list-yield_from rs w
  to_list-first (raise e, w) = refl

module _ {W E R : Type 0} (is_none : R → Bool) where
  keep_all : (p : Result E (List R) × W) → and_then p.0 (λ mine. pure (mine ++ [])) p.1 ≡ p
  keep_all (return rs, w) = rw append-nil
  keep_all (raise e, w) = refl

  -- A chained transformer inside another chain, at one record.
  apply_one-chained :
      (us : List (Transform W E R)) (r : R) (w : W)
      → apply_one is_none (chained is_none us) (r ∷ []) w ≡ chain is_none us (r ∷ []) w
  unfolding apply_one chained records_of to_list
  apply_one-chained us r w =
      rw (to_list-first (chain is_none us (r ∷ []) w)) (keep_all (chain is_none us (r ∷ []) w))

  -- Chaining two lists of transformers is chaining one after the other, exceptions included.
  chain-append :
      (us ts : List (Transform W E R)) (rs : List R) (w : W)
      → chain is_none (us ++ ts) rs w ≡ (chain is_none us rs >>= chain is_none ts) w
  unfolding chain
  chain-append [] ts rs w = refl
  chain-append (u ∷ us) ts rs w =
      >>=_congr (apply_one is_none u rs w) _ _ (λ a w'. chain-append us ts a w')
      ∙ sym (>>=_assoc (apply_one is_none u rs w) (chain is_none us) (chain is_none ts))

  -- For any transformers, stateful or raising, any world and any record: a chain whose first member
  -- is itself a chain gives the records, the exception and the world of the flattened chain.
  pub chain-chained :
      (us ts : List (Transform W E R)) (r : R) (w : W)
      → chain is_none (chained is_none us ∷ ts) (r ∷ []) w ≡ chain is_none (us ++ ts) (r ∷ []) w
  unfolding chain
  chain-chained us ts r w =
      ap (λ p. and_then p.0 (λ new_records. chain is_none ts new_records) p.1)
        (apply_one-chained us r w)
      ∙ sym (chain-append us ts (r ∷ []) w)
