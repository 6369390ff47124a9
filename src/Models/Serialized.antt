-- ===== src/Models/Serialized.antt =====
-- The loops of models/table_metadata.py over the class attributes `serialized_nodes_keys`,
-- `serialized_rels_keys` and `serialized_records_keys`:
-- `for x in others: if key(x) not in keys: keys.add(key(x)); yield x`.
use mathlib.Core.HLevel.{⊥_prop}
use mathlib.Core.Logic.Or
use mathlib.Core.Bool.{false≢true}
use mathlib.Core.List.{
  mem-cons, mem-cons_self, mem-cons_of_mem, Mem-prop, Nodup, Nodup-cons, Nodup-nil, not-mem-nil,
}
use amundsen_fork.Prelude.{
  ◌≡◌, refl, true, false, sym, ◌∙◌, inl, inr, List, [], ◌∷◌, ◌++◌, map, Mem, All, All-mono, Eq,
  contains, contains_of_mem, mem_of_contains, Bool-cases, if◌then◌else◌,
}

module _ {A K : Type 0} ⦃e : Eq K⦄ (key : A → K) where
  -- The items that are new, in order, and the keys after the loop.
  unfoldable pub emit_new : List A → List K → List A × List K
  emit_new [] keys = ([], keys)
  emit_new (x ∷ xs) keys =
      let seen = contains (key x) keys in
      let (rest, keys') = emit_new xs (if seen then keys else key x ∷ keys) in
      (if seen then rest else x ∷ rest, keys')

  pub emit_new_seen :
      (x : A) (xs : List A) (keys : List K)
      → contains (key x) keys ≡ true
      → emit_new (x ∷ xs) keys ≡ emit_new xs keys
  unfolding emit_new
  emit_new_seen x xs keys h = rw h refl

  pub emit_new_fresh :
      (x : A) (xs : List A) (keys : List K)
      → contains (key x) keys ≡ false
      → emit_new (x ∷ xs) keys
        ≡ (x ∷ (emit_new xs (key x ∷ keys)).0, (emit_new xs (key x ∷ keys)).1)
  unfolding emit_new
  emit_new_fresh x xs keys h = rw h refl

  All-mem : {ks : List K} {k : K} (keys : List K) → All (λ k. Mem k ks) keys → Mem k keys → Mem k ks
  All-mem [] h m = absurd (not-mem-nil m)
  All-mem (x ∷ keys) h m =
      Or.elim Mem-prop (mem-cons.0 m) (λ p. rw p (h.0)) (λ n. All-mem keys h.1 n)

  not-mem_of_fresh :
      (k : K) (keys : List K) (out : List A)
      → All (λ y. ¬ Mem (key y) (k ∷ keys)) out
      → ¬ Mem k (map key out)
  not-mem_of_fresh k keys [] h m = not-mem-nil m
  not-mem_of_fresh k keys (y ∷ out) h m =
      Or.elim ⊥_prop (mem-cons.0 m) (λ p. h.0 (rw (← p) mem-cons_self))
        (λ n. not-mem_of_fresh k keys out h.1 n)

  pub emit_new-append :
      (xs ys : List A) (keys : List K)
      → emit_new (xs ++ ys) keys ≡ (
        (emit_new xs keys).0 ++ (emit_new ys (emit_new xs keys).1).0,
        (emit_new ys (emit_new xs keys).1).1,
      )
  unfolding emit_new
  emit_new-append [] ys keys = refl
  emit_new-append (x ∷ xs) ys keys = elim (Bool-cases (contains (key x) keys)) [
    | inl s ↦ rw s (rw (emit_new-append xs ys keys))
    | inr s ↦ rw s (rw (emit_new-append xs ys (key x ∷ keys)))
  ]

  pub emit_new-All :
      (P : A → Type 0) (xs : List A) (keys : List K) → All P xs → All P (emit_new xs keys).0
  unfolding emit_new
  emit_new-All P [] keys h = tt
  emit_new-All P (x ∷ xs) keys h = elim (Bool-cases (contains (key x) keys)) [
    | inl s ↦ rw s (emit_new-All P xs keys h.1)
    | inr s ↦ rw s (h.0, emit_new-All P xs (key x ∷ keys) h.1)
  ]

  -- Where the keys before and the new items are in a list, so are all items and the keys after.
  pub emit_new-Mem :
      (ks : List K) (xs : List A) (keys : List K)
      → All (λ k. Mem k ks) keys
      → All (λ x. Mem (key x) ks) (emit_new xs keys).0
      → All (λ x. Mem (key x) ks) xs × All (λ k. Mem k ks) (emit_new xs keys).1
  unfolding emit_new
  emit_new-Mem ks [] keys old h = (tt, old)
  emit_new-Mem ks (x ∷ xs) keys old h = elim (Bool-cases (contains (key x) keys)) [
    | inl s ↦
        let tail = rw s at h in
        let (all, after) = emit_new-Mem ks xs keys old tail in
        rw s ((All-mem keys old (mem_of_contains (key x) keys s), all), after)
    | inr s ↦
        let both = rw s at h in
        let (all, after) = emit_new-Mem ks xs (key x ∷ keys) (both.0, old) both.1 in
        rw s ((both.0, all), after)
  ]

  -- What is emitted was not there before, and no key is emitted twice.
  pub emit_new-Nodup :
      (xs : List A) (keys : List K)
      → All (λ x. ¬ Mem (key x) keys) (emit_new xs keys).0 × Nodup (map key (emit_new xs keys).0)
  unfolding emit_new
  emit_new-Nodup [] keys = (tt, Nodup-nil)
  emit_new-Nodup (x ∷ xs) keys = elim (Bool-cases (contains (key x) keys)) [
    | inl s ↦ rw s (emit_new-Nodup xs keys)
    | inr s ↦
        let (fresh, nodup) = emit_new-Nodup xs (key x ∷ keys) in
        rw s (
          (
            (λ m. false≢true (sym s ∙ contains_of_mem (key x) keys m)),
            All-mono (λ y. ¬ Mem (key y) (key x ∷ keys)) (λ y. ¬ Mem (key y) keys) _
                (λ y h m. h (mem-cons_of_mem (key x) m)) fresh,
          ),
          Nodup-cons.1 (not-mem_of_fresh (key x) keys (emit_new xs (key x ∷ keys)).0 fresh, nodup),
        )
  ]
