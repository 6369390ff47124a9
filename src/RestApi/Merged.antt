-- ===== src/RestApi/Merged.antt =====
-- What a record holds after `QueryMerger.merge_into`.
use amundsen_fork.Prelude.{
  String, str_eq, str_eq_iff, str_eq_refl, ◌≡◌, refl, ap, ◌∙◌, Bool, true, false, Bool-cases, inl,
  inr, Option, none, some, [], ◌∷◌, if◌then◌else◌, is_some, arith,
}
use amundsen_fork.RestApi.Merger.{Dict, get, set, filtered, update}

abbrev pub or_else : {A : Type 0} → Option A → Option A → Option A
or_else none b = b
or_else (some a) b = some a

module _ {V : Type 0} where
  pub get-set :
      (key k : String) (v : V) (d : Dict V)
      → get key (set k v d) ≡ (if str_eq k key then some v else get key d)
  unfolding get set
  get-set key k v [] = refl
  get-set key k v ((l, w) ∷ d) =
      ground (arith, get-set key k v d, str_eq_iff l k, str_eq_iff l key, str_eq_iff k key)

  -- Each key is there once.
  abbrev pub IsDict : Dict V → Type 0
  IsDict [] = Unit
  IsDict ((k, v) ∷ d) = (get k d ≡ none) × IsDict d

  get-filtered :
      (key : String) (d m : Dict V)
      → get key (filtered d m) ≡ (if is_some (get key d) then none else get key m)
  unfolding get filtered
  get-filtered key d [] = ground arith
  get-filtered key d ((k, v) ∷ m) = elim (Bool-cases (str_eq k key)) [
    | inl p ↦
        rw ((str_eq_iff k key).0 p, str_eq_refl key) (split (get key d) (get-filtered key d m))
    | inr p ↦ rw p (other p (is_some (get k d)) (get-filtered key d m))
  ]
    where
      split :
          (o : Option V)
          → get key (filtered d m) ≡ (if is_some o then none else get key m)
          → get key (if is_some o then filtered d m else (key, v) ∷ filtered d m)
            ≡ (if is_some o then none else some v)
      split none h = rw (str_eq_refl key) refl
      split (some w) h = h

      other :
          str_eq k key ≡ false
          → (b : Bool) {o : Option V} → get key (filtered d m) ≡ o
          → get key (if b then filtered d m else (k, v) ∷ filtered d m) ≡ o
      other p true h = h
      other p false h = rw p h

  filtered-IsDict : (d m : Dict V) → IsDict m → IsDict (filtered d m)
  unfolding filtered
  filtered-IsDict d [] h = tt
  filtered-IsDict d ((k, v) ∷ m) h = elim (Bool-cases (is_some (get k d))) [
    | inl p ↦ rw p (filtered-IsDict d m h.1)
    | inr p ↦ rw p (get-filtered k d m ∙ rw p (h.0), filtered-IsDict d m h.1)
  ]

  get-update :
      (key : String) (d n : Dict V)
      → IsDict n
      → get key (update d n) ≡ or_else (get key n) (get key d)
  unfolding get update
  get-update key d [] h = refl
  get-update key d ((k, v) ∷ n) h =
      let rest = get-update key (set k v d) n h.1 ∙ ap (or_else (get key n)) (get-set key k v d) in
      elim (Bool-cases (str_eq k key)) [
        | inl p ↦
            let fresh : get key n ≡ none = rw (← (str_eq_iff k key).0 p) h.0 in
            rw p (rest ∙ rw (fresh, p) refl)
        | inr p ↦ rw p (rest ∙ rw p refl)
      ]

  -- The keys that the record has keep their values.
  pub get-merged :
      (key : String) (d m : Dict V)
      → IsDict m
      → get key (update d (filtered d m)) ≡ or_else (get key d) (get key m)
  get-merged key d m h =
      get-update key d (filtered d m) (filtered-IsDict d m h)
      ∙ ap (λ o. or_else o (get key d)) (get-filtered key d m)
      ∙ swapped (get key d) (get key m)
    where
      swapped : (a b : Option V) → or_else (if is_some a then none else b) a ≡ or_else a b
      swapped none none = refl
      swapped none (some b) = refl
      swapped (some a) b = refl
