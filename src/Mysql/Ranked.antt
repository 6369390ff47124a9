-- ===== src/Mysql/Ranked.antt =====
-- Rows in the order of their tables follow the rows that they refer to.
use mathlib.Core.List.Perm
use mathlib.Core.List.{
  Perm, append_assoc, perm_append_comm, mem-append, mem-append_left, mem-append_right, mem-cons,
  mem-cons_self, mem-cons_of_mem, Mem-prop, not-mem-nil, append-nil,
}
use mathlib.Core.Logic.Or
use mathlib.Core.Path.{subst}
use amundsen_fork.Prelude.{
  ℕ, ◌<◌, ltb, Bool, Bool-cases, inl, inr, ◌≡◌, refl, List, [], ◌∷◌, ◌++◌, Mem, All, All-mono,
  if◌then◌else◌, true, false, arith,
}
use amundsen_fork.Models.Rds.{RdsModel, Key, own, parents}
use amundsen_fork.Models.Rds.Order.{
  Seen, ParentsFirst, Within, Seen-Within, Within-later, Within-append,
}
use amundsen_fork.Mysql.Sorted.{From, Graded}

module _ {A : Type 0} where
  All_of : (P : A → Type 0) (xs : List A) → ((x : A) → Mem x xs → P x) → All P xs
  All_of P [] h = tt
  All_of P (x ∷ xs) h = (h x mem-cons_self, All_of P xs (λ y m. h y (mem-cons_of_mem x m)))

  moved : (xs ys zs : List A) → Perm ((xs ++ ys) ++ zs) (ys ++ (xs ++ zs))
  moved xs ys zs = rw (← append_assoc ys xs zs) (Perm.append_right zs (perm_append_comm xs ys))

Seen_at : (seen ks : List Key) (k : Key) → Seen seen ks → Mem k ks → Mem k seen
Seen_at seen [] k h m = absurd (not-mem-nil m)
Seen_at seen (x ∷ ks) k h m =
    Or.elim Mem-prop (mem-cons.0 m) (λ p. rw p h.0) (λ n. Seen_at seen ks k h.1 n)

-- The keys that the rows add.
abbrev all_keys : List RdsModel → List Key
all_keys [] = []
all_keys (r ∷ rs) = own r ++ all_keys rs

ParentsFirst-all_keys :
    (rs : List RdsModel) (seen : List Key)
    → ParentsFirst seen rs
    → All (λ r. Seen (all_keys rs ++ seen) (parents r)) rs
ParentsFirst-all_keys [] seen h = tt
ParentsFirst-all_keys (r ∷ rs) seen h = (
  Seen-Within (parents r) seen (all_keys (r ∷ rs) ++ seen)
      (Within-later (own r ++ all_keys rs) seen) h.0,
  All-mono (λ s. Seen (all_keys rs ++ (own r ++ seen)) (parents s))
      (λ s. Seen (all_keys (r ∷ rs) ++ seen) (parents s)) rs
      (λ s q.
        Seen-Within (parents s) (all_keys rs ++ (own r ++ seen)) (all_keys (r ∷ rs) ++ seen)
          (λ k m. (Perm.mem_iff (moved (own r) (all_keys rs) seen)).1 m) q)
      (ParentsFirst-all_keys rs (own r ++ seen) h.1),
)

parents_at :
    (rs : List RdsModel) (keys : List Key) (r : RdsModel) (k : Key)
    → All (λ s. Seen keys (parents s)) rs
    → Mem r rs
    → Mem k (parents r)
    → Mem k keys
parents_at [] keys r k h m n = absurd (not-mem-nil m)
parents_at (s ∷ rs) keys r k h m n =
    Or.elim Mem-prop (mem-cons.0 m) (λ p. Seen_at keys (parents s) k h.0 (rw (← p) n))
      (λ q. parents_at rs keys r k h.1 q n)

module _ (rank : RdsModel → ℕ) where
  -- The keys that the rows of a smaller rank add.
  abbrev keys_below : ℕ → List RdsModel → List Key
  keys_below n [] = []
  keys_below n (p ∷ rows) =
      let more = keys_below n rows in if ltb (rank p) n then own p ++ more else more

  keys_below_none : (n : ℕ) (rows : List RdsModel) → All (From rank n) rows → keys_below n rows ≡ []
  keys_below_none n [] h = refl
  keys_below_none n (p ∷ rows) h =
      let not_below : ltb (rank p) n ≡ false = ground (arith, h.0) in
      rw not_below (keys_below_none n rows h.1)

  keys_below_at :
      (n : ℕ) (rows : List RdsModel) (p : RdsModel) (k : Key)
      → Mem p rows
      → Mem k (own p)
      → rank p < n
      → Mem k (keys_below n rows)
  keys_below_at n [] p k m o l = absurd (not-mem-nil m)
  keys_below_at n (q ∷ rows) p k m o l =
      Or.elim Mem-prop (mem-cons.0 m)
        (λ e.
          let below : ltb (rank q) n ≡ true = rw (← e) (ground (arith, l)) in
          rw below (mem-append_left (keys_below n rows) (rw (← e) o)))
        (λ t. elim (Bool-cases (ltb (rank q) n)) [
          | inl b ↦ rw b (mem-append_right (own q) (keys_below_at n rows p k t o l))
          | inr b ↦ rw b (keys_below_at n rows p k t o l)
        ])

  keys_below_all :
      (n : ℕ) (rs rows : List RdsModel) (k : Key)
      → ((p : RdsModel) → Mem p rs → Mem p rows)
      → ((p : RdsModel) → Mem k (own p) → rank p < n)
      → Mem k (all_keys rs)
      → Mem k (keys_below n rows)
  keys_below_all n [] rows k w l m = absurd (not-mem-nil m)
  keys_below_all n (p ∷ rs) rows k w l m =
      Or.elim Mem-prop (mem-append.0 m)
        (λ o. keys_below_at n rows p k (w p mem-cons_self) o (l p o))
        (λ t. keys_below_all n rs rows k (λ q i. w q (mem-cons_of_mem p i)) l t)

  -- What the row refers to was seen, or is added by rows of a smaller rank.
  abbrev IsSupplied : List Key → List RdsModel → RdsModel → Type 0
  IsSupplied seen rows r = Seen (keys_below (rank r) rows ++ seen) (parents r)

  supplied_later :
      (n : ℕ) (r : RdsModel) (rows : List RdsModel) (seen : List Key)
      → Within (keys_below n (r ∷ rows) ++ seen) (keys_below n rows ++ (own r ++ seen))
  supplied_later n r rows seen k m = elim (Bool-cases (ltb (rank r) n)) [
    | inl b ↦ (Perm.mem_iff (moved (own r) (keys_below n rows) seen)).0 (cast_below true b m)
    | inr b ↦
        Within-append (keys_below n rows) seen (own r ++ seen) (Within-later (own r) seen) k
          (cast_below false b m)
  ]
    where
      cast_below :
          (b : Bool)
          → ltb (rank r) n ≡ b
          → Mem k (keys_below n (r ∷ rows) ++ seen)
          → Mem k ((if b then own r ++ keys_below n rows else keys_below n rows) ++ seen)
      cast_below b e x = rw (← e) x

  Graded-ParentsFirst :
      (rows : List RdsModel) (seen : List Key)
      → Graded rank rows
      → All (IsSupplied seen rows) rows
      → ParentsFirst seen rows
  Graded-ParentsFirst [] seen g h = tt
  Graded-ParentsFirst (r ∷ rows) seen g h =
      let none_below : keys_below (rank r) (r ∷ rows) ≡ [] =
        keys_below_none (rank r) (r ∷ rows) (omega arith, g.0) in
      (
        subst (λ ks. Seen (ks ++ seen) (parents r)) none_below h.0,
        Graded-ParentsFirst rows (own r ++ seen) g.1 (
            All-mono (IsSupplied seen (r ∷ rows)) (IsSupplied (own r ++ seen) rows) rows
              (λ s q.
                Seen-Within (parents s) (keys_below (rank s) (r ∷ rows) ++ seen)
                  (keys_below (rank s) rows ++ (own r ++ seen))
                  (supplied_later (rank s) r rows seen) q)
              h.1),
      )

  pub sorted-ParentsFirst :
      (rs rows : List RdsModel)
      → ((r p : RdsModel) (k : Key) → Mem k (parents r) → Mem k (own p) → rank p < rank r)
      → ParentsFirst [] rs
      → Perm rows rs
      → Graded rank rows
      → ParentsFirst [] rows
  sorted-ParentsFirst rs rows less h perm g = Graded-ParentsFirst rows [] g (
      All_of (IsSupplied [] rows) rows (λ r m.
        All_of (λ k. Mem k (keys_below (rank r) rows ++ [])) (parents r)
          (λ k n. rw (append-nil (keys_below (rank r) rows)) (
            keys_below_all (rank r) rs rows k (λ p i. (Perm.mem_iff perm).1 i)
              (λ p o. less r p k n o) (known r k ((Perm.mem_iff perm).0 m) n)))))
    where
      known : (r : RdsModel) (k : Key) → Mem r rs → Mem k (parents r) → Mem k (all_keys rs)
      known r k m n =
          rw (← append-nil (all_keys rs))
            (parents_at rs (all_keys rs ++ []) r k (ParentsFirst-all_keys rs [] h) m n)
