-- ===== src/Sorting/Unique.antt =====
-- A list has one ordered rearrangement, where the order tells all elements apart.
use mathlib.Core.List.{Perm, Mem, mem-cons_self, mem-cons_of_mem, mem-cons, not-mem-nil}
use mathlib.Core.List.Perm
use mathlib.Core.Logic.Or
use mathlib.Core.Path.{ap₂}
use mailkit.Prelude.{List, [], ◌∷◌, map, Bool, false, ◌≡◌, All, arith}
use mailkit.Sorting.{IsOrdered, IsOrder}

module _ {ℓ} {A : Type ℓ} (less : A → A → Bool) where
  All-mem :
      (x : A) (l : List A) {y : A} → All (λ z. less z x ≡ false) l → Mem y l → less y x ≡ false
  All-mem x [] h m = absurd (not-mem-nil m)
  All-mem x (z ∷ l) {y} (e, h) m = Or.elim (hlevel) (mem-cons.0 m) (λ q. rw q e) (All-mem x l h)

  module _ (o : IsOrder less) where
    irrefl : (a : A) → less a a ≡ false
    irrefl a = ground (arith, o.asymm a a)

    heads :
        (a b : A) (l r : List A) → IsOrdered less (a ∷ l) → Perm (b ∷ r) (a ∷ l) → less b a ≡ false
    heads a b l r (below, h) p =
        All-mem a (a ∷ l) (irrefl a, below) ((Perm.mem_iff p).0 mem-cons_self)

    -- It is enough that the order tells the elements of the list apart.
    pub IsOrdered-eq_of_mem :
        (l r : List A)
        → ((a b : A) → Mem a l → Mem b l → less a b ≡ false → less b a ≡ false → a ≡ b)
        → IsOrdered less l
        → IsOrdered less r
        → Perm l r
        → l ≡ r
    IsOrdered-eq_of_mem [] r apart hl hr p = Perm.nil-eq p
    IsOrdered-eq_of_mem (a ∷ l) [] apart hl hr p = Perm.eq-nil p
    IsOrdered-eq_of_mem (a ∷ l) (b ∷ r) apart hl hr p =
        let same : a ≡ b =
          apart a b mem-cons_self ((Perm.mem_iff p).1 mem-cons_self) (heads b a r l hr p)
            (heads a b l r hl (Perm.symm p)) in
        let rest = Perm.cons_inv (Perm.trans p (Perm.symm (Perm.cons' same Perm.rfl))) in
        ap₂ ◌∷◌ same (
          IsOrdered-eq_of_mem l r (λ x y m n. apart x y (mem-cons_of_mem a m) (mem-cons_of_mem a n))
            hl.1 hr.1 rest)

    pub IsOrdered-eq_of_perm :
        ((a b : A) → less a b ≡ false → less b a ≡ false → a ≡ b)
        → (l r : List A) → IsOrdered less l
        → IsOrdered less r
        → Perm l r
        → l ≡ r
    IsOrdered-eq_of_perm antisymm l r = IsOrdered-eq_of_mem l r (λ a b m n. antisymm a b)

-- Elements are compared by a key: all ordered rearrangements show the same keys.
module _ {ℓ κ} {A : Type ℓ} {K : Type κ} (key : A → K) (less : K → K → Bool) where
  map-All :
      (k : K) (l : List A)
      → All (λ b. less (key b) k ≡ false) l
      → All (λ c. less c k ≡ false) (map key l)
  map-All k [] h = tt
  map-All k (a ∷ l) (e, h) = (e, map-All k l h)

  map-IsOrdered :
      (l : List A) → IsOrdered (λ a b. less (key a) (key b)) l → IsOrdered less (map key l)
  map-IsOrdered [] h = tt
  map-IsOrdered (a ∷ l) (below, h) = (map-All (key a) l below, map-IsOrdered l h)

  pub map-eq_of_perm :
      IsOrder less
      → ((a b : K) → less a b ≡ false → less b a ≡ false → a ≡ b)
      → (l r : List A) → IsOrdered (λ a b. less (key a) (key b)) l
      → IsOrdered (λ a b. less (key a) (key b)) r
      → Perm (map key l) (map key r)
      → map key l ≡ map key r
  map-eq_of_perm o antisymm l r hl hr p =
      IsOrdered-eq_of_perm less o antisymm (map key l) (map key r) (map-IsOrdered l hl)
        (map-IsOrdered r hr) p
