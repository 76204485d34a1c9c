-- ===== src/Sorting/Laws.antt =====
-- Sorting by insertion: the same elements, in order, and equal ones as they were.
use mathlib.Core.List.{Perm}
use mathlib.Core.List.Perm
use mailkit.Prelude.{
  List, [], ◌∷◌, Bool, true, false, ◌≡◌, refl, arith, All, All-map, Bool-cases, inl, inr,
}
use mailkit.Sorting.{insert, insertion, IsOrdered, IsOrder, passing}

module _ {ℓ} {A : Type ℓ} (less : A → A → Bool) where
  insert-perm : (x : A) (l : List A) → Perm (insert less x l) (x ∷ l)
  unfolding insert
  insert-perm x [] = Perm.rfl
  insert-perm x (y ∷ ys) =
      let rest = insert-perm x ys in
      elim (Bool-cases (less y x)) [
        | inl h ↦ rw (h, insert) (Perm.trans (Perm.cons y rest) (Perm.swap x y ys))
        | inr h ↦ rw (h, insert) Perm.rfl
      ]

  pub insertion-perm : (l : List A) → Perm (insertion less l) l
  unfolding insertion
  insertion-perm [] = Perm.rfl
  insertion-perm (x ∷ xs) =
      Perm.trans (insert-perm x (insertion less xs)) (Perm.cons x (insertion-perm xs))

  pub insert-All {κ} :
      (P : A → Type κ) (x : A) (l : List A) → P x → All P l → All P (insert less x l)
  unfolding insert
  insert-All P x [] p h = (p, tt)
  insert-All P x (y ∷ ys) p (q, h) =
      let rest = insert-All P x ys p h in
      elim (Bool-cases (less y x)) [
        | inl e ↦ rw (e, insert) (q, rest)
        | inr e ↦ rw (e, insert) (p, (q, h))
      ]

  pub insertion-All {κ} : (P : A → Type κ) (l : List A) → All P l → All P (insertion less l)
  unfolding insertion
  insertion-All P [] h = tt
  insertion-All P (x ∷ xs) (p, h) = insert-All P x (insertion less xs) p (insertion-All P xs h)

  module _ (o : IsOrder less) where
    insert-IsOrdered : (x : A) (l : List A) → IsOrdered less l → IsOrdered less (insert less x l)
    unfolding insert
    insert-IsOrdered x [] h = (tt, tt)
    insert-IsOrdered x (y ∷ ys) (below, h) =
        let rest = insert-IsOrdered x ys h in
        elim (Bool-cases (less y x)) [
          | inl e ↦
              rw (e, insert) (insert-All (λ z. less z y ≡ false) x ys (o.asymm y x e) below, rest)
          | inr e ↦
              let after =
                All-map (λ z. less z y ≡ false) (λ z. less z x ≡ false) (λ z k. o.trans x y z e k)
                  ys below in
              rw (e, insert) ((e, after), (below, h))
        ]

    pub insertion-IsOrdered : (l : List A) → IsOrdered less (insertion less l)
    unfolding insertion
    insertion-IsOrdered [] = tt
    insertion-IsOrdered (x ∷ xs) = insert-IsOrdered x (insertion less xs) (insertion-IsOrdered xs)

  -- A list that is in order stays as it is.
  insert-below : (x : A) (l : List A) → All (λ y. less y x ≡ false) l → insert less x l ≡ x ∷ l
  unfolding insert
  insert-below x [] h = refl
  insert-below x (y ∷ ys) (e, h) = ground (arith, e)

  pub insertion_of_IsOrdered : (l : List A) → IsOrdered less l → insertion less l ≡ l
  unfolding insertion
  insertion_of_IsOrdered [] h = refl
  insertion_of_IsOrdered (x ∷ xs) (below, h) =
      rw (insertion_of_IsOrdered xs h) (insert-below x xs below)

  -- Elements that a class holds, none of them before another, keep their places among each other.
  module _ (p : A → Bool) (alike : (x y : A) → p x ≡ true → p y ≡ true → less y x ≡ false) where
    passing-insert : (x : A) (l : List A) → passing p (insert less x l) ≡ passing p (x ∷ l)
    unfolding insert passing
    passing-insert x [] = refl
    passing-insert x (y ∷ ys) = ground (arith, passing-insert x ys, alike x y)

    pub passing-insertion : (l : List A) → passing p (insertion less l) ≡ passing p l
    unfolding insertion passing
    passing-insertion [] = refl
    passing-insertion (x ∷ xs) =
        ground (arith, passing-insertion xs, passing-insert x (insertion less xs))
