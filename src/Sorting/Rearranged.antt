-- ===== src/Sorting/Rearranged.antt =====
-- What a rearrangement of a list keeps: its length by native numbers, and what holds of all
-- elements.
use native.Mathlib.Nat.{ℕ_set}
use mathlib.Core.List.{Perm, Permᴰ, Mem, mem-cons_self, mem-cons_of_mem, mem-cons, not-mem-nil}
use mathlib.Core.List.Perm
use mathlib.Core.Logic.{∥∥₁_elim}
use mathlib.Core.Logic.Or
use mailkit.Prelude.{List, [], ◌∷◌, Bool, true, ◌≡◌, refl, ◌∙◌, arith, All, length}

module _ {ℓ} {A : Type ℓ} where
  Permᴰ-length : {l r : List A} → Permᴰ l r → length l ≡ length r
  Permᴰ-length Permᴰ.nil = refl
  Permᴰ-length (Permᴰ.cons e d) = omega (arith, Permᴰ-length d)
  Permᴰ-length (Permᴰ.swap e f) = refl
  Permᴰ-length (Permᴰ.trans d f) = Permᴰ-length d ∙ Permᴰ-length f

  pub length-perm : {l r : List A} → Perm l r → length l ≡ length r
  length-perm p = ∥∥₁_elim p (ℕ_set _ _) Permᴰ-length

  module _ (test : A → Bool) where
    All-mem : (l : List A) {x : A} → All (λ a. test a ≡ true) l → Mem x l → test x ≡ true
    All-mem [] h m = absurd (not-mem-nil m)
    All-mem (a ∷ l) (e, h) m = Or.elim (hlevel) (mem-cons.0 m) (λ q. rw q e) (All-mem l h)

    mem-All : (l : List A) → ((x : A) → Mem x l → test x ≡ true) → All (λ a. test a ≡ true) l
    mem-All [] h = tt
    mem-All (a ∷ l) h = (h a mem-cons_self, mem-All l (λ x m. h x (mem-cons_of_mem a m)))

    pub All-perm :
        (l r : List A) → Perm l r → All (λ a. test a ≡ true) l → All (λ a. test a ≡ true) r
    All-perm l r p h = mem-All r (λ x m. All-mem l h ((Perm.mem_iff p).1 m))
