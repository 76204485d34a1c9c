-- ===== src/Sorting.antt =====
-- What the program uses of package sort: a list put in order by a test `less`. The list that
-- `insertion` returns is the one that sort.SliceStable leaves, which is the only one that it may.
pub mod Laws
pub mod Unique
pub mod Place
pub mod Rearranged
use mathlib.Core.List.{Perm}
use mailkit.Prelude.{List, [], ◌∷◌, Bool, true, false, if◌then◌else◌, ◌≡◌, All}

module _ {ℓ} {A : Type ℓ} (less : A → A → Bool) where
  unfoldable pub insert : A → List A → List A
  insert x [] = x ∷ []
  insert x (y ∷ ys) = let rest = insert x ys in if less y x then y ∷ rest else x ∷ y ∷ ys

  unfoldable pub insertion : List A → List A
  insertion [] = []
  insertion (x ∷ xs) = insert x (insertion xs)

  -- No element is to stand before one that is listed earlier.
  abbrev pub IsOrdered : List A → Type ℓ
  IsOrdered [] = Unit
  IsOrdered (x ∷ xs) = All (λ y. less y x ≡ false) xs × IsOrdered xs

  -- A test that sorting may use: "not after" is a transitive relation, and one of two directions of
  -- it holds.
  pub record IsOrder : Type ℓ where
    pub asymm : (a b : A) → less a b ≡ true → less b a ≡ false
    pub trans : (a b c : A) → less b a ≡ false → less c b ≡ false → less c a ≡ false

-- The elements that pass a test.
unfoldable pub passing {ℓ} : {A : Type ℓ} → (A → Bool) → List A → List A
passing p [] = []
passing p (x ∷ xs) = let rest = passing p xs in if p x then x ∷ rest else rest

-- sort.Slice and sort.SliceStable: a sort by a test.
abbrev pub Slice {ℓ} : Type ℓ → Type ℓ
Slice A = (A → A → Bool) → List A → List A

-- What package sort documents of sort.Slice: the same elements, in order.
pub record IsSlice {ℓ} {A : Type ℓ} (slice : Slice A) : Type ℓ where
  pub rearranges : (less : A → A → Bool) (l : List A) → Perm (slice less l) l
  pub orders : (less : A → A → Bool) (l : List A) → IsOrder less → IsOrdered less (slice less l)
