-- ===== src/Mailauth/TreeWalk/Names.antt =====
-- The names that a tree walk asks about.
use mailkit.Prelude.{
  ℕ, zero, suc, ◌-◌, ◌≤◌, List, [], ◌∷◌, ◌≡◌, refl, sym, ap, ◌∙◌, map, arith, length, length-drop,
  drop,
}
use mailkit.Text.{Str, split, join, to_lower}
use mailkit.Text.Split.{length-split}
use mailkit.Mailauth.TreeWalk.{names_from, walk_start, tree_walk_names, trim_dots}

-- The names above a name, each with one label less in front than the one before.
abbrev pub parents : List Str → List (List Str)
parents [] = []
parents (l ∷ []) = []
parents (l ∷ m ∷ ls) = (m ∷ ls) ∷ parents (m ∷ ls)

length-parents : (labels : List Str) → length (parents labels) ≡ length labels - 1
length-parents [] = refl
length-parents (l ∷ []) = refl
length-parents (l ∷ m ∷ ls) = omega (arith, length-parents (m ∷ ls))

drop-parents : (k : ℕ) (labels : List Str) → drop k (parents labels) ≡ parents (drop k labels)
drop-parents zero labels = refl
drop-parents (suc k) [] = refl
drop-parents (suc zero) (l ∷ []) = refl
drop-parents (suc (suc k)) (l ∷ []) = refl
drop-parents (suc k) (l ∷ m ∷ ls) = drop-parents k (m ∷ ls)

parents_of_single : (labels : List Str) → length labels ≤ 1 → parents labels ≡ []
parents_of_single [] h = refl
parents_of_single (l ∷ []) h = refl
parents_of_single (l ∷ m ∷ ls) h = absurd (omega arith)

-- Above the last n + 2 labels are the last n + 1 and what is above these.
parents-drop :
    (k : ℕ) (labels : List Str)
    → suc (suc k) ≤ length labels
    → parents (drop k labels) ≡ drop (suc k) labels ∷ parents (drop (suc k) labels)
parents-drop k [] h = absurd (omega arith)
parents-drop k (l ∷ []) h = absurd (omega arith)
parents-drop zero (l ∷ m ∷ ls) h = refl
parents-drop (suc k) (l ∷ m ∷ ls) h = parents-drop k (m ∷ ls) (omega arith)

names_from_lem :
    (n : ℕ) (labels : List Str)
    → suc n ≤ length labels
    → names_from n labels
      ≡ map (λ name. join b'.' name) (parents (drop (length labels - suc n) labels))
unfolding names_from
names_from_lem zero labels h =
    let few : length (drop (length labels - 1) labels) ≤ 1 =
      omega (arith, length-drop (length labels - 1) labels) in
    rw (parents_of_single (drop (length labels - 1) labels) few) refl
names_from_lem (suc n) labels h =
    let k : ℕ = length labels - suc (suc n) in
    let up : suc k ≡ length labels - suc n = omega arith in
    let above =
      parents-drop k labels (omega arith) ∙ ap (λ j. drop j labels ∷ parents (drop j labels)) up in
    rw above (
      ap (λ l. join b'.' (drop (length labels - suc n) labels) ∷ l)
        (names_from_lem n labels (omega arith)))

walk_start_lem :
    (labels : List Str) → length labels - suc (walk_start labels) ≡ length labels - 1 - 7
unfolding walk_start
walk_start_lem labels = ground arith

walk_start-le : (labels : List Str) → walk_start labels ≤ 7
unfolding walk_start
walk_start-le labels = ground arith

start_below :
    (labels : List Str) → suc zero ≤ length labels → suc (walk_start labels) ≤ length labels
unfolding walk_start
start_below labels h = ground arith

length-names_from : (n : ℕ) (labels : List Str) → length (names_from n labels) ≡ n
unfolding names_from
length-names_from zero labels = refl
length-names_from (suc n) labels = ap suc (length-names_from n labels)

pub length-tree_walk_names : (domain : Str) → length (tree_walk_names domain) ≤ 7
unfolding tree_walk_names
length-tree_walk_names domain =
    let labels : List Str = split b'.' (trim_dots (to_lower domain)) in
    omega (arith, length-names_from (walk_start labels) labels, walk_start-le labels)

-- The names asked after the domain itself are the last seven, or all where there are no more, of
-- the names above it: those with one label less in front each, down to the last label alone.
pub tree_walk_names_lem :
    (domain : Str)
    → let above = parents (split b'.' (trim_dots (to_lower domain))) in
      tree_walk_names domain ≡ map (λ name. join b'.' name) (drop (length above - 7) above)
unfolding tree_walk_names
tree_walk_names_lem domain =
    let labels : List Str = split b'.' (trim_dots (to_lower domain)) in
    let from : ℕ = length labels - suc (walk_start labels) in
    let some_label = length-split b'.' (trim_dots (to_lower domain)) in
    let same : from ≡ length (parents labels) - 7 =
      omega (arith, walk_start_lem labels, length-parents labels) in
    names_from_lem (walk_start labels) labels
      (omega (arith, some_label, start_below labels some_label))
    ∙ ap (map (λ name. join b'.' name)) (sym (drop-parents from labels))
    ∙ ap (λ k. map (λ name. join b'.' name) (drop k (parents labels))) same
