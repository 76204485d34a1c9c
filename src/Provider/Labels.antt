-- ===== src/Provider/Labels.antt =====
-- What a name is matched with: suffixes of whole labels, the longest first.
use mailkit.Prelude.{ℕ, ◌<◌, List, [], ◌∷◌, Option, none, some, length, ◌≡◌, refl, arith}
use mailkit.Text.{Str, split, cons_head, join}
use mailkit.Text.Split.{join-split, length-split}
use mailkit.Dnsx.{normalize, labels}
use mailkit.Provider.{Provider, Table, provider_at}
use mailkit.Provider.Match.{behind_dots, lookup_name}

-- The provider of the first of the names that labels make, from all of them to the last alone.
unfoldable pub longest : Table → List Str → Option Provider
longest t [] = none
longest t (l ∷ ls) = elim (provider_at (join b'.' (l ∷ ls)) t) [
  | some v ↦ some v
  | none ↦ longest t ls
]

-- What is found behind the first label.
abbrev behind : Table → List Str → Option Provider
behind t [] = none
behind t (l ∷ ls) = longest t ls

behind-cons_head :
    (t : Table) (c : ℕ) (ls : List Str) → 0 < length ls → behind t (cons_head c ls) ≡ behind t ls
unfolding cons_head
behind-cons_head t c [] h = absurd (omega arith)
behind-cons_head t c (l ∷ ls) h = refl

longest_lem :
    (t : Table) (ls : List Str)
    → 0 < length ls
    → longest t ls ≡ elim (provider_at (join b'.' ls) t) as (λ x. Option Provider) [
      | some v ↦ some v
      | none ↦ behind t ls
    ]
unfolding longest
longest_lem t [] h = absurd (omega arith)
longest_lem t (l ∷ ls) h = refl

behind_dots-split : (t : Table) (s : Str) → behind_dots t s ≡ behind t (split b'.' s)
unfolding behind_dots split
behind_dots-split t [] = unfold longest in refl
behind_dots-split t (c ∷ s) =
    let rest = behind_dots-split t s in
    let some_label = length-split b'.' s in
    let whole = longest_lem t (split b'.' s) some_label in
    let name = join-split b'.' s in
    ground (arith, rest, whole, name, behind-cons_head t c (split b'.' s) some_label)

longest-nil : (t : Table) → longest t [] ≡ none
unfolding longest
longest-nil t = refl

-- A name is matched with its labels' suffixes, the longest first, and with nothing else.
pub lookup_name_lem : (t : Table) (name : Str) → lookup_name t name ≡ longest t (labels name)
unfolding lookup_name labels
lookup_name_lem t name =
    let n : Str = normalize name in
    ground (
      arith,
      longest-nil t,
      behind_dots-split t n,
      longest_lem t (split b'.' n) (length-split b'.' n),
      join-split b'.' n,
    )
