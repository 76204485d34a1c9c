-- ===== src/Finding/Codes/Covered.antt =====
-- finding/codes.go and finding/finding.go: what it means that a catalogue covers the codes.
use mailkit.Prelude.{
  List, [], ◌∷◌, map, true, false, none, ◌≡◌, refl, sym, ◌∙◌, arith, All, is_empty,
}
use mailkit.Text.{Str, eq_str, mem_str}
use mailkit.Text.Order.{lt_str}
use mailkit.Sorting.{insert, insertion}
use mailkit.Finding.{Finding, no_message, Outcome, Renderer, render, render_all}
use mailkit.Finding.Render.{first_unknown, rendered, render_all_lem}
use mailkit.Finding.Codes.{all_codes, sorted_codes}

-- A renderer has an entry for every code.
abbrev pub Covers : Renderer → Type 0
Covers r = (code : Str) → mem_str code sorted_codes ≡ true → r.has code ≡ true

-- The code of a finding is one of the list.
abbrev pub IsKnown : Finding → Type 0
IsKnown f = mem_str f.code sorted_codes ≡ true

no_empty_code : mem_str [] sorted_codes ≡ false
unfolding mem_str eq_str sorted_codes all_codes insertion insert lt_str
no_empty_code = refl

first_unknown-none :
    (r : Renderer) (s : List Finding) → Covers r → All IsKnown s → first_unknown r s ≡ none
unfolding first_unknown
first_unknown-none r [] covers known = refl
first_unknown-none r (f ∷ s) covers (k, known) =
    ground (arith, covers f.code k, first_unknown-none r s covers known)

abbrev finding_of : Str → Finding
finding_of code = record { code = code; severity = []; message = no_message; params = [] }

has_of_done :
    (r : Renderer) (locale code : Str) (out : List Finding)
    → is_empty code ≡ false
    → render_all r locale (finding_of code ∷ []) ≡ Outcome.done out
    → r.has code ≡ true
unfolding render_all render
has_of_done r locale code out full h = ground (arith, full, h)

nonempty_of_known : (code : Str) → mem_str code sorted_codes ≡ true → is_empty code ≡ false
nonempty_of_known [] h = sym h ∙ no_empty_code
nonempty_of_known (c ∷ code) h = refl

-- A renderer that has an entry for every code that Codes lists renders every set of findings with
-- such codes without a panic, each finding with its prose; and one that never panics on such a set
-- has all these entries.
pub render_all-sorted_codes :
    (r : Renderer) (locale : Str)
    → (Covers r
        → (s : List Finding) → All IsKnown s
        → render_all r locale s ≡ Outcome.done (map (rendered r locale) s))
      × (((s : List Finding)
            → All IsKnown s
            → (out : List Finding) × (render_all r locale s ≡ Outcome.done out))
          → Covers r)
render_all-sorted_codes r locale = (
  λ covers s known. rw (render_all_lem r locale s, first_unknown-none r s covers known) refl,
  λ renders code known.
      let (out, h) = renders (finding_of code ∷ []) (known, tt) in
      has_of_done r locale code out (nonempty_of_known code known) h,
)
