-- ===== src/Finding/Render.antt =====
-- Rendering a set of findings.
use mailkit.Prelude.{
  List, [], ◌∷◌, map, ◌||◌, Option, none, some, if◌then◌else◌, is_empty, ◌≡◌, refl, arith,
  Option-cases, inl, inr,
}
use mailkit.Text.{Str}
use mailkit.Finding.{Finding, Panic, Outcome, Renderer, render, render_all}

-- The first code that the renderer has no entry for.
unfoldable pub first_unknown : Renderer → List Finding → Option Str
first_unknown r [] = none
first_unknown r (f ∷ s) = if is_empty f.code || r.has f.code then first_unknown r s else some f.code

-- A finding with its prose; one without a code stays as it is.
unfoldable pub rendered : Renderer → Str → Finding → Finding
rendered r locale f =
    if is_empty f.code then f else record f { message = r.render locale f.code f.params }

-- Rendering a set panics at the first code without an entry, and nothing else makes it panic; if it
-- returns, every finding has its prose, and its code, severity and parameters, in the same order.
pub render_all_lem :
    (r : Renderer) (locale : Str) (s : List Finding)
    → render_all r locale s ≡ elim (first_unknown r s) as (λ x. Outcome (List Finding)) [
      | none ↦ Outcome.done (map (rendered r locale) s)
      | some code ↦ Outcome.panic (Panic.no_entry code)
    ]
unfolding render_all first_unknown render rendered
render_all_lem r locale [] = refl
render_all_lem r locale (f ∷ s) =
    let rest = render_all_lem r locale s in
    elim (Option-cases (first_unknown r s)) [
      | inl e ↦ ground (arith, rest, e)
      | inr (code, e) ↦ ground (arith, rest, e)
    ]
