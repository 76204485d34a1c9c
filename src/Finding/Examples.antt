-- ===== src/Finding/Examples.antt =====
-- A set of three findings.

use mailkit.Prelude.{◌||◌, List, [], ◌∷◌, ◌++◌, map, true, All, ◌≡◌, refl}
use mailkit.Text.{codes, eq_str, mem_str}
use mailkit.Text.Order.{lt_str}
use mailkit.Sorting.{insert, insertion}
use mailkit.Finding.{
  Finding, no_message, Panic, Outcome, rank, set_param, params_of, new, Renderer, render, add, has,
  codes_of, worst_from, worst, more_severe, sort_by_severity, render_all,
}
use mailkit.Finding.Bands.{of_severity, of_other, sort_by_severity_lem}
use mailkit.Finding.Codes.{sorted_codes, all_codes}
use mailkit.Finding.Codes.Covered.{Covers, IsKnown, render_all-sorted_codes}
use mailkit.Finding.Render.{rendered}

running : Unit {0}
unfolding eq_str lt_str insert insertion rank set_param params_of new render add has codes_of
    worst_from worst more_severe sort_by_severity render_all
running = tt

abbrev no_dmarc : Finding
no_dmarc = record {
  code = codes "dmarc_missing";
  severity = codes "critical";
  message = no_message;
  params = [];
}

abbrev spf_limit : Finding
spf_limit = record {
  code = codes "spf_limit";
  severity = codes "critical";
  message = no_message;
  params = (codes "count", codes "12") ∷ [];
}

abbrev one_host : Finding
one_host = record {
  code = codes "mx_single";
  severity = codes "info";
  message = no_message;
  params = [];
}

abbrev three : List Finding
three = one_host ∷ spf_limit ∷ no_dmarc ∷ []

built :
    add
      (codes "spf_limit")
      (codes "critical")
      (codes "count" ∷ codes "11" ∷ codes "count" ∷ codes "12" ∷ [])
      (one_host ∷ [])
    ≡ Outcome.done (one_host ∷ spf_limit ∷ [])
unfolding running
built = refl

odd :
    new (codes "x") (codes "info") (codes "count" ∷ [])
    ≡ Outcome.panic (Panic.odd_params (codes "x"))
unfolding running
odd = refl

sorted : sort_by_severity three ≡ no_dmarc ∷ spf_limit ∷ one_host ∷ []
unfolding running
sorted = refl

worst_of_three : worst three ≡ codes "critical"
unfolding running
worst_of_three = refl

-- A catalogue with two entries.
abbrev catalogue : Renderer
catalogue = record {
  has = λ code. eq_str code (codes "mx_single") || eq_str code (codes "spf_limit");
  render = λ locale code params. record no_message { title = code; detail = locale };
}

no_entry :
    render_all catalogue (codes "en") three ≡ Outcome.panic (Panic.no_entry (codes "dmarc_missing"))
unfolding running
no_entry = refl

sort_by_severity_lem_example :
    sort_by_severity three
    ≡ of_severity (codes "critical") three
      ++ (of_severity (codes "warning") three
          ++ (of_severity (codes "info") three ++ of_other three))
sort_by_severity_lem_example = sort_by_severity_lem three

abbrev full_catalogue : Renderer
full_catalogue = record catalogue { has = λ code. true }

render_all-sorted_codes_example :
    (Covers full_catalogue
      → (s : List Finding) → All IsKnown s
      → render_all full_catalogue (codes "en") s
        ≡ Outcome.done (map (rendered full_catalogue (codes "en")) s))
    × (((s : List Finding)
          → All IsKnown s
          → (out : List Finding) × (render_all full_catalogue (codes "en") s ≡ Outcome.done out))
        → Covers full_catalogue)
render_all-sorted_codes_example = render_all-sorted_codes full_catalogue (codes "en")

-- The catalogue with two entries covers nothing of the list.
uncovered :
    render_all catalogue (codes "en") (record one_host { code = codes "mx_null" } ∷ [])
    ≡ Outcome.panic (Panic.no_entry (codes "mx_null"))
unfolding running
uncovered = refl

known_code : mem_str (codes "mx_null") sorted_codes ≡ true
unfolding running mem_str sorted_codes all_codes
known_code = refl
