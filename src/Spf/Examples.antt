-- ===== src/Spf/Examples.antt =====
-- A small zone, and the evaluator run on it.
use mailkit.Prelude.{
  ◌++◌, map, ℕ, ◌+◌, ◌≤◌, ◌<◌, List, [], ◌∷◌, Option, none, some, true, false, ◌==◌, ◌≡◌, ◌≢◌, ◌↔◌,
  refl, arith, All, length, if◌then◌else◌,
}
use mailkit.Text.{Str, codes, eq_str, mem_str}
use mailkit.Dnsx.{Resolver, Result, Answer, Error, type_txt, normalize}
use mailkit.Text.Equality.{IsDistinct}
use mailkit.Spf.Tree.{Limits, PermError, default_limits, over_limit, usable}
use mailkit.Spf.Cost.{policy_cost}
use mailkit.Spf.Walk.Count.{IsStatic, zone_of, evaluate_count}
use mailkit.Spf.Walk.Bounds.{over_limit_iff, evaluate_unknown, evaluate_bounds}
use mailkit.Spf.Walk.Fuel.{walk_fuel}
use mailkit.Spf.Walk.Tally.{broken_of, voids_of, evaluate_tally}
use mailkit.Spf.Walk.Cycles.{cycles_of, IsCycleOf, ArePaired}
use mailkit.Spf.Walk.Includes.{evaluate_includes}
use mailkit.Spf.Walk.Trace.{IsNumbered, IsRising, evaluate_nodes}
use mailkit.Spf.Evaluating.{evaluating}
use mailkit.Text.Words.{is_word, is_blank}
use mailkit.Spf.Terms.{is_version, parse}
use mailkit.Spf.Written.{Written, sign, text_of, is_signed, is_sign, is_name, is_written, term_of}
use mailkit.Spf.Written.Record.{spread, IsTerm, parse-spread}
use mailkit.Spf.Walk.{fetch, walk, start, run, evaluate}

txt_at : List (Str × List Str) → Str → Option (List Str)
txt_at [] name = none
txt_at ((k, txt) ∷ zone) name = if eq_str k name then some txt else txt_at zone name

answer_txt : Option (List Str) → Answer
answer_txt none = record { rcode = 3; ttl = 0; txt = []; mx = []; hosts = [] }
answer_txt (some txt) = record { rcode = 0; ttl = 300; txt = txt; mx = []; hosts = [] }

-- Answers TXT questions from the zone, and any other question with one address.
unfoldable pub fixed_answer : List (Str × List Str) → Str → ℕ → Answer
unfolding txt_at answer_txt
fixed_answer zone name qtype =
    if qtype == type_txt
    then answer_txt (txt_at zone name)
    else record { rcode = 0; ttl = 300; txt = []; mx = []; hosts = codes "192.0.2.1" ∷ [] }

abbrev pub zone_resolver : List (Str × List Str) → Resolver
zone_resolver zone = record {
  query = some (λ calls name qtype. Result.ok (fixed_answer zone name qtype));
  lookup_txt = λ calls name. Result.err Error.canceled;
  lookup_host = λ calls name. Result.err Error.canceled;
  lookup_mx = λ calls name. Result.err Error.canceled;
}

abbrev pub small_zone : List (Str × List Str)
small_zone =
    (codes "example.com", codes "v=spf1 include:a.example a -all" ∷ [])
    ∷ (codes "a.example", codes "other" ∷ codes "v=spf1 mx/24 redirect=example.com" ∷ [])
    ∷ []

-- What a run of the evaluator computes with.
running : Unit {0}
unfolding evaluating txt_at answer_txt fixed_answer
running = tt

abbrev site : Str
site = codes "Example.com."

-- Two terms of the root, and two of the included record: its redirect leads back to the root.
small_report :
    let out = evaluate (zone_resolver small_zone) default_limits site in
    (out.terms ≡ 4)
    × (out.terms_exact ≡ true)
    × (out.perm_error ≡ PermError.no_error)
    × (out.all ≡ codes "-")
    × (length out.nodes ≡ 5)
    × (length out.cycles ≡ 1)
unfolding running
small_report = (refl, refl, refl, refl, refl, refl)

-- The same under a limit of two terms.
abbrev two_terms : Limits
two_terms = record {
  max_terms = 2;
  max_void = 2;
  max_mx_addrs = 10;
  max_ptr_addrs = 10;
  max_depth = 20;
}

stopped_report :
    let out = evaluate (zone_resolver small_zone) two_terms site in
    (out.terms ≡ 3) × (out.terms_exact ≡ false) × (out.perm_error ≡ PermError.over_term_limit)
unfolding running
stopped_report = (refl, refl, refl)

-- An include whose name does not exist, and a resolver that fails.
abbrev broken_zone : List (Str × List Str)
broken_zone = (codes "example.com", codes "v=spf1 include:gone.example ~all" ∷ []) ∷ []

broken_report :
    let out = evaluate (zone_resolver broken_zone) default_limits site in
    (length out.broken ≡ 1) × (out.perm_error ≡ PermError.include_no_record)
unfolding running
broken_report = (refl, refl)

abbrev dead_resolver : Resolver
dead_resolver = record {
  query = none;
  lookup_txt = λ calls name. Result.err Error.deadline_exceeded;
  lookup_host = λ calls name. Result.err Error.canceled;
  lookup_mx = λ calls name. Result.err Error.canceled;
}

dead_unusable : usable (evaluate dead_resolver default_limits site) ≡ false
unfolding running usable
dead_unusable = refl

IsStatic-zone : IsStatic (zone_resolver small_zone)
unfolding fetch
IsStatic-zone = λ calls name. refl

evaluate_count_example :
    let c = policy_cost (zone_of (zone_resolver small_zone)) 21 (normalize site) in
    let out = evaluate (zone_resolver small_zone) default_limits site in
    (out.terms ≤ c)
    × (out.terms_exact ≡ true → out.terms ≡ c)
    × (over_limit out default_limits ≡ true → default_limits.max_terms < c)
unfolding default_limits
evaluate_count_example =
    evaluate_count (zone_resolver small_zone) default_limits site 21 IsStatic-zone (omega arith)

over_limit_iff_example :
    (over_limit (evaluate (zone_resolver small_zone) two_terms site) two_terms ≡ true)
    ↔ ((evaluate (zone_resolver small_zone) two_terms site).perm_error ≡ PermError.over_term_limit)
over_limit_iff_example = over_limit_iff (zone_resolver small_zone) two_terms site

evaluate_unknown_example :
    let out = evaluate dead_resolver default_limits site in
    (out.terms_exact ≡ false)
    × (out.perm_error ≢ PermError.over_term_limit)
    × (over_limit out default_limits ≡ false)
evaluate_unknown_example = evaluate_unknown dead_resolver default_limits site dead_unusable

evaluate_bounds_example :
    let s = run (zone_resolver small_zone) two_terms site in
    let out = evaluate (zone_resolver small_zone) two_terms site in
    (out.terms ≤ 2 + 1) × (out.terms_exact ≡ true → out.terms ≤ 2) × (length s.calls ≤ 2 + 1)
evaluate_bounds_example = evaluate_bounds (zone_resolver small_zone) two_terms site

walk_fuel_example :
    walk
      (zone_resolver small_zone)
      two_terms
      21
      site
      (codes "v=spf1 mx")
      (site ∷ [])
      0
      (start (zone_resolver small_zone) two_terms site)
    ≡ walk
        (zone_resolver small_zone)
        two_terms
        40
        site
        (codes "v=spf1 mx")
        (site ∷ [])
        0
        (start (zone_resolver small_zone) two_terms site)
walk_fuel_example =
    walk_fuel (zone_resolver small_zone) two_terms 21 40 site (codes "v=spf1 mx") (site ∷ []) 0
      (start (zone_resolver small_zone) two_terms site) (omega arith) (omega arith) (omega arith)

-- The redirect of the included record leads back to the root.
evaluate_tally_example :
    let out = evaluate (zone_resolver small_zone) default_limits site in
    (out.broken ≡ broken_of out.nodes)
    × (out.void ≡ voids_of out.nodes)
    × ArePaired (IsCycleOf out.nodes) (cycles_of out.nodes) out.cycles
evaluate_tally_example = evaluate_tally (zone_resolver small_zone) default_limits site

small_cycle :
    (evaluate (zone_resolver small_zone) default_limits site).cycles
    ≡ (codes "example.com" ∷ codes "a.example" ∷ codes "example.com" ∷ []) ∷ []
unfolding running
small_cycle = refl

evaluate_includes_example :
    let out = evaluate (zone_resolver broken_zone) default_limits site in
    IsDistinct out.includes × All (λ b. mem_str b.target out.includes ≡ true) out.broken
evaluate_includes_example = evaluate_includes (zone_resolver broken_zone) default_limits site

evaluate_nodes_example :
    let out = evaluate (zone_resolver small_zone) two_terms site in
    IsNumbered 0 out.nodes
    × IsRising 0 out.nodes out.terms
    × All (λ n. n.depth ≤ out.max_depth) out.nodes
    × (out.max_depth ≤ 20 + 1)
    × (length out.nodes ≤ out.terms + 1)
evaluate_nodes_example = evaluate_nodes (zone_resolver small_zone) two_terms site

abbrev written_terms : List (Str × Written)
written_terms =
    (codes " ", Written.valued none (codes "Include") (codes "a.example"))
    ∷ (codes "  ", Written.sized (some b'~') (codes "mx") (codes "24"))
    ∷ (codes " ", Written.modifier (codes "redirect") (codes "b.example"))
    ∷ (codes " ", Written.named (some b'-') (codes "all"))
    ∷ []

written_record :
    codes "v=SPF1" ++ spread (codes " ") written_terms
    ≡ codes "v=SPF1 Include:a.example  ~mx/24 redirect=b.example -all "
unfolding spread text_of sign
written_record = refl

written_terms-IsTerm : All IsTerm written_terms
unfolding running is_word is_blank is_written is_name is_signed is_sign text_of sign
written_terms-IsTerm = (
  (refl, refl, refl, refl),
  ((refl, refl, refl, refl), ((refl, refl, refl, refl), ((refl, refl, refl, refl), tt))),
)

version_token : (is_word (codes "v=SPF1") ≡ true) × (is_version (codes "v=SPF1") ≡ true)
unfolding running is_word
version_token = (refl, refl)

one_blank : is_blank (codes " ") ≡ true
unfolding running is_blank
one_blank = refl

parse-spread_example :
    parse (codes " " ++ (codes "v=SPF1" ++ spread (codes " ") written_terms))
    ≡ map (λ (x : Str × Written). term_of x.1) written_terms
parse-spread_example =
    parse-spread (codes " ") (codes "v=SPF1") (codes " ") written_terms one_blank version_token.0
      version_token.1 one_blank written_terms-IsTerm
