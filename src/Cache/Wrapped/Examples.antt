-- ===== src/Cache/Wrapped/Examples.antt =====
-- An evaluation through a cache, over a small zone.
use mailkit.Prelude.{length, ◌≤◌, arith, ℕ, List, [], ◌∷◌, false, none, some, ◌≡◌, refl, ℤ}
use mailkit.Text.{Str, codes}
use mailkit.Dnsx.{Answer, Error, Result, Question, normalize, message}
use mailkit.Dnsx.Dnstest.{
  zone_result, zone_answer, value_at, Zone, query, replay, serve, no_trace, new,
}
use mailkit.Dnsx.Dnstest.Degraded.{query-replay}
use mailkit.Spf.Tree.{default_limits, usable}
use mailkit.Spf.Walk.{evaluate}
use mailkit.Cache.{Config, with_defaults, positive_or}
use mailkit.Cache.Flight.{IsAlone}
use mailkit.Cache.Wrapped.Polite.{after_questions-IsAlone}
use mailkit.Cache.Wrapped.{untraced, cached_resolver, after_questions}
use mailkit.Cache.Wrapped.Evaluated.{
  asked_normalized, IsConstant, evaluate-cached_resolver, evaluate-untraced,
}

abbrev tiny : Zone
tiny = record {
  txt = (codes "example.com", codes "v=spf1 include:Example.com a -all" ∷ []) ∷ [];
  mx = [];
  a = [];
  ptr = [];
  cname = [];
  ttl = [];
  fail = [];
}

abbrev tracer : List Question → Str → ℕ → Result Answer
tracer calls name qtype = (query none name qtype (replay none tiny calls)).0

abbrev defaults : Config
defaults = record {
  min_ttl = ℤ.pos 0;
  max_ttl = ℤ.pos 0;
  negative_ttl = ℤ.pos 0;
  max_entries = ℤ.pos 1;
}

tiny_traced : (serve none tiny).query ≡ some tracer
unfolding serve
tiny_traced = refl

tiny-IsConstant : IsConstant tracer
unfolding replay new
tiny-IsConstant calls name qtype = query-replay none tiny calls name qtype

evaluate-cached_resolver_example :
    evaluate
      (cached_resolver (serve none tiny) defaults (λ i. i) (λ i. []) Error.canceled)
      default_limits
      (codes "example.com")
    ≡ evaluate (asked_normalized (serve none tiny)) default_limits (codes "example.com")
evaluate-cached_resolver_example =
    evaluate-cached_resolver (serve none tiny) tracer defaults (λ i. i) (λ i. []) Error.canceled
      default_limits (codes "example.com") tiny_traced tiny-IsConstant

plain : (no_trace (serve none tiny)).query ≡ none
unfolding no_trace
plain = refl

evaluate-untraced_example :
    let out =
      evaluate
        (cached_resolver (no_trace (serve none tiny)) defaults (λ i. i) (λ i. []) Error.canceled)
        default_limits
        (codes "example.com") in
    (out.temp_error ≡ message (untraced (normalize (codes "example.com"))))
    × (out.found ≡ false)
    × (out.terms_exact ≡ false)
    × (usable out ≡ false)
evaluate-untraced_example =
    evaluate-untraced (no_trace (serve none tiny)) defaults (λ i. i) (λ i. []) Error.canceled
      default_limits (codes "example.com") plain

abbrev roomy : Config
roomy = record defaults { max_entries = ℤ.pos 4 }

abbrev three_questions : List Question
three_questions =
    Question.lookup_txt (codes "example.com")
    ∷ Question.query (codes "Example.com.") 16
    ∷ Question.query (codes "example.com") 1
    ∷ []

tiny_answers : (name : Str) (qtype : ℕ) → (a : Answer) × (tracer [] name qtype ≡ Result.ok a)
unfolding query replay new zone_result value_at
tiny_answers name qtype = (zone_answer tiny qtype (normalize name), refl)

room_for_three : length three_questions ≤ (with_defaults roomy).max_entries
unfolding with_defaults positive_or
room_for_three = omega arith

after_questions-IsAlone_example :
    IsAlone
      (after_questions (serve none tiny) roomy (λ i. 5) (λ i. []) Error.canceled three_questions).1
after_questions-IsAlone_example =
    after_questions-IsAlone (serve none tiny) tracer roomy (λ i. 5) (λ i. []) Error.canceled 5
      three_questions tiny_traced tiny-IsConstant tiny_answers (λ i. omega arith)
      (λ i a. omega arith) room_for_three
