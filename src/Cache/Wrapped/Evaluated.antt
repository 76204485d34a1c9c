-- ===== src/Cache/Wrapped/Evaluated.antt =====
-- dnsx/cache/cache.go and spf/evaluate.go: an evaluation through a cache.
use mailkit.Prelude.{ℕ, List, [], ◌∷◌, true, false, none, some, length, ◌≡◌, refl, sym, ap, ◌∙◌}
use mailkit.Text.{Str}
use mailkit.Dnsx.{
  Answer, Error, Result, Resolver, Question, question_type, question_name, normalize, message,
  not_found, not_found_error, type_a, type_mx, type_txt,
}
use mailkit.Spf.Tree.{Limits, usable}
use mailkit.Spf.State.{fetched_txt, fetched_answer, fail, log}
use mailkit.Spf.Walk.{fetch, void, start, evaluate_root, run, evaluate}
use mailkit.Spf.Walk.Alike.{Agrees}
use mailkit.Spf.Walk.Agree.{is_tracing, evaluate_agree, evaluate-is_tracing}
use mailkit.Cache.{Cache, Config, Key, new, key_of}
use mailkit.Cache.Wrapped.{
  untraced, questions_of, waited, cache_query, after_questions, cached_answer, cached_resolver,
}
use mailkit.Cache.Wrapped.Kept.{IsHonest, query-IsHonest}

-- A resolver that is asked about normalized names.
unfoldable pub asked_normalized : Resolver → Resolver
asked_normalized r = record r {
  query = elim r.query [
    | none ↦ none
    | some tracer ↦ some (λ calls name qtype. tracer calls (normalize name) qtype)
  ];
}

-- Whether a tracing resolver answers by the question alone.
abbrev pub IsConstant : (List Question → Str → ℕ → Result Answer) → Type 0
IsConstant tracer =
    (calls : List Question) (name : Str) (qtype : ℕ)
    → tracer calls name qtype ≡ tracer [] name qtype

traces :
    (r : Resolver) (tracer : List Question → Str → ℕ → Result Answer)
    → r.query ≡ some tracer
    → is_tracing (asked_normalized r) ≡ true
unfolding is_tracing asked_normalized
traces r tracer traced = rw (traced) refl

module _ (r : Resolver) (tracer : List Question → Str → ℕ → Result Answer)
    (traced : r.query ≡ some tracer) (constant : IsConstant tracer) (cfg : Config) (now : ℕ → ℕ)
    (order : ℕ → List Key) (done : Error) where
  inner : Key → Result Answer
  inner k = tracer [] k.name k.qtype

  cache_query-IsHonest :
      (name : Str) (qtype i : ℕ) (s : Cache × List Key)
      → IsHonest inner s.0
      → ((cache_query r cfg now order done name qtype i s).0 ≡ tracer [] (normalize name) qtype)
        × IsHonest inner (cache_query r cfg now order done name qtype i s).1
  unfolding cache_query inner waited key_of
  cache_query-IsHonest name qtype i (c, log) h =
      let same : (λ (k : Key). tracer (questions_of log) k.name k.qtype) ≡ inner =
        λ j k. constant (questions_of log) k.name k.qtype j in
      let asked = query-IsHonest inner (key_of name qtype) (now i) (order i) c log h in
      rw (traced, cache_query, same) (ap (waited done) asked.0, asked.1)

  after_questions-IsHonest :
      (qs : List Question) → IsHonest inner (after_questions r cfg now order done qs).0
  unfolding after_questions new
  after_questions-IsHonest [] = record { entries = tt; idle = refl }
  after_questions-IsHonest (q ∷ qs) =
      (cache_query-IsHonest (question_name q) (question_type q) (length qs)
        (after_questions r cfg now order done qs) (after_questions-IsHonest qs)).1

  -- What a cache answers is what the wrapped resolver answers about the normalized name.
  pub cached_answer_lem :
      (calls : List Question) (name : Str) (qtype : ℕ)
      → cached_answer r cfg now order done calls name qtype ≡ tracer [] (normalize name) qtype
  unfolding cached_answer
  cached_answer_lem calls name qtype =
      (cache_query-IsHonest name qtype (length calls) (after_questions r cfg now order done calls)
        (after_questions-IsHonest calls)).0

  cached_resolver-Agrees : Agrees (cached_resolver r cfg now order done) (asked_normalized r)
  unfolding fetch void cached_resolver asked_normalized
  cached_resolver-Agrees = record {
    fetches = λ calls asked name.
        rw (cached_answer_lem calls name type_txt, traced, constant asked (normalize name) type_txt)
          refl;
    hosts = λ calls asked name.
        rw (cached_answer_lem calls name type_a, traced, constant asked (normalize name) type_a)
          refl;
    mails = λ calls asked name.
        rw (cached_answer_lem calls name type_mx, traced, constant asked (normalize name) type_mx)
          refl;
  }

-- An evaluation through a new cache, whatever its configuration, the times of the questions and the
-- order of its map, gives the report of an evaluation without it over the wrapped resolver, asked
-- about normalized names, if that is one that reports response codes and answers by the question
-- alone.
pub evaluate-cached_resolver :
    (r : Resolver) (tracer : List Question → Str → ℕ → Result Answer) (cfg : Config) (now : ℕ → ℕ)
    (order : ℕ → List Key) (done : Error) (lim : Limits) (domain : Str)
    → r.query ≡ some tracer
    → IsConstant tracer
    → evaluate (cached_resolver r cfg now order done) lim domain
      ≡ evaluate (asked_normalized r) lim domain
unfolding is_tracing cached_resolver
evaluate-cached_resolver r tracer cfg now order done lim domain traced constant =
    let out = evaluate (asked_normalized r) lim domain in
    evaluate_agree (cached_resolver r cfg now order done) (asked_normalized r) lim domain
      (cached_resolver-Agrees r tracer traced constant cfg now order done)
    ∙ ap (λ b. record out { void_exact = b })
        (sym (evaluate-is_tracing (asked_normalized r) lim domain ∙ traces r tracer traced))

-- An evaluation through a cache whose wrapped resolver reports no response codes fails for every
-- domain: the cache has the method `Query` all the same, and that returns an error.
pub evaluate-untraced :
    (r : Resolver) (cfg : Config) (now : ℕ → ℕ) (order : ℕ → List Key) (done : Error) (lim : Limits)
    (domain : Str)
    → r.query ≡ none
    → let out = evaluate (cached_resolver r cfg now order done) lim domain in
      (out.temp_error ≡ message (untraced (normalize domain)))
      × (out.found ≡ false)
      × (out.terms_exact ≡ false)
      × (usable out ≡ false)
unfolding cached_resolver cached_answer cache_query evaluate run fetch start fetched_answer
    fetched_txt untraced not_found not_found_error evaluate_root fail log usable message
evaluate-untraced r cfg now order done lim domain plain =
    rw (plain, evaluate) (refl, refl, refl, refl)
