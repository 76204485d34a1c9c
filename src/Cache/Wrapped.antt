-- ===== src/Cache/Wrapped.antt =====
-- dnsx/cache/cache.go: a cache as the resolver that its clients see, for one goroutine. Its state
-- is the cache and the questions that the wrapped resolver was asked, the newest first.
pub mod Kept
pub mod Evaluated
pub mod Once
pub mod Polite
mod Examples
use mailkit.Prelude.{ℕ, List, [], ◌∷◌, Option, none, some, length, false}
use mailkit.Text.{Str, codes}
use mailkit.Dnsx.{
  Answer, Error, Result, Resolver, Question, question_type, question_name, type_a, type_mx,
  type_txt,
}
use mailkit.Cache.{Cache, Config, Key, new, key_of, query, txt_answer, mx_answer, host_answer}

unfoldable pub untraced : Str → Error
untraced name =
    Error.dns (codes "cache: wrapped resolver cannot report response codes") name [] false

unfoldable pub questions_of : List Key → List Question
questions_of [] = []
questions_of (k ∷ ks) = Question.query k.name k.qtype ∷ questions_of ks

-- The end of a wait for another goroutine that does not come back: the error of the context.
unfoldable pub waited : Error → Option (Result Answer) → Result Answer
waited done none = Result.err done
waited done (some a) = a

-- The wrapped resolver, the configuration, the readings of the clock and the orders of the map at
-- each question, and the error of the context.
module _ (r : Resolver) (cfg : Config) (now : ℕ → ℕ) (order : ℕ → List Key) (done : Error) where
  unfoldable pub cache_query : Str → ℕ → ℕ → Cache × List Key → Result Answer × Cache × List Key
  cache_query name qtype i (c, log) = elim r.query [
    | none ↦ (Result.err (untraced name), c, log)
    | some tracer ↦
        let (a, c', log') =
          query (λ k. tracer (questions_of log) k.name k.qtype) (key_of name qtype) (now i)
            (order i) (c, log) in
        (waited done a, c', log')
  ]

  -- The state behind some questions, the newest first.
  unfoldable pub after_questions : List Question → Cache × List Key
  after_questions [] = (new cfg, [])
  after_questions (q ∷ qs) =
      let (a, c, log) =
        cache_query (question_name q) (question_type q) (length qs) (after_questions qs) in
      (c, log)

  unfoldable pub cached_answer : List Question → Str → ℕ → Result Answer
  cached_answer calls name qtype = (cache_query name qtype (length calls) (after_questions calls)).0

  -- `Query` is a method of every cache, also where the wrapped resolver has none.
  unfoldable pub cached_resolver : Resolver
  cached_resolver = record {
    query = some cached_answer;
    lookup_txt = λ calls name. elim r.query [
      | none ↦ r.lookup_txt calls name
      | some tracer ↦ txt_answer name (cached_answer calls name type_txt)
    ];
    lookup_host = λ calls name. elim r.query [
      | none ↦ r.lookup_host calls name
      | some tracer ↦ host_answer name (cached_answer calls name type_a)
    ];
    lookup_mx = λ calls name. elim r.query [
      | none ↦ r.lookup_mx calls name
      | some tracer ↦ mx_answer name (cached_answer calls name type_mx)
    ];
  }
