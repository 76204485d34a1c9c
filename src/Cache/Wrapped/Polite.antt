-- ===== src/Cache/Wrapped/Polite.antt =====
-- dnsx/cache/cache.go: the questions that reach the wrapped resolver.
use mailkit.Prelude.{
  ℕ, suc, ◌+◌, ◌≤◌, ◌<◌, List, [], ◌∷◌, some, length, ◌≡◌, refl, sym, ◌∙◌, subst, arith,
}
use mailkit.Text.{Str}
use mailkit.Dnsx.{
  Answer, Error, Result, Resolver, Question, question_type, question_name, normalize,
}
use mailkit.Cache.{Cache, Config, Key, with_defaults, new, key_of, is_waited, life}
use mailkit.Cache.Flight.{IsAlone}
use mailkit.Cache.Wrapped.{questions_of, cache_query, after_questions}
use mailkit.Cache.Wrapped.Evaluated.{IsConstant}
use mailkit.Cache.Wrapped.Once.{IsCovered, query-IsCovered}

module _ (r : Resolver) (tracer : List Question → Str → ℕ → Result Answer)
    (traced : r.query ≡ some tracer) (constant : IsConstant tracer)
    (answers : (name : Str) (qtype : ℕ) → (a : Answer) × (tracer [] name qtype ≡ Result.ok a))
    (cfg : Config) (now : ℕ → ℕ) (order : ℕ → List Key) (done : Error) (latest : ℕ)
    (early : (i : ℕ) → now i ≤ latest)
    (long : (i : ℕ) (a : Answer) → latest ≤ now i + life (with_defaults cfg) a) where
  -- The cache after some questions, with no more entries than questions.
  abbrev IsPolite : ℕ → Cache → List Key → Type 0
  IsPolite n c log = IsCovered latest c log × (length c.entries ≤ n) × (c.cfg ≡ with_defaults cfg)

  new-IsPolite : IsPolite 0 (new cfg) []
  unfolding new is_waited
  new-IsPolite = (record { kept = λ k w. cc; idle = refl; alone = tt }, omega arith, refl)

  cache_query-IsPolite :
      (name : Str) (qtype i n : ℕ) (c : Cache) (log : List Key)
      → n < (with_defaults cfg).max_entries
      → IsPolite n c log
      → let t = cache_query r cfg now order done name qtype i (c, log) in IsPolite (suc n) t.1 t.2
  unfolding cache_query key_of
  cache_query-IsPolite name qtype i n c log room (covered, few, set) =
      let k : Key = key_of name qtype in
      let (a, e) = answers (normalize name) qtype in
      let roomy : length c.entries < c.cfg.max_entries =
        subst (λ x. length c.entries < x.max_entries) (sym set) (omega (arith, few, room)) in
      let lasts : latest ≤ now i + life c.cfg a =
        subst (λ x. latest ≤ now i + life x a) (sym set) (long i a) in
      let (after, grown, same) =
        query-IsCovered latest (λ j. tracer (questions_of log) j.name j.qtype) k (now i) (order i) c
          log covered (early i) roomy a (constant (questions_of log) (normalize name) qtype ∙ e)
          lasts in
      rw (traced, cache_query) (after, omega (arith, grown, few), same ∙ set)

  after_questions-IsPolite :
      (qs : List Question)
      → length qs ≤ (with_defaults cfg).max_entries
      → let s = after_questions r cfg now order done qs in IsPolite (length qs) s.0 s.1
  unfolding after_questions
  after_questions-IsPolite [] h = new-IsPolite
  after_questions-IsPolite (q ∷ qs) h =
      let s = after_questions r cfg now order done qs in
      cache_query-IsPolite (question_name q) (question_type q) (length qs) (length qs) s.0 s.1
        (omega (arith, h)) (after_questions-IsPolite qs (omega (arith, h)))

-- The wrapped resolver is never asked the same question twice: by a goroutine alone with a new
-- cache, which puts no more questions than the cache has room for, while none of its answers
-- outlives its life, if the wrapped resolver reports response codes, answers every question, and
-- answers by the question alone.
pub after_questions-IsAlone :
    (r : Resolver) (tracer : List Question → Str → ℕ → Result Answer) (cfg : Config) (now : ℕ → ℕ)
    (order : ℕ → List Key) (done : Error) (latest : ℕ) (qs : List Question)
    → r.query ≡ some tracer
    → IsConstant tracer
    → ((name : Str) (qtype : ℕ) → (a : Answer) × (tracer [] name qtype ≡ Result.ok a))
    → ((i : ℕ) → now i ≤ latest)
    → ((i : ℕ) (a : Answer) → latest ≤ now i + life (with_defaults cfg) a)
    → length qs ≤ (with_defaults cfg).max_entries
    → IsAlone (after_questions r cfg now order done qs).1
after_questions-IsAlone r tracer cfg now order done latest qs traced constant answers early long
      room =
    (after_questions-IsPolite r tracer traced constant answers cfg now order done latest early long
      qs room).0.alone
