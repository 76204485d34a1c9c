-- ===== src/Dnsx/RateLimit/Through.antt =====
-- A limit that no wait fails at is not seen in the answers.
use mailkit.Prelude.{ℕ, List, Option, none, some, ◌≡◌, refl}
use mailkit.Text.{Str}
use mailkit.Dnsx.{Answer, Result, Resolver, Question}
use mailkit.Dnsx.RateLimit.{after, limited_query, limited}

limited_query-none :
    (query : Option (List Question → Str → ℕ → Result Answer))
    → limited_query (λ _. none) query ≡ query
unfolding limited_query after
limited_query-none none = refl
limited_query-none (some query) = refl

-- A limited resolver whose waits all return is its inner resolver, and offers `Query` when that
-- does.
pub limited-none : (r : Resolver) → limited (λ _. none) r ≡ r
unfolding limited after
limited-none r = rw (limited_query-none r.query) refl
