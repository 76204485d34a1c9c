-- ===== src/Dnsx/PublicRes/Answered.antt =====
-- Where the answer to a query comes from.

use mailkit.Prelude.{
  ℕ, zero, suc, ◌+◌, ◌≤◌, ◌<◌, true, ◌||◌, Option, none, some, ◌==◌, length, ◌≡◌, inl, inr, refl,
  arith, Bool-cases, Option-cases,
}
use mailkit.Text.{Str, codes, eq_str}
use mailkit.Dnsx.{Answer, Error, Result, normalize, rcode_success, rcode_name_error}
use mailkit.Dnsx.PublicRes.{
  Settings, Message, Verdict, Client, answer_from, server_at, judge, exchange, verdict, query_loop,
  query,
}
use mailkit.Dnsx.PublicRes.Attempts.{Verdict-cases}
use Prim.Native.Nat.{◌%◌}

-- An answer is made of a message that says what the zone holds.
pub record IsFrom (m : Result Message) (ans : Answer) : Type 0 where
  pub said : Message
  pub came : m ≡ Result.ok said
  pub decisive : (said.rcode == rcode_success || said.rcode == rcode_name_error) ≡ true
  pub read : ans ≡ answer_from said

abbrev AnsweredBy : Result Message → Verdict → Type 0
AnsweredBy m (Verdict.answered ans) = IsFrom m ans
AnsweredBy m (Verdict.again e) = Unit
AnsweredBy m (Verdict.refused e) = Unit

judge-AnsweredBy :
    (rcode_text : ℕ → Str) (name server : Str) (m : Result Message)
    → AnsweredBy m (judge rcode_text name server m)
unfolding judge
judge-AnsweredBy rcode_text name server (Result.err e) = tt
judge-AnsweredBy rcode_text name server (Result.ok m) =
    elim (Bool-cases (m.rcode == rcode_success || m.rcode == rcode_name_error)) [
      | inl q ↦ rw (q) (record { said = m; came = refl; decisive = q; read = refl })
      | inr q ↦ elim (Bool-cases (m.rcode == 2 || m.rcode == 5)) [
        | inl r ↦ rw (q, r) tt
        | inr r ↦ rw (q, r) tt
      ]
    ]

module _ (udp tcp : Client) (ctx : ℕ → Option Error) (fqdn : Str → Str) (rcode_text : ℕ → Str)
    (cfg : Settings) (name : Str) (qtype start : ℕ) where
  -- What an attempt gets from the server whose turn it is.
  abbrev pub attempt : ℕ → Result Message
  attempt j =
      exchange udp tcp ctx fqdn rcode_text cfg j (fqdn (normalize name)) qtype
        (server_at cfg.servers ((start + j) % length cfg.servers))

  -- The answer is that of one of so many attempts.
  abbrev pub IsAnswered : ℕ → Result Answer → Type 0
  IsAnswered limit (Result.ok ans) = (j : ℕ) × (j < limit) × IsFrom (attempt j) ans
  IsAnswered limit (Result.err e) = Unit

  verdict-AnsweredBy :
      (k next : ℕ)
      → next ≡ start + k
      → AnsweredBy (attempt k) (verdict udp tcp ctx fqdn rcode_text cfg name qtype k next)
  unfolding verdict
  verdict-AnsweredBy k next h = rw h (
      judge-AnsweredBy rcode_text name (server_at cfg.servers ((start + k) % length cfg.servers))
        (attempt k))

  query_loop-IsAnswered :
      (limit n k : ℕ) (last : Option Error) (next : ℕ)
      → next ≡ start + k
      → k + n ≡ limit
      → (query_loop udp tcp ctx fqdn rcode_text cfg name qtype n k last next).1 ≤ start + limit
        × IsAnswered limit (query_loop udp tcp ctx fqdn rcode_text cfg name qtype n k last next).0
  unfolding query_loop
  query_loop-IsAnswered limit zero k last next g h = (omega arith, tt)
  query_loop-IsAnswered limit (suc n) k last next g h = elim (Option-cases (ctx k)) [
    | inr q ↦ rw (q.1, query_loop) (omega arith, tt)
    | inl q ↦
        let v = verdict udp tcp ctx fqdn rcode_text cfg name qtype k next in
        let by = verdict-AnsweredBy k next g in
        elim (Verdict-cases v) [
          | inl a ↦ rw (q, a.1, query_loop) (omega arith, (k, omega arith, rw (a.1) at by))
          | inr (inl a) ↦
              rw (q, a.1, query_loop)
                (query_loop-IsAnswered limit n (k + 1) (some a.0) (next + 1) (omega arith)
                  (omega arith))
          | inr (inr a) ↦ rw (q, a.1, query_loop) (omega arith, tt)
        ]
  ]

-- A query asks at most as many times as it may, each time the next server of the rotation, and the
-- answer that it returns, if it does, is read from the message that one of these servers sent,
-- which says that there was no error or that there is no such name.
pub query-IsAnswered :
    (udp tcp : Client) (ctx : ℕ → Option Error) (fqdn : Str → Str) (rcode_text : ℕ → Str)
    (cfg : Settings) (name : Str) (qtype next : ℕ)
    → (query udp tcp ctx fqdn rcode_text cfg name qtype next).1 ≤ next + cfg.attempts
      × IsAnswered udp tcp ctx fqdn rcode_text cfg name qtype next cfg.attempts
          (query udp tcp ctx fqdn rcode_text cfg name qtype next).0
unfolding query
query-IsAnswered udp tcp ctx fqdn rcode_text cfg name qtype next =
    elim (Bool-cases (eq_str (fqdn (normalize name)) (codes "."))) [
      | inl q ↦ rw (q) (omega arith, tt)
      | inr q ↦ rw (q) (
          query_loop-IsAnswered udp tcp ctx fqdn rcode_text cfg name qtype next cfg.attempts
            cfg.attempts 0 none next (omega arith) (omega arith))
    ]
