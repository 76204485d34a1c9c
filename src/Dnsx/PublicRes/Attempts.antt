-- ===== src/Dnsx/PublicRes/Attempts.antt =====
-- What the attempts of a query come to.
use mathlib.Core.Option.{some-ne-none, none-ne-some, some-injective}
use mailkit.Prelude.{
  ℕ, zero, suc, ◌+◌, true, ◌||◌, Option, none, some, ◌==◌, length, ◌≡◌, ◌≢◌, ◌⊎◌, inl, inr, refl,
  sym, ◌∙◌, Bool-cases, Option-cases,
}
use mailkit.Text.{Str, codes, eq_str}
use mailkit.Text.Equality.{eq_str_sound}
use mailkit.Dnsx.{
  Answer, Error, Result, normalize, unanswered, unanswered_error, rcode_success, rcode_name_error,
}
use mailkit.Dnsx.PublicRes.{
  Settings, Message, Verdict, Client, server_at, rcode_error, judge, wrap_net, wrapped_answer,
  untruncated, last_error, exchange, verdict, query_loop, query,
}
use Prim.Native.Nat.{◌%◌}

-- A failure, if it is one, is one of not having asked to the end.
abbrev pub IsOpen {ℓ} : {A : Type ℓ} → Result A → Type 0
IsOpen (Result.ok a) = Unit
IsOpen (Result.err e) = unanswered (some e) ≡ true

abbrev IsOpenVerdict : Verdict → Type 0
IsOpenVerdict (Verdict.answered ans) = Unit
IsOpenVerdict (Verdict.again e) = unanswered (some e) ≡ true
IsOpenVerdict (Verdict.refused e) = unanswered (some e) ≡ true

-- What package context documents of Err: nothing, or one of its two errors.
pub record IsContext (ctx : ℕ → Option Error) : Type 0 where
  pub ends :
      (k : ℕ)
      → (ctx k ≡ none) ⊎ (ctx k ≡ some Error.canceled) ⊎ (ctx k ≡ some Error.deadline_exceeded)

wrapped_answer-IsOpen :
    (fqdn server : Str) (m : Result Message) → IsOpen (wrapped_answer fqdn server m)
unfolding wrapped_answer wrap_net unanswered unanswered_error
wrapped_answer-IsOpen fqdn server (Result.ok m) = tt
wrapped_answer-IsOpen fqdn server (Result.err e) = refl

judge-IsOpen :
    (rcode_text : ℕ → Str) (name server : Str) (m : Result Message)
    → IsOpen m
    → IsOpenVerdict (judge rcode_text name server m)
unfolding judge rcode_error unanswered unanswered_error
judge-IsOpen rcode_text name server (Result.err e) h = h
judge-IsOpen rcode_text name server (Result.ok m) h =
    elim (Bool-cases (m.rcode == rcode_success || m.rcode == rcode_name_error)) [
      | inl q ↦ rw (q) tt
      | inr q ↦ elim (Bool-cases (m.rcode == 2 || m.rcode == 5)) [
        | inl r ↦ rw (q, r) refl
        | inr r ↦ rw (q, r) refl
      ]
    ]

pub Verdict-cases :
    (v : Verdict)
    → ((ans : Answer) × (v ≡ Verdict.answered ans))
      ⊎ ((e : Error) × (v ≡ Verdict.again e))
      ⊎ ((e : Error) × (v ≡ Verdict.refused e))
Verdict-cases (Verdict.answered ans) = inl (ans, refl)
Verdict-cases (Verdict.again e) = inr (inl (e, refl))
Verdict-cases (Verdict.refused e) = inr (inr (e, refl))

untruncated-IsOpen :
    (fqdn server : Str) (over_tcp m : Result Message) → IsOpen (untruncated fqdn server over_tcp m)
unfolding untruncated wrap_net unanswered unanswered_error
untruncated-IsOpen fqdn server over_tcp (Result.err e) = refl
untruncated-IsOpen fqdn server over_tcp (Result.ok m) = elim (Bool-cases m.truncated) [
  | inl q ↦ rw (q) (wrapped_answer-IsOpen fqdn server over_tcp)
  | inr q ↦ rw (q) tt
]

last_error-IsOpen :
    (name : Str) (last : Option Error)
    → (last ≢ none → unanswered last ≡ true)
    → unanswered (some (last_error name last)) ≡ true
unfolding last_error unanswered unanswered_error
last_error-IsOpen name none h = refl
last_error-IsOpen name (some e) h = h (some-ne-none e)

module _ (udp tcp : Client) (ctx : ℕ → Option Error) (fqdn : Str → Str) (rcode_text : ℕ → Str)
    (cfg : Settings) (law : IsContext ctx) where
  verdict-IsOpen :
      (name : Str) (qtype k next : ℕ)
      → IsOpenVerdict (verdict udp tcp ctx fqdn rcode_text cfg name qtype k next)
  unfolding verdict exchange
  verdict-IsOpen name qtype k next =
      let server = server_at cfg.servers (next % length cfg.servers) in
      let question = fqdn (normalize name) in
      judge-IsOpen rcode_text name server
        (untruncated question server (tcp k question qtype server) (udp k question qtype server))
        (untruncated-IsOpen question server (tcp k question qtype server)
          (udp k question qtype server))

  ctx-IsOpen : (k : ℕ) (e : Error) → ctx k ≡ some e → unanswered (some e) ≡ true
  unfolding unanswered unanswered_error
  ctx-IsOpen k e h = elim (law.ends k) [
    | inl q ↦ absurd (none-ne-some e (sym q ∙ h))
    | inr (inl q) ↦ rw (← some-injective Error.canceled e (sym q ∙ h)) refl
    | inr (inr q) ↦ rw (← some-injective Error.deadline_exceeded e (sym q ∙ h)) refl
  ]

  query_loop-IsOpen :
      (name : Str) (qtype n k : ℕ) (last : Option Error) (next : ℕ)
      → (last ≢ none → unanswered last ≡ true)
      → IsOpen (query_loop udp tcp ctx fqdn rcode_text cfg name qtype n k last next).0
  unfolding query_loop
  query_loop-IsOpen name qtype zero k last next h = last_error-IsOpen name last h
  query_loop-IsOpen name qtype (suc n) k last next h = elim (Option-cases (ctx k)) [
    | inr q ↦ rw (q.1, query_loop) (ctx-IsOpen k q.0 q.1)
    | inl q ↦
        let v = verdict udp tcp ctx fqdn rcode_text cfg name qtype k next in
        let open_verdict = verdict-IsOpen name qtype k next in
        elim (Verdict-cases v) [
          | inl a ↦ rw (q, a.1, query_loop) tt
          | inr (inl a) ↦
              let failed = rw (a.1) at open_verdict in
              rw (q, a.1, query_loop)
                (query_loop-IsOpen name qtype n (k + 1) (some a.0) (next + 1) (λ _. failed))
          | inr (inr a) ↦ let failed = rw (a.1) at open_verdict in rw (q, a.1, query_loop) failed
        ]
  ]

-- A query of a name that is not empty never fails by saying that there is no such name: whatever
-- the servers and the network do, its error, if it has one, is of a lookup that was not answered.
pub query-IsOpen :
    (udp tcp : Client) (ctx : ℕ → Option Error) (fqdn : Str → Str) (rcode_text : ℕ → Str)
    (cfg : Settings)
    → IsContext ctx
    → (name : Str) (qtype next : ℕ) → fqdn (normalize name) ≢ codes "."
    → IsOpen (query udp tcp ctx fqdn rcode_text cfg name qtype next).0
unfolding query
query-IsOpen udp tcp ctx fqdn rcode_text cfg law name qtype next some_name =
    elim (Bool-cases (eq_str (fqdn (normalize name)) (codes "."))) [
      | inl q ↦ absurd (some_name (eq_str_sound (fqdn (normalize name)) (codes ".") q))
      | inr q ↦ rw (q) (
          query_loop-IsOpen udp tcp ctx fqdn rcode_text cfg law name qtype cfg.attempts 0 none next
            (λ h. absurd (h refl)))
    ]
