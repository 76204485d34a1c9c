-- ===== src/Dnsx/Dnstest/Degraded.antt =====
-- dnsx/dnstest/dnstest.go and spf/evaluate.go: an evaluation over a zone, with and without `Query`.
use mailkit.Prelude.{
  ℕ, List, [], ◌∷◌, Bool, true, false, Option, none, some, ◌≡◌, refl, ap, ◌∙◌, inl, inr, arith,
  Bool-cases, Option-cases, ◌&&◌, not,
}
use mailkit.Text.{Str}
use mailkit.Dnsx.{
  Answer, Error, Result, Question, normalize, rcode_success, type_a, type_mx, type_txt, not_found,
  not_found_error,
}
use mailkit.Spf.Tree.{Limits}
use mailkit.Spf.State.{fetched_txt, fetched_answer, void_answer, void_list}
use mailkit.Spf.Walk.{fetch, void, evaluate}
use mailkit.Spf.Walk.Alike.{Agrees}
use mailkit.Spf.Walk.Agree.{is_tracing, evaluate_agree, evaluate-is_tracing}
use mailkit.Cache.{no_such_host, mx_answer, host_answer}
use mailkit.Cache.Plain.{IsAbout, void_list-mx_answer}
use mailkit.Dnsx.Dnstest.{
  Zone, ZoneResolver, value_at, select, settle, zone_answer, zone_result, new, note_query, query,
  host_not_found, fail_error, listed_records, hosts_listed, lookup_txt, lookup_mx, lookup_host,
  replay_one, replay, serve, no_trace, name_exists,
}

replay_one-zone :
    (ctx : Option Error) (q : Question) (r : ZoneResolver) → (replay_one ctx q r).zone ≡ r.zone
unfolding replay_one query lookup_txt lookup_mx lookup_host note_query
replay_one-zone ctx (Question.query name qtype) r = refl
replay_one-zone ctx (Question.lookup_txt name) r = refl
replay_one-zone ctx (Question.lookup_host name) r = refl
replay_one-zone ctx (Question.lookup_mx name) r = refl

-- Questions leave the zone as it is.
pub replay-zone : (ctx : Option Error) (z : Zone) (qs : List Question) → (replay ctx z qs).zone ≡ z
unfolding replay new
replay-zone ctx z [] = refl
replay-zone ctx z (q ∷ qs) = replay_one-zone ctx q (replay ctx z qs) ∙ replay-zone ctx z qs

-- The answer of a zone to a question does not depend on the questions before it.
pub query-replay :
    (ctx : Option Error) (z : Zone) (calls : List Question) (name : Str) (qtype : ℕ)
    → (query ctx name qtype (replay ctx z calls)).0 ≡ (query ctx name qtype (new z)).0
unfolding query new
query-replay ctx z calls name qtype =
    ap (λ x. zone_result ctx x qtype (normalize name)) (replay-zone ctx z calls)

settle-IsAbout :
    (mx : Bool) (z : Zone) (name : Str) (a : Answer) (present : Bool)
    → a.rcode ≡ rcode_success
    → a.txt ≡ []
    → (mx ≡ false → a.mx ≡ [])
    → (mx ≡ true → a.hosts ≡ [])
    → IsAbout mx (settle z name (a, present))
unfolding settle
settle-IsAbout mx z name a present code txt no_mx no_hosts =
    elim (Bool-cases (not present && not (name_exists name z))) [
      | inl q ↦
          rw (q) (record { code = inr refl; no_txt = txt; no_mx = no_mx; no_hosts = no_hosts })
      | inr q ↦
          rw (q) (record { code = inl code; no_txt = txt; no_mx = no_mx; no_hosts = no_hosts })
    ]

zone_answer-mx : (z : Zone) (name : Str) → IsAbout true (zone_answer z type_mx name)
unfolding zone_answer select
zone_answer-mx z name = settle-IsAbout true z _ _ _ refl refl (λ h. cc) (λ h. refl)

zone_answer-hosts : (z : Zone) (name : Str) → IsAbout false (zone_answer z type_a name)
unfolding zone_answer select
zone_answer-hosts z name = settle-IsAbout false z _ _ _ refl refl (λ h. refl) (λ h. cc)

fetched-listed_records :
    (name : Str) (a : Result Answer)
    → fetched_txt (listed_records (λ (x : Answer). x.txt) name a) ≡ fetched_answer a
unfolding listed_records fetched_answer fetched_txt host_not_found not_found not_found_error
fetched-listed_records name (Result.err e) = refl
fetched-listed_records name (Result.ok a) = ground arith

-- What holds of every error, and of the answer for a name, holds of the result.
result_of_answer :
    (P : Result Answer → Type 0) (ctx : Option Error) (z : Zone) (qtype : ℕ) (name : Str)
    → ((e : Error) → P (Result.err e))
    → P (Result.ok (zone_answer z qtype name))
    → P (zone_result ctx z qtype name)
unfolding zone_result
result_of_answer P (some e) z qtype name errs answers = errs e
result_of_answer P none z qtype name errs answers = elim (Option-cases (value_at name z.fail)) [
  | inl q ↦ rw (q, zone_result) answers
  | inr (kind, q) ↦ rw (q, zone_result) (errs (fail_error kind name))
]

void_list-listed_records :
    (ctx : Option Error) (z : Zone) (name n : Str)
    → void_list (listed_records (λ (x : Answer). x.mx) name (zone_result ctx z type_mx n))
      ≡ void_answer (zone_result ctx z type_mx n)
unfolding mx_answer listed_records host_not_found no_such_host void_list void_answer
void_list-listed_records ctx z name n =
    result_of_answer (λ x. void_list (listed_records (λ (a : Answer). a.mx) name x) ≡ void_answer x)
      ctx z type_mx n (λ e. refl)
      (void_list-mx_answer name true (zone_answer z type_mx n) (zone_answer-mx z n))

void_list-hosts_listed :
    (ctx : Option Error) (z : Zone) (name n : Str)
    → void_list (hosts_listed name (zone_result ctx z type_a n))
      ≡ void_answer (zone_result ctx z type_a n)
unfolding host_answer hosts_listed host_not_found no_such_host void_list void_answer
void_list-hosts_listed ctx z name n =
    result_of_answer (λ x. void_list (hosts_listed name x) ≡ void_answer x) ctx z type_a n
      (λ e. refl) (void_list-mx_answer name false (zone_answer z type_a n) (zone_answer-hosts z n))

no_trace-Agrees : (ctx : Option Error) (z : Zone) → Agrees (no_trace (serve ctx z)) (serve ctx z)
unfolding fetch void serve no_trace query lookup_txt lookup_mx lookup_host
no_trace-Agrees ctx z = record {
  fetches = λ calls asked name.
      rw (replay-zone ctx z calls, replay-zone ctx z asked)
        (fetched-listed_records name (zone_result ctx z type_txt (normalize name)));
  hosts = λ calls asked name.
      rw (replay-zone ctx z calls, replay-zone ctx z asked)
        (void_list-hosts_listed ctx z name (normalize name));
  mails = λ calls asked name.
      rw (replay-zone ctx z calls, replay-zone ctx z asked)
        (void_list-listed_records ctx z name (normalize name));
}

-- An evaluation over a zone that is served without `Query` gives the report of the evaluation with
-- it, but that the void lookups are not called exact.
pub evaluate-no_trace :
    (ctx : Option Error) (z : Zone) (lim : Limits) (domain : Str)
    → let plain = evaluate (no_trace (serve ctx z)) lim domain in
      let traced = evaluate (serve ctx z) lim domain in
      (plain ≡ record traced { void_exact = false }) × (traced.void_exact ≡ true)
unfolding no_trace is_tracing serve
evaluate-no_trace ctx z lim domain = (
  evaluate_agree (no_trace (serve ctx z)) (serve ctx z) lim domain (no_trace-Agrees ctx z),
  evaluate-is_tracing (serve ctx z) lim domain,
)
