-- ===== src/Dnsx/Dnstest/Examples.antt =====
-- A small zone, and what is asked of it.
use mailkit.Prelude.{List, [], ◌∷◌, true, false, none, ◌≡◌, refl, length, All}
use mailkit.Text.{codes, decimal, decimal_from}
use mailkit.Dnsx.{Error, Result, Question, question_name, question_type, type_a, type_txt}
use mailkit.Spf.Tree.{default_limits}
use mailkit.Spf.Walk.{evaluate}
use mailkit.Dnsx.Dnstest.{
  Zone, new, value_at, map_keys, is_present, value_or, type_text, qname, count_in, count_of, reset,
  note_query, fail_error, has_key, any_below, all_keys, name_exists, chase, zone_ttl, select,
  settle, zone_answer, zone_cname, zone_result, query, host_not_found, listed_records, hosts_listed,
  lookup_txt, lookup_mx, lookup_host, lookup_addr, replay_one, replay, serve, no_trace,
}
use mailkit.Dnsx.Dnstest.Degraded.{evaluate-no_trace}
use mailkit.Dnsx.Dnstest.Counted.{Call, IsSettled, after_calls, calls_about, count_of-calls}
use mailkit.Spf.Evaluating.{evaluating}

-- What a question to a zone computes with.
serving : Unit {0}
unfolding new value_at map_keys is_present value_or type_text qname count_in count_of reset
    note_query fail_error has_key any_below all_keys name_exists chase zone_ttl select settle
    zone_answer zone_cname zone_result query host_not_found listed_records hosts_listed lookup_txt
    lookup_mx lookup_host lookup_addr replay_one replay serve no_trace decimal decimal_from
    evaluating
serving = tt

abbrev small : Zone
small = record {
  txt =
      (codes "example.com", codes "v=spf1 include:slow.example a mx -all" ∷ [])
      ∷ (codes "slow.example", codes "v=spf1 -all" ∷ [])
      ∷ [];
  mx = (codes "example.com", record { host = codes "mx.example.com"; pref = 10 } ∷ []) ∷ [];
  a = (codes "mx.example.com", codes "192.0.2.1" ∷ []) ∷ (codes "deep.b.example.com", []) ∷ [];
  ptr = [];
  cname = (codes "alias.example", codes "MX.example.com.") ∷ [];
  ttl = (codes "example.com", 300) ∷ [];
  fail = (codes "dead.example", codes "timeout") ∷ [];
}

-- An alias leads to the records of its target, whose name is kept.
alias_answer :
    (zone_result none small type_a (codes "alias.example")
      ≡ Result.ok record { rcode = 0; ttl = 0; txt = []; mx = []; hosts = codes "192.0.2.1" ∷ [] })
    × (zone_cname small (codes "alias.example") ≡ codes "mx.example.com")
unfolding serving
alias_answer = (refl, refl)

-- A name with nothing but a name beneath it exists; one that is not there does not.
empty_answer :
    ((zone_answer small type_txt (codes "b.example.com")).rcode ≡ 0)
    × ((zone_answer small type_txt (codes "c.example.com")).rcode ≡ 3)
    × ((lookup_addr none (codes "192.0.2.1") (new small)).0
        ≡ Result.err (Error.dns (codes "no such host") (codes "192.0.2.1") [] true))
    × ((query none (codes "dead.example") 28 (new small)).0
        ≡ Result.err (Error.dns (codes "i/o timeout") (codes "dead.example") [] false))
    × ((query none (codes "dead.example") 28 (new small)).1.queries
        ≡ codes "TYPE28 dead.example" ∷ [])
    × ((reset (query none (codes "dead.example") 28 (new small)).1).queries ≡ [])
unfolding serving
empty_answer = (refl, refl, refl, refl, refl, refl)

-- A name that Normalize changes twice is not found again in the log.
counted_www :
    (count_of 16
        (codes "www.www.example.com")
        (query none (codes "www.www.example.com") 16 (new small)).1
      ≡ 0)
    × (count_of 16 (codes "example.com") (query none (codes "www.www.example.com") 16 (new small)).1
        ≡ 1)
unfolding serving
counted_www = (refl, refl)

evaluate-no_trace_example :
    let plain = evaluate (no_trace (serve none small)) default_limits (codes "example.com") in
    let traced = evaluate (serve none small) default_limits (codes "example.com") in
    (plain ≡ record traced { void_exact = false }) × (traced.void_exact ≡ true)
evaluate-no_trace_example = evaluate-no_trace none small default_limits (codes "example.com")

small_report :
    let out = evaluate (no_trace (serve none small)) default_limits (codes "example.com") in
    (out.terms ≡ 3) × (out.void ≡ 1) × (length out.nodes ≡ 4)
unfolding serving
small_report = (refl, refl, refl)

abbrev three_calls : List Call
three_calls =
    Call.addr (codes "192.0.2.1")
    ∷ Call.ask (Question.lookup_txt (codes "www.example.com"))
    ∷ Call.ask (Question.query (codes "Example.com.") 16)
    ∷ []

three_calls-IsSettled : All IsSettled three_calls
unfolding serving question_name
three_calls-IsSettled = (refl, (refl, (refl, tt)))

count_of-calls_example :
    count_of 16 (codes "example.com") (after_calls none small three_calls)
    ≡ calls_about 16 (codes "example.com") three_calls
count_of-calls_example =
    count_of-calls none small three_calls 16 (codes "example.com") three_calls-IsSettled

two_counted : calls_about 16 (codes "example.com") three_calls ≡ 2
unfolding serving question_name question_type
two_counted = refl
