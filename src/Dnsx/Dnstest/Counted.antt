-- ===== src/Dnsx/Dnstest/Counted.antt =====
-- dnsx/dnstest/dnstest.go: the log of the questions, and what CountOf reads from it.
use mailkit.Prelude.{
  ℕ, ◌+◌, List, [], ◌∷◌, ◌++◌, true, false, ◌&&◌, Option, ◌==◌, if◌then◌else◌, drop, ◌≡◌, refl, sym,
  All, ap, ◌∙◌, arith, Bool-cases, inl, inr,
}
use mailkit.Text.{Str, codes, eq_str, contains}
use mailkit.Text.Equality.{eq_str_sound, eq_str_refl}
use mailkit.Text.Decimal.{value_of, value_of-decimal, contains-decimal}
use mailkit.Dnsx.{
  Error, Question, question_type, question_name, normalize, type_a, type_mx, type_txt,
}
use mailkit.Dnsx.PublicRes.Lookups.{type_ptr}
use mailkit.Dnsx.Dnstest.{
  Zone, ZoneResolver, new, type_text, qname, count_in, count_of, note_query, query, lookup_txt,
  lookup_mx, lookup_host, lookup_addr, replay_one,
}

-- The type that a text of the log names.
type_of : Str → ℕ
type_of t =
    if eq_str t (codes "A")
    then type_a
    else if eq_str t (codes "MX")
    then type_mx
    else if eq_str t (codes "TXT")
    then type_txt
    else if eq_str t (codes "PTR")
    then type_ptr
    else value_of 0 (drop 4 t)

type_of-type_text : (qtype : ℕ) → type_of (type_text qtype) ≡ qtype
unfolding type_of type_text eq_str
type_of-type_text qtype = ground (arith, value_of-decimal qtype)

contains-type_text : (qtype : ℕ) → contains b' ' (type_text qtype) ≡ false
unfolding type_text contains
contains-type_text qtype = ground (arith, contains-decimal b' ' qtype (omega arith))

eq_str-spaced :
    (s t m n : Str)
    → contains b' ' s ≡ false
    → contains b' ' t ≡ false
    → eq_str (s ++ b' ' ∷ m) (t ++ b' ' ∷ n) ≡ (eq_str s t && eq_str m n)
unfolding eq_str contains
eq_str-spaced [] [] m n h g = ground arith
eq_str-spaced [] (d ∷ t) m n h g = ground arith
eq_str-spaced (c ∷ s) [] m n h g = ground arith
eq_str-spaced (c ∷ s) (d ∷ t) m n h g = ground (arith, eq_str-spaced s t m n)

eq_str-type_text : (p q : ℕ) → eq_str (type_text p) (type_text q) ≡ (p == q)
eq_str-type_text p q = elim (Bool-cases (eq_str (type_text p) (type_text q))) [
  | inl e ↦
      let same : p ≡ q =
        sym (type_of-type_text p)
        ∙ ap type_of (eq_str_sound (type_text p) (type_text q) e)
        ∙ type_of-type_text q in
      ground (arith, same, e)
  | inr e ↦ elim (Bool-cases (p == q)) [
    | inl f ↦
        let same : p ≡ q = ground arith in
        let texts = eq_str_refl (type_text p) in
        let t : eq_str (type_text p) (type_text q) ≡ true =
          ap (λ x. eq_str (type_text p) (type_text x)) (sym same) ∙ texts in
        cc
    | inr f ↦ e ∙ sym f
  ]
]

-- Two lines of the log are the same when their types and their normalized names are.
eq_str-qname :
    (p q : ℕ) (m n : Str)
    → eq_str (qname p m) (qname q n) ≡ (p == q && eq_str (normalize m) (normalize n))
unfolding qname
eq_str-qname p q m n =
    eq_str-spaced (type_text p) (type_text q) (normalize m) (normalize n) (contains-type_text p)
      (contains-type_text q)
    ∙ ap (λ b. b && eq_str (normalize m) (normalize n)) (eq_str-type_text p q)

-- A call of one of the methods: one that package spf makes, or LookupAddr.
pub data Call : Type 0 where
  ask : Question → Call
  addr : Str → Call

abbrev pub call_type : Call → ℕ
call_type (Call.ask q) = question_type q
call_type (Call.addr a) = type_ptr

abbrev pub call_name : Call → Str
call_name (Call.ask q) = question_name q
call_name (Call.addr a) = a

-- The resolver after some calls, the newest first.
abbrev pub after_call : Option Error → Call → ZoneResolver → ZoneResolver
after_call ctx (Call.ask q) r = replay_one ctx q r
after_call ctx (Call.addr a) r = (lookup_addr ctx a r).1

abbrev pub after_calls : Option Error → Zone → List Call → ZoneResolver
after_calls ctx z [] = new z
after_calls ctx z (c ∷ cs) = after_call ctx c (after_calls ctx z cs)

-- How many of some calls are about a type and a name, names that Normalize makes equal being one.
abbrev pub calls_about : ℕ → Str → List Call → ℕ
calls_about qtype name [] = 0
calls_about qtype name (c ∷ cs) =
    (if call_type c == qtype && eq_str (normalize (call_name c)) (normalize name) then 1 else 0)
    + calls_about qtype name cs

-- Normalize does not change the name a second time.
abbrev pub IsSettled : Call → Type 0
IsSettled c = normalize (normalize (call_name c)) ≡ normalize (call_name c)

count_in-concat :
    (key q : Str) (l : List Str)
    → count_in key (l ++ q ∷ []) ≡ (if eq_str q key then 1 else 0) + count_in key l
unfolding count_in
count_in-concat key q [] = refl
count_in-concat key q (p ∷ l) = omega (arith, count_in-concat key q l)

replay_one-queries :
    (ctx : Option Error) (q : Question) (r : ZoneResolver)
    → (replay_one ctx q r).queries
      ≡ r.queries ++ qname (question_type q) (normalize (question_name q)) ∷ []
unfolding replay_one query lookup_txt lookup_mx lookup_host note_query question_type question_name
replay_one-queries ctx (Question.query name qtype) r = refl
replay_one-queries ctx (Question.lookup_txt name) r = refl
replay_one-queries ctx (Question.lookup_host name) r = refl
replay_one-queries ctx (Question.lookup_mx name) r = refl

after_call-queries :
    (ctx : Option Error) (c : Call) (r : ZoneResolver)
    → (after_call ctx c r).queries ≡ r.queries ++ qname (call_type c) (normalize (call_name c)) ∷ []
unfolding lookup_addr query note_query
after_call-queries ctx (Call.ask q) r = replay_one-queries ctx q r
after_call-queries ctx (Call.addr a) r = refl

-- CountOf tells how many of the calls made so far, of whichever method, were about a type and a
-- name, whatever came of them, as long as no call named a name that Normalize changes twice.
pub count_of-calls :
    (ctx : Option Error) (z : Zone) (cs : List Call) (qtype : ℕ) (name : Str)
    → All IsSettled cs
    → count_of qtype name (after_calls ctx z cs) ≡ calls_about qtype name cs
unfolding count_of new count_in
count_of-calls ctx z [] qtype name h = refl
count_of-calls ctx z (c ∷ cs) qtype name (h, hs) =
    let line = qname (call_type c) (normalize (call_name c)) in
    let before = after_calls ctx z cs in
    ap (λ l. count_in (qname qtype name) l) (after_call-queries ctx c before)
    ∙ count_in-concat (qname qtype name) line before.queries
    ∙ ground (
      arith,
      h,
      count_of-calls ctx z cs qtype name hs,
      eq_str-qname (call_type c) qtype (normalize (call_name c)) name,
    )
