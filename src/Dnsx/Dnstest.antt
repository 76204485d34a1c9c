-- ===== src/Dnsx/Dnstest.antt =====
-- dnsx/dnstest/dnstest.go: a resolver that serves a fixed zone, and its log of questions. A map is
-- an association list; a key that it lacks reads as Go's zero value.
pub mod Names
pub mod Degraded
pub mod Counted
mod Examples
use mailkit.Prelude.{
  ℕ, zero, suc, ◌+◌, ◌-◌, ◌*◌, ◌/◌, List, [], ◌∷◌, ◌++◌, map, Bool, true, false, not, ◌&&◌, ◌||◌,
  Option, none, some, ltb, ◌==◌, if◌then◌else◌, is_empty, length,
}
use mailkit.Text.{Str, codes, eq_str, mem_str, has_suffix, decimal}
use mailkit.Dnsx.{
  Answer, Mx, Error, Result, Resolver, Question, normalize, rcode_success, rcode_name_error, type_a,
  type_mx, type_txt,
}
use mailkit.Dnsx.PublicRes.Lookups.{type_aaaa, type_ptr}

pub record Zone : Type 0 where
  pub txt : List (Str × List Str)
  pub mx : List (Str × List Mx)
  pub a : List (Str × List Str)
  pub ptr : List (Str × List Str)
  pub cname : List (Str × Str)
  pub ttl : List (Str × ℕ)
  pub fail : List (Str × Str)

-- A resolver with its log, the oldest question first.
pub record ZoneResolver : Type 0 where
  pub zone : Zone
  pub queries : List Str

unfoldable pub new : Zone → ZoneResolver
new z = record { zone = z; queries = [] }

module _ {ℓ} {A : Type ℓ} where
  unfoldable pub value_at : Str → List (Str × A) → Option A
  value_at name [] = none
  value_at name ((k, v) ∷ m) = if eq_str k name then some v else value_at name m

  -- The keys of a map.
  unfoldable pub map_keys : List (Str × A) → List Str
  map_keys [] = []
  map_keys ((k, v) ∷ m) = k ∷ map_keys m

  unfoldable pub is_present : Option A → Bool
  is_present none = false
  is_present (some v) = true

  unfoldable pub value_or : A → Option A → A
  value_or default none = default
  value_or default (some v) = v

unfoldable pub type_text : ℕ → Str
type_text qtype =
    if qtype == type_a
    then codes "A"
    else if qtype == type_mx
    then codes "MX"
    else if qtype == type_txt
    then codes "TXT"
    else if qtype == type_ptr
    then codes "PTR"
    else codes "TYPE" ++ decimal qtype

unfoldable pub qname : ℕ → Str → Str
qname qtype name = type_text qtype ++ b' ' ∷ normalize name

unfoldable pub count_in : Str → List Str → ℕ
count_in key [] = 0
count_in key (q ∷ queries) = (if eq_str q key then 1 else 0) + count_in key queries

unfoldable pub count_of : ℕ → Str → ZoneResolver → ℕ
count_of qtype name r = count_in (qname qtype name) r.queries

unfoldable pub reset : ZoneResolver → ZoneResolver
reset r = record r { queries = [] }

-- The method `record`.
unfoldable pub note_query : ℕ → Str → ZoneResolver → ZoneResolver
note_query qtype name r = record r { queries = r.queries ++ qname qtype name ∷ [] }

-- The fields of a *net.DNSError beside these are IsTimeout and IsTemporary.
unfoldable pub fail_error : Str → Str → Error
fail_error kind name =
    if eq_str kind (codes "timeout")
    then Error.dns (codes "i/o timeout") name [] false
    else if eq_str kind (codes "refused")
    then Error.dns (codes "query refused") name [] false
    else Error.dns (codes "server misbehaving") name [] false

unfoldable pub has_key : Str → Zone → Bool
has_key name z =
    is_present (value_at name z.txt)
    || is_present (value_at name z.mx)
    || is_present (value_at name z.a)
    || is_present (value_at name z.ptr)
    || is_present (value_at name z.cname)

unfoldable pub any_below : Str → List Str → Bool
any_below suffix [] = false
any_below suffix (k ∷ ks) = has_suffix suffix k || any_below suffix ks

-- The keys of the five maps, in the order of the code.
unfoldable pub all_keys : Zone → List Str
all_keys z = map_keys z.txt ++ map_keys z.mx ++ map_keys z.a ++ map_keys z.ptr ++ map_keys z.cname

unfoldable pub name_exists : Str → Zone → Bool
name_exists name z = if has_key name z then true else any_below (b'.' ∷ name) (all_keys z)

-- The loop over the chain of CNAMEs: the name it ends at, and the first hop.
unfoldable pub chase : ℕ → Zone → Str × Str → Str × Str
chase zero z (name, first) = (name, first)
chase (suc hops) z (name, first) = elim (value_at name z.cname) [
  | none ↦ (name, first)
  | some target ↦
      chase hops z (normalize target, if is_empty first then normalize target else first)
]

unfoldable pub zone_ttl : Str → Zone → ℕ
zone_ttl name z = value_or 0 (value_at name z.ttl)

-- The switch over the type: the answer with its records, and whether the name has such an entry.
unfoldable pub select : Zone → ℕ → Str → Answer → Answer × Bool
select z qtype name a =
    let txt = value_at name z.txt in
    let mx = value_at name z.mx in
    let hosts = value_at name z.a in
    let ptr = value_at name z.ptr in
    if qtype == type_txt
    then (record a { txt = value_or [] txt }, is_present txt)
    else if qtype == type_mx
    then (record a { mx = value_or [] mx }, is_present mx)
    else if qtype == type_a || qtype == type_aaaa
    then (record a { hosts = value_or [] hosts }, is_present hosts)
    else if qtype == type_ptr
    then (record a { hosts = value_or [] ptr }, is_present ptr)
    else (a, false)

-- The end of `Query`, from the name that the chain leads to.
unfoldable pub settle : Zone → Str → Answer × Bool → Answer
settle z name (a, present) =
    if not present && not (name_exists name z) then record a { rcode = rcode_name_error } else a

-- `Query` behind its tests, for a normalized name.
unfoldable pub zone_answer : Zone → ℕ → Str → Answer
zone_answer z qtype name =
    let a : Answer = record {
      rcode = rcode_success;
      ttl = zone_ttl name z;
      txt = [];
      mx = [];
      hosts = [];
    } in
    let final = (chase 8 z (name, [])).0 in settle z final (select z qtype final a)

-- The field CNAME of the answer.
unfoldable pub zone_cname : Zone → Str → Str
zone_cname z name = (chase 8 z (name, [])).1

-- What `Query` returns, from what the context's method Err returns.
unfoldable pub zone_result : Option Error → Zone → ℕ → Str → Result Answer
zone_result ctx z qtype name = elim ctx [
  | some e ↦ Result.err e
  | none ↦ elim (value_at name z.fail) [
    | some kind ↦ Result.err (fail_error kind name)
    | none ↦ Result.ok (zone_answer z qtype name)
  ]
]

unfoldable pub query : Option Error → Str → ℕ → ZoneResolver → Result Answer × ZoneResolver
query ctx name qtype r =
    let n : Str = normalize name in (zone_result ctx r.zone qtype n, note_query qtype n r)

unfoldable pub host_not_found : Str → Error
host_not_found name = Error.dns (codes "no such host") name [] true

unfoldable pub listed_records {ℓ} :
    {A : Type ℓ} → (Answer → List A) → Str → Result Answer → Result (List A)
listed_records read name (Result.err e) = Result.err e
listed_records read name (Result.ok a) =
    if a.rcode == rcode_name_error then Result.err (host_not_found name) else Result.ok (read a)

unfoldable pub hosts_listed : Str → Result Answer → Result (List Str)
hosts_listed host (Result.err e) = Result.err e
hosts_listed host (Result.ok a) =
    if a.rcode == rcode_name_error || is_empty a.hosts
    then Result.err (host_not_found host)
    else Result.ok a.hosts

unfoldable pub lookup_txt : Option Error → Str → ZoneResolver → Result (List Str) × ZoneResolver
lookup_txt ctx name r =
    let (a, r') = query ctx name type_txt r in (listed_records (λ (x : Answer). x.txt) name a, r')

unfoldable pub lookup_mx : Option Error → Str → ZoneResolver → Result (List Mx) × ZoneResolver
lookup_mx ctx name r =
    let (a, r') = query ctx name type_mx r in (listed_records (λ (x : Answer). x.mx) name a, r')

unfoldable pub lookup_host : Option Error → Str → ZoneResolver → Result (List Str) × ZoneResolver
lookup_host ctx host r = let (a, r') = query ctx host type_a r in (hosts_listed host a, r')

unfoldable pub lookup_addr : Option Error → Str → ZoneResolver → Result (List Str) × ZoneResolver
lookup_addr ctx addr r =
    let (a, r') = query ctx addr type_ptr r in (listed_records (λ (x : Answer). x.hosts) addr a, r')

-- The resolver after a question, and after all of them, the newest first.
unfoldable pub replay_one : Option Error → Question → ZoneResolver → ZoneResolver
replay_one ctx (Question.query name qtype) r = (query ctx name qtype r).1
replay_one ctx (Question.lookup_txt name) r = (lookup_txt ctx name r).1
replay_one ctx (Question.lookup_host name) r = (lookup_host ctx name r).1
replay_one ctx (Question.lookup_mx name) r = (lookup_mx ctx name r).1

unfoldable pub replay : Option Error → Zone → List Question → ZoneResolver
replay ctx z [] = new z
replay ctx z (q ∷ qs) = replay_one ctx q (replay ctx z qs)

-- What `New` returns, as its clients see it.
unfoldable pub serve : Option Error → Zone → Resolver
serve ctx z = record {
  query = some (λ calls name qtype. (query ctx name qtype (replay ctx z calls)).0);
  lookup_txt = λ calls name. (lookup_txt ctx name (replay ctx z calls)).0;
  lookup_host = λ calls name. (lookup_host ctx name (replay ctx z calls)).0;
  lookup_mx = λ calls name. (lookup_mx ctx name (replay ctx z calls)).0;
}

-- A resolver without `Query`.
unfoldable pub no_trace : Resolver → Resolver
no_trace r = record r { query = none }
