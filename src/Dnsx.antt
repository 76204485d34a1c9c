-- ===== src/Dnsx.antt =====
-- dnsx/dnsx.go and dnsx/errors.go: names, answers, errors, and the resolver as a parameter.
pub mod Names
pub mod Errors
pub mod RateLimit
pub mod PublicRes
pub mod Dnstest
mod Examples
use mailkit.Prelude.{
  ℕ, suc, ◌+◌, List, [], ◌∷◌, ◌++◌, Bool, true, false, not, ◌&&◌, ◌||◌, Option, none, some, ◌==◌,
  if◌then◌else◌, is_empty, ◌≡◌, refl, ◌⊎◌, inl, inr, take, drop,
}
use mailkit.Text.{
  Str, codes, eq_str, to_lower, trim_space, trim_end, index_str, index_any, last_index, contains,
  has_prefix, has_suffix, split,
}

-- What stands behind "://".
unfoldable pub after_scheme : Str → Str
after_scheme d = elim (index_str (codes "://") d) [ none ↦ d | some i ↦ drop (i + 3) d ]

unfoldable pub before_path : Str → Str
before_path d = elim (index_any (codes "/?#") d) [ none ↦ d | some i ↦ take i d ]

unfoldable pub after_user : Str → Str
after_user d = elim (last_index b'@' d) [ none ↦ d | some i ↦ drop (i + 1) d ]

unfoldable pub before_port : Str → Str
before_port d = elim (last_index b':' d) [
  | none ↦ d
  | some i ↦ if not (contains b']' d) then take i d else d
]

-- strings.TrimPrefix(d, "www.")
unfoldable pub trim_www : Str → Str
trim_www d = if has_prefix (codes "www.") d then drop 4 d else d

-- The steps of `Normalize` behind its test for an empty text.
unfoldable pub normalize_host : Str → Str
normalize_host d =
    let host = before_port (after_user (before_path (after_scheme d))) in
    trim_www (to_lower (trim_end b'.' (trim_space host)))

unfoldable pub normalize : Str → Str
normalize domain = let d = trim_space domain in if is_empty d then [] else normalize_host d

unfoldable pub is_subdomain_of : Str → Str → Bool
is_subdomain_of host name =
    let h = normalize host in
    let n = normalize name in
    if is_empty h || is_empty n then false else eq_str h n || has_suffix (b'.' ∷ n) h

-- The empty list stands for nil.
unfoldable pub labels : Str → List Str
labels name = let n = normalize name in if is_empty n then [] else split b'.' n

-- Response codes and query types.
abbrev pub rcode_success : ℕ
rcode_success = 0

abbrev pub rcode_name_error : ℕ
rcode_name_error = 3

abbrev pub type_a : ℕ
type_a = 1

abbrev pub type_mx : ℕ
type_mx = 15

abbrev pub type_txt : ℕ
type_txt = 16

-- An MX record of package net.
pub record Mx : Type 0 where
  pub host : Str
  pub pref : ℕ

-- One DNS response. Its name, query type, server and CNAME target are data that no decision reads.
pub record Answer : Type 0 where
  pub rcode : ℕ
  pub ttl : ℕ
  pub txt : List Str
  pub mx : List Mx
  pub hosts : List Str

-- `none` is the nil pointer.
unfoldable pub is_void : Option Answer → Bool
is_void none = true
is_void (some a) =
    a.rcode == rcode_name_error
    || (a.rcode == rcode_success && is_empty a.txt && is_empty a.mx && is_empty a.hosts)

-- An error of a resolver, as errors.Is and errors.As see it: `no_record` is ErrNoRecord, `dns` a
-- *net.DNSError by its text, name, server and IsNotFound, `wrapped` what fmt.Errorf makes with %w.
pub data Error : Type 0 where
  no_record : Error
  dns : Str → Str → Str → Bool → Error
  deadline_exceeded canceled : Error
  other : Str → Error
  wrapped : Str → Error → Error

unfoldable pub not_found_error : Error → Bool
not_found_error no_record = true
not_found_error (dns text name server is_not_found) = is_not_found
not_found_error (wrapped text e) = not_found_error e
not_found_error _ = false

-- `NotFound`; `none` is nil.
unfoldable pub not_found : Option Error → Bool
not_found none = false
not_found (some e) = not_found_error e

unfoldable pub unanswered_error : Error → Bool
unanswered_error no_record = false
unanswered_error (dns text name server is_not_found) = not is_not_found
unanswered_error (wrapped text e) = unanswered_error e
unanswered_error _ = true

unfoldable pub unanswered : Option Error → Bool
unanswered none = false
unanswered (some e) = unanswered_error e

-- `Void`, of an error.
unfoldable pub void_error : Option Error → Bool
void_error e = not_found e

-- What the method Error returns. The text of a *net.DNSError is Go's.
unfoldable pub message : Error → Str
message no_record = codes "dnsx: no record published"
message (dns text name server is_not_found) =
    codes "lookup "
    ++ name
    ++ (if is_empty server then [] else codes " on " ++ server)
    ++ codes ": "
    ++ text
message deadline_exceeded = codes "context deadline exceeded"
message canceled = codes "context canceled"
message (other text) = text
message (wrapped text e) = text ++ message e

-- A value or an error, as Go's pair of both.
pub data Result {ℓ} (A : Type ℓ) : Type ℓ where
  ok : A → Result A
  err : Error → Result A

pub Result-cases {ℓ} :
    {A : Type ℓ} (m : Result A) → ((a : A) × (m ≡ Result.ok a)) ⊎ ((e : Error) × (m ≡ Result.err e))
Result-cases (Result.ok a) = inl (a, refl)
Result-cases (Result.err e) = inr (e, refl)

-- A question put to a resolver.
pub data Question : Type 0 where
  query : Str → ℕ → Question
  lookup_txt lookup_host lookup_mx : Str → Question

-- The type and the name that a question is about.
unfoldable pub question_type : Question → ℕ
question_type (Question.query name qtype) = qtype
question_type (Question.lookup_txt name) = type_txt
question_type (Question.lookup_host name) = type_a
question_type (Question.lookup_mx name) = type_mx

unfoldable pub question_name : Question → Str
question_name (Question.query name qtype) = name
question_name (Question.lookup_txt name) = name
question_name (Question.lookup_host name) = name
question_name (Question.lookup_mx name) = name

-- A resolver is code outside of this module: it answers a question as it likes, also by what it was
-- asked before. `query` is there when the value implements TracingResolver.
pub record Resolver : Type 0 where
  pub query : Option (List Question → Str → ℕ → Result Answer)
  pub lookup_txt : List Question → Str → Result (List Str)
  pub lookup_host : List Question → Str → Result (List Str)
  pub lookup_mx : List Question → Str → Result (List Mx)
