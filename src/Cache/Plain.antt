-- ===== src/Cache/Plain.antt =====
-- The lookups of a cache beside the answers that they are made of, as the SPF evaluator reads both.
use mailkit.Prelude.{if◌then◌else◌, [], Bool, true, false, ◌⊎◌, ◌≡◌, arith}
use mailkit.Text.{Str}
use mailkit.Dnsx.{
  Answer, Result, not_found, not_found_error, is_void, rcode_success, rcode_name_error,
}
use mailkit.Spf.State.{void_answer, void_list}
use mailkit.Cache.{no_such_host, mx_answer, host_answer}

-- An answer to a question about mail exchangers, or about addresses: it holds no other records, and
-- says that it succeeded or that there is no such name.
pub record IsAbout (mx : Bool) (a : Answer) : Type 0 where
  pub code : (a.rcode ≡ rcode_success) ⊎ (a.rcode ≡ rcode_name_error)
  pub no_txt : a.txt ≡ []
  pub no_mx : mx ≡ false → a.mx ≡ []
  pub no_hosts : mx ≡ true → a.hosts ≡ []

-- Whether a lookup is void comes out the same from the answer of a tracing resolver and from the
-- plain lookups that a cache makes of it: LookupMX for mail exchangers, LookupHost for addresses.
pub void_list-mx_answer :
    (name : Str) (mx : Bool) (a : Answer)
    → IsAbout mx a
    → (if mx
        then void_list (mx_answer name (Result.ok a))
        else void_list (host_answer name (Result.ok a)))
      ≡ void_answer (Result.ok a)
unfolding mx_answer host_answer void_list void_answer no_such_host not_found not_found_error is_void
void_list-mx_answer name true a h = ground (arith, h.code, h.no_txt, h.no_hosts)
void_list-mx_answer name false a h = ground (arith, h.code, h.no_txt, h.no_mx)
