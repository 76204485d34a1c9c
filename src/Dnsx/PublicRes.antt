-- ===== src/Dnsx/PublicRes.antt =====
-- dnsx/publicres/publicres.go: asking public resolvers in rotation. What stands on the DNS library
-- is a parameter: the two clients, which send a question to a server and return its message,
-- dns.Fqdn, and dns.RcodeToString. So is the context, by the error that it has before an attempt.
-- The counter of the rotation is a number that does not wrap.
pub mod Attempts
pub mod Answered
pub mod Lookups
mod Examples
use mailkit.Prelude.{
  ℕ, zero, suc, ◌+◌, List, [], ◌∷◌, ◌++◌, Bool, true, false, not, ◌&&◌, ◌||◌, Option, none, some,
  ltb, ◌==◌, if◌then◌else◌, is_empty, length, map, ℤ,
}
use Prim.Native.Nat.{◌%◌}
use mailkit.Text.{Str, codes, eq_str, contains, trim_end}
use mailkit.Dnsx.{
  Answer, Mx, Error, Result, normalize, message, rcode_success, rcode_name_error, type_txt, type_mx,
  type_a,
}

unfoldable pub default_servers : List Str
default_servers = codes "1.1.1.1:53" ∷ codes "8.8.8.8:53" ∷ codes "9.9.9.9:53" ∷ []

-- What a caller configures, less the timeout and the buffer size, which go to the clients.
pub record Config : Type 0 where
  pub servers : List Str
  pub attempts : ℤ

pub record Settings : Type 0 where
  pub servers : List Str
  pub attempts : ℕ

unfoldable pub with_port : Str → Str
with_port s = if contains b':' s then s else s ++ codes ":53"

unfoldable pub attempts_or : ℤ → ℕ
attempts_or (ℤ.pos zero) = 2
attempts_or (ℤ.pos (suc n)) = suc n
attempts_or (ℤ.negsuc n) = 2

unfoldable pub with_defaults : Config → Settings
with_defaults c = record {
  servers = map with_port (if is_empty c.servers then default_servers else c.servers);
  attempts = attempts_or c.attempts;
}

-- One record of a message, behind its time to live; an address is the text of it.
pub data Rdata : Type 0 where
  txt : List Str → Rdata
  mx : ℕ → Str → Rdata
  a aaaa ptr ns cname : Str → Rdata
  unread : Rdata

pub record Message : Type 0 where
  pub rcode : ℕ
  pub truncated : Bool
  pub answer : List (ℕ × Rdata)

unfoldable pub concat_strings : List Str → Str
concat_strings [] = []
concat_strings (s ∷ ss) = s ++ concat_strings ss

-- The switch of `answerFrom`. The CNAME is data that no decision reads.
unfoldable pub add_data : Rdata → Answer → Answer
add_data (txt ss) ans = record ans { txt = ans.txt ++ concat_strings ss ∷ [] }
add_data (mx pref host) ans = record ans {
  mx = ans.mx ++ record { host = trim_end b'.' host; pref = pref } ∷ [];
}
add_data (a ip) ans = record ans { hosts = ans.hosts ++ ip ∷ [] }
add_data (aaaa ip) ans = record ans { hosts = ans.hosts ++ ip ∷ [] }
add_data (ptr host) ans = record ans { hosts = ans.hosts ++ trim_end b'.' host ∷ [] }
add_data (ns host) ans = record ans { hosts = ans.hosts ++ trim_end b'.' host ∷ [] }
add_data (cname target) ans = ans
add_data unread ans = ans

unfoldable pub lower_ttl : ℕ → Answer → Answer
lower_ttl ttl ans = if ans.ttl == 0 || ltb ttl ans.ttl then record ans { ttl = ttl } else ans

unfoldable pub add_records : List (ℕ × Rdata) → Answer → Answer
add_records [] ans = ans
add_records ((ttl, d) ∷ rs) ans = add_records rs (add_data d (lower_ttl ttl ans))

unfoldable pub answer_from : Message → Answer
answer_from m =
    add_records m.answer (record { rcode = m.rcode; ttl = 0; txt = []; mx = []; hosts = [] })

-- A server by its place in the rotation.
unfoldable pub server_at : List Str → ℕ → Str
server_at [] n = []
server_at (s ∷ ss) zero = s
server_at (s ∷ ss) (suc n) = server_at ss n

-- What an attempt comes to.
pub data Verdict : Type 0 where
  answered : Answer → Verdict
  again : Error → Verdict
  refused : Error → Verdict

module _ (rcode_text : ℕ → Str) (name : Str) (server : Str) where
  unfoldable pub rcode_error : ℕ → Error
  rcode_error rcode = Error.dns (rcode_text rcode ++ (codes " from " ++ server)) name server false

  -- The switch of `Query`: 2 is a failure of the server, and 5 a refusal.
  unfoldable pub judge : Result Message → Verdict
  judge (Result.err e) = again e
  judge (Result.ok m) =
      if m.rcode == rcode_success || m.rcode == rcode_name_error
      then answered (answer_from m)
      else if m.rcode == 2 || m.rcode == 5
      then again (rcode_error m.rcode)
      else refused (rcode_error m.rcode)

unfoldable pub wrap_net : Str → Str → Error → Error
wrap_net fqdn server e = Error.dns (message e) (trim_end b'.' fqdn) server false

unfoldable pub empty_name : Str → Error
empty_name name = Error.dns (codes "empty name") name [] true

-- The error behind the last attempt.
unfoldable pub last_error : Str → Option Error → Error
last_error name none = Error.dns (codes "no answer") name [] false
last_error name (some e) = e

-- A client sends a question, by its name and type, to a server, as one attempt of many.
abbrev pub Client : Type 0
Client = ℕ → Str → ℕ → Str → Result Message

unfoldable pub wrapped_answer : Str → Str → Result Message → Result Message
wrapped_answer fqdn server (Result.ok m) = Result.ok m
wrapped_answer fqdn server (Result.err e) = Result.err (wrap_net fqdn server e)

-- A truncated message is asked for again over TCP.
unfoldable pub untruncated : Str → Str → Result Message → Result Message → Result Message
untruncated fqdn server over_tcp (Result.err e) = Result.err (wrap_net fqdn server e)
untruncated fqdn server over_tcp (Result.ok m) =
    if m.truncated then wrapped_answer fqdn server over_tcp else Result.ok m

module _ (udp tcp : Client) (ctx : ℕ → Option Error) (fqdn : Str → Str) (rcode_text : ℕ → Str)
    (cfg : Settings) where
  unfoldable pub exchange : ℕ → Str → ℕ → Str → Result Message
  exchange k question qtype server =
      untruncated question server (tcp k question qtype server) (udp k question qtype server)

  unfoldable pub verdict : Str → ℕ → ℕ → ℕ → Verdict
  verdict name qtype k next =
      let server = server_at cfg.servers (next % length cfg.servers) in
      judge rcode_text name server (exchange k (fqdn (normalize name)) qtype server)

  -- The loop of `Query` with the attempts left, the number of this one, the last error and the
  -- counter of the rotation.
  unfoldable pub query_loop : Str → ℕ → ℕ → ℕ → Option Error → ℕ → Result Answer × ℕ
  query_loop name qtype zero k last next = (Result.err (last_error name last), next)
  query_loop name qtype (suc n) k last next = elim (ctx k) [
    | some e ↦ (Result.err e, next)
    | none ↦ elim (verdict name qtype k next) [
      | answered ans ↦ (Result.ok ans, next + 1)
      | again e ↦ query_loop name qtype n (k + 1) (some e) (next + 1)
      | refused e ↦ (Result.err e, next + 1)
    ]
  ]

  unfoldable pub query : Str → ℕ → ℕ → Result Answer × ℕ
  query name qtype next =
      if eq_str (fqdn (normalize name)) (codes ".")
      then (Result.err (empty_name name), next)
      else query_loop name qtype cfg.attempts 0 none next
