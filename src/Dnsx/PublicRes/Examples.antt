-- ===== src/Dnsx/PublicRes/Examples.antt =====
-- Two servers, of which the first one fails.
use mailkit.Prelude.{
  ℕ, ◌+◌, ◌≤◌, [], ◌∷◌, ◌++◌, true, false, Option, none, ◌==◌, if◌then◌else◌, length, ◌≡◌, refl,
  inl, ap, ℤ, ◌≢◌,
}
use mailkit.Text.{
  Str, codes, eq_str, is_space, lower, to_lower, trim_left, keep, trim_right, trim_space, cons_head,
  index, last_index, contains, index_any, has_prefix, index_str, trim_end, split,
}
use mailkit.Dnsx.{
  Error, Result, message, after_scheme, before_path, after_user, before_port, trim_www,
  normalize_host, normalize, type_txt,
}
use mailkit.Dnsx.PublicRes.{
  Settings, Message, Rdata, Client, default_servers, with_port, attempts_or, with_defaults,
  concat_strings, add_data, lower_ttl, add_records, answer_from, server_at, rcode_error, judge,
  wrap_net, empty_name, last_error, wrapped_answer, untruncated, exchange, verdict, query_loop,
  query,
}
use mailkit.Dnsx.PublicRes.Lookups.{
  type_aaaa, no_such_name, txt_records, found_hosts, hosts_of, lookup_txt, lookup_host,
}
use mailkit.Dnsx.PublicRes.Attempts.{IsOpen, IsContext, query-IsOpen}
use mailkit.Dnsx.PublicRes.Answered.{IsAnswered, query-IsAnswered}

running : Unit {0}
unfolding eq_str is_space lower to_lower trim_left keep trim_right trim_space cons_head index
    last_index contains index_any has_prefix index_str trim_end split after_scheme before_path
    after_user before_port trim_www normalize_host normalize message default_servers with_port
    attempts_or with_defaults concat_strings add_data lower_ttl add_records answer_from server_at
    rcode_error judge wrap_net empty_name last_error wrapped_answer untruncated exchange verdict
    query_loop query no_such_name txt_records found_hosts hosts_of lookup_txt lookup_host
running = tt

abbrev two_servers : Settings
two_servers = record { servers = codes "a:53" ∷ codes "b:53" ∷ []; attempts = 2 }

set :
    with_defaults (record { servers = codes "a" ∷ codes "b:53" ∷ []; attempts = ℤ.negsuc 0 })
    ≡ two_servers
unfolding running
set = refl

abbrev spf : Message
spf = record {
  rcode = 0;
  truncated = false;
  answer = (300, Rdata.txt (codes "v=spf1 " ∷ codes "-all" ∷ [])) ∷ [];
}

abbrev failed : Message
failed = record { rcode = 2; truncated = false; answer = [] }

abbrev client : Client
client k question qtype server =
    if eq_str server (codes "b:53") then Result.ok spf else Result.ok failed

abbrev no_tcp : Client
no_tcp k question qtype server = Result.err Error.deadline_exceeded

abbrev ctx : ℕ → Option Error
ctx k = none

abbrev fqdn : Str → Str
fqdn name = name ++ codes "."

abbrev rcode_text : ℕ → Str
rcode_text rcode = codes "SERVFAIL"

abbrev name : Str
name = codes "example.org"

second_answers :
    lookup_txt client no_tcp ctx fqdn rcode_text two_servers name 0
    ≡ (Result.ok (codes "v=spf1 -all" ∷ []), 2)
unfolding running
second_answers = refl

-- A time to live of zero is taken for one that was not read yet.
zero_forgotten :
    (answer_from (record {
      rcode = 0;
      truncated = false;
      answer = (0, Rdata.a (codes "192.0.2.1")) ∷ (300, Rdata.a (codes "192.0.2.2")) ∷ [];
    })).ttl
    ≡ 300
unfolding running
zero_forgotten = refl

abbrev no_a : Message
no_a = record { rcode = 0; truncated = false; answer = [] }

abbrev half_client : Client
half_client k question qtype server =
    if qtype == type_aaaa then Result.err Error.deadline_exceeded else Result.ok no_a

-- A host without an A record, whose AAAA record nobody answered for, is said not to exist.
said_absent :
    (lookup_host half_client no_tcp ctx fqdn rcode_text two_servers name 0).0
    ≡ Result.err (no_such_name name)
unfolding running
said_absent = refl

ctx-IsContext : IsContext ctx
ctx-IsContext = record { ends = λ k. inl refl }

dotted : fqdn (normalize name) ≢ codes "."
unfolding running
dotted h = let e : false ≡ true = ap (λ s. length s == 1) h in cc e

query-IsOpen_example :
    IsOpen (query client no_tcp ctx fqdn rcode_text two_servers name type_txt 0).0
query-IsOpen_example =
    query-IsOpen client no_tcp ctx fqdn rcode_text two_servers ctx-IsContext name type_txt 0 dotted

query-IsAnswered_example :
    ((query client no_tcp ctx fqdn rcode_text two_servers name type_txt 0).1 ≤ 0 + 2)
    × IsAnswered client no_tcp ctx fqdn rcode_text two_servers name type_txt 0 2
        (query client no_tcp ctx fqdn rcode_text two_servers name type_txt 0).0
query-IsAnswered_example =
    query-IsAnswered client no_tcp ctx fqdn rcode_text two_servers name type_txt 0
