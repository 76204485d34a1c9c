-- ===== src/Mx.antt =====
-- mx/mx.go: a domain's inbound mail routing. Two things are parameters: net.ParseIP, of which the
-- code asks only whether a text is an address, and sort.Slice, which may put equal elements in any
-- order.
pub mod Order
pub mod Flagged
pub mod Reported
mod Examples
use mailkit.Prelude.{
  ℕ, List, [], ◌∷◌, ◌++◌, map, Bool, true, false, not, Option, none, some, ltb, ◌==◌, if◌then◌else◌,
  is_empty, length,
}
use mailkit.Text.{Str, trim_end}
use mailkit.Text.Order.{lt_str}
use mailkit.Sorting.{insertion, Slice}
use mailkit.Dnsx.{Mx, Error, Result, Resolver, Question, not_found, message, normalize}

pub record Host : Type 0 where
  pub host : Str
  pub pref : ℕ
  pub ips : List Str
  pub implicit : Bool

pub record Flags : Type 0 where
  pub missing : Bool
  pub null : Bool
  pub implicit : Bool
  pub single_host : Bool
  pub ip_literal : List Str
  pub unresolvable : List Str
  pub incomplete : Bool
  pub error : Str

abbrev pub no_flags : Flags
no_flags = record {
  missing = false;
  null = false;
  implicit = false;
  single_host = false;
  ip_literal = [];
  unresolvable = [];
  incomplete = false;
  error = [];
}

-- The hosts and flags so far, and the questions put to the resolver, newest first.
pub record Routing : Type 0 where
  pub hosts : List Host
  pub flags : Flags
  pub calls : List Question

unfoldable pub unfinished : Error → Flags → Flags
unfinished e f = record f { incomplete = true; error = message e }

-- sort.Strings
unfoldable pub sort_strings : List Str → List Str
sort_strings l = insertion lt_str l

-- The test of `sortHosts`.
unfoldable pub host_before : Host → Host → Bool
host_before a b = if not (a.pref == b.pref) then ltb a.pref b.pref else lt_str a.host b.host

unfoldable pub sort_ips : Host → Host
sort_ips h = record h { ips = sort_strings h.ips }

unfoldable pub sort_hosts : Slice Host → List Host → List Host
sort_hosts slice hosts = map sort_ips (slice host_before hosts)

unfoldable pub host_names : List Host → List Str
host_names [] = []
host_names (h ∷ hosts) = h.host ∷ host_names hosts

-- The switch of `implicitMX`.
unfoldable pub implicit_mx : Str → Result (List Str) → List Question → Routing
implicit_mx domain (Result.err e) calls =
    if not (not_found (some e))
    then record { hosts = []; flags = unfinished e no_flags; calls = calls }
    else record { hosts = []; flags = record no_flags { missing = true }; calls = calls }
implicit_mx domain (Result.ok []) calls = record {
  hosts = [];
  flags = record no_flags { missing = true };
  calls = calls;
}
implicit_mx domain (Result.ok (ip ∷ ips)) calls = record {
  hosts = record { host = domain; pref = 0; ips = sort_strings (ip ∷ ips); implicit = true } ∷ [];
  flags = record no_flags { implicit = true; single_host = true };
  calls = calls;
}

-- A host as the answer that names it has it, before its addresses are known.
unfoldable pub host_of : Mx → Host
host_of m = record { host = trim_end b'.' m.host; pref = m.pref; ips = []; implicit = false }

unfoldable pub note_unresolvable : Str → Flags → Flags
note_unresolvable host f = record f { unresolvable = f.unresolvable ++ host ∷ [] }

-- The switch of the loop, on the addresses of a host.
unfoldable pub resolved : Host → Result (List Str) → Routing → Routing
resolved h (Result.err e) s =
    if not_found (some e)
    then record s { hosts = s.hosts ++ h ∷ []; flags = note_unresolvable h.host s.flags }
    else record s { hosts = s.hosts ++ h ∷ []; flags = unfinished e s.flags }
resolved h (Result.ok []) s = record s {
  hosts = s.hosts ++ h ∷ [];
  flags = note_unresolvable h.host s.flags;
}
resolved h (Result.ok (ip ∷ ips)) s = record s {
  hosts = s.hosts ++ record h { ips = ip ∷ ips } ∷ [];
}

-- A single target, which is the root.
unfoldable pub is_null : List Mx → Bool
is_null [] = false
is_null (m ∷ []) = is_empty (trim_end b'.' m.host)
is_null (m ∷ n ∷ ms) = false

-- The end of `Lookup`: the hosts are counted and sorted.
unfoldable pub finish : Slice Host → Routing → Routing
finish slice s = record s {
  hosts = sort_hosts slice s.hosts;
  flags = record (s.flags) { single_host = length s.hosts == 1 };
}

module _ (is_ip : Str → Bool) (r : Resolver) where
  unfoldable pub visit : Mx → Routing → Routing
  visit m s =
      let h = host_of m in
      if is_ip h.host
      then record s {
        hosts = s.hosts ++ h ∷ [];
        flags = record (s.flags) { ip_literal = s.flags.ip_literal ++ h.host ∷ [] };
      }
      else resolved h (r.lookup_host s.calls h.host)
          (record s { calls = Question.lookup_host h.host ∷ s.calls })

  unfoldable pub visit_all : List Mx → Routing → Routing
  visit_all [] s = s
  visit_all (m ∷ ms) s = visit_all ms (visit m s)

  unfoldable pub implicit_lookup : Str → List Question → Routing
  implicit_lookup domain calls =
      implicit_mx domain (r.lookup_host calls domain) (Question.lookup_host domain ∷ calls)

  unfoldable pub routes : Slice Host → Str → Result (List Mx) → List Question → Routing
  routes slice domain (Result.err e) calls =
      if not (not_found (some e))
      then record { hosts = []; flags = unfinished e no_flags; calls = calls }
      else implicit_lookup domain calls
  routes slice domain (Result.ok mxs) calls =
      if is_empty mxs
      then implicit_lookup domain calls
      else if is_null mxs
      then record { hosts = []; flags = record no_flags { null = true }; calls = calls }
      else finish slice (visit_all mxs (record { hosts = []; flags = no_flags; calls = calls }))

  unfoldable pub lookup : Slice Host → Str → Routing
  lookup slice domain =
      let d = normalize domain in routes slice d (r.lookup_mx [] d) (Question.lookup_mx d ∷ [])
