-- ===== src/Mx/Examples.antt =====
-- The routing of small domains.
use mathlib.Core.List.{cons≢nil}
use mathlib.Core.List.Perm
use mailkit.Prelude.{
  List, [], ◌∷◌, map, Bool, true, not, ◌||◌, ◌&&◌, none, ◌==◌, All, ◌≡◌, refl, is_empty, length,
  if◌then◌else◌,
}
use mailkit.Text.{
  Str, codes, eq_str, mem_str, is_space, lower, to_lower, trim_left, keep, trim_right, trim_space,
  cons_head, index, last_index, contains, index_any, has_prefix, index_str, trim_end, split,
}
use mailkit.Text.Order.{lt_str}
use mailkit.Sorting.{insert, insertion, Slice, IsSlice}
use mailkit.Sorting.Laws.{insertion-perm, insertion-IsOrdered}
use mailkit.Dnsx.{
  Mx, Error, Result, Resolver, Question, not_found_error, not_found, message, after_scheme,
  before_path, after_user, before_port, trim_www, normalize_host, normalize,
}
use mailkit.Mx.{
  Host, no_flags, unfinished, sort_strings, host_before, sort_ips, sort_hosts, host_names,
  implicit_mx, host_of, note_unresolvable, resolved, is_null, finish, visit, visit_all,
  implicit_lookup, routes, lookup,
}
use mailkit.Mx.Order.{place, lookup-perm}
use mailkit.Mx.Flagged.{is_accounted, lookup-accounted}
use mailkit.Mx.Reported.{lookup-IsReported}

-- What a run of the lookup computes with.
running : Unit {0}
unfolding eq_str mem_str is_space lower to_lower trim_left keep trim_right trim_space cons_head
    index last_index contains index_any has_prefix index_str trim_end split after_scheme before_path
    after_user before_port trim_www normalize_host normalize lt_str insert insertion not_found_error
    not_found message unfinished sort_strings host_before sort_ips sort_hosts host_names implicit_mx
    host_of note_unresolvable resolved is_null finish visit visit_all implicit_lookup routes lookup
running = tt

abbrev is_ip : Str → Bool
is_ip host = eq_str host (codes "192.0.2.9")

abbrev slice : Slice Host
slice less hosts = insertion less hosts

slice-IsSlice : IsSlice slice
slice-IsSlice = record {
  rearranges = λ less l. insertion-perm less l;
  orders = λ less l o. insertion-IsOrdered less o l;
}

-- One host has addresses, and the rest have none.
abbrev addresses : List Question → Str → Result (List Str)
addresses _ host =
    if eq_str host (codes "a.example")
    then Result.ok (codes "192.0.2.2" ∷ codes "192.0.2.1" ∷ [])
    else Result.err Error.no_record

abbrev resolver : List Mx → Resolver
resolver mxs = record {
  query = none;
  lookup_txt = λ _ _. Result.err Error.no_record;
  lookup_host = addresses;
  lookup_mx = λ _ _. Result.ok mxs;
}

abbrev first : Mx
first = record { host = codes "b.example."; pref = 10 }

abbrev second : Mx
second = record { host = codes "a.example."; pref = 10 }

abbrev third : Mx
third = record { host = codes "192.0.2.9"; pref = 5 }

abbrev three : List Mx
three = first ∷ second ∷ third ∷ []

abbrev domain : Str
domain = codes "Example."

routing :
    (map place (lookup is_ip (resolver three) slice domain).hosts
      ≡ (5, codes "192.0.2.9") ∷ (10, codes "a.example") ∷ (10, codes "b.example") ∷ [])
    × ((lookup is_ip (resolver three) slice domain).flags ≡ record no_flags {
      ip_literal = codes "192.0.2.9" ∷ [];
      unresolvable = codes "b.example" ∷ [];
    })
unfolding running
routing = (refl, refl)

sorted :
    host_names (lookup is_ip (resolver []) slice (codes "A.example")).hosts ≡ codes "a.example" ∷ []
unfolding running
sorted = refl

refused :
    (lookup is_ip (resolver (record { host = codes "."; pref = 0 } ∷ [])) slice domain).flags
    ≡ record no_flags { null = true }
unfolding running
refused = refl

lookup-perm_example :
    map place (lookup is_ip (resolver three) slice domain).hosts
    ≡ map place (lookup is_ip (resolver (second ∷ first ∷ third ∷ [])) slice domain).hosts
lookup-perm_example =
    lookup-perm slice slice-IsSlice is_ip (resolver three) (resolver (second ∷ first ∷ third ∷ []))
      domain three (second ∷ first ∷ third ∷ []) refl refl (Perm.swap second first (third ∷ []))
      (λ e. cons≢nil e)

lookup-accounted_example :
    All
      (λ h. is_accounted (lookup is_ip (resolver three) slice domain).flags h ≡ true)
      (lookup is_ip (resolver three) slice domain).hosts
lookup-accounted_example = lookup-accounted is_ip (resolver three) slice slice-IsSlice domain

lookup-IsReported_example :
    ((lookup is_ip (resolver three) slice domain).flags.single_host
      ≡ (length (lookup is_ip (resolver three) slice domain).hosts == 1))
    × (((lookup is_ip (resolver three) slice domain).flags.missing
          || (lookup is_ip (resolver three) slice domain).flags.null)
        ≡ (is_empty (lookup is_ip (resolver three) slice domain).hosts
            && not (lookup is_ip (resolver three) slice domain).flags.incomplete))
lookup-IsReported_example = lookup-IsReported is_ip (resolver three) slice slice-IsSlice domain
