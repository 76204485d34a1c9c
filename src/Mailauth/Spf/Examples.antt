-- ===== src/Mailauth/Spf/Examples.antt =====
-- Records that the parser reads.
use mailkit.Prelude.{drop, All, map, ◌≤◌, [], ◌∷◌, true, ◌≡◌, refl}
use mailkit.Text.{
  Str, codes, eq_str, mem_str, is_space, lower, to_lower, equal_fold, trim_left, keep, trim_right,
  trim_space, starts_word, cons_head, fields, index, has_prefix,
}
use mailkit.Dnsx.{Error, Result, not_found, not_found_error}
use mailkit.Spf.Terms.{
  costing_names, costs_lookup, modifier_at, split_qualifier, mechanism, parse_term,
}
use mailkit.Mailauth.Spf.Names.{is_counted, is_well_named}
use mailkit.Mailauth.Spf.Lookups.{costing, parse_spf-lookups}
use mailkit.Mailauth.Spf.{
  SpfRecord, lookup_costing, cut, cut_qualifier, name_and_arg, count_lookup, read_named, read_term,
  read_terms, empty_spf, not_spf, parse_spf_fields, parse_spf, first_spf, lookup_spf,
}

running : Unit {0}
unfolding is_well_named is_counted costing costing_names costs_lookup modifier_at split_qualifier
    mechanism parse_term eq_str mem_str is_space lower to_lower equal_fold trim_left keep trim_right
    trim_space starts_word cons_head fields index has_prefix not_found not_found_error
    lookup_costing cut cut_qualifier name_and_arg count_lookup read_named read_term read_terms
    empty_spf not_spf parse_spf_fields parse_spf first_spf lookup_spf
running = tt

abbrev policy : Str
policy = codes "V=spf1 include:a.b ?MX redirect=C.d -all"

parsed :
    parse_spf policy
    ≡ Result.ok (record {
      raw = policy;
      all = codes "-";
      lookups = 3;
      includes = codes "a.b" ∷ [];
      redirect = codes "c.d";
      has_redirect = true;
    })
unfolding running
parsed = refl

-- A length behind a mechanism hides it from the count.
hidden : parse_spf (codes "v=spf1 a/24 mx/24") ≡ Result.ok (empty_spf (codes "v=spf1 a/24 mx/24"))
unfolding running
hidden = refl

-- A text that only starts like a record hides one that follows.
shadowed :
    lookup_spf (codes "d") (Result.ok (codes "v=spf10 -all" ∷ codes "v=spf1 -all" ∷ []))
    ≡ Result.err (not_spf (codes "v=spf10 -all"))
unfolding running
shadowed = refl

no_such_domain : lookup_spf (codes "d") (Result.err Error.no_record) ≡ Result.err Error.no_record
unfolding running
no_such_domain = refl

abbrev read : SpfRecord
read = record {
  raw = policy;
  all = codes "-";
  lookups = 3;
  includes = codes "a.b" ∷ [];
  redirect = codes "c.d";
  has_redirect = true;
}

named : All (λ f. is_well_named f ≡ true) (drop 1 (fields (trim_space policy)))
unfolding running
named = (refl, (refl, (refl, (refl, tt))))

parse_spf-lookups_example : 3 ≤ costing (map parse_term (drop 1 (fields (trim_space policy))))
parse_spf-lookups_example = parse_spf-lookups policy read parsed named
