-- ===== src/Finding/Codes.antt =====
-- finding/codes.go: every code, and the sorted list of them.
pub mod Covered
use mailkit.Prelude.{List, [], ◌∷◌}
use mailkit.Text.{Str, codes}
use mailkit.Text.Order.{lt_str}
use mailkit.Sorting.{insertion}

abbrev pub spf_missing : Str
spf_missing = codes "spf_missing"

abbrev pub spf_multiple : Str
spf_multiple = codes "spf_multiple_records"

abbrev pub spf_syntax_invalid : Str
spf_syntax_invalid = codes "spf_syntax_invalid"

abbrev pub spf_over_lookup_limit : Str
spf_over_lookup_limit = codes "spf_too_many_lookups"

abbrev pub spf_near_lookup_limit : Str
spf_near_lookup_limit = codes "spf_lookups_near_limit"

abbrev pub spf_broken_include : Str
spf_broken_include = codes "spf_broken_include"

abbrev pub spf_include_cycle : Str
spf_include_cycle = codes "spf_include_cycle"

abbrev pub spf_void_limit : Str
spf_void_limit = codes "spf_void_lookups_exceeded"

abbrev pub spf_redirect_ignored : Str
spf_redirect_ignored = codes "spf_redirect_ignored"

abbrev pub spf_all_pass : Str
spf_all_pass = codes "spf_all_pass"

abbrev pub spf_all_neutral : Str
spf_all_neutral = codes "spf_all_neutral"

abbrev pub spf_all_softfail : Str
spf_all_softfail = codes "spf_all_softfail"

abbrev pub spf_no_all : Str
spf_no_all = codes "spf_no_all"

abbrev pub spf_eval_incomplete : Str
spf_eval_incomplete = codes "spf_eval_incomplete"

abbrev pub dmarc_missing : Str
dmarc_missing = codes "dmarc_missing"

abbrev pub dmarc_multiple : Str
dmarc_multiple = codes "dmarc_multiple_records"

abbrev pub dmarc_syntax_invalid : Str
dmarc_syntax_invalid = codes "dmarc_syntax_invalid"

abbrev pub dmarc_monitoring_only : Str
dmarc_monitoring_only = codes "dmarc_monitoring_only"

abbrev pub dmarc_bad_policy : Str
dmarc_bad_policy = codes "dmarc_bad_policy"

abbrev pub dmarc_no_rua : Str
dmarc_no_rua = codes "dmarc_no_rua"

abbrev pub dmarc_rua_unauthorized : Str
dmarc_rua_unauthorized = codes "dmarc_rua_external_unverified"

abbrev pub dmarc_testing_mode : Str
dmarc_testing_mode = codes "dmarc_testing_mode"

abbrev pub dmarc_partial_percentage : Str
dmarc_partial_percentage = codes "dmarc_partial_pct"

abbrev pub mx_missing : Str
mx_missing = codes "mx_missing"

abbrev pub mx_null : Str
mx_null = codes "mx_null"

abbrev pub mx_forwarding_only : Str
mx_forwarding_only = codes "mx_forwarding_only"

abbrev pub mx_unresolvable : Str
mx_unresolvable = codes "mx_unresolvable"

abbrev pub mx_ip_literal : Str
mx_ip_literal = codes "mx_ip_literal"

abbrev pub vendor_unknown_include : Str
vendor_unknown_include = codes "spf_unknown_provider"

abbrev pub dkim_selector_observed : Str
dkim_selector_observed = codes "dkim_selector_observed"

abbrev pub lookup_failed : Str
lookup_failed = codes "lookup_failed"

unfoldable pub all_codes : List Str
all_codes =
    spf_missing ∷ spf_multiple ∷ spf_syntax_invalid ∷ spf_over_lookup_limit ∷ spf_near_lookup_limit
    ∷ spf_broken_include ∷ spf_include_cycle ∷ spf_void_limit ∷ spf_redirect_ignored ∷ spf_all_pass
    ∷ spf_all_neutral ∷ spf_all_softfail ∷ spf_no_all ∷ spf_eval_incomplete ∷ dmarc_missing
    ∷ dmarc_multiple ∷ dmarc_syntax_invalid ∷ dmarc_monitoring_only ∷ dmarc_bad_policy
    ∷ dmarc_no_rua ∷ dmarc_rua_unauthorized ∷ dmarc_testing_mode ∷ dmarc_partial_percentage
    ∷ mx_missing ∷ mx_null ∷ mx_forwarding_only ∷ mx_unresolvable ∷ mx_ip_literal
    ∷ vendor_unknown_include ∷ dkim_selector_observed ∷ lookup_failed ∷ []

-- `Codes`, where sort.Strings puts a list in order by `lt_str`.
unfoldable pub sorted_codes : List Str
sorted_codes = insertion lt_str all_codes
