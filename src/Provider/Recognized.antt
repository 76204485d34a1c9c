-- ===== src/Provider/Recognized.antt =====
-- A table that loads: every name that a provider claims is matched with it.
use mailkit.Prelude.{List, Option, none, some, ◌≡◌, arith, All, All-map}
use mailkit.Text.{Str, to_lower, trim_space}
use mailkit.Provider.{
  MailFromRule, Provider, Table, provider_at, Matcher, Loaded, suffix_key, selector_key, hash_key,
  rule_key, load, empty_matcher,
}
use mailkit.Provider.Match.{
  lookup_name, match_mx, match_spf, match_dkim, match_cname, match_dkim_selector, match_dkim_key,
  match_mail_from,
}
use mailkit.Provider.Written.{id_at}
use mailkit.Provider.Loading.{IsKnown, load_entries-IsKnown}

abbrev pub id_of : Option Provider → Option Str
id_of o = elim o [ none ↦ none | some v ↦ some v.id ]

-- Each of the ways in which a provider is to be recognized leads to its id.
pub record IsRecognized (m : Matcher) (v : Provider) : Type 0 where
  pub mx : All (λ s. id_of (match_mx m s) ≡ some v.id) v.mx_suffixes
  pub spf : All (λ s. id_of (match_spf m s) ≡ some v.id) v.spf_suffixes
  pub dkim : All (λ s. id_of (match_dkim m s) ≡ some v.id) v.dkim_suffixes
  pub cname : All (λ s. id_of (match_cname m s) ≡ some v.id) v.cname_suffixes
  pub selectors :
      All (λ s. id_of (match_dkim_selector m (trim_space s)) ≡ some v.id) v.dkim_selectors
  pub keys : All (λ s. id_of (match_dkim_key m (trim_space s)) ≡ some v.id) v.dkim_keys
  pub mail_from :
      All (λ r. id_of (match_mail_from m r.label (trim_space r.on)) ≡ some v.id) v.mail_from

by_suffix :
    (t : Table) (v : Provider) (s : Str)
    → (k : Str) × (suffix_key s ≡ some k) × (id_at k t ≡ some v.id)
    → id_of (lookup_name t s) ≡ some v.id
unfolding suffix_key lookup_name
by_suffix t v s (k, e, g) = ground (arith, e, g)

by_selector :
    (t : Table) (v : Provider) (s : Str)
    → (k : Str) × (selector_key s ≡ some k) × (id_at k t ≡ some v.id)
    → id_of (provider_at (to_lower (trim_space s)) t) ≡ some v.id
unfolding selector_key
by_selector t v s (k, e, g) = ground (arith, e, g)

by_hash :
    (t : Table) (v : Provider) (s : Str)
    → (k : Str) × (hash_key s ≡ some k) × (id_at k t ≡ some v.id)
    → id_of (provider_at (to_lower (trim_space s)) t) ≡ some v.id
unfolding hash_key
by_hash t v s (k, e, g) = ground (arith, e, g)

by_rule :
    (m : Matcher) (v : Provider) (r : MailFromRule)
    → (k : Str) × (rule_key r ≡ some k) × (id_at k m.mail_from ≡ some v.id)
    → id_of (match_mail_from m r.label (trim_space r.on)) ≡ some v.id
unfolding rule_key match_mail_from
by_rule m v r (k, e, g) = ground (arith, e, g)

IsRecognized-of_IsKnown : (m : Matcher) (v : Provider) → IsKnown m v → IsRecognized m v
unfolding match_mx match_spf match_dkim match_cname match_dkim_selector match_dkim_key
IsRecognized-of_IsKnown m v h = record {
  mx = All-map _ _ (by_suffix m.mx v) v.mx_suffixes h.mx;
  spf = All-map _ _ (by_suffix m.spf v) v.spf_suffixes h.spf;
  dkim = All-map _ _ (by_suffix m.dkim v) v.dkim_suffixes h.dkim;
  cname = All-map _ _ (by_suffix m.cname v) v.cname_suffixes h.cname;
  selectors = All-map _ _ (by_selector m.selectors v) v.dkim_selectors h.selectors;
  keys = All-map _ _ (by_hash m.keys v) v.dkim_keys h.keys;
  mail_from = All-map _ _ (by_rule m v) v.mail_from h.mail_from;
}

-- Once a table is loaded, everything that a provider in it claims leads to that provider's id: its
-- MX, SPF, DKIM and CNAME suffixes, its DKIM selectors and key hashes, and its MAIL FROM labels
-- with the provider that they are on.
pub load-IsRecognized :
    (vs : List Provider) (m : Matcher) → load (some vs) ≡ Loaded.ok m → All (IsRecognized m) vs
unfolding load
load-IsRecognized vs m h =
    All-map (IsKnown m) (IsRecognized m) (IsRecognized-of_IsKnown m) vs
      (load_entries-IsKnown vs (empty_matcher vs) m h).0
