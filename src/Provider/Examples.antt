-- ===== src/Provider/Examples.antt =====
-- A table of two providers.
use mailkit.Prelude.{List, [], ◌∷◌, true, none, some, All, ◌≡◌, refl}
use mailkit.Text.{
  codes, eq_str, mem_str, is_space, lower, to_lower, trim_left, keep, trim_right, trim_space,
  cons_head, index, last_index, contains, index_any, has_prefix, index_str, trim_end, split,
  starts_word, fields,
}
use mailkit.Dnsx.{
  after_scheme, before_path, after_user, before_port, trim_www, normalize_host, normalize, labels,
}
use mailkit.Provider.{
  Provider, Matcher, Problem, Loaded, categories, provider_at, write, suffix_key, selector_key,
  is_hex, hash_key, rule_key, claim, claim_all, load_entry, load_entries, load,
}
use mailkit.Provider.Match.{
  behind_dots, lookup_name, match_mx, match_spf, match_dkim_selector, match_mail_from,
  provider_by_id, get, concat, published_key, key_hash,
}
use mailkit.Provider.Labels.{longest, lookup_name_lem}
use mailkit.Provider.Justified.{IsJustified, load-IsJustified}
use mailkit.Provider.Recognized.{IsRecognized, load-IsRecognized}

-- What a run of the matcher computes with.
running : Unit {0}
unfolding eq_str mem_str is_space lower to_lower trim_left keep trim_right trim_space cons_head
    index last_index contains index_any has_prefix index_str trim_end split starts_word fields
    after_scheme before_path after_user before_port trim_www normalize_host normalize categories
    provider_at write suffix_key selector_key is_hex hash_key rule_key claim claim_all load_entry
    load_entries load behind_dots lookup_name match_mx match_spf match_dkim_selector match_mail_from
    provider_by_id get concat published_key key_hash
running = tt

abbrev google : Provider
google = record {
  id = codes "google";
  name = codes "Google";
  category = codes "mailbox";
  mx_suffixes = codes "google.com" ∷ codes "googlemail.com" ∷ [];
  spf_suffixes = codes "_spf.google.com" ∷ [];
  dkim_suffixes = [];
  dkim_selectors = [];
  dkim_keys = [];
  cname_suffixes = [];
  mail_from = [];
  inbound = true;
  outbound = true;
}

abbrev resend : Provider
resend = record google {
  id = codes "resend";
  name = codes "Resend";
  category = codes "esp";
  mx_suffixes = [];
  spf_suffixes = [];
  dkim_selectors = codes " Resend" ∷ [];
  mail_from = record { label = codes "send"; on = codes "ses" } ∷ [];
}

abbrev two : List Provider
two = google ∷ resend ∷ []

abbrev loaded : Matcher
loaded = record {
  mx = (codes "googlemail.com", google) ∷ (codes "google.com", google) ∷ [];
  spf = (codes "_spf.google.com", google) ∷ [];
  dkim = [];
  cname = [];
  selectors = (codes "resend", resend) ∷ [];
  keys = [];
  mail_from = (codes "send|ses", resend) ∷ [];
  all = two;
}

two-load : load (some two) ≡ Loaded.ok loaded
unfolding running
two-load = refl

-- A rule matches whole labels only.
matches :
    (match_mx loaded (codes "ASPMX2.googlemail.com.") ≡ some google)
    × (match_mx loaded (codes "notgooglemail.com") ≡ none)
    × (match_mail_from loaded (codes "Send") (codes "SES") ≡ some resend)
    × (match_mail_from loaded (codes "send") [] ≡ none)
    × (get loaded (codes "resend") ≡ some resend)
unfolding running
matches = (refl, refl, refl, refl, refl)

-- Two providers with one suffix.
clash :
    load (some (google ∷ record resend { mx_suffixes = codes "www.google.com" ∷ [] } ∷ []))
    ≡ Loaded.refused (Problem.claimed (codes "google.com") (codes "google") (codes "resend"))
unfolding running
clash = refl

hashed : key_hash (λ key. key) (codes "v=DKIM1; p=; k=rsa; p=AB C D") ≡ codes "ABCD"
unfolding running
hashed = refl

lookup_name_lem_example :
    lookup_name loaded.mx (codes "aspmx2.googlemail.com")
    ≡ longest loaded.mx (labels (codes "aspmx2.googlemail.com"))
lookup_name_lem_example = lookup_name_lem loaded.mx (codes "aspmx2.googlemail.com")

load-IsRecognized_example : All (IsRecognized loaded) two
load-IsRecognized_example = load-IsRecognized two loaded two-load

load-IsJustified_example : IsJustified two loaded
load-IsJustified_example = load-IsJustified two loaded two-load
