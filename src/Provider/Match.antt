-- ===== src/Provider/Match.antt =====
-- provider/provider.go: what a matcher finds by a name, and the hash of a DKIM key.
use mailkit.Prelude.{List, [], ◌∷◌, ◌++◌, Option, none, some, ◌==◌, if◌then◌else◌, is_empty, drop}
use mailkit.Text.{Str, codes, eq_str, to_lower, trim_space, has_prefix, fields, split}
use mailkit.Text.Order.{lt_str}
use mailkit.Sorting.{insertion}
use mailkit.Dnsx.{normalize}
use mailkit.Provider.{Provider, Table, provider_at, Matcher}

-- The loop of `lookup` behind the name itself: what stands behind each dot, from the left.
unfoldable pub behind_dots : Table → Str → Option Provider
behind_dots t [] = none
behind_dots t (c ∷ s) =
    let rest = behind_dots t s in
    if c == b'.' then elim (provider_at s t) [ some v ↦ some v | none ↦ rest ] else rest

unfoldable pub lookup_name : Table → Str → Option Provider
lookup_name t name =
    let n = normalize name in
    if is_empty n then none else elim (provider_at n t) [ some v ↦ some v | none ↦ behind_dots t n ]

unfoldable pub match_mx : Matcher → Str → Option Provider
match_mx m host = lookup_name m.mx host

unfoldable pub match_spf : Matcher → Str → Option Provider
match_spf m target = lookup_name m.spf target

unfoldable pub match_dkim : Matcher → Str → Option Provider
match_dkim m cname = lookup_name m.dkim cname

unfoldable pub match_cname : Matcher → Str → Option Provider
match_cname m target = lookup_name m.cname target

unfoldable pub match_dkim_selector : Matcher → Str → Option Provider
match_dkim_selector m selector = provider_at (to_lower selector) m.selectors

unfoldable pub match_dkim_key : Matcher → Str → Option Provider
match_dkim_key m hash = provider_at (to_lower hash) m.keys

unfoldable pub match_mail_from : Matcher → Str → Str → Option Provider
match_mail_from m label underlying =
    let l = to_lower (trim_space label) in
    elim (provider_at (l ++ b'|' ∷ to_lower underlying) m.mail_from) [
      | some v ↦ some v
      | none ↦ provider_at (l ++ b'|' ∷ []) m.mail_from
    ]

-- The method `All`. Go may sort providers with the same id in another order.
unfoldable pub all_sorted : Matcher → List Provider
all_sorted m = insertion (λ v w. lt_str v.id w.id) m.all

-- The method `Get`.
unfoldable pub provider_by_id : Str → List Provider → Option Provider
provider_by_id id [] = none
provider_by_id id (v ∷ vs) = if eq_str v.id id then some v else provider_by_id id vs

unfoldable pub get : Matcher → Str → Option Provider
get m id = provider_by_id id m.all

unfoldable pub concat : List Str → Str
concat [] = []
concat (w ∷ ws) = w ++ concat ws

-- The loop of `KeyHash`, with its variable: the last p= of the record.
unfoldable pub published_key : Str → List Str → Str
published_key found [] = found
published_key found (part ∷ parts) =
    let p = trim_space part in
    published_key (if has_prefix (codes "p=") p then concat (fields (drop 2 p)) else found) parts

-- `digest` is the first eight bytes of the SHA-256 of a text, written in hexadecimal.
unfoldable pub key_hash : (Str → Str) → Str → Str
key_hash digest record_ =
    let key = published_key [] (split b';' record_) in if is_empty key then [] else digest key
