-- ===== src/Provider/Justified.antt =====
-- A table that loads: a match is justified by what the table says of the provider.
use mathlib.Core.List.{Mem}
use mailkit.Prelude.{
  List, [], ◌∷◌, ◌++◌, true, false, ◌||◌, ◌==◌, Option, some, is_empty, ◌≡◌, ap, ◌∙◌, arith, All,
  ◌⊎◌, inl, inr, Bool-cases, Option-cases,
}
use mailkit.Text.{Str, eq_str, has_suffix, to_lower, trim_space}
use mailkit.Text.Equality.{eq_str_refl}
use mailkit.Dnsx.{normalize, is_subdomain_of}
use mailkit.Dnsx.Names.{has_suffix_append}
use mailkit.Provider.{
  MailFromRule, Provider, Table, provider_at, Matcher, Loaded, suffix_key, selector_key, hash_key,
  rule_key, load,
}
use mailkit.Provider.Match.{
  behind_dots, lookup_name, match_mx, match_spf, match_dkim, match_cname, match_dkim_selector,
  match_dkim_key, match_mail_from,
}
use mailkit.Provider.Claimed.{IsClaim, load-IsClaimed, provider_at-IsClaim}

-- What is found behind a dot is the provider of a text that the name ends with.
behind_dots_sound :
    (t : Table) (s : Str) (v : Provider)
    → behind_dots t s ≡ some v
    → (p k : Str) × (s ≡ p ++ b'.' ∷ k) × (provider_at k t ≡ some v)
unfolding behind_dots
behind_dots_sound t [] v h = cc
behind_dots_sound t (c ∷ s) v h =
    let rest = behind_dots_sound t s v in
    elim (Bool-cases (c == b'.')) [
      | inl dot ↦ elim (Option-cases (provider_at s t)) [
        | inl none_here ↦
            let (p, k, e, f) = rest (ground (arith, h, dot, none_here)) in
            (c ∷ p, k, ap (λ (l : Str). c ∷ l) e, f)
        | inr (w, here) ↦ ([], s, ground (arith, dot), ground (arith, h, dot, here))
      ]
      | inr other ↦
          let (p, k, e, f) = rest (ground (arith, h, other)) in
          (c ∷ p, k, ap (λ (l : Str). c ∷ l) e, f)
    ]

-- A suffix that is claimed under a key is a name that hosts may be inside.
inside_suffix :
    (host s k : Str)
    → suffix_key s ≡ some k
    → is_empty (normalize host) ≡ false
    → (eq_str (normalize host) k || has_suffix (b'.' ∷ k) (normalize host)) ≡ true
    → is_subdomain_of host s ≡ true
unfolding suffix_key is_subdomain_of
inside_suffix host s k e full h = ground (arith, e, full, h)

module _ (claims : Provider → List Str) (vs : List Provider) (t : Table)
    (claimed : All (IsClaim suffix_key claims vs) t) where
  under_suffix :
      (host k : Str) (v : Provider)
      → provider_at k t ≡ some v
      → is_empty (normalize host) ≡ false
      → (eq_str (normalize host) k || has_suffix (b'.' ∷ k) (normalize host)) ≡ true
      → Mem v vs × (s : Str) × Mem s (claims v) × (is_subdomain_of host s ≡ true)
  under_suffix host k v h full ends =
      let (m, s, n, e) = provider_at-IsClaim (IsClaim suffix_key claims vs) k v t claimed h in
      (m, s, n, inside_suffix host s k e full ends)

  lookup_name-justified :
      (host : Str) (v : Provider)
      → lookup_name t host ≡ some v
      → Mem v vs × (s : Str) × Mem s (claims v) × (is_subdomain_of host s ≡ true)
  unfolding lookup_name
  lookup_name-justified host v h =
      let n : Str = normalize host in
      elim (Bool-cases (is_empty n)) [
        | inl e ↦ absurd (ground (arith, h, e))
        | inr full ↦ elim (Option-cases (provider_at n t)) [
          | inl q ↦
              let (p, k, e, f) = behind_dots_sound t n v (ground (arith, h, full, q)) in
              let ends : has_suffix (b'.' ∷ k) n ≡ true =
                ap (λ x. has_suffix (b'.' ∷ k) x) e ∙ has_suffix_append (b'.' ∷ k) p in
              under_suffix host k v f full (ground (arith, ends))
          | inr (w, q) ↦
              let here : provider_at n t ≡ some v = ground (arith, h, full, q) in
              under_suffix host n v here full (ground (arith, eq_str_refl n))
        ]
      ]

-- A name is matched with a provider of the list that names a suffix around it.
abbrev pub ByName : (Str → Option Provider) → (Provider → List Str) → List Provider → Type 0
ByName match_ claims vs =
    (host : Str) (v : Provider)
    → match_ host ≡ some v
    → Mem v vs × (s : Str) × Mem s (claims v) × (is_subdomain_of host s ≡ true)

-- A text is matched with a provider of the list that names it, but for case and space.
abbrev pub ByText : (Str → Option Provider) → (Provider → List Str) → List Provider → Type 0
ByText match_ claims vs =
    (text : Str) (v : Provider)
    → match_ text ≡ some v
    → Mem v vs × (s : Str) × Mem s (claims v) × (to_lower (trim_space s) ≡ to_lower text)

-- Each of the ways in which a matcher finds a provider has a reason in the table.
pub record IsJustified (vs : List Provider) (m : Matcher) : Type 0 where
  pub mx : ByName (match_mx m) (λ (v : Provider). v.mx_suffixes) vs
  pub spf : ByName (match_spf m) (λ (v : Provider). v.spf_suffixes) vs
  pub dkim : ByName (match_dkim m) (λ (v : Provider). v.dkim_suffixes) vs
  pub cname : ByName (match_cname m) (λ (v : Provider). v.cname_suffixes) vs
  pub selectors : ByText (match_dkim_selector m) (λ (v : Provider). v.dkim_selectors) vs
  pub keys : ByText (match_dkim_key m) (λ (v : Provider). v.dkim_keys) vs
  pub mail_from :
      (label underlying : Str) (v : Provider)
      → match_mail_from m label underlying ≡ some v
      → Mem v vs
        × (r : MailFromRule) × Mem r v.mail_from
        × ((rule_key r ≡ some (to_lower (trim_space label) ++ b'|' ∷ to_lower underlying))
            ⊎ (rule_key r ≡ some (to_lower (trim_space label) ++ b'|' ∷ [])))

selector_of_key : (s k : Str) → selector_key s ≡ some k → to_lower (trim_space s) ≡ k
unfolding selector_key
selector_of_key s k h = ground (arith, h)

hash_of_key : (s k : Str) → hash_key s ≡ some k → to_lower (trim_space s) ≡ k
unfolding hash_key
hash_of_key s k h = ground (arith, h)

match_mail_from-IsClaim :
    (m : Matcher) (label underlying : Str) (v : Provider)
    → match_mail_from m label underlying ≡ some v
    → (provider_at (to_lower (trim_space label) ++ b'|' ∷ to_lower underlying) m.mail_from ≡ some v)
      ⊎ (provider_at (to_lower (trim_space label) ++ b'|' ∷ []) m.mail_from ≡ some v)
unfolding match_mail_from
match_mail_from-IsClaim m label underlying v h =
    elim (Option-cases
      (provider_at (to_lower (trim_space label) ++ b'|' ∷ to_lower underlying) m.mail_from)) [
        | inl q ↦ inr (ground (arith, h, q))
        | inr (w, q) ↦ inl (ground (arith, h, q))
      ]

-- Once a table is loaded, a match is with a provider of the table and has a reason there: an MX,
-- SPF, DKIM or CNAME host is inside a suffix that the provider lists for it, a DKIM selector or key
-- hash is one that the provider lists, and a MAIL FROM label is that of a rule of the provider,
-- with the provider that it is on or for any.
pub load-IsJustified :
    (vs : List Provider) (m : Matcher) → load (some vs) ≡ Loaded.ok m → IsJustified vs m
unfolding match_mx match_spf match_dkim match_cname match_dkim_selector match_dkim_key
load-IsJustified vs m h =
    let c = load-IsClaimed vs m h in
    record {
      mx = lookup_name-justified (λ (v : Provider). v.mx_suffixes) vs m.mx c.mx;
      spf = lookup_name-justified (λ (v : Provider). v.spf_suffixes) vs m.spf c.spf;
      dkim = lookup_name-justified (λ (v : Provider). v.dkim_suffixes) vs m.dkim c.dkim;
      cname = lookup_name-justified (λ (v : Provider). v.cname_suffixes) vs m.cname c.cname;
      selectors = λ text v g.
          let (i, s, n, e) = provider_at-IsClaim _ (to_lower text) v m.selectors c.selectors g in
          (i, s, n, selector_of_key s (to_lower text) e);
      keys = λ text v g.
          let (i, s, n, e) = provider_at-IsClaim _ (to_lower text) v m.keys c.keys g in
          (i, s, n, hash_of_key s (to_lower text) e);
      mail_from = λ label underlying v g. elim (match_mail_from-IsClaim m label underlying v g) [
        | inl q ↦
            let (i, r, n, e) = provider_at-IsClaim _ _ v m.mail_from c.mail_from q in
            (i, r, n, inl e)
        | inr q ↦
            let (i, r, n, e) = provider_at-IsClaim _ _ v m.mail_from c.mail_from q in
            (i, r, n, inr e)
      ];
    }
