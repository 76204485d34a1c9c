-- ===== src/Provider/Loading.antt =====
-- A table that loads: what its matcher finds.
use mailkit.Prelude.{List, [], ◌∷◌, Option, some, ◌≡◌, subst, arith, All, All-map}
use mailkit.Text.{Str, codes}
use mailkit.Provider.{
  Provider, Table, Matcher, Loaded, claim_all, suffix_key, selector_key, hash_key, rule_key,
  load_entry, load_entries,
}
use mailkit.Provider.Written.{id_at, IsKept, IsKept-trans, claim_all_lem, >>=-eq-ok}

-- The keys of a list of claims lead to a provider in a table.
abbrev pub Leads {ℓ} : {A : Type ℓ} → (A → Option Str) → Provider → List A → Table → Type 0
Leads key v xs t = All (λ x. (k : Str) × (key x ≡ some k) × (id_at k t ≡ some v.id)) xs

-- What loading a provider does to the tables.
pub record IsLoaded (v : Provider) (m m' : Matcher) : Type 0 where
  pub mx : claim_all suffix_key (codes "mx") v v.mx_suffixes m.mx ≡ Loaded.ok m'.mx
  pub spf : claim_all suffix_key (codes "spf") v v.spf_suffixes m.spf ≡ Loaded.ok m'.spf
  pub dkim : claim_all suffix_key (codes "dkim") v v.dkim_suffixes m.dkim ≡ Loaded.ok m'.dkim
  pub cname : claim_all suffix_key (codes "cname") v v.cname_suffixes m.cname ≡ Loaded.ok m'.cname
  pub selectors :
      claim_all selector_key (codes "DKIM selector") v v.dkim_selectors m.selectors
      ≡ Loaded.ok m'.selectors
  pub keys : claim_all hash_key (codes "DKIM key hash") v v.dkim_keys m.keys ≡ Loaded.ok m'.keys
  pub mail_from :
      claim_all rule_key (codes "MAIL FROM label") v v.mail_from m.mail_from
      ≡ Loaded.ok m'.mail_from

pub load_entry_ok :
    (v : Provider) (m m' : Matcher) → load_entry v m ≡ Loaded.ok m' → IsLoaded v m m'
unfolding load_entry
load_entry_ok v m m' h = ground arith

Leads-kept {ℓ} :
    {A : Type ℓ} (key : A → Option Str) (v : Provider) (xs : List A) (t t' : Table)
    → IsKept t t'
    → Leads key v xs t
    → Leads key v xs t'
Leads-kept key v xs t t' kept h =
    All-map (λ x. (k : Str) × (key x ≡ some k) × (id_at k t ≡ some v.id))
      (λ x. (k : Str) × (key x ≡ some k) × (id_at k t' ≡ some v.id))
      (λ x (k, e, g). (k, e, kept k v.id g)) xs h

-- Every entry of a matcher is in another.
pub record IsGrown (m m' : Matcher) : Type 0 where
  mx : IsKept m.mx m'.mx
  spf : IsKept m.spf m'.spf
  dkim : IsKept m.dkim m'.dkim
  cname : IsKept m.cname m'.cname
  selectors : IsKept m.selectors m'.selectors
  keys : IsKept m.keys m'.keys
  mail_from : IsKept m.mail_from m'.mail_from

-- All that a provider claims leads to its id.
pub record IsKnown (m : Matcher) (v : Provider) : Type 0 where
  pub mx : Leads suffix_key v v.mx_suffixes m.mx
  pub spf : Leads suffix_key v v.spf_suffixes m.spf
  pub dkim : Leads suffix_key v v.dkim_suffixes m.dkim
  pub cname : Leads suffix_key v v.cname_suffixes m.cname
  pub selectors : Leads selector_key v v.dkim_selectors m.selectors
  pub keys : Leads hash_key v v.dkim_keys m.keys
  pub mail_from : Leads rule_key v v.mail_from m.mail_from

IsGrown-trans : (m n o : Matcher) → IsGrown m n → IsGrown n o → IsGrown m o
IsGrown-trans m n o g h = record {
  mx = IsKept-trans m.mx n.mx o.mx g.mx h.mx;
  spf = IsKept-trans m.spf n.spf o.spf g.spf h.spf;
  dkim = IsKept-trans m.dkim n.dkim o.dkim g.dkim h.dkim;
  cname = IsKept-trans m.cname n.cname o.cname g.cname h.cname;
  selectors = IsKept-trans m.selectors n.selectors o.selectors g.selectors h.selectors;
  keys = IsKept-trans m.keys n.keys o.keys g.keys h.keys;
  mail_from = IsKept-trans m.mail_from n.mail_from o.mail_from g.mail_from h.mail_from;
}

IsKnown-grown : (m m' : Matcher) (v : Provider) → IsGrown m m' → IsKnown m v → IsKnown m' v
IsKnown-grown m m' v g h = record {
  mx = Leads-kept suffix_key v v.mx_suffixes m.mx m'.mx g.mx h.mx;
  spf = Leads-kept suffix_key v v.spf_suffixes m.spf m'.spf g.spf h.spf;
  dkim = Leads-kept suffix_key v v.dkim_suffixes m.dkim m'.dkim g.dkim h.dkim;
  cname = Leads-kept suffix_key v v.cname_suffixes m.cname m'.cname g.cname h.cname;
  selectors =
      Leads-kept selector_key v v.dkim_selectors m.selectors m'.selectors g.selectors h.selectors;
  keys = Leads-kept hash_key v v.dkim_keys m.keys m'.keys g.keys h.keys;
  mail_from = Leads-kept rule_key v v.mail_from m.mail_from m'.mail_from g.mail_from h.mail_from;
}

load_entry-IsKnown : (v : Provider) (m m' : Matcher) → IsLoaded v m m' → IsKnown m' v × IsGrown m m'
load_entry-IsKnown v m m' h =
    let mx = claim_all_lem suffix_key (codes "mx") v v.mx_suffixes m.mx m'.mx h.mx in
    let spf = claim_all_lem suffix_key (codes "spf") v v.spf_suffixes m.spf m'.spf h.spf in
    let dkim = claim_all_lem suffix_key (codes "dkim") v v.dkim_suffixes m.dkim m'.dkim h.dkim in
    let cname =
      claim_all_lem suffix_key (codes "cname") v v.cname_suffixes m.cname m'.cname h.cname in
    let selectors =
      claim_all_lem selector_key (codes "DKIM selector") v v.dkim_selectors m.selectors m'.selectors
        h.selectors in
    let keys = claim_all_lem hash_key (codes "DKIM key hash") v v.dkim_keys m.keys m'.keys h.keys in
    let mail_from =
      claim_all_lem rule_key (codes "MAIL FROM label") v v.mail_from m.mail_from m'.mail_from
        h.mail_from in
    (
      record {
        mx = mx.0;
        spf = spf.0;
        dkim = dkim.0;
        cname = cname.0;
        selectors = selectors.0;
        keys = keys.0;
        mail_from = mail_from.0;
      },
      record {
        mx = mx.1;
        spf = spf.1;
        dkim = dkim.1;
        cname = cname.1;
        selectors = selectors.1;
        keys = keys.1;
        mail_from = mail_from.1;
      },
    )

IsGrown-refl : (m : Matcher) → IsGrown m m
IsGrown-refl m = record {
  mx = λ k i h. h;
  spf = λ k i h. h;
  dkim = λ k i h. h;
  cname = λ k i h. h;
  selectors = λ k i h. h;
  keys = λ k i h. h;
  mail_from = λ k i h. h;
}

pub load_entries-IsKnown :
    (vs : List Provider) (m m' : Matcher)
    → load_entries vs m ≡ Loaded.ok m'
    → All (IsKnown m') vs × IsGrown m m'
unfolding load_entries
load_entries-IsKnown [] m m' h = (tt, subst (λ n. IsGrown m n) (cc h) (IsGrown-refl m))
load_entries-IsKnown (v ∷ vs) m m' h =
    let (n, first, rest) = >>=-eq-ok (load_entry v m) (load_entries vs) h in
    let here = load_entry-IsKnown v m n (load_entry_ok v m n first) in
    let more = load_entries-IsKnown vs n m' rest in
    ((IsKnown-grown n m' v more.1 here.0, more.0), IsGrown-trans m n m' here.1 more.1)
