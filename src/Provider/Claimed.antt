-- ===== src/Provider/Claimed.antt =====
-- A table that loads: every entry stands for what its provider claims.
use mathlib.Core.List.{Mem, mem-cons_self, mem-cons_of_mem}
use mathlib.Core.Option.{some-injective}
use mailkit.Prelude.{
  List, [], ◌∷◌, Option, some, ◌≡◌, sym, subst, arith, All, All-map, inl, inr, Bool-cases,
}
use mailkit.Text.{Str, codes, eq_str}
use mailkit.Text.Equality.{eq_str_sound}
use mailkit.Provider.{
  Provider, Table, provider_at, Matcher, Loaded, claim, claim_all, suffix_key, selector_key,
  hash_key, rule_key, load_entry, load_entries, empty_matcher, load,
}
use mailkit.Provider.Written.{write_ok, claim_ok, >>=-eq-ok}
use mailkit.Provider.Loading.{IsLoaded, load_entry_ok}

members {ℓ} : {A : Type ℓ} (xs : List A) → All (λ x. Mem x xs) xs
members [] = tt
members (x ∷ xs) = (mem-cons_self, All-map _ _ (λ y h. mem-cons_of_mem x h) xs (members xs))

-- An entry is of a provider of the list, and its key is that of something the provider claims.
abbrev pub IsClaim {ℓ} :
    {A : Type ℓ} → (A → Option Str) → (Provider → List A) → List Provider → Str × Provider → Type ℓ
IsClaim {A} key claims vs (k, v) = Mem v vs × (x : A) × Mem x (claims v) × (key x ≡ some k)

claim_all-All {ℓ κ} :
    {A : Type ℓ} (P : A → Type κ) (Q : Str × Provider → Type κ) (key : A → Option Str) (kind : Str)
    (v : Provider) (xs : List A) (t t' : Table)
    → ((x : A) (k : Str) → P x → key x ≡ some k → Q (k, v))
    → All P xs
    → All Q t
    → claim_all key kind v xs t ≡ Loaded.ok t'
    → All Q t'
unfolding claim_all
claim_all-All P Q key kind v [] t t' step ps qs h = subst (λ u. All Q u) (cc h) qs
claim_all-All P Q key kind v (x ∷ xs) t t' step (p, ps) qs h =
    let (u, here, rest) = >>=-eq-ok (claim key kind v x t) (claim_all key kind v xs) h in
    let (k, named, written) = claim_ok key kind v x t u here in
    let grown = (write_ok k v t u written).0 in
    claim_all-All P Q key kind v xs u t' step ps
      (subst (λ w. All Q w) (sym grown) (step x k p named, qs)) rest

-- What a provider of the list claims is added under it.
claim_all-IsClaim {ℓ} :
    {A : Type ℓ} (key : A → Option Str) (claims : Provider → List A) (vs : List Provider)
    (kind : Str) (v : Provider) (t t' : Table)
    → Mem v vs
    → All (IsClaim key claims vs) t
    → claim_all key kind v (claims v) t ≡ Loaded.ok t'
    → All (IsClaim key claims vs) t'
claim_all-IsClaim key claims vs kind v t t' m qs h =
    claim_all-All (λ x. Mem x (claims v)) (IsClaim key claims vs) key kind v (claims v) t t'
      (λ x k p e. (m, x, p, e)) (members (claims v)) qs h

-- Every entry of a matcher is claimed.
pub record IsClaimed (vs : List Provider) (m : Matcher) : Type 0 where
  pub mx : All (IsClaim suffix_key (λ (v : Provider). v.mx_suffixes) vs) m.mx
  pub spf : All (IsClaim suffix_key (λ (v : Provider). v.spf_suffixes) vs) m.spf
  pub dkim : All (IsClaim suffix_key (λ (v : Provider). v.dkim_suffixes) vs) m.dkim
  pub cname : All (IsClaim suffix_key (λ (v : Provider). v.cname_suffixes) vs) m.cname
  pub selectors : All (IsClaim selector_key (λ (v : Provider). v.dkim_selectors) vs) m.selectors
  pub keys : All (IsClaim hash_key (λ (v : Provider). v.dkim_keys) vs) m.keys
  pub mail_from : All (IsClaim rule_key (λ (v : Provider). v.mail_from) vs) m.mail_from

load_entry-IsClaimed :
    (vs : List Provider) (v : Provider) (m m' : Matcher)
    → Mem v vs
    → IsClaimed vs m
    → IsLoaded v m m'
    → IsClaimed vs m'
load_entry-IsClaimed vs v m m' i c h = record {
  mx =
      claim_all-IsClaim suffix_key (λ (w : Provider). w.mx_suffixes) vs (codes "mx") v m.mx m'.mx i
        c.mx h.mx;
  spf =
      claim_all-IsClaim suffix_key (λ (w : Provider). w.spf_suffixes) vs (codes "spf") v m.spf
        m'.spf i c.spf h.spf;
  dkim =
      claim_all-IsClaim suffix_key (λ (w : Provider). w.dkim_suffixes) vs (codes "dkim") v m.dkim
        m'.dkim i c.dkim h.dkim;
  cname =
      claim_all-IsClaim suffix_key (λ (w : Provider). w.cname_suffixes) vs (codes "cname") v m.cname
        m'.cname i c.cname h.cname;
  selectors =
      claim_all-IsClaim selector_key (λ (w : Provider). w.dkim_selectors) vs (codes "DKIM selector")
        v m.selectors m'.selectors i c.selectors h.selectors;
  keys =
      claim_all-IsClaim hash_key (λ (w : Provider). w.dkim_keys) vs (codes "DKIM key hash") v m.keys
        m'.keys i c.keys h.keys;
  mail_from =
      claim_all-IsClaim rule_key (λ (w : Provider). w.mail_from) vs (codes "MAIL FROM label") v
        m.mail_from m'.mail_from i c.mail_from h.mail_from;
}

load_entries-IsClaimed :
    (vs us : List Provider) (m m' : Matcher)
    → All (λ v. Mem v vs) us
    → IsClaimed vs m
    → load_entries us m ≡ Loaded.ok m'
    → IsClaimed vs m'
unfolding load_entries
load_entries-IsClaimed vs [] m m' i c h = subst (λ n. IsClaimed vs n) (cc h) c
load_entries-IsClaimed vs (u ∷ us) m m' (i, is) c h =
    let (n, first, rest) = >>=-eq-ok (load_entry u m) (load_entries us) h in
    load_entries-IsClaimed vs us n m' is
      (load_entry-IsClaimed vs u m n i c (load_entry_ok u m n first)) rest

pub load-IsClaimed :
    (vs : List Provider) (m : Matcher) → load (some vs) ≡ Loaded.ok m → IsClaimed vs m
unfolding load
load-IsClaimed vs m h =
    load_entries-IsClaimed vs vs (empty_matcher vs) m (members vs)
      (record {
        mx = tt;
        spf = tt;
        dkim = tt;
        cname = tt;
        selectors = tt;
        keys = tt;
        mail_from = tt;
      })
      h

-- What stands in a table where every entry is claimed.
pub provider_at-IsClaim {ℓ} :
    (Q : Str × Provider → Type ℓ) (k : Str) (v : Provider) (t : Table)
    → All Q t
    → provider_at k t ≡ some v
    → Q (k, v)
unfolding provider_at
provider_at-IsClaim Q k v [] qs h = cc
provider_at-IsClaim Q k v ((j, w) ∷ t) (q, qs) h = elim (Bool-cases (eq_str j k)) [
  | inl e ↦
      let found : some w ≡ some v = ground (arith, h, e) in
      subst (λ x. Q (k, x)) (some-injective w v found)
        (subst (λ x. Q (x, w)) (eq_str_sound j k e) q)
  | inr e ↦ provider_at-IsClaim Q k v t qs (ground (arith, h, e))
]
