-- ===== src/Provider.antt =====
-- provider/provider.go: the table of providers, what it takes to load it, and the matches by name.
-- The decoder of JSON is code outside of the repository: a table is what it returns.
pub mod Match
pub mod Labels
pub mod Written
pub mod Loading
pub mod Recognized
pub mod Claimed
pub mod Justified
mod Examples
use mailkit.Prelude.{
  ℕ, List, [], ◌∷◌, ◌++◌, Bool, true, false, not, ◌&&◌, ◌||◌, Option, none, some, leb, ◌==◌,
  if◌then◌else◌, is_empty, length,
}
use mailkit.Text.{Str, codes, eq_str, mem_str, to_lower, trim_space, contains}
use mailkit.Dnsx.{normalize}

pub record MailFromRule : Type 0 where
  pub label : Str
  pub on : Str

pub record Provider : Type 0 where
  pub id : Str
  pub name : Str
  pub category : Str
  pub mx_suffixes : List Str
  pub spf_suffixes : List Str
  pub dkim_suffixes : List Str
  pub dkim_selectors : List Str
  pub dkim_keys : List Str
  pub cname_suffixes : List Str
  pub mail_from : List MailFromRule
  pub inbound : Bool
  pub outbound : Bool

-- The keys of the map `categories`.
unfoldable pub categories : List Str
categories =
    codes "mailbox"
    ∷ codes "esp"
    ∷ codes "crm"
    ∷ codes "support"
    ∷ codes "forwarding"
    ∷ codes "security_gateway"
    ∷ codes "authentication"
    ∷ []

-- A map from texts to providers; the entry that was written last stands first.
abbrev pub Table : Type 0
Table = List (Str × Provider)

unfoldable pub provider_at : Str → Table → Option Provider
provider_at k [] = none
provider_at k ((j, v) ∷ t) = if eq_str j k then some v else provider_at k t

pub record Matcher : Type 0 where
  pub mx : Table
  pub spf : Table
  pub dkim : Table
  pub cname : Table
  pub selectors : Table
  pub keys : Table
  pub mail_from : Table
  pub all : List Provider

-- Why a table is refused: what the text of the error is made of.
pub data Problem : Type 0 where
  not_parsed : Problem
  unnamed : Str → Problem
  unknown_category : Str → Str → Problem
  unusable : Str → Str → Problem
  claimed : Str → Str → Str → Problem

pub data Loaded {ℓ} (A : Type ℓ) : Type ℓ where
  ok : A → Loaded A
  refused : Problem → Loaded A

infixl 5 ◌>>=◌ ◌>>◌
abbrev pub ◌>>=◌ {ℓ κ} : {A : Type ℓ} {B : Type κ} → Loaded A → (A → Loaded B) → Loaded B
Loaded.ok a >>= f = f a
Loaded.refused p >>= f = Loaded.refused p

abbrev pub ◌>>◌ {ℓ} : {B : Type ℓ} → Loaded (Unit {0}) → Loaded B → Loaded B
m >> k = m >>= λ _. k

abbrev pub check : Bool → Problem → Loaded (Unit {0})
check true p = Loaded.ok tt
check false p = Loaded.refused p

-- The end of `claim`: a key belongs to one provider.
unfoldable pub write : Str → Provider → Table → Loaded Table
write k v t = elim (provider_at k t) [
  | none ↦ Loaded.ok ((k, v) ∷ t)
  | some prev ↦
      if not (eq_str prev.id v.id)
      then Loaded.refused (Problem.claimed k prev.id v.id)
      else Loaded.ok ((k, v) ∷ t)
]

unfoldable pub suffix_key : Str → Option Str
suffix_key suffix =
    let s = normalize suffix in if is_empty s || not (contains b'.' s) then none else some s

unfoldable pub selector_key : Str → Option Str
selector_key selector =
    let sel = to_lower (trim_space selector) in
    if is_empty sel || contains b'.' sel then none else some sel

abbrev pub key_hash_len : ℕ
key_hash_len = 16

-- strings.Trim of hexadecimal digits leaves nothing.
unfoldable pub is_hex : Str → Bool
is_hex [] = true
is_hex (c ∷ s) = (leb b'0' c && leb c b'9' || leb b'a' c && leb c b'f') && is_hex s

unfoldable pub hash_key : Str → Option Str
hash_key hash =
    let k = to_lower (trim_space hash) in
    if not (length k == key_hash_len) || not (is_hex k) then none else some k

unfoldable pub rule_key : MailFromRule → Option Str
rule_key r =
    let label = to_lower (trim_space r.label) in
    if is_empty label || contains b'.' label
    then none
    else some (label ++ b'|' ∷ to_lower (trim_space r.on))

-- One claim, from its key, and a loop of them. `kind` is the text that an error names it by.
unfoldable pub claim {ℓ} :
    {A : Type ℓ} → (A → Option Str) → Str → Provider → A → Table → Loaded Table
claim key kind v x t = elim (key x) [
  | none ↦ Loaded.refused (Problem.unusable v.id kind)
  | some k ↦ write k v t
]

unfoldable pub claim_all {ℓ} :
    {A : Type ℓ} → (A → Option Str) → Str → Provider → List A → Table → Loaded Table
claim_all key kind v [] t = Loaded.ok t
claim_all key kind v (x ∷ xs) t = claim key kind v x t >>= claim_all key kind v xs

-- What loading does for one provider.
unfoldable pub load_entry : Provider → Matcher → Loaded Matcher
load_entry v m = do
  check (not (is_empty v.id || is_empty v.name)) (Problem.unnamed v.id)
  check (mem_str v.category categories) (Problem.unknown_category v.id v.category)
  mx ← claim_all suffix_key (codes "mx") v v.mx_suffixes m.mx
  spf ← claim_all suffix_key (codes "spf") v v.spf_suffixes m.spf
  dkim ← claim_all suffix_key (codes "dkim") v v.dkim_suffixes m.dkim
  cname ← claim_all suffix_key (codes "cname") v v.cname_suffixes m.cname
  selectors ← claim_all selector_key (codes "DKIM selector") v v.dkim_selectors m.selectors
  keys ← claim_all hash_key (codes "DKIM key hash") v v.dkim_keys m.keys
  mail_from ← claim_all rule_key (codes "MAIL FROM label") v v.mail_from m.mail_from
  Loaded.ok (record {
    mx = mx;
    spf = spf;
    dkim = dkim;
    cname = cname;
    selectors = selectors;
    keys = keys;
    mail_from = mail_from;
    all = m.all;
  })

unfoldable pub load_entries : List Provider → Matcher → Loaded Matcher
load_entries [] m = Loaded.ok m
load_entries (v ∷ vs) m = load_entry v m >>= load_entries vs

abbrev pub empty_matcher : List Provider → Matcher
empty_matcher vs = record {
  mx = [];
  spf = [];
  dkim = [];
  cname = [];
  selectors = [];
  keys = [];
  mail_from = [];
  all = vs;
}

-- `none` where the text is no table.
unfoldable pub load : Option (List Provider) → Loaded Matcher
load none = Loaded.refused Problem.not_parsed
load (some vs) = load_entries vs (empty_matcher vs)
