-- ===== src/Mailauth/Dmarc.antt =====
-- mailauth/records.go: the DMARC record and its parser. The text that an error quotes is kept as it
-- is, where the source writes it with escapes.
pub mod Parsed
pub mod Tags
use mailkit.Prelude.{
  ℕ, suc, ◌+◌, ◌-◌, ◌*◌, List, [], ◌∷◌, ◌++◌, Bool, true, false, not, ◌&&◌, ◌||◌, Option, none,
  some, ltb, leb, ◌==◌, if◌then◌else◌, is_empty, take, drop, ℤ,
}
use mailkit.Text.{Str, codes, eq_str, to_lower, equal_fold, trim_space, index, split}
use mailkit.Dnsx.{Error, Result}

pub record Dmarc : Type 0 where
  pub raw : Str
  pub policy : Str
  pub sub_policy : Str
  pub non_existent_policy : Str
  pub testing : Bool
  pub psd : Str
  pub pct : ℤ
  pub adkim : Str
  pub aspf : Str
  pub rua : List Str
  pub ruf : List Str
  pub inherited_from : Str
  pub parent_policy : Str

-- The digits of a number behind `n`; `none` where one is no digit, or past `top`.
unfoldable pub digits : ℕ → ℕ → Str → Option ℕ
digits top n [] = some n
digits top n (c ∷ s) =
    let m = n * 10 + (c - b'0') in
    let rest = digits top m s in if leb b'0' c && leb c b'9' && leb m top then rest else none

unfoldable pub negate : ℕ → ℤ
negate n = if n == 0 then ℤ.pos 0 else ℤ.negsuc (n - 1)

unfoldable pub atoi_unsigned : Str → Option ℤ
atoi_unsigned s =
    if is_empty s
    then none
    else elim (digits 9223372036854775807 0 s) [ none ↦ none | some n ↦ some (ℤ.pos n) ]

unfoldable pub atoi_negative : Str → Option ℤ
atoi_negative s =
    if is_empty s
    then none
    else elim (digits 9223372036854775808 0 s) [ none ↦ none | some n ↦ some (negate n) ]

-- strconv.Atoi, `none` for an error.
unfoldable pub atoi : Str → Option ℤ
atoi [] = none
atoi (c ∷ s) =
    if c == b'-'
    then atoi_negative s
    else if c == b'+'
    then atoi_unsigned s
    else atoi_unsigned (c ∷ s)

unfoldable pub nonempty_trimmed : List Str → List Str
nonempty_trimmed [] = []
nonempty_trimmed (u ∷ us) =
    let t = trim_space u in let rest = nonempty_trimmed us in if is_empty t then rest else t ∷ rest

unfoldable pub split_uris : Str → List Str
split_uris v = nonempty_trimmed (split b',' v)

-- One tag of a record, its name in lower case.
unfoldable pub set_tag : Str → Str → Dmarc → Dmarc
set_tag k v d =
    if eq_str k (codes "p")
    then record d { policy = to_lower v }
    else if eq_str k (codes "sp")
    then record d { sub_policy = to_lower v }
    else if eq_str k (codes "np")
    then record d { non_existent_policy = to_lower v }
    else if eq_str k (codes "psd")
    then record d { psd = to_lower v }
    else if eq_str k (codes "t")
    then record d { testing = equal_fold v (codes "y") }
    else if eq_str k (codes "pct")
    then elim (atoi v) [ none ↦ d | some n ↦ record d { pct = n } ]
    else if eq_str k (codes "adkim")
    then record d { adkim = to_lower v }
    else if eq_str k (codes "aspf")
    then record d { aspf = to_lower v }
    else if eq_str k (codes "rua")
    then record d { rua = split_uris v }
    else if eq_str k (codes "ruf")
    then record d { ruf = split_uris v }
    else d

-- One part between semicolons: a tag, if it has a "=".
unfoldable pub read_part : Str → Dmarc → Dmarc
read_part part d =
    let p = trim_space part in
    elim (index b'=' p) [
      | none ↦ d
      | some i ↦ set_tag (to_lower (trim_space (take i p))) (trim_space (drop (i + 1) p)) d
    ]

unfoldable pub read_parts : List Str → Dmarc → Dmarc
read_parts [] d = d
read_parts (part ∷ parts) d = read_parts parts (read_part part d)

-- The defaults of RFC 9989 section 4.7.
unfoldable pub default_dmarc : Str → Dmarc
default_dmarc raw = record {
  raw = raw;
  policy = [];
  sub_policy = [];
  non_existent_policy = [];
  testing = false;
  psd = [];
  pct = ℤ.pos 100;
  adkim = codes "r";
  aspf = codes "r";
  rua = [];
  ruf = [];
  inherited_from = [];
  parent_policy = [];
}

unfoldable pub not_dmarc : Str → Error
not_dmarc txt =
    Error.other (codes "mailkit/mailauth: \"" ++ (txt ++ codes "\" is not a DMARC record"))

unfoldable pub parse_parts : Str → Str → List Str → Result Dmarc
parse_parts txt raw [] = Result.err (not_dmarc txt)
parse_parts txt raw (version ∷ parts) =
    if equal_fold (trim_space version) (codes "v=DMARC1")
    then Result.ok (read_parts parts (default_dmarc raw))
    else Result.err (not_dmarc txt)

unfoldable pub parse_dmarc : Str → Result Dmarc
parse_dmarc txt = let raw = trim_space txt in parse_parts txt raw (split b';' raw)

unfoldable pub policy_tag : Dmarc → Str
policy_tag d =
    if not (is_empty d.inherited_from) && not (is_empty d.sub_policy) then codes "sp" else codes "p"

unfoldable pub applied : Dmarc → Str
applied d =
    if not d.testing
    then d.policy
    else if eq_str d.policy (codes "reject")
    then codes "quarantine"
    else if eq_str d.policy (codes "quarantine")
    then codes "none"
    else d.policy
