-- ===== src/Mailauth/Dkim.antt =====
-- mailauth/records.go: the key record of a DKIM selector. `rsa_bits`, the size of an RSA key in
-- base64 or 0, stands on Go's crypto packages and is a parameter.
mod Examples
use mailkit.Prelude.{
  ℕ, ◌+◌, List, [], ◌∷◌, ◌++◌, Bool, true, false, Option, none, some, if◌then◌else◌, is_empty, take,
  drop,
}
use mailkit.Text.{Str, codes, eq_str, to_lower, trim_space, index, contains, split}
use mailkit.Dnsx.{Error, Result, not_found}

pub record DkimRecord : Type 0 where
  pub raw : Str
  pub selector : Str
  pub key_type : Str
  pub revoked : Bool
  pub key_bits : ℕ
  pub testing : Bool

-- The record of the loop with its two variables: whether there is a key, and the key.
pub record Reading : Type 0 where
  pub rec : DkimRecord
  pub saw_p : Bool
  pub pub_b64 : Str

unfoldable pub set_dkim_tag : Str → Str → Reading → Reading
set_dkim_tag k v s =
    if eq_str k (codes "k")
    then record s { rec = record (s.rec) { key_type = to_lower v } }
    else if eq_str k (codes "p")
    then record s { saw_p = true; pub_b64 = v }
    else if eq_str k (codes "t")
    then record s { rec = record (s.rec) { testing = contains b'y' (to_lower v) } }
    else s

unfoldable pub read_dkim_part : Str → Reading → Reading
read_dkim_part part s =
    let p = trim_space part in
    elim (index b'=' p) [
      | none ↦ s
      | some i ↦ set_dkim_tag (to_lower (trim_space (take i p))) (trim_space (drop (i + 1) p)) s
    ]

unfoldable pub read_dkim_parts : List Str → Reading → Reading
read_dkim_parts [] s = s
read_dkim_parts (part ∷ parts) s = read_dkim_parts parts (read_dkim_part part s)

unfoldable pub empty_dkim : Str → Str → Reading
empty_dkim selector raw = record {
  rec = record {
    raw = raw;
    selector = selector;
    key_type = codes "rsa";
    revoked = false;
    key_bits = 0;
    testing = false;
  };
  saw_p = false;
  pub_b64 = [];
}

unfoldable pub no_key : Str → Error
no_key selector =
    Error.other
      (codes "mailkit/mailauth: DKIM record for \"" ++ (selector ++ codes "\" has no p= tag"))

unfoldable pub concat_txt : List Str → Str
concat_txt [] = []
concat_txt (t ∷ ts) = t ++ concat_txt ts

unfoldable pub dkim_name : Str → Str → Str
dkim_name domain selector = selector ++ (codes "._domainkey." ++ domain)

module _ (rsa_bits : Str → ℕ) where
  unfoldable pub dkim_of : Str → Reading → Result DkimRecord
  dkim_of selector s =
      if s.saw_p
      then Result.ok (
          if is_empty s.pub_b64
          then record (s.rec) { revoked = true }
          else if eq_str s.rec.key_type (codes "rsa")
          then record (s.rec) { key_bits = rsa_bits s.pub_b64 }
          else s.rec)
      else Result.err (no_key selector)

  unfoldable pub parse_dkim : Str → Str → Result DkimRecord
  parse_dkim selector txt =
      let raw = trim_space txt in
      dkim_of selector (read_dkim_parts (split b';' raw) (empty_dkim selector raw))

  -- LookupDKIM, from the answer to its question.
  unfoldable pub lookup_dkim : Str → Str → Result (List Str) → Result DkimRecord
  lookup_dkim domain selector (Result.err e) =
      if not_found (some e)
      then Result.err Error.no_record
      else Result.err (
          Error.wrapped
            (codes "mailkit/mailauth: lookup " ++ (dkim_name domain selector ++ codes ": ")) e)
  lookup_dkim domain selector (Result.ok txts) =
      if is_empty txts then Result.err Error.no_record else parse_dkim selector (concat_txt txts)
