-- ===== src/Mailauth/Dkim/Examples.antt =====
-- Keys that the parser reads.
use mailkit.Prelude.{ℕ, [], ◌∷◌, true, false, ◌≡◌, refl, length}
use mailkit.Text.{
  Str, codes, eq_str, is_space, lower, to_lower, trim_left, keep, trim_right, trim_space, cons_head,
  index, contains, split,
}
use mailkit.Dnsx.{Result, not_found, not_found_error}
use mailkit.Mailauth.Dkim.{
  DkimRecord, set_dkim_tag, read_dkim_part, read_dkim_parts, empty_dkim, no_key, concat_txt,
  dkim_name, dkim_of, parse_dkim, lookup_dkim,
}

running : Unit {0}
unfolding eq_str is_space lower to_lower trim_left keep trim_right trim_space cons_head index
    contains split not_found not_found_error set_dkim_tag read_dkim_part read_dkim_parts empty_dkim
    no_key concat_txt dkim_name dkim_of parse_dkim lookup_dkim
running = tt

abbrev bits : Str → ℕ
bits key = length key

abbrev key_record : DkimRecord
key_record = record {
  raw = codes "v=DKIM1; P = abcd; t=Y";
  selector = codes "s";
  key_type = codes "rsa";
  revoked = false;
  key_bits = 4;
  testing = true;
}

-- The strings of an answer are joined.
found :
    lookup_dkim bits
      (codes "d")
      (codes "s")
      (Result.ok (codes "v=DKIM1; P = ab" ∷ codes "cd; t=Y" ∷ []))
    ≡ Result.ok key_record
unfolding running
found = refl

withdrawn :
    parse_dkim bits (codes "s") (codes "k=rsa; p=")
    ≡ Result.ok (record key_record {
      raw = codes "k=rsa; p=";
      revoked = true;
      key_bits = 0;
      testing = false;
    })
unfolding running
withdrawn = refl

without_key : parse_dkim bits (codes "s") (codes "k=rsa") ≡ Result.err (no_key (codes "s"))
unfolding running
without_key = refl
