-- ===== src/Mailauth/Examples.antt =====
-- A zone with DMARC records, and the lookups and verdicts on it.
use mailkit.Prelude.{
  ◌-◌, List, [], ◌∷◌, ◌++◌, map, true, false, ◌≡◌, refl, length, drop, if◌then◌else◌,
}
use mailkit.Text.{
  Str, codes, eq_str, is_space, lower, to_lower, equal_fold, trim_left, keep, trim_right,
  trim_space, cons_head, index, has_prefix, trim_end, split, separated, join,
}
use mailkit.Dnsx.{Error, Result, not_found, not_found_error}
use mailkit.Mailauth.Dmarc.{
  Dmarc, digits, negate, atoi_unsigned, atoi_negative, atoi, nonempty_trimmed, split_uris, set_tag,
  read_part, read_parts, default_dmarc, not_dmarc, parse_parts, parse_dmarc, applied,
}
use mailkit.Mailauth.Dmarc.Tags.{tags, described, is_marked, behind, unset, parse_dmarc_lem}
use mailkit.Mailauth.TreeWalk.{
  is_no_record, trim_dots_left, keep_dots, trim_dots_right, trim_dots, names_from, walk_start,
  tree_walk_names, states_psd, first_dmarc, dmarc_answer, found_at, name_at, below_suffix, choose,
  organizational_domain, inherit, inherited, lookup_dmarc_at, walk_names, walk, lookup_dmarc,
}
use mailkit.Mailauth.TreeWalk.Static.{pure}
use mailkit.Mailauth.TreeWalk.Names.{parents, tree_walk_names_lem}
use mailkit.Mailauth.Align.{
  fold_name, one_up, org_answer, org_of_walk, own_found, own_org, org_walk_from, org_walk, find,
  is_remembered, memo_lookup, new_aligner, walked, relaxed, aligned,
}
use mailkit.Mailauth.Align.Static.{aligns, ask_all, aligned_memo, aligned_symm}

abbrev no_such_name : Error
no_such_name = Error.dns (codes "no such host") [] [] true

-- One organization, with a record of its own for one subdomain.
unfoldable zone : Str → Result (List Str)
zone name =
    if eq_str name (codes "_dmarc.example.com")
    then Result.ok (codes "v=DMARC1; p=Reject; sp=none; rua=mailto:a@example.com,," ∷ [])
    else if eq_str name (codes "_dmarc.other.example.com")
    then Result.ok (codes "v=spf1 -all" ∷ codes "v=DMARC1; p=quarantine; t=y" ∷ [])
    else Result.err no_such_name

-- What a lookup computes with.
running : Unit {0}
unfolding eq_str is_space lower to_lower equal_fold trim_left keep trim_right trim_space cons_head
    index has_prefix trim_end split separated join not_found not_found_error digits negate
    atoi_unsigned atoi_negative atoi nonempty_trimmed split_uris set_tag read_part read_parts
    default_dmarc not_dmarc parse_parts parse_dmarc applied is_no_record trim_dots_left keep_dots
    trim_dots_right trim_dots names_from walk_start tree_walk_names states_psd first_dmarc
    dmarc_answer found_at name_at below_suffix choose organizational_domain inherit inherited
    lookup_dmarc_at walk_names walk lookup_dmarc fold_name one_up org_answer org_of_walk own_found
    own_org org_walk_from org_walk find is_remembered memo_lookup new_aligner walked relaxed aligned
    zone ask_all
running = tt

abbrev of_result : Result Dmarc → Str
of_result (Result.ok d) = d.policy ++ b'/' ∷ (applied d ++ b'/' ∷ d.inherited_from)
of_result (Result.err e) = codes "error"

-- A subdomain takes sp= of the organization; a record that is tested is applied one level below.
policies :
    (of_result (lookup_dmarc (pure zone) (codes "mg.example.com") tt).0
      ≡ codes "none/none/example.com")
    × (of_result (lookup_dmarc (pure zone) (codes "other.example.com") tt).0
        ≡ codes "quarantine/none/")
    × (of_result (lookup_dmarc (pure zone) (codes "example.org") tt).0 ≡ codes "error")
unfolding running
policies = (refl, refl, refl)

verdicts :
    ask_all
      (pure zone)
      ((codes "mg.example.com", codes "example.com.", codes "r")
        ∷ (codes "mg.example.com", codes "example.com", codes "s")
        ∷ (codes "example.org", codes "example.com", codes "r")
        ∷ [])
      (new_aligner (pure zone) tt)
    ≡ Result.ok true ∷ Result.ok false ∷ Result.ok false ∷ []
unfolding running ask_all
verdicts = refl

zone_static : (name : Str) (s : Unit {0}) → (pure zone name s).0 ≡ zone name
zone_static name s = refl

abbrev some_questions : List (Str × Str × Str)
some_questions =
    (codes "mg.example.com", codes "example.com.", codes "r")
    ∷ (codes "example.com", codes "mg.example.com", codes "r")
    ∷ []

aligned_memo_example :
    ask_all (pure zone) some_questions (new_aligner (pure zone) tt)
    ≡ map (λ q. aligns zone q.0 q.1 q.2) some_questions
aligned_memo_example = aligned_memo (pure zone) zone zone_static some_questions tt

mg_aligned :
    (aligned
      (pure zone)
      (codes "mg.example.com")
      (codes "example.com")
      (codes "r")
      (new_aligner (pure zone) tt)).0
    ≡ Result.ok true
unfolding running
mg_aligned = refl

aligned_symm_example :
    (aligned
      (pure zone)
      (codes "example.com")
      (codes "mg.example.com")
      (codes "r")
      (new_aligner (pure zone) tt)).0
    ≡ Result.ok true
aligned_symm_example =
    aligned_symm (pure zone) zone zone_static (codes "mg.example.com") (codes "example.com")
      (codes "r") tt true mg_aligned

tree_walk_names_lem_example :
    let above = parents (split b'.' (trim_dots (to_lower (codes "a.b.c.d.e.f.g.h.example.com")))) in
    tree_walk_names (codes "a.b.c.d.e.f.g.h.example.com")
    ≡ map (λ name. join b'.' name) (drop (length above - 7) above)
tree_walk_names_lem_example = tree_walk_names_lem (codes "a.b.c.d.e.f.g.h.example.com")

abbrev tested : Str
tested = codes " v=DMARC1; P=Reject; t=Y; rua=mailto:a@example.com,,"

abbrev tested_record : Dmarc
tested_record =
    record (default_dmarc (codes "v=DMARC1; P=Reject; t=Y; rua=mailto:a@example.com,,")) {
      policy = codes "reject";
      testing = true;
      rua = codes "mailto:a@example.com" ∷ [];
    }

tested_parsed : parse_dmarc tested ≡ Result.ok tested_record
unfolding running
tested_parsed = refl

parse_dmarc_lem_example :
    let parts = split b';' (trim_space tested) in
    parse_dmarc tested ≡ (
      if is_marked parts
      then Result.ok (described (tags (behind parts)) (unset (trim_space tested)))
      else Result.err (not_dmarc tested))
parse_dmarc_lem_example = parse_dmarc_lem tested
