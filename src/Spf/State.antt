-- ===== src/Spf/State.antt =====
-- spf/evaluate.go: the state of a walk and its small steps. The pointer `state` is a record that
-- every step takes and returns; `calls` is the log of the questions put to the resolver, newest
-- first.
use mailkit.Prelude.{
  ℕ, ◌+◌, List, [], ◌∷◌, ◌++◌, Bool, true, false, some, ltb, ◌==◌, if◌then◌else◌, length, is_empty,
}
use mailkit.Text.{Str, codes, eq_str, mem_str, trim_space}
use mailkit.Dnsx.{
  Error, message, not_found, Result, Question, Answer, is_void, normalize, rcode_name_error,
}
use mailkit.Spf.Terms.{Term, records}
use mailkit.Spf.Tree.{Limits, Outcome, Via, PermError, PermDetail, Report}

pub record State : Type 0 where
  pub out : Report
  pub seen : List Str
  pub halted : Bool
  pub calls : List Question

-- What `records` returns: a lookup that did not complete, no usable record, or the only record.
pub data Fetched : Type 0 where
  failed : Error → Fetched
  unusable : List Str → Outcome → Fetched
  usable : Str → Fetched

unfoldable pub classify : List Str → Fetched
classify [] = Fetched.unusable [] Outcome.no_record
classify (t ∷ []) = Fetched.usable t
classify (t ∷ u ∷ more) = Fetched.unusable (t ∷ u ∷ more) Outcome.multiple

unfoldable pub fetched_txt : Result (List Str) → Fetched
fetched_txt (Result.ok txt) = classify (records txt)
fetched_txt (Result.err e) =
    if not_found (some e) then Fetched.unusable [] Outcome.nx_domain else Fetched.failed e

unfoldable pub fetched_answer : Result Answer → Fetched
fetched_answer (Result.ok a) =
    if a.rcode == rcode_name_error
    then Fetched.unusable [] Outcome.nx_domain
    else fetched_txt (Result.ok a.txt)
fetched_answer (Result.err e) = fetched_txt (Result.err e)

-- What a lookup says of void: whether it answered with nothing.
unfoldable pub void_answer : Result Answer → Result Bool
void_answer (Result.ok a) = Result.ok (is_void (some a))
void_answer (Result.err e) = if not_found (some e) then Result.ok true else Result.err e

unfoldable pub void_list {ℓ} : {A : Type ℓ} → Result (List A) → Result Bool
void_list (Result.ok l) = Result.ok (is_empty l)
void_list (Result.err e) = if not_found (some e) then Result.ok true else Result.err e

unfoldable pub log : Question → State → State
log q s = record s { calls = q ∷ s.calls }

unfoldable pub halt : State → State
halt s = record s { halted = true }

unfoldable pub fail : Error → State → State
fail e s = record s { out = record (s.out) { temp_error = message e; terms_exact = false } }

unfoldable pub inexact : State → State
inexact s = record s { out = record (s.out) { terms_exact = false } }

unfoldable pub perm : PermError → PermDetail → State → State
perm e d s = record s { out = record (s.out) { perm_error = e; perm_detail = d } }

unfoldable pub is_no_error : PermError → Bool
is_no_error PermError.no_error = true
is_no_error _ = false

-- A permanent error that does not replace an earlier one.
unfoldable pub perm_first : PermError → PermDetail → State → State
perm_first e d s = if is_no_error s.out.perm_error then perm e d s else s

-- The method `node`: the sequence number and the running term count are filled in here.
unfoldable pub node : Str → Str → Via → ℕ → Str → Outcome → State → State
node parent target via depth raw outcome s = record s {
  out = record (s.out) {
    max_depth = if ltb s.out.max_depth depth then depth else s.out.max_depth;
    nodes =
        s.out.nodes
        ++ record {
          seq = length s.out.nodes;
          parent = parent;
          target = target;
          via = via;
          depth = depth;
          term_at = s.out.terms;
          raw = raw;
          outcome = outcome;
        }
          ∷ [];
  };
}

unfoldable pub count_term : State → State
count_term s = record s { out = record (s.out) { terms = s.out.terms + 1 } }

unfoldable pub note_include : Str → State → State
note_include target s = if mem_str target s.seen then s else record s {
  seen = target ∷ s.seen;
  out = record (s.out) { includes = s.out.includes ++ target ∷ [] };
}

unfoldable pub note_cycle : List Str → State → State
note_cycle path s = record s { out = record (s.out) { cycles = s.out.cycles ++ path ∷ [] } }

unfoldable pub note_broken : Str → Str → Via → Outcome → State → State
note_broken parent target via reason s = record s {
  out = record (s.out) {
    broken =
        s.out.broken
        ++ record { parent = parent; target = target; via = via; reason = reason } ∷ [];
  };
}

unfoldable pub value_or_domain : Term → Str → Str
value_or_domain t domain = let v = trim_space t.value in if is_empty v then domain else normalize v

unfoldable pub via_for : Term → Via
via_for t =
    if eq_str t.name (codes "include")
    then Via.include
    else if eq_str t.name (codes "a")
    then Via.a
    else if eq_str t.name (codes "mx")
    then Via.mx
    else if eq_str t.name (codes "ptr")
    then Via.ptr
    else if eq_str t.name (codes "exists")
    then Via.exists
    else Via.named t.name

unfoldable pub count_void : Limits → State → State
count_void lim s =
    let v = s.out.void + 1 in
    let s' : State = record s { out = record (s.out) { void = v } } in
    if ltb lim.max_void v
    then perm_first PermError.over_void_limit (PermDetail.void_lookups v lim.max_void) s'
    else s'
