-- ===== src/Finding.antt =====
-- finding/finding.go: severities, findings, and sets of findings. A panic is an error.
pub mod Order
pub mod Bands
pub mod Render
pub mod Codes
mod Examples
use mailkit.Prelude.{
  ℕ, suc, List, [], ◌∷◌, ◌++◌, Bool, true, false, not, ◌||◌, map, ltb, ◌==◌, if◌then◌else◌,
  is_empty, Option, none, some,
}
use mailkit.Text.{Str, codes, eq_str}
use mailkit.Text.Order.{lt_str}
use mailkit.Sorting.{insertion}

-- A severity is a text.
unfoldable pub rank : Str → ℕ
rank s =
    if eq_str s (codes "critical")
    then 0
    else if eq_str s (codes "warning")
    then 1
    else if eq_str s (codes "info")
    then 2
    else 3

pub record Message : Type 0 where
  pub title : Str
  pub detail : Str
  pub fix : Str
  pub why : Str
  pub steps : List Str
  pub paste : Str

pub record Finding : Type 0 where
  pub code : Str
  pub severity : Str
  pub message : Message
  pub params : List (Str × Str)

abbrev pub no_message : Message
no_message = record { title = []; detail = []; fix = []; why = []; steps = []; paste = [] }

-- What a call may end in beside a value.
pub data Panic : Type 0 where
  odd_params : Str → Panic
  no_entry : Str → Panic

pub data Outcome {ℓ} (A : Type ℓ) : Type ℓ where
  done : A → Outcome A
  panic : Panic → Outcome A

-- Writing a map: a later value replaces an earlier one.
unfoldable pub set_param : Str → Str → List (Str × Str) → List (Str × Str)
set_param k v [] = (k, v) ∷ []
set_param k v ((j, w) ∷ m) =
    let rest = set_param k v m in if eq_str j k then (k, v) ∷ m else (j, w) ∷ rest

-- The pairs of an alternating list, written one after the other; `none` for an odd count.
unfoldable pub params_of : List Str → List (Str × Str) → Option (List (Str × Str))
params_of [] m = some m
params_of (k ∷ []) m = none
params_of (k ∷ v ∷ kv) m = params_of kv (set_param k v m)

-- The arguments as fmt.Sprint writes them.
unfoldable pub new : Str → Str → List Str → Outcome Finding
new code sev kv = elim (params_of kv []) [
  | none ↦ Outcome.panic (Panic.odd_params code)
  | some m ↦ Outcome.done (record { code = code; severity = sev; message = no_message; params = m })
]

-- A renderer is code outside of this module.
pub record Renderer : Type 0 where
  pub has : Str → Bool
  pub render : Str → Str → List (Str × Str) → Message

unfoldable pub render : Renderer → Str → Finding → Outcome Finding
render r locale f =
    if is_empty f.code
    then Outcome.done f
    else if not (r.has f.code)
    then Outcome.panic (Panic.no_entry f.code)
    else Outcome.done (record f { message = r.render locale f.code f.params })

-- The method `Add` of a set.
unfoldable pub add : Str → Str → List Str → List Finding → Outcome (List Finding)
add code sev kv s = elim (new code sev kv) [
  | Outcome.panic p ↦ Outcome.panic p
  | Outcome.done f ↦ Outcome.done (s ++ f ∷ [])
]

unfoldable pub has : Str → List Finding → Bool
has code [] = false
has code (f ∷ s) = eq_str f.code code || has code s

unfoldable pub codes_of : List Finding → List Str
codes_of [] = []
codes_of (f ∷ s) = f.code ∷ codes_of s

-- The loop of `Worst`, with its variable.
unfoldable pub worst_from : Str → List Finding → Str
worst_from worst [] = worst
worst_from worst (f ∷ s) =
    worst_from (if is_empty worst || ltb (rank f.severity) (rank worst) then f.severity else worst)
      s

unfoldable pub worst : List Finding → Str
worst s = worst_from [] s

-- The test that sorting uses.
unfoldable pub more_severe : Finding → Finding → Bool
more_severe f g =
    if not (rank f.severity == rank g.severity)
    then ltb (rank f.severity) (rank g.severity)
    else lt_str f.code g.code

unfoldable pub sort_by_severity : List Finding → List Finding
sort_by_severity s = insertion more_severe s

-- The method `Render` of a set: it stops at the first panic.
unfoldable pub render_all : Renderer → Str → List Finding → Outcome (List Finding)
render_all r locale [] = Outcome.done []
render_all r locale (f ∷ s) = elim (render r locale f) [
  | Outcome.panic p ↦ Outcome.panic p
  | Outcome.done g ↦ elim (render_all r locale s) [
    | Outcome.panic p ↦ Outcome.panic p
    | Outcome.done gs ↦ Outcome.done (g ∷ gs)
  ]
]
