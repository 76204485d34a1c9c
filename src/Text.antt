-- ===== src/Text.antt =====
-- Texts, and what the program uses of Go's package strings. A text is the list of its bytes, all of
-- them ASCII: `TrimSpace`, `Fields`, `ToLower` and `EqualFold` are modelled as they act there.
pub mod Equality
pub mod Split
pub mod Order
pub mod Decimal
pub mod Places
pub mod Words
use Prim.Native.Char.{code}
use Prim.Native.String.{String}
use mailkit.Prelude.{
  ℕ, zero, suc, ◌+◌, ◌/◌, ◌%◌, ltb, ◌∷◌, [], List, ◌++◌, map, Bool, true, false, not, ◌&&◌, ◌||◌,
  Option, none, some, leb, ◌==◌, if◌then◌else◌, is_empty,
}

abbrev pub Str : Type 0
Str = List ℕ

-- The bytes of a literal.
abbrev pub codes : String → Str
codes String.[] = []
codes (String.◌∷◌ c s) = code c ∷ codes s

-- The test `s == t` on strings.
unfoldable pub eq_str : Str → Str → Bool
eq_str [] [] = true
eq_str (a ∷ s) (b ∷ t) = a == b && eq_str s t
eq_str _ _ = false

-- Whether a text stands in a list of texts.
unfoldable pub mem_str : Str → List Str → Bool
mem_str a [] = false
mem_str a (b ∷ l) = eq_str b a || mem_str a l

unfoldable pub is_space : ℕ → Bool
is_space c = leb 9 c && leb c 13 || c == 32

unfoldable pub lower : ℕ → ℕ
lower c = if leb b'A' c && leb c b'Z' then c + 32 else c

-- strings.ToLower
unfoldable pub to_lower : Str → Str
to_lower s = map lower s

-- strings.EqualFold
unfoldable pub equal_fold : Str → Str → Bool
equal_fold s t = eq_str (to_lower s) (to_lower t)

unfoldable pub trim_left : Str → Str
trim_left [] = []
trim_left (c ∷ s) = if is_space c then trim_left s else c ∷ s

-- One byte before a text whose end is already trimmed.
unfoldable pub keep : ℕ → Str → Str
keep c [] = if is_space c then [] else c ∷ []
keep c (d ∷ s) = c ∷ d ∷ s

unfoldable pub trim_right : Str → Str
trim_right [] = []
trim_right (c ∷ s) = keep c (trim_right s)

-- strings.TrimSpace
unfoldable pub trim_space : Str → Str
trim_space s = trim_right (trim_left s)

-- Whether a text begins inside a word.
unfoldable pub starts_word : Str → Bool
starts_word [] = false
starts_word (c ∷ s) = not (is_space c)

-- A byte in front of the first of some words.
unfoldable pub cons_head : ℕ → List Str → List Str
cons_head c [] = (c ∷ []) ∷ []
cons_head c (w ∷ ws) = (c ∷ w) ∷ ws

-- strings.Fields
unfoldable pub fields : Str → List Str
fields [] = []
fields (c ∷ s) =
    let rest = fields s in
    if is_space c then rest else if starts_word s then cons_head c rest else (c ∷ []) ∷ rest

-- strings.Index of one byte; `none` for -1.
unfoldable pub index : ℕ → Str → Option ℕ
index b [] = none
index b (c ∷ s) =
    let rest = index b s in
    if c == b then some 0 else elim rest [ none ↦ none | some i ↦ some (suc i) ]

-- strings.LastIndex of one byte.
unfoldable pub last_index : ℕ → Str → Option ℕ
last_index b [] = none
last_index b (c ∷ s) = elim (last_index b s) [
  | none ↦ if c == b then some 0 else none
  | some i ↦ some (suc i)
]

-- strings.Contains of one byte.
unfoldable pub contains : ℕ → Str → Bool
contains b [] = false
contains b (c ∷ s) = c == b || contains b s

-- strings.IndexAny, the set of bytes first.
unfoldable pub index_any : Str → Str → Option ℕ
index_any any [] = none
index_any any (c ∷ s) =
    let rest = index_any any s in
    if contains c any then some 0 else elim rest [ none ↦ none | some i ↦ some (suc i) ]

-- strings.HasPrefix, prefix first.
unfoldable pub has_prefix : Str → Str → Bool
has_prefix [] s = true
has_prefix (a ∷ p) [] = false
has_prefix (a ∷ p) (b ∷ s) = a == b && has_prefix p s

-- strings.HasSuffix, suffix first.
unfoldable pub has_suffix : Str → Str → Bool
has_suffix t [] = is_empty t
has_suffix t (c ∷ s) = eq_str (c ∷ s) t || has_suffix t s

-- strings.Index of a text.
unfoldable pub index_str : Str → Str → Option ℕ
index_str t [] = if is_empty t then some 0 else none
index_str t (c ∷ s) =
    let rest = index_str t s in
    if has_prefix t (c ∷ s) then some 0 else elim rest [ none ↦ none | some i ↦ some (suc i) ]

-- strings.TrimSuffix of one byte.
unfoldable pub trim_end : ℕ → Str → Str
trim_end b [] = []
trim_end b (c ∷ []) = if c == b then [] else c ∷ []
trim_end b (c ∷ d ∷ s) = c ∷ trim_end b (d ∷ s)

-- strings.Split at one byte.
unfoldable pub split : ℕ → Str → List Str
split b [] = [] ∷ []
split b (c ∷ s) = let rest = split b s in if c == b then [] ∷ rest else cons_head c rest

unfoldable pub separated : ℕ → List Str → Str
separated b [] = []
separated b (p ∷ ps) = b ∷ (p ++ separated b ps)

-- strings.Join with one byte.
unfoldable pub join : ℕ → List Str → Str
join b [] = []
join b (p ∷ ps) = p ++ separated b ps

-- The decimal digits of a number in front of a text: one digit for each turn, at most as many as
-- the fuel.
unfoldable pub decimal_from : ℕ → ℕ → Str → Str
decimal_from zero n acc = acc
decimal_from (suc fuel) n acc =
    let rest = decimal_from fuel (n / 10) ((b'0' + n % 10) ∷ acc) in
    if ltb n 10 then (b'0' + n) ∷ acc else rest

-- fmt.Sprint of a number that is not negative.
unfoldable pub decimal : ℕ → Str
decimal n = decimal_from (suc n) n []
