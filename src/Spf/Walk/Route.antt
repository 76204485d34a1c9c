-- ===== src/Spf/Walk/Route.antt =====
-- The path from the root to a record, as the nodes of a report show it.
use mailkit.Prelude.{
  ℕ, ◌+◌, List, [], ◌∷◌, ◌++◌, append_assoc, Bool, true, false, ◌≡◌, refl, ◌∙◌, ap,
}
use mailkit.Text.{Str}
use mailkit.Spf.Tree.{Outcome, Via, Node}

-- A node stands in a list.
abbrev pub IsListed : List Node → Node → Type 0
IsListed nodes n = (before : List Node) × (after : List Node) × (nodes ≡ before ++ n ∷ after)

-- Whether a target was reached by a term that makes the walk go on at it.
abbrev pub is_jump : Via → Bool
is_jump Via.include = true
is_jump Via.redirect = true
is_jump _ = false

-- The names from the root down to a record at some depth: that of the root's node, then those of
-- includes and redirects whose record was read, each at the name before and one deeper.
pub data IsRoute (nodes : List Node) : List Str → Str → ℕ → Type 0 where
  root :
      (n : Node)
      → IsListed nodes n
      → n.via ≡ Via.root
      → n.depth ≡ 0
      → IsRoute nodes (n.target ∷ []) n.target 0
  below :
      {path : List Str} {parent : Str} {depth : ℕ}
      → IsRoute nodes path parent depth
      → (n : Node) → IsListed nodes n
      → n.parent ≡ parent
      → n.depth ≡ depth + 1
      → n.outcome ≡ Outcome.ok
      → is_jump n.via ≡ true
      → IsRoute nodes (path ++ n.target ∷ []) n.target (depth + 1)

pub IsRoute-mono :
    (ns ms : List Node)
    → ((n : Node) → IsListed ns n → IsListed ms n)
    → {path : List Str} {name : Str} {depth : ℕ} → IsRoute ns path name depth
    → IsRoute ms path name depth
IsRoute-mono ns ms more (root n l v d) = root n (more n l) v d
IsRoute-mono ns ms more (below h n l p d o j) =
    below (IsRoute-mono ns ms more h) n (more n l) p d o j

pub IsListed-concat : (ns : List Node) (m n : Node) → IsListed ns n → IsListed (ns ++ m ∷ []) n
IsListed-concat ns m n (before, after, e) =
    (before, after ++ m ∷ [], ap (λ l. l ++ m ∷ []) e ∙ append_assoc before (n ∷ after) (m ∷ []))

pub IsListed-last : (ns : List Node) (n : Node) → IsListed (ns ++ n ∷ []) n
IsListed-last ns n = (ns, [], refl)
