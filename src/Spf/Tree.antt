-- ===== src/Spf/Tree.antt =====
-- spf/tree.go: limits, outcomes, and the result of a walk. A detail text is kept as the values that
-- the source formats.
use mailkit.Prelude.{ℕ, List, Bool, ◌&&◌, ltb, is_empty}
use mailkit.Text.{Str}

pub record Limits : Type 0 where
  pub max_terms : ℕ
  pub max_void : ℕ
  pub max_mx_addrs : ℕ
  pub max_ptr_addrs : ℕ
  pub max_depth : ℕ

unfoldable pub default_limits : Limits
default_limits = record {
  max_terms = 10;
  max_void = 2;
  max_mx_addrs = 10;
  max_ptr_addrs = 10;
  max_depth = 20;
}

pub data Outcome : Type 0 where
  ok no_record nx_domain multiple temp_error cycle limit macro void : Outcome

-- How a node was reached; `named` is the text that `viaFor` returns for any other term.
pub data Via : Type 0 where
  root include redirect a mx ptr exists : Via
  named : Str → Via

-- The constants Perm*; `no_error` is the empty text.
pub data PermError : Type 0 where
  no_error multiple_records over_term_limit over_void_limit include_no_record syntax : PermError

pub data PermDetail : Type 0 where
  no_detail : PermDetail
  published : Str → ℕ → PermDetail
  limit_reached : ℕ → Str → Str → PermDetail
  no_target : Str → Via → PermDetail
  broken_target : Via → Str → Outcome → PermDetail
  void_lookups : ℕ → ℕ → PermDetail

pub record Node : Type 0 where
  pub seq : ℕ
  pub parent : Str
  pub target : Str
  pub via : Via
  pub depth : ℕ
  pub term_at : ℕ
  pub raw : Str
  pub outcome : Outcome

pub record Broken : Type 0 where
  pub parent : Str
  pub target : Str
  pub via : Via
  pub reason : Outcome

pub record Report : Type 0 where
  pub domain : Str
  pub records : List Str
  pub raw : Str
  pub found : Bool
  pub all : Str
  pub terms : ℕ
  pub terms_exact : Bool
  pub void : ℕ
  pub void_exact : Bool
  pub max_depth : ℕ
  pub nodes : List Node
  pub includes : List Str
  pub broken : List Broken
  pub cycles : List (List Str)
  pub perm_error : PermError
  pub perm_detail : PermDetail
  pub temp_error : Str

unfoldable pub over_limit : Report → Limits → Bool
over_limit r lim = is_empty r.temp_error && ltb lim.max_terms r.terms

unfoldable pub usable : Report → Bool
usable r = is_empty r.temp_error
