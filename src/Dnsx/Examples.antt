-- ===== src/Dnsx/Examples.antt =====
-- Names and errors at concrete values.
use mailkit.Prelude.{[], ◌++◌, List, true, false, ◌≡◌, ◌≢◌, ◌↔◌, refl}
use mailkit.Text.{
  Str, codes, eq_str, is_space, lower, to_lower, trim_left, keep, trim_right, trim_space, index,
  last_index, contains, index_any, has_prefix, has_suffix, index_str, trim_end,
}
use mailkit.Dnsx.{
  after_scheme, before_path, after_user, before_port, trim_www, normalize_host, normalize,
  is_subdomain_of, labels,
}
use mailkit.Dnsx.Names.{is_subdomain_of_iff}

normalize_url : normalize (codes " https://User@WWW.Example.com:8080/path ") ≡ codes "example.com"
unfolding is_space lower to_lower trim_left keep trim_right trim_space index last_index contains
    index_any has_prefix index_str trim_end after_scheme before_path after_user before_port trim_www
    normalize_host normalize
normalize_url = refl

-- What is left of "www.com" is not a host of that name.
normalize_www : normalize (codes "www.com") ≡ codes "com"
unfolding is_space lower to_lower trim_left keep trim_right trim_space index last_index contains
    index_any has_prefix index_str trim_end after_scheme before_path after_user before_port trim_www
    normalize_host normalize
normalize_www = refl

evil_outside : is_subdomain_of (codes "evilexample.com") (codes "example.com") ≡ false
unfolding is_space lower to_lower trim_left keep trim_right trim_space index last_index contains
    index_any has_prefix index_str trim_end after_scheme before_path after_user before_port trim_www
    normalize_host normalize eq_str has_suffix is_subdomain_of
evil_outside = refl

is_subdomain_of_iff_example :
    (is_subdomain_of (codes "Mail.example.com") (codes "example.com.") ≡ true) ↔ (
      (normalize (codes "Mail.example.com") ≢ [])
      × (normalize (codes "example.com.") ≢ [])
      × (above : List Str) × (labels (codes "Mail.example.com")
          ≡ above ++ labels (codes "example.com.")))
is_subdomain_of_iff_example = is_subdomain_of_iff (codes "Mail.example.com") (codes "example.com.")
