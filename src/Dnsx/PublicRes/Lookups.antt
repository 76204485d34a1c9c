-- ===== src/Dnsx/PublicRes/Lookups.antt =====
-- dnsx/publicres/publicres.go: the lookups by type, which stand on `Query`.
use mailkit.Prelude.{ℕ, List, [], true, false, ◌||◌, Option, ◌==◌, if◌then◌else◌, is_empty}
use mailkit.Text.{Str, codes, trim_end}
use mailkit.Dnsx.{Answer, Mx, Error, Result, message, rcode_name_error, type_txt, type_mx, type_a}
use mailkit.Dnsx.PublicRes.{Settings, Client, query}

abbrev pub type_aaaa : ℕ
type_aaaa = 28

abbrev pub type_ptr : ℕ
type_ptr = 12

unfoldable pub no_such_name : Str → Error
no_such_name name = Error.dns (codes "no such host") name [] true

unfoldable pub txt_records : Str → Result Answer → Result (List Str)
txt_records name (Result.err e) = Result.err e
txt_records name (Result.ok a) =
    if a.rcode == rcode_name_error then Result.err (no_such_name name) else Result.ok a.txt

unfoldable pub mx_records : Str → Result Answer → Result (List Mx)
mx_records name (Result.err e) = Result.err e
mx_records name (Result.ok a) =
    if a.rcode == rcode_name_error then Result.err (no_such_name name) else Result.ok a.mx

unfoldable pub addr_records : Str → Result Answer → Result (List Str)
addr_records addr (Result.err e) = Result.err e
addr_records addr (Result.ok a) =
    if a.rcode == rcode_name_error || is_empty a.hosts
    then Result.err (no_such_name addr)
    else Result.ok a.hosts

-- The end of `LookupHost`.
unfoldable pub found_hosts : Str → List Str → Result (List Str)
found_hosts host hosts = if is_empty hosts then Result.err (no_such_name host) else Result.ok hosts

unfoldable pub hosts_of : Result Answer → List Str
hosts_of (Result.ok a) = a.hosts
hosts_of (Result.err e) = []

module _ (udp tcp : Client) (ctx : ℕ → Option Error) (fqdn : Str → Str) (rcode_text : ℕ → Str)
    (cfg : Settings) where
  unfoldable pub lookup_txt : Str → ℕ → Result (List Str) × ℕ
  lookup_txt name next =
      let (a, next') = query udp tcp ctx fqdn rcode_text cfg name type_txt next in
      (txt_records name a, next')

  unfoldable pub lookup_mx : Str → ℕ → Result (List Mx) × ℕ
  lookup_mx name next =
      let (a, next') = query udp tcp ctx fqdn rcode_text cfg name type_mx next in
      (mx_records name a, next')

  -- The second question is put where the first one has no address.
  unfoldable pub lookup_host : Str → ℕ → Result (List Str) × ℕ
  lookup_host host next =
      let (a, next') = query udp tcp ctx fqdn rcode_text cfg host type_a next in
      let (a6, next'') = query udp tcp ctx fqdn rcode_text cfg host type_aaaa next' in
      elim a [
        | Result.err e ↦ (Result.err e, next')
        | Result.ok ans ↦
            if is_empty ans.hosts
            then (found_hosts host (hosts_of a6), next'')
            else (found_hosts host ans.hosts, next')
      ]

  -- LookupAddr, behind the name that dns.ReverseAddr makes of an address.
  unfoldable pub lookup_addr : (Str → Result Str) → Str → ℕ → Result (List Str) × ℕ
  lookup_addr reverse_addr addr next = elim (reverse_addr addr) [
    | Result.err e ↦ (Result.err (Error.dns (message e) addr [] false), next)
    | Result.ok arpa ↦
        let (a, next') = query udp tcp ctx fqdn rcode_text cfg (trim_end b'.' arpa) type_ptr next in
        (addr_records addr a, next')
  ]
