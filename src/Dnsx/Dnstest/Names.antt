-- ===== src/Dnsx/Dnstest/Names.antt =====
-- dnsx/dnstest/dnstest.go: which names exist in a zone, and the response code that says so.
use mailkit.Prelude.{◌∷◌, ◌++◌, true, ◌≡◌, ◌⊎◌}
use mailkit.Text.{Str, mem_str}
use mailkit.Dnsx.Dnstest.{Zone, all_keys}

-- A name exists when it is a key of the zone, or stands at the end of one behind a dot.
abbrev pub IsHeld : Zone → Str → Type 0
IsHeld z name =
    (k : Str) × (mem_str k (all_keys z) ≡ true)
    × ((k ≡ name) ⊎ ((p : Str) × (k ≡ p ++ b'.' ∷ name)))
