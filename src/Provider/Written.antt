-- ===== src/Provider/Written.antt =====
-- What writing to a table of providers keeps: an entry never comes to name another provider.
use mailkit.Prelude.{
  List, [], ◌∷◌, Option, none, some, if◌then◌else◌, ◌≡◌, refl, arith, All, Bool-cases, Option-cases,
  inl, inr,
}
use mailkit.Text.{Str, eq_str}
use mailkit.Text.Equality.{eq_str_refl, eq_str_sound}
use mailkit.Provider.{Provider, Table, provider_at, Loaded, ◌>>=◌, write, claim, claim_all}

-- The provider at a key, by its id.
abbrev pub id_at : Str → Table → Option Str
id_at k t = elim (provider_at k t) [ none ↦ none | some v ↦ some v.id ]

-- Every entry of the first table is in the second, under the same id.
abbrev pub IsKept : Table → Table → Type 0
IsKept t t' = (k i : Str) → id_at k t ≡ some i → id_at k t' ≡ some i

pub IsKept-trans : (t u w : Table) → IsKept t u → IsKept u w → IsKept t w
IsKept-trans t u w f g k i h = g k i (f k i h)

-- A write that succeeds puts the entry first, over none or one of the same provider.
pub write_ok :
    (k : Str) (v : Provider) (t t' : Table)
    → write k v t ≡ Loaded.ok t'
    → (t' ≡ (k, v) ∷ t) × ((w : Provider) → provider_at k t ≡ some w → w.id ≡ v.id)
unfolding write
write_ok k v t t' h = elim (Option-cases (provider_at k t)) [
  | inl e ↦ (ground (arith, e), λ w g. cc)
  | inr (u, e) ↦ (ground (arith, e), λ w g. eq_str_sound w.id v.id (ground (arith, g, e)))
]

id_at-cons :
    (j k : Str) (v : Provider) (t : Table)
    → id_at j ((k, v) ∷ t) ≡ (if eq_str k j then some v.id else id_at j t)
unfolding provider_at
id_at-cons j k v t = ground arith

write_lem :
    (k : Str) (v : Provider) (t t' : Table)
    → write k v t ≡ Loaded.ok t'
    → (id_at k t' ≡ some v.id) × IsKept t t'
write_lem k v t t' h =
    let (e, same) = write_ok k v t t' h in
    rw e (
      ground (arith, id_at-cons k k v t, eq_str_refl k),
      λ j i g. elim (Bool-cases (eq_str k j)) [
        | inr q ↦ ground (arith, id_at-cons j k v t)
        | inl q ↦
            let here = eq_str_sound k j q in
            elim (Option-cases (provider_at k t)) [
              | inl n ↦ ground (arith, here, g, n)
              | inr (w, n) ↦ ground (arith, id_at-cons j k v t, same w n, here, g, n)
            ]
      ],
    )

-- Where a chain of steps succeeds, its first step does.
pub >>=-eq-ok {ℓ κ} :
    {A : Type ℓ} {B : Type κ} (m : Loaded A) (f : A → Loaded B) {b : B}
    → (m >>= f) ≡ Loaded.ok b
    → (a : A) × (m ≡ Loaded.ok a) × (f a ≡ Loaded.ok b)
>>=-eq-ok (Loaded.ok a) f h = (a, refl, h)
>>=-eq-ok (Loaded.refused p) f h = cc

pub claim_ok {ℓ} :
    {A : Type ℓ} (key : A → Option Str) (kind : Str) (v : Provider) (x : A) (t t' : Table)
    → claim key kind v x t ≡ Loaded.ok t'
    → (k : Str) × (key x ≡ some k) × (write k v t ≡ Loaded.ok t')
unfolding claim
claim_ok key kind v x t t' h = elim (Option-cases (key x)) [
  | inl e ↦ let r = rw (e, claim) at h in cc r
  | inr (k, e) ↦ (k, e, rw (e, claim) at h)
]

-- A loop of claims that succeeds keeps what is written, and writes each key under the provider.
pub claim_all_lem {ℓ} :
    {A : Type ℓ} (key : A → Option Str) (kind : Str) (v : Provider) (xs : List A) (t t' : Table)
    → claim_all key kind v xs t ≡ Loaded.ok t'
    → All (λ x. (k : Str) × (key x ≡ some k) × (id_at k t' ≡ some v.id)) xs × IsKept t t'
unfolding claim_all claim
claim_all_lem key kind v [] t t' h = (tt, λ j i g. ground (arith, g, h))
claim_all_lem key kind v (x ∷ xs) t t' h =
    let (u, here, rest) = >>=-eq-ok (claim key kind v x t) (claim_all key kind v xs) h in
    let (k, named, written) = claim_ok key kind v x t u here in
    let first = write_lem k v t u written in
    let more = claim_all_lem key kind v xs u t' rest in
    (((k, named, more.1 k v.id first.0), more.0), IsKept-trans t u t' first.1 more.1)
