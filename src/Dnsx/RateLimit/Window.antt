-- ===== src/Dnsx/RateLimit/Window.antt =====
-- How many slots fall into a stretch of time.
use native.Mathlib.Nat.{le-div_iff_mul-le}
use mathlib.Core.Option.{some-injective, none-ne-some}
use mailkit.Prelude.{
  ℕ, zero, suc, ◌+◌, ◌-◌, ◌*◌, ◌/◌, ◌≤◌, ◌<◌, ltb, leb, ◌==◌, List, [], ◌∷◌, false, ◌&&◌, some,
  if◌then◌else◌, ◌≡◌, refl, sym, ap, ◌∙◌, arith, Bool-cases, inl, inr,
}
use mailkit.Dnsx.RateLimit.{Limiter, rate_limit, slots}
use mailkit.Dnsx.RateLimit.Slots.{AreSpaced, AreFrom, later-AreFrom, slots-AreSpaced}

-- The slots from `a` on and before `b`.
unfoldable pub count_between : ℕ → ℕ → List ℕ → ℕ
count_between a b [] = 0
count_between a b (s ∷ slots) =
    let rest = count_between a b slots in if leb a s && ltb s b then suc rest else rest

-- Of slots from `from` on, none is before an earlier moment, and each but the first takes an
-- interval.
record Fits (interval from b count : ℕ) : Type 0 where
  empty : b ≤ from → count ≡ 0
  room : count * interval < b - from + interval

module _ (a b interval : ℕ) (positive : 0 < interval) where
  one_more :
      (at c : ℕ)
      → at < b
      → Fits interval (at + interval) b c
      → (suc c) * interval < b - at + interval
  one_more at c h k = ground (arith, k.room, k.empty)

  count-Fits :
      (from : ℕ) (slots : List ℕ)
      → AreFrom from slots
      → AreSpaced interval slots
      → Fits interval from b (count_between a b slots)
  unfolding count_between
  count-Fits from [] h k = record { empty = λ _. refl; room = ground arith }
  count-Fits from (at ∷ slots) (h, hs) (near, k) =
      let rest = count-Fits (at + interval) slots near k in
      elim (Bool-cases (ltb at b)) [
        | inl before ↦
            let more = one_more at (count_between a b slots) (ground arith) rest in
            record {
              empty = λ late. ground arith;
              room = ground (arith, more, rest.room, rest.empty);
            }
        | inr after ↦
            let none_left = rest.empty (ground arith) in
            record { empty = λ late. ground arith; room = ground (arith, none_left) }
      ]

  count_from_start :
      (slots : List ℕ)
      → AreSpaced interval slots
      → count_between a b slots * interval < b - a + interval
  unfolding count_between
  count_from_start [] k = ground arith
  count_from_start (at ∷ slots) (near, k) = elim (Bool-cases (leb a at)) [
    | inl inside ↦
        let first : a ≤ at = ground arith in
        (count-Fits a (at ∷ slots) (first, later-AreFrom a (at + interval) slots (omega arith) near)
          (near, k)).room
    | inr outside ↦ ground (arith, count_from_start slots k)
  ]

-- What `RateLimit` sets.
pub rate_limit_lem :
    (qps : ℕ) (l : Limiter)
    → rate_limit qps ≡ some l
    → (0 < qps) × (l.interval ≡ 1000000000 / qps) × (l.burst ≡ 20 * l.interval) × (l.next ≡ 0)
unfolding rate_limit
rate_limit_lem zero l h = absurd (none-ne-some l h)
rate_limit_lem (suc qps) l h =
    let limited : (suc qps == 0) ≡ false = ground arith in
    let set : Limiter = record {
      interval = 1000000000 / suc qps;
      burst = 20 * (1000000000 / suc qps);
      next = 0;
    } in
    let opened : rate_limit (suc qps) ≡ some set = rw (limited, rate_limit) refl in
    let same = some-injective set l (sym opened ∙ h) in
    (
      omega arith,
      ap (λ (m : Limiter). m.interval) (sym same),
      rw (sym same) refl,
      ap (λ (m : Limiter). m.next) (sym same),
    )

interval_positive :
    (qps : ℕ) (l : Limiter) → rate_limit qps ≡ some l → qps ≤ 1000000000 → 0 < l.interval
interval_positive qps l h few =
    let set = rate_limit_lem qps l h in
    let whole : 1 * qps ≤ 1000000000 = omega arith in
    omega (arith, set.1, (le-div_iff_mul-le set.0).1 whole)

-- In any stretch of time, the intervals of the slots in it do not add up to more than the stretch
-- and one interval: a stretch of n intervals holds n slots at most. The limit is one that
-- `RateLimit` sets for a number of queries that does not exceed a billion.
pub slots_in_window :
    (qps : ℕ) (l : Limiter)
    → rate_limit qps ≡ some l
    → qps ≤ 1000000000
    → (readings : List ℕ) (start window : ℕ)
    → count_between start (start + window) (slots readings l) * l.interval < window + l.interval
slots_in_window qps l h few readings start window =
    let positive : 0 < l.interval = interval_positive qps l h few in
    let fits =
      count_from_start start (start + window) l.interval positive (slots readings l)
        (slots-AreSpaced readings l).1 in
    omega (arith, fits)
