-- ===== src/Dnsx/RateLimit/Slots.antt =====
-- How far apart the slots of a limiter are, and how far ahead.
use mailkit.Prelude.{
  ℕ, ◌+◌, ◌-◌, ◌≤◌, ◌<◌, ltb, List, [], ◌∷◌, ◌≡◌, arith, All, All-map, Bool-cases, inl, inr,
}
use mailkit.Dnsx.RateLimit.{Limiter, Wait, reserve, slot_of, slots}

-- The slots rise, each by an interval at least.
abbrev pub AreSpaced : ℕ → List ℕ → Type 0
AreSpaced interval [] = Unit
AreSpaced interval (at ∷ slots) = All (λ s. at + interval ≤ s) slots × AreSpaced interval slots

-- What a reservation can do.
pub data Reserved (now : ℕ) (l : Limiter) : Wait × Limiter → Type 0 where
  granted :
      (at : ℕ)
      → now ≤ at
      → l.next ≤ at
      → at ≤ now + (l.burst + l.interval)
      → Reserved now l (Wait.asleep at, record l { next = at + l.interval })
  refused :
      now + (l.burst + l.interval) < l.next → Reserved now l (Wait.queued (now + l.interval), l)

pub reserve-cases : (now : ℕ) (l : Limiter) → Reserved now l (reserve now l)
unfolding reserve
reserve-cases now l = elim (Bool-cases (ltb l.next now)) [
  | inl idle ↦ elim (Bool-cases (ltb (l.burst + l.interval) (now - now))) [
    | inl far ↦ absurd (ground arith)
    | inr near ↦
        rw (idle, near, reserve) (Reserved.granted now (omega arith) (ground arith) (omega arith))
  ]
  | inr busy ↦ elim (Bool-cases (ltb (l.burst + l.interval) (l.next - now))) [
    | inl far ↦
        let given_back : l.next + l.interval - l.interval ≡ l.next = omega arith in
        rw (busy, far, given_back, reserve) (Reserved.refused (ground arith))
    | inr near ↦
        rw (busy, near, reserve)
          (Reserved.granted l.next (ground arith) (omega arith) (ground arith))
  ]
]

-- Every slot is at `at` or later.
abbrev pub AreFrom : ℕ → List ℕ → Type 0
AreFrom at slots = All (λ s. at ≤ s) slots

pub later-AreFrom : (a b : ℕ) (l : List ℕ) → a ≤ b → AreFrom b l → AreFrom a l
later-AreFrom a b l h k = All-map (λ s. b ≤ s) (λ s. a ≤ s) (λ s q. omega arith) l k

-- The slots after a state are at its next free moment or later, and spaced.
pub record IsSpaced (l : Limiter) (slots : List ℕ) : Type 0 where
  pub free : AreFrom l.next slots
  pub spaced : AreSpaced l.interval slots

slot_of-IsSpaced :
    (now : ℕ) (l : Limiter) (w : Wait × Limiter) (rest : List ℕ)
    → Reserved now l w
    → IsSpaced w.1 rest
    → IsSpaced l (slot_of w.0 rest)
unfolding slot_of
slot_of-IsSpaced now l _ rest (Reserved.granted at h free near) k = record {
  free = (free, later-AreFrom l.next (at + l.interval) rest (omega arith) k.free);
  spaced = (k.free, k.spaced);
}
slot_of-IsSpaced now l _ rest (Reserved.refused h) k = k

pub slots-IsSpaced : (readings : List ℕ) (l : Limiter) → IsSpaced l (slots readings l)
unfolding slots
slots-IsSpaced [] l = record { free = tt; spaced = tt }
slots-IsSpaced (now ∷ readings) l =
    slot_of-IsSpaced now l (reserve now l) (slots readings (reserve now l).1) (reserve-cases now l)
      (slots-IsSpaced readings (reserve now l).1)

-- Whatever the readings of the clock, and whichever calls ask, the slots that a limiter hands out
-- are at its next free moment or later, and each is an interval at least after every earlier one.
pub slots-AreSpaced :
    (readings : List ℕ) (l : Limiter)
    → AreFrom l.next (slots readings l) × AreSpaced l.interval (slots readings l)
slots-AreSpaced readings l = let s = slots-IsSpaced readings l in (s.free, s.spaced)
