-- ===== src/Dnsx/RateLimit/Progress.antt =====
-- A call that gave its slot back gets one, or another call does.
use mathlib.Core.List.{cons≢nil}
use mailkit.Prelude.{
  ℕ, ◌+◌, ◌*◌, ◌≤◌, List, [], ◌∷◌, ◌≡◌, ◌≢◌, ◌⊎◌, inl, inr, refl, ◌∙◌, arith, some,
}
use mailkit.Dnsx.RateLimit.{
  Limiter, Wait, Signal, rate_limit, reserve, wake, slot_of, reserved, slots,
}
use mailkit.Dnsx.RateLimit.Slots.{Reserved, reserve-cases}
use mailkit.Dnsx.RateLimit.Window.{rate_limit_lem}

-- The limiter is the one that was set, and no moment is reserved further ahead of the clock than an
-- interval after the last slot that it hands out.
record IsAhead (set : Limiter) (now : ℕ) (l : Limiter) : Type 0 where
  interval : l.interval ≡ set.interval
  burst : l.burst ≡ set.burst
  bounded : l.next ≤ now + (set.burst + set.interval) + set.interval

-- The readings of a clock that does not go back, from a moment on.
abbrev pub AreRising : ℕ → List ℕ → Type 0
AreRising now [] = Unit
AreRising now (later ∷ readings) = (now ≤ later) × AreRising later readings

-- The last of the readings.
unfoldable pub last_reading : ℕ → List ℕ → ℕ
last_reading now [] = now
last_reading now (later ∷ readings) = last_reading later readings

module _ (set : Limiter) where
  later-IsAhead :
      (now later : ℕ) (l : Limiter) → now ≤ later → IsAhead set now l → IsAhead set later l
  later-IsAhead now later l h k = record {
    interval = k.interval;
    burst = k.burst;
    bounded = omega (arith, k.bounded);
  }

  reserved_one-IsAhead :
      (now : ℕ) (l : Limiter) (w : Wait × Limiter)
      → Reserved now l w
      → IsAhead set now l
      → IsAhead set now w.1
  reserved_one-IsAhead now l _ (Reserved.granted at h free near) k = record {
    interval = k.interval;
    burst = k.burst;
    bounded = omega (arith, k.interval, k.burst);
  }
  reserved_one-IsAhead now l _ (Reserved.refused h) k = k

  reserved-IsAhead :
      (now : ℕ) (readings : List ℕ) (l : Limiter)
      → AreRising now readings
      → IsAhead set now l
      → IsAhead set (last_reading now readings) (reserved readings l)
  unfolding reserved last_reading
  reserved-IsAhead now [] l h k = k
  reserved-IsAhead now (later ∷ readings) l (h, rising) k =
      reserved-IsAhead later readings (reserve later l).1 rising (
        reserved_one-IsAhead later l (reserve later l) (reserve-cases later l)
          (later-IsAhead now later l h k))

-- A call that gets no slot leaves the limiter as it is.
no_slot-reserve :
    (now : ℕ) (l : Limiter) (w : Wait × Limiter) (rest : List ℕ)
    → Reserved now l w
    → slot_of w.0 rest ≡ []
    → (w.1 ≡ l) × (rest ≡ [])
unfolding slot_of
no_slot-reserve now l _ rest (Reserved.granted at h free near) e = absurd (cons≢nil e)
no_slot-reserve now l _ rest (Reserved.refused h) e = (refl, e)

no_slot-reserved :
    (readings : List ℕ) (l : Limiter) → slots readings l ≡ [] → reserved readings l ≡ l
unfolding slots reserved
no_slot-reserved [] l h = refl
no_slot-reserved (now ∷ readings) l h =
    let one =
      no_slot-reserve now l (reserve now l) (slots readings (reserve now l).1) (reserve-cases now l)
        h in
    no_slot-reserved readings (reserve now l).1 one.1 ∙ one.0

granted_in_time :
    (now : ℕ) (l : Limiter) (w : Wait × Limiter)
    → Reserved now l w
    → l.next ≤ now + (l.burst + l.interval)
    → (at : ℕ) × (w.0 ≡ Wait.asleep at) × (at ≤ now + (l.burst + l.interval))
granted_in_time now l _ (Reserved.granted at h free near) k = (at, refl, near)
granted_in_time now l _ (Reserved.refused h) k = absurd (omega arith)

none_or_some : (l : List ℕ) → (l ≡ []) ⊎ (l ≢ [])
none_or_some [] = inl refl
none_or_some (x ∷ l) = inr cons≢nil

-- From the start of a limiter, with a clock that does not go back, a call that gives its slot back
-- at a moment and asks again an interval later, or after that, gets a slot at most 21 intervals
-- ahead then, unless one of the calls that asked in between got one.
pub refused-wake :
    (qps : ℕ) (l : Limiter)
    → rate_limit qps ≡ some l
    → (readings : List ℕ) → AreRising 0 readings
    → (others : List ℕ) (later : ℕ) → last_reading 0 readings + l.interval ≤ later
    → (slots others (reserved readings l) ≢ [])
      ⊎ ((at : ℕ) × ((wake
              (Signal.timer later)
              (Wait.queued (last_reading 0 readings + l.interval))
              (reserved others (reserved readings l))).0
            ≡ Wait.asleep at)
          × (at ≤ later + 21 * l.interval))
unfolding wake
refused-wake qps l h readings rising others later waited =
    let set = rate_limit_lem qps l h in
    let start : IsAhead l 0 l = record {
      interval = refl;
      burst = refl;
      bounded = omega (arith, set.3);
    } in
    let l' = reserved readings l in
    let ahead = reserved-IsAhead l 0 readings l rising start in
    elim (none_or_some (slots others l')) [
      | inl e ↦
          let free : l'.next ≤ later + (l'.burst + l'.interval) =
            omega (arith, ahead.interval, ahead.burst, ahead.bounded) in
          let slot = granted_in_time later l' (reserve later l') (reserve-cases later l') free in
          inr (
            rw (no_slot-reserved others l' e)
              (slot.0, slot.1, omega (arith, slot.2, ahead.interval, ahead.burst, set.2)))
      | inr e ↦ inl e
    ]
