-- ===== src/Dnsx/RateLimit/Examples.antt =====
-- A limit of ten queries a second, and one of three.

use mailkit.Prelude.{
  ℕ, zero, suc, ◌+◌, ◌*◌, ◌≤◌, ◌<◌, List, [], ◌∷◌, none, some, ◌≡◌, ◌≢◌, ◌⊎◌, refl, arith,
}
use mailkit.Text.{codes}
use mailkit.Dnsx.{Error, Result, Resolver}
use mailkit.Dnsx.RateLimit.{
  Limiter, Wait, Signal, rate_limit, reserve, until, wake, slot_of, reserved, slots, after,
  limited_query, limited,
}
use mailkit.Dnsx.RateLimit.Slots.{AreSpaced, AreFrom, slots-AreSpaced}
use mailkit.Dnsx.RateLimit.Window.{count_between, slots_in_window}
use mailkit.Dnsx.RateLimit.Progress.{AreRising, last_reading, refused-wake}

running : Unit {0}
unfolding rate_limit reserve until wake slot_of reserved slots after limited_query limited
    count_between last_reading
running = tt

-- 100 milliseconds.
abbrev tenth : ℕ
tenth = 100000000

abbrev ten : Limiter
ten = record { interval = tenth; burst = 20 * tenth; next = 0 }

ten_set : rate_limit 10 ≡ some ten
unfolding running
ten_set = refl

-- Three calls at once, and one after a pause.
abbrev calls : List ℕ
calls = 50 ∷ 50 ∷ 60 ∷ 900000000 ∷ []

one_apart : slots calls ten ≡ 50 ∷ 100000050 ∷ 200000050 ∷ 900000000 ∷ []
unfolding running
one_apart = refl

-- At three queries a second, a second can hold four.
four_of_three :
    (rate_limit 3 ≡ some (record { interval = 333333333; burst = 6666666660; next = 0 }))
    × (count_between 0 1000000000 (
          slots
            (0 ∷ 0 ∷ 0 ∷ 0 ∷ [])
            (record { interval = 333333333; burst = 6666666660; next = 0 }))
        ≡ 4)
unfolding running
four_of_three = (refl, refl)

-- As many calls at once.
unfoldable zeros : ℕ → List ℕ
zeros zero = []
zeros (suc n) = 0 ∷ zeros n

zeros-AreRising : (n : ℕ) → AreRising 0 (zeros n)
unfolding zeros
zeros-AreRising zero = tt
zeros-AreRising (suc n) = (omega arith, zeros-AreRising n)

zeros-last : (n : ℕ) → last_reading 0 (zeros n) ≡ 0
unfolding zeros last_reading
zeros-last zero = refl
zeros-last (suc n) = zeros-last n

-- After 22 calls the next one is too far ahead.
abbrev crowd : List ℕ
crowd = zeros 22

too_far : (reserve 0 (reserved crowd ten)).0 ≡ Wait.queued tenth
unfolding running zeros
too_far = refl

canceled : wake (Signal.done Error.canceled) (Wait.asleep 3) ten ≡ (Wait.failed Error.canceled, ten)
unfolding running
canceled = refl

no_sleep : until 60 (Wait.asleep 50) ≡ Wait.passed
unfolding running
no_sleep = refl

slots-AreSpaced_example : AreFrom 0 (slots calls ten) × AreSpaced tenth (slots calls ten)
slots-AreSpaced_example = slots-AreSpaced calls ten

slots_in_window_example :
    count_between 0 (0 + 300000000) (slots calls ten) * tenth < 300000000 + tenth
slots_in_window_example = slots_in_window 10 ten ten_set (omega arith) calls 0 300000000

refused-wake_example :
    (slots [] (reserved crowd ten) ≢ [])
    ⊎ ((at : ℕ) × ((wake
            (Signal.timer tenth)
            (Wait.queued (last_reading 0 crowd + tenth))
            (reserved [] (reserved crowd ten))).0
          ≡ Wait.asleep at)
        × (at ≤ tenth + 21 * tenth))
refused-wake_example =
    refused-wake 10 ten ten_set crowd (zeros-AreRising 22) [] tenth (omega (arith, zeros-last 22))

abbrev inner : Resolver
inner = record {
  query = none;
  lookup_txt = λ _ name. Result.ok (name ∷ []);
  lookup_host = λ _ _. Result.err Error.no_record;
  lookup_mx = λ _ _. Result.ok [];
}

-- A wait that fails is the answer.
cut_short :
    (limited (λ _. some Error.canceled) inner).lookup_txt [] (codes "d") ≡ Result.err Error.canceled
unfolding running
cut_short = refl
