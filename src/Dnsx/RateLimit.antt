-- ===== src/Dnsx/RateLimit.antt =====
-- dnsx/ratelimit.go: a limit on how fast a resolver is asked. A time is a number of nanoseconds,
-- and 0 is the zero time, before every reading of the clock. The mutex makes a reservation one
-- step, so the calls that share a limiter are a sequence of readings of the clock, in the order of
-- the lock.
pub mod Slots
pub mod Window
pub mod Progress
pub mod Through
mod Examples
use mailkit.Prelude.{
  ℕ, ◌+◌, ◌-◌, ◌*◌, ◌/◌, ltb, leb, ◌==◌, List, [], ◌∷◌, Option, none, some, if◌then◌else◌,
}
use mailkit.Text.{Str}
use mailkit.Dnsx.{Answer, Error, Result, Resolver, Question}

pub record Limiter : Type 0 where
  pub interval : ℕ
  pub burst : ℕ
  pub next : ℕ

-- A number of queries a second that is not above 0 is no limit.
unfoldable pub rate_limit : ℕ → Option Limiter
rate_limit qps =
    if qps == 0
    then none
    else let interval = 1000000000 / qps in
      some (record { interval = interval; burst = 20 * interval; next = 0 })

-- Where a call of `wait` stands: it returned no error, it sleeps until its slot, it gave its slot
-- back and sleeps until it asks again, or it returned the error of its context.
pub data Wait : Type 0 where
  passed : Wait
  asleep : ℕ → Wait
  queued : ℕ → Wait
  failed : Error → Wait

-- What `wait` does under the lock, at a reading of the clock.
unfoldable pub reserve : ℕ → Limiter → Wait × Limiter
reserve now l =
    let at = if ltb l.next now then now else l.next in
    if ltb (l.burst + l.interval) (at - now)
    then (queued (now + l.interval), record l { next = at + l.interval - l.interval })
    else (asleep at, record l { next = at + l.interval })

-- After the lock the clock is read again: a slot in the past is not slept for.
unfoldable pub until : ℕ → Wait → Wait
until now passed = passed
until now (asleep at) = if leb at now then passed else asleep at
until now (queued at) = queued at
until now (failed e) = failed e

-- What ends a sleep: its timer, when the clock shows a time, or the context.
pub data Signal : Type 0 where
  timer : ℕ → Signal
  done : Error → Signal

unfoldable pub wake : Signal → Wait → Limiter → Wait × Limiter
wake signal passed l = (passed, l)
wake signal (failed e) l = (failed e, l)
wake (timer now) (asleep at) l = (passed, l)
wake (timer now) (queued at) l = reserve now l
wake (done e) (asleep at) l = (failed e, l)
wake (done e) (queued at) l = (failed e, l)

-- The slot of a reservation, before those of the ones that follow.
unfoldable pub slot_of : Wait → List ℕ → List ℕ
slot_of passed slots = slots
slot_of (asleep at) slots = at ∷ slots
slot_of (queued at) slots = slots
slot_of (failed e) slots = slots

-- The limiter after the reservations of all calls.
unfoldable pub reserved : List ℕ → Limiter → Limiter
reserved [] l = l
reserved (now ∷ readings) l = reserved readings (reserve now l).1

-- The slots that the reservations hand out.
unfoldable pub slots : List ℕ → Limiter → List ℕ
slots [] l = []
slots (now ∷ readings) l = slot_of (reserve now l).0 (slots readings (reserve now l).1)

-- A lookup of `limited`, after what `wait` returned.
unfoldable pub after {ℓ} : {A : Type ℓ} → Option Error → Result A → Result A
after none answer = answer
after (some e) answer = Result.err e

-- Whether the value offers `Query` is kept.
unfoldable pub limited_query :
    (List Question → Option Error)
    → Option (List Question → Str → ℕ → Result Answer)
    → Option (List Question → Str → ℕ → Result Answer)
limited_query wait none = none
limited_query wait (some query) =
    some (λ calls name qtype. after (wait calls) (query calls name qtype))

unfoldable pub limited : (List Question → Option Error) → Resolver → Resolver
limited wait r = record {
  query = limited_query wait r.query;
  lookup_txt = λ calls name. after (wait calls) (r.lookup_txt calls name);
  lookup_host = λ calls host. after (wait calls) (r.lookup_host calls host);
  lookup_mx = λ calls name. after (wait calls) (r.lookup_mx calls name);
}
