-- ===== src/Simulator/Stats.antt =====
-- printStats of simulator/simulator.go: the numbers that are printed, durations in nanoseconds. A
-- timing's end is not before its start, since the clock's readings never decrease.
pub mod Order
use fabric_simulator.Prelude.{
  ℕ, zero, suc, ◌+◌, ◌-◌, ◌*◌, ◌/◌, Bool, Option, none, some, List, [], ◌∷◌, map, length, get_elem?,
  ltb, ◌==◌, ◌%◌, ◌^◌, if◌then◌else◌, ℤ, pos, negsuc,
}
use fabric_simulator.Platform.{Platform}
use fabric_simulator.Simulator.Counter.{CryptoEvent, TransactionTimingInfo}
use fabric_simulator.Simulator.Types.{World}

-- `end.Sub(start)`, which stops at the longest time.Duration.
unfoldable pub sub : ℕ → ℕ → ℕ
sub end start = if ltb (end - start) (2 ^ 63) then end - start else 2 ^ 63 - 1

-- The number of type int64 that 64 bits stand for.
abbrev pub of_bits : ℕ → ℤ
of_bits bits = if ltb bits (2 ^ 63) then pos bits else negsuc (2 ^ 64 - 1 - bits)

abbrev pub negated : ℕ → ℤ
negated zero = pos 0
negated (suc n) = negsuc n

-- Division of an int64 by a positive one, towards zero.
abbrev pub quotient : ℤ → ℕ → ℤ
quotient (pos a) n = pos (a / n)
quotient (negsuc a) n = negated (suc a / n)

-- What the loop over the timings keeps; the total is an int64 that wraps, kept as its 64 bits.
pub record Running : Type 0 where
  pub min : ℕ
  pub max : ℕ
  pub total : ℕ

-- 3600000 seconds
abbrev pub longest : ℕ
longest = 3600000 * 1000000000

-- one turn of the loop
unfoldable pub add_elapsed : ℕ → Running → Running
add_elapsed elapsed r = record {
  min = if ltb elapsed r.min then elapsed else r.min;
  max = if ltb r.max elapsed then elapsed else r.max;
  total = (r.total + elapsed) % 2 ^ 64;
}

unfoldable pub run_through : List ℕ → Running → Running
run_through [] r = r
run_through (elapsed ∷ totals) r = run_through totals (add_elapsed elapsed r)

-- sort.Slice by `<`: on numbers every sort has this result.
unfoldable pub insert_elapsed : ℕ → List ℕ → List ℕ
insert_elapsed x [] = x ∷ []
insert_elapsed x (y ∷ ys) =
    let rest = insert_elapsed x ys in if ltb y x then y ∷ rest else x ∷ y ∷ ys

unfoldable pub sort : List ℕ → List ℕ
sort [] = []
sort (x ∷ xs) = insert_elapsed x (sort xs)

pub record TimingBasics : Type 0 where
  pub min : ℕ
  pub max : ℕ
  pub avg : ℤ
  pub median : ℕ

-- `none` is the panic of a division by zero, or of an index out of range, on no timings.
abbrev pub with_median : Running → ℕ → Option ℕ → Option TimingBasics
with_median r n none = none
with_median r n (some median) =
    some (record { min = r.min; max = r.max; avg = quotient (of_bits r.total) n; median = median })

unfoldable pub basics : List ℕ → Option TimingBasics
basics totals =
    with_median (run_through totals (record { min = longest; max = 0; total = 0 })) (length totals)
      (get_elem? (sort totals) (length totals / 2))

-- printTimingBasics
unfoldable pub print_timing_basics :
    (TransactionTimingInfo → ℕ)
    → (TransactionTimingInfo → ℕ)
    → List TransactionTimingInfo
    → Option TimingBasics
print_timing_basics start end timings = basics (map (λ info. sub (end info) (start info)) timings)

-- The number of milliseconds that is printed for a duration.
abbrev pub milliseconds : ℤ → ℤ
milliseconds duration = quotient duration 1000000

pub record Stats (c : Platform) : Type 0 where
  pub events : List (CryptoEvent × ℕ × c.Float)
  pub transactions : ℕ
  pub total : Option TimingBasics
  pub endorsements : Option TimingBasics
  pub validations : Option TimingBasics

unfoldable pub print_stats : {c : Platform} → World c → Stats c
print_stats {c = c} w = record {
  events =
      map
        (λ line.
          (line.0, line.1, c.float_div (c.float_of line.1) (c.float_of (length w.transactions))))
        w.crypto_events;
  transactions = length w.transaction_timings;
  total = print_timing_basics (λ info. info.start) (λ info. info.end) w.transaction_timings;
  endorsements =
      print_timing_basics (λ info. info.endorsements_start) (λ info. info.endorsements_end)
        w.transaction_timings;
  validations =
      print_timing_basics (λ info. info.validation_start) (λ info. info.validation_end)
        w.transaction_timings;
}

-- The end of Simulate: the numbers are printed when there is a timing.
unfoldable pub report : {c : Platform} → World c → Option (Stats c)
report w = if length w.transaction_timings == 0 then none else some (print_stats w)
