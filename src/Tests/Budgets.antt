-- ===== src/Tests/Budgets.antt =====
-- Capacity and the device's store: the theorems at concrete budgets, times and tables.
use epochgrid.Base.{
  ℕ, [], ◌∷◌, ◌+◌, ◌*◌, ◌-◌, ◌≤◌, true, false, ok, err, Result, ◌≡◌, refl, ◌⊎◌, ◌↔◌, String, arith,
  if◌then◌else◌, ltb,
}
use epochgrid.Capacity.{default, check_database}
use epochgrid.Capacity.Ranges.{check_database_iff, default-valid}
use epochgrid.Capacity.Bucket.{RateLimit, billion, new, refill, allow, run}
use epochgrid.Capacity.Rate.{IsValid, new-IsValid, run_bound, allow_after}
use epochgrid.Store.{Sqlite, transaction, transaction_atomic}

check_database_iff_example :
    (check_database default false 1000 4096 ≡ ok tt)
    ↔ (1000 * 4096 + default.recovery_bytes ≤ default.database_bytes)
check_database_iff_example = check_database_iff default false 1000 4096 default-valid

full :
    check_database default false 65536 4096
    ≡ err "capacity exhausted: database; operator storage increase required"
unfolding check_database default
full = refl

reserve : check_database default true 65536 4096 ≡ ok tt
unfolding check_database default
reserve = refl

abbrev bucket : RateLimit
bucket = new 2 3 100

bucket-IsValid : IsValid bucket
bucket-IsValid = new-IsValid 2 3 100 (omega arith)

run_bound_example :
    IsValid (run bucket (100 ∷ 100 ∷ 50 ∷ 100 ∷ 500000100 ∷ [])).0
    × ((run bucket (100 ∷ 100 ∷ 50 ∷ 100 ∷ 500000100 ∷ [])).1 * billion + bucket.rate * bucket.last
        ≤ bucket.burst + bucket.rate * (run bucket (100 ∷ 100 ∷ 50 ∷ 100 ∷ 500000100 ∷ [])).0.last)
run_bound_example = run_bound bucket (100 ∷ 100 ∷ 50 ∷ 100 ∷ 500000100 ∷ []) bucket-IsValid

four_allowed : (run bucket (100 ∷ 100 ∷ 50 ∷ 100 ∷ 500000100 ∷ [])).1 ≡ 4
unfolding run allow new refill
four_allowed = refl

burst_enough : billion ≤ bucket.burst
unfolding new
burst_enough = omega arith

allow_after_example :
    (billion ≤ (700000000 - bucket.last) * bucket.rate → (allow bucket 700000000).1 ≡ true)
    × (700000000 ≤ bucket.last
        → (allow bucket 700000000).1 ≡ (if ltb bucket.tokens billion then false else true))
allow_after_example = allow_after bucket 700000000 bucket-IsValid burst_enough

-- A store of one number, that holds the pages it names.
abbrev counter : Sqlite ℕ
counter = record { page_count = λ s. s; page_size = λ s. 4096; commits = λ s. true }

abbrev add_page : ℕ → Result (ℕ × ℕ)
add_page s = ok (s, s + 1)

transaction_atomic_example :
    (record {
      value : ℕ;
      after : ℕ;
      acted : add_page 65535 ≡ ok (value, after);
      fits :
          check_database default true (counter.page_count after) (counter.page_size after) ≡ ok tt;
      result : transaction counter default true add_page 65535 ≡ (ok value, after);
    })
    ⊎ ((e : String) × (transaction counter default true add_page 65535 ≡ (err e, 65535)))
transaction_atomic_example = transaction_atomic counter default true add_page 65535

fits_reserve : transaction counter default true add_page 65535 ≡ (ok 65535, 65536)
unfolding transaction check_database default
fits_reserve = refl

past_budget :
    transaction counter default true add_page 65536
    ≡ (err "capacity exhausted: database; operator storage increase required", 65536)
unfolding transaction check_database default
past_budget = refl
