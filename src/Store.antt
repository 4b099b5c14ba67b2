-- ===== src/Store.antt =====
-- crates/epochgrid-core/src/identity.rs: `transaction` and `recovery_transaction` of the device's
-- store. The tables are a value; what SQLite reports of them, and whether a commit succeeds, are
-- parameters.
use epochgrid.Base.{
  ℕ, Bool, true, false, Result, ok, err, ◌≡◌, ◌⊎◌, inl, inr, Result-cases, Bool-cases, String,
  ◌>>=◌, ◌>>◌, arith,
}
use epochgrid.Capacity.{Capacity, check_database}

pub record Sqlite (S : Type 0) : Type 0 where
  pub page_count : S → ℕ
  pub page_size : S → ℕ
  pub commits : S → Bool

module _ {S A : Type 0} (sql : Sqlite S) (capacity : Capacity) where
  -- `action` and, behind it, the check of the budget.
  checked : Bool → (S → Result (A × S)) → S → Result (A × S)
  checked recovery action s = do
    done ← action s
    let (value, after) = done
    check_database capacity recovery (sql.page_count after) (sql.page_size after)
    ok (value, after)

  finish : S → Result (A × S) → Result A × S
  finish s (ok (value, after)) = elim (sql.commits after) [
    | true ↦ (ok value, after)
    | false ↦ (err "commit", s)
  ]
  finish s (err e) = (err e, s)

  -- `transaction_budget`: the tables after a commit, or those before after a rollback.
  unfoldable pub transaction : Bool → (S → Result (A × S)) → S → Result A × S
  unfolding checked finish
  transaction recovery action s = finish s (checked recovery action s)

  -- A transaction has all of its action's effect, which then fits the budget, or none.
  pub transaction_atomic :
      (recovery : Bool) (action : S → Result (A × S)) (s : S)
      → (record {
        value : A;
        after : S;
        acted : action s ≡ ok (value, after);
        fits :
            check_database capacity recovery (sql.page_count after) (sql.page_size after) ≡ ok tt;
        result : transaction recovery action s ≡ (ok value, after);
      })
        ⊎ ((e : String) × (transaction recovery action s ≡ (err e, s)))
  unfolding transaction
  transaction_atomic recovery action s = elim (Result-cases (action s)) [
    | inr (e, h) ↦ inr (e, rw h)
    | inl ((value, after), h) ↦
        elim (Result-cases
          (check_database capacity recovery (sql.page_count after) (sql.page_size after))) [
            | inr (e, k) ↦ inr (e, rw (h, k))
            | inl (u, k) ↦ elim (Bool-cases (sql.commits after)) [
              | inl c ↦ inl (record {
                value = value;
                after = after;
                acted = h;
                fits = k;
                result = ground arith;
              })
              | inr c ↦ inr ("commit", ground arith)
            ]
          ]
  ]
