-- ===== src/Audit/Repaired.antt =====
-- How `repair` of audit.rs ends.
use epochgrid.Base.{
  Result, subst, sym, err, Bool-cases, false, String, ℕ, true, ok, ◌≡◌, arith, Result-cases, ◌⊎◌,
  inl, inr,
}
use epochgrid.Audit.Events.{Event}
use epochgrid.Audit.Log.{AuditLog, Surroundings, append, repair, mark_gap}
use epochgrid.Audit.Bounded.{IsSound, append-IsSound}

module _ (around : Surroundings) where
  -- The event cannot be appended, or the registry with it exceeds its budget.
  abbrev pub Fails : (AuditLog → Result (Unit {0})) → Event → AuditLog → Type 0
  Fails fits event a =
      (((e : String) × (append around event true a ≡ err e))
        ⊎ ((sequence : ℕ) × (a' : AuditLog) × (append around event true a ≡ ok (sequence, a'))
            × ((e : String) × (fits a' ≡ err e))))

  -- How a repair ends.
  pub data Repaired (fits : AuditLog → Result (Unit {0})) (event : Event) (a : AuditLog)
      : AuditLog → Type 0 where
    skipped : around.savepoint ≡ false → Repaired fits event a a
    appended :
        (sequence : ℕ) (a' : AuditLog)
        → around.savepoint ≡ true
        → append around event true a ≡ ok (sequence, a')
        → fits a' ≡ ok tt
        → Repaired fits event a a'
    marked :
        around.savepoint ≡ true
        → Fails fits event a
        → around.marks ≡ true
        → Repaired fits event a (record a { gaps = true; degraded = true })
    unmarked :
        around.savepoint ≡ true
        → Fails fits event a
        → around.marks ≡ false
        → Repaired fits event a a

  marked_gap :
      (a : AuditLog)
      → around.marks ≡ true
      → mark_gap around a ≡ record a { gaps = true; degraded = true }
  unfolding mark_gap
  marked_gap a m = ground arith

  unmarked_gap : (a : AuditLog) → around.marks ≡ false → mark_gap around a ≡ a
  unfolding mark_gap
  unmarked_gap a m = ground arith

  unsaved :
      (fits : AuditLog → Result (Unit {0})) (event : Event) (a : AuditLog)
      → around.savepoint ≡ false
      → repair around fits event a ≡ a
  unfolding repair
  unsaved fits event a s = ground arith

  repaired_done :
      (fits : AuditLog → Result (Unit {0})) (event : Event) (a a' : AuditLog) (sequence : ℕ)
      → around.savepoint ≡ true
      → append around event true a ≡ ok (sequence, a')
      → fits a' ≡ ok tt
      → repair around fits event a ≡ a'
  unfolding repair
  repaired_done fits event a a' sequence s k f = ground (arith, k, f)

  mark_gap-Repaired :
      (fits : AuditLog → Result (Unit {0})) (event : Event) (a : AuditLog)
      → IsSound a
      → around.savepoint ≡ true
      → Fails fits event a
      → IsSound (mark_gap around a) × Repaired fits event a (mark_gap around a)
  mark_gap-Repaired fits event a v s f = elim (Bool-cases around.marks) [
    | inr m ↦
        subst (λ x. IsSound x × Repaired fits event a x) (sym (unmarked_gap a m))
          (v, unmarked s f m)
    | inl m ↦
        subst (λ x. IsSound x × Repaired fits event a x) (sym (marked_gap a m))
          (
            record {
              numbered = v.numbered;
              newest = v.newest;
              events_count = v.events_count;
              bytes_count = v.bytes_count;
              few = v.few;
              small = v.small;
            },
            marked s f m,
          )
  ]

  repaired_failing :
      (fits : AuditLog → Result (Unit {0})) (event : Event) (a : AuditLog)
      → around.savepoint ≡ true
      → Fails fits event a
      → repair around fits event a ≡ mark_gap around a
  unfolding repair
  repaired_failing fits event a s (inl (e, k)) = ground (arith, k)
  repaired_failing fits event a s (inr (n, a', k, (e, f))) = ground (arith, k, f)

  Fails-Repaired :
      (fits : AuditLog → Result (Unit {0})) (event : Event) (a : AuditLog)
      → IsSound a
      → around.savepoint ≡ true
      → Fails fits event a
      → IsSound (repair around fits event a) × Repaired fits event a (repair around fits event a)
  Fails-Repaired fits event a v s f =
      subst (λ x. IsSound x × Repaired fits event a x) (sym (repaired_failing fits event a s f))
        (mark_gap-Repaired fits event a v s f)

  -- A repair is total, and keeps the log sound. Where its savepoint can be set it adds the row, or,
  -- where the event cannot be appended or the budget is exceeded, it leaves every row and counter and
  -- sets the marks of a gap and of a degraded log, if that write succeeds; without a savepoint the log
  -- is left as it is.
  pub repair-IsSound :
      (fits : AuditLog → Result (Unit {0})) (event : Event) (a : AuditLog)
      → IsSound a
      → IsSound (repair around fits event a) × Repaired fits event a (repair around fits event a)
  repair-IsSound fits event a v = elim (Bool-cases around.savepoint) [
    | inr s ↦
        subst (λ x. IsSound x × Repaired fits event a x) (sym (unsaved fits event a s))
          (v, skipped s)
    | inl s ↦ elim (Result-cases (append around event true a)) [
      | inr x ↦ Fails-Repaired fits event a v s (inl x)
      | inl ((sequence, a'), k) ↦ elim (Result-cases (fits a')) [
        | inr x ↦ Fails-Repaired fits event a v s (inr (sequence, a', k, x))
        | inl (u, f) ↦
            subst (λ x. IsSound x × Repaired fits event a x)
              (sym (repaired_done fits event a a' sequence s k f))
              ((append-IsSound around event true a sequence a' v k).1, appended sequence a' s k f)
      ]
    ]
  ]
