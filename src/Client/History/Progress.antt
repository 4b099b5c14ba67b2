-- ===== src/Client/History/Progress.antt =====
-- The deliveries of history.rs over a run of `process_history`: their number, bytes and places, the
-- states that are left, and the fuel of its loop.
use epochgrid.Base.{
  ℕ, suc, ◌+◌, ◌≤◌, ◌<◌, List, [], ◌∷◌, length, find, All, ◌==◌, nat_eq, bytes_eq, ==_refl, ◌&&◌,
  Bool, true, false, none, some, Bool-cases, ◌≡◌, refl, subst, inl, inr, arith, if◌then◌else◌,
}
use epochgrid.Base.Members.{Ordered}
use epochgrid.Client.Tables.{Group}
use epochgrid.Client.History.{DeliveryState, Delivery, is_pending, is_of, next_pending, set_state}

-- The rows stand in the order of their sequence.
abbrev pub Before : Delivery → Delivery → Type 0
Before d e = d.sequence < e.sequence

-- What a run may do to a row: nothing, or give a pending row of the group its verdict.
pub data Moved (g : Group) (d : Delivery) : Delivery → Type 0 where
  same : Moved g d d
  settled :
      (state : DeliveryState)
      → is_of g d ≡ true
      → is_pending d.state ≡ true
      → is_pending state ≡ false
      → Moved g d (record d { state = state })

abbrev pub AllMoved : Group → List Delivery → List Delivery → Type 0
AllMoved g [] [] = Unit
AllMoved g [] (e ∷ es) = ⊥
AllMoved g (d ∷ ds) [] = ⊥
AllMoved g (d ∷ ds) (e ∷ es) = Moved g d e × AllMoved g ds es

pub AllMoved-refl : (g : Group) (ds : List Delivery) → AllMoved g ds ds
AllMoved-refl g [] = tt
AllMoved-refl g (d ∷ ds) = (same, AllMoved-refl g ds)

Moved-trans : (g : Group) (d e f : Delivery) → Moved g d e → Moved g e f → Moved g d f
Moved-trans g d e f same k = k
Moved-trans g d e f (settled state o w n) same = settled state o w n
Moved-trans g d e f (settled state o w n) (settled state' o' w' n') = absurd (cc)

pub AllMoved-trans :
    (g : Group) (ds es fs : List Delivery) → AllMoved g ds es → AllMoved g es fs → AllMoved g ds fs
AllMoved-trans g [] [] [] h k = tt
AllMoved-trans g [] [] (f ∷ fs) h k = absurd k
AllMoved-trans g [] (e ∷ es) fs h k = absurd h
AllMoved-trans g (d ∷ ds) [] fs h k = absurd h
AllMoved-trans g (d ∷ ds) (e ∷ es) [] h k = absurd k
AllMoved-trans g (d ∷ ds) (e ∷ es) (f ∷ fs) h k =
    (Moved-trans g d e f h.0 k.0, AllMoved-trans g ds es fs h.1 k.1)

-- The rows of the group that wait.
abbrev pub waiting : Group → List Delivery → ℕ
waiting g [] = 0
waiting g (d ∷ ds) = (if is_of g d && is_pending d.state then 1 else 0) + waiting g ds

pub waiting-le-length : (g : Group) (ds : List Delivery) → waiting g ds ≤ length ds
waiting-le-length g [] = omega arith
waiting-le-length g (d ∷ ds) = ground (arith, waiting-le-length g ds)

later_test : (m n : ℕ) → n < m → (m == n) ≡ false
later_test m n h = ground arith

earlier_test : (m n : ℕ) → m < n → (m == n) ≡ false
earlier_test m n h = ground arith

some_eq : {a b : Delivery} → some a ≡ some b → a ≡ b
some_eq h = cc

no_some : {a : Delivery} → some a ≡ none → ⊥
no_some h = cc

-- A row whose sequence is before another's is left.
set_state-later :
    (n : ℕ) (state : DeliveryState) (ds : List Delivery)
    → All (λ (e : Delivery). n < e.sequence) ds
    → set_state n state ds ≡ ds
unfolding set_state
set_state-later n state [] h = refl
set_state-later n state (d ∷ ds) h =
    let other : (d.sequence == n) ≡ false = later_test d.sequence n h.0 in
    rw (other, set_state-later n state ds h.1) refl

set_state-All :
    (d : Delivery) (n : ℕ) (state : DeliveryState) (ds : List Delivery)
    → All (Before d) ds
    → All (Before d) (set_state n state ds)
unfolding set_state
set_state-All d n state [] h = tt
set_state-All d n state (e ∷ es) h = elim (Bool-cases (e.sequence == n)) [
  | inl q ↦ rw q (h.0, set_state-All d n state es h.1)
  | inr q ↦ rw q (h.0, set_state-All d n state es h.1)
]

pub set_state-Ordered :
    (n : ℕ) (state : DeliveryState) (ds : List Delivery)
    → Ordered Before ds
    → Ordered Before (set_state n state ds)
unfolding set_state
set_state-Ordered n state [] o = tt
set_state-Ordered n state (d ∷ ds) o = elim (Bool-cases (d.sequence == n)) [
  | inl q ↦ rw q (set_state-All d n state ds o.0, set_state-Ordered n state ds o.1)
  | inr q ↦ rw q (set_state-All d n state ds o.0, set_state-Ordered n state ds o.1)
]

find-All :
    (P : Delivery → Type 0) (p : Delivery → Bool) (ds : List Delivery) (d : Delivery)
    → find p ds ≡ some d
    → All P ds
    → P d
find-All P p [] d h a = absurd (cc)
find-All P p (e ∷ es) d h a = elim (Bool-cases (p e)) [
  | inl q ↦ subst P (some_eq (rw q at h)) a.0
  | inr q ↦ find-All P p es d (rw q at h) a.1
]

pub waiting-none : (g : Group) (ds : List Delivery) → next_pending g ds ≡ none → waiting g ds ≡ 0
waiting-none g [] h = refl
waiting-none g (d ∷ ds) h = elim (Bool-cases (is_of g d && is_pending d.state)) [
  | inl q ↦ absurd (no_some (rw q at h))
  | inr q ↦ let rest = waiting-none g ds (rw q at h) in rw q (omega (arith, rest))
]

-- The first row that waits gets its verdict, and no other row is touched.
pub set_state-next :
    (g : Group) (d : Delivery) (state : DeliveryState) (ds : List Delivery)
    → Ordered Before ds
    → next_pending g ds ≡ some d
    → is_pending state ≡ false
    → AllMoved g ds (set_state d.sequence state ds)
      × (waiting g ds ≡ suc (waiting g (set_state d.sequence state ds)))
unfolding set_state
set_state-next g d state [] o h n = absurd (cc)
set_state-next g d state (x ∷ xs) o h n = elim (Bool-cases (is_of g x && is_pending x.state)) [
  | inl q ↦
      let first : x ≡ d = some_eq (rw q at h) in
      let kept : set_state d.sequence state xs ≡ xs =
        set_state-later d.sequence state xs (
          subst (λ (y : Delivery). All (λ (e : Delivery). y.sequence < e.sequence) xs) first o.0) in
      let own : (x.sequence == d.sequence) ≡ true = rw first (==_refl d.sequence) in
      rw (own, kept, q, n)
        ((settled state (ground arith) (ground arith) n, AllMoved-refl g xs), ground arith)
  | inr q ↦
      let after : next_pending g xs ≡ some d = rw q at h in
      let below =
        find-All (Before x) (λ (e : Delivery). is_of g e && is_pending e.state) xs d after o.0 in
      let other : (x.sequence == d.sequence) ≡ false = earlier_test x.sequence d.sequence below in
      let (moved, counted) = set_state-next g d state xs o.1 after n in
      rw (other, q) ((same, moved), omega (arith, counted))
]
