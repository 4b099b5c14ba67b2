-- ===== src/Ephemeral/Bounded.antt =====
-- The time window of ephemeral.rs, and the size and the replacement of typing entries.
use epochgrid.Base.{
  ℕ, suc, ◌+◌, ◌≤◌, ◌<◌, List, [], ◌∷◌, length, find, ltb, nat_eq, bytes_eq, ◌||◌, true, false,
  Text, some, ok, ◌≡◌, refl, arith, ◌⊎◌, inl, inr, ◌↔◌, Bool-cases, Option-cases, length-retain-le,
  u64_max,
}
use epochgrid.Ephemeral.Typing.{
  AuthenticatedEvent, TypingEntry, is_started, is_stopped, is_entry, supersedes, insert, live,
  decide, accept, check_time, lifetime, ttl_ms,
}

-- An event is accepted from one second before its time of issue until eight seconds after it; it then
-- lives no longer than those eight seconds end, and no longer than eight seconds.
pub check_time_iff :
    (issued clock : ℕ)
    → issued + ttl_ms ≤ u64_max
    → clock + 1000 ≤ u64_max
    → ((check_time issued clock ≡ ok tt) ↔ ((issued ≤ clock + 1000) × (clock < issued + ttl_ms)))
      × (check_time issued clock ≡ ok tt
          → (1 ≤ lifetime issued clock)
            × (lifetime issued clock ≤ ttl_ms)
            × (clock + lifetime issued clock ≤ issued + ttl_ms))
unfolding check_time lifetime
check_time_iff issued clock h k = ((λ e. ground arith, λ e. ground arith), λ e. ground arith)

length-insert :
    (gid : Text) (event : AuthenticatedEvent) (es : List TypingEntry)
    → length (insert gid event es) ≤ suc (length es)
unfolding insert
length-insert gid event [] = omega arith
length-insert gid event (e ∷ es) = ground (arith, length-insert gid event es)

length-insert_held :
    (gid : Text) (event : AuthenticatedEvent) (es : List TypingEntry) (old : TypingEntry)
    → find (is_entry gid event.sender) es ≡ some old
    → length (insert gid event es) ≡ length es
unfolding insert
length-insert_held gid event [] old h = absurd (ground arith)
length-insert_held gid event (e ∷ es) old h = ground (arith, length-insert_held gid event es old)

find-insert :
    (gid : Text) (event : AuthenticatedEvent) (es : List TypingEntry)
    → (e : TypingEntry) × (find (is_entry gid event.sender) (insert gid event es) ≡ some e)
      × (e.held ≡ event)
unfolding insert
find-insert gid event [] =
    (record { group = gid; sender = event.sender; held = event }, ground arith, refl)
find-insert gid event (e ∷ es) = elim (Bool-cases (is_entry gid event.sender e)) [
  | inl y ↦ (record e { held = event }, ground arith, refl)
  | inr n ↦ let (x, q, r) = find-insert gid event es in (x, ground (arith, q), r)
]

-- What an event has over the one that it replaces.
pub record Newer (old event : AuthenticatedEvent) : Type 0 where
  pub no_older_epoch : old.epoch ≤ event.epoch
  pub no_earlier : old.epoch ≡ event.epoch → old.issued ≤ event.issued
  pub stops :
      old.epoch ≡ event.epoch
      → old.issued ≡ event.issued
      → (is_started event.event ≡ false) × (is_stopped old.event ≡ false)

supersedes-Newer : (old event : AuthenticatedEvent) → supersedes old event ≡ false → Newer old event
unfolding supersedes
supersedes-Newer old event s = record {
  no_older_epoch = ground arith;
  no_earlier = λ e. ground arith;
  stops = λ e i. (ground arith, ground arith);
}

length-decide :
    (gid : Text) (event : AuthenticatedEvent) (es : List TypingEntry)
    → length es ≤ 256
    → length (decide gid event es (find (is_entry gid event.sender) es)) ≤ 256
length-decide gid event es h = elim (Option-cases (find (is_entry gid event.sender) es)) [
  | inl n ↦ rw n (ground (arith, h, length-insert gid event es))
  | inr (old, n) ↦ rw n (ground (arith, h, length-insert_held gid event es old n))
]

-- The entry of a device behind an event, where it had one.
pub record Held (gid : Text) (event : AuthenticatedEvent) (old : TypingEntry)
    (after : List TypingEntry) : Type 0 where
  pub entry : TypingEntry
  pub found : find (is_entry gid event.sender) after ≡ some entry
  pub which : (entry.held ≡ old.held) ⊎ ((entry.held ≡ event) × Newer old.held event)

decide-Held :
    (gid : Text) (event : AuthenticatedEvent) (es : List TypingEntry) (old : TypingEntry)
    → find (is_entry gid event.sender) es ≡ some old
    → Held gid event old (decide gid event es (some old))
decide-Held gid event es old f = elim (Bool-cases (supersedes old.held event)) [
  | inl s ↦ rw s (record { entry = old; found = f; which = inl refl })
  | inr s ↦
      let (e, q, r) = find-insert gid event es in
      rw s (record { entry = e; found = q; which = inr (r, supersedes-Newer old.held event s) })
]

-- The state never holds more than 256 devices, and a device's entry that has not expired is replaced
-- only by an event of a newer epoch, of the same epoch issued later, or of the same time that stops
-- what it started: an old or repeated event never refreshes one.
pub accept_bounded :
    (now : ℕ) (gid : Text) (event : AuthenticatedEvent) (entries : List TypingEntry)
    → length entries ≤ 256
    → (length (accept now gid event entries) ≤ 256)
      × ((old : TypingEntry)
          → (is_started event.event || is_stopped event.event) ≡ true
          → find (is_entry gid event.sender) (live now entries) ≡ some old
          → Held gid event old (accept now gid event entries))
unfolding accept
accept_bounded now gid event entries h = (
  elim (Bool-cases (is_started event.event || is_stopped event.event)) [
    | inl t ↦ rw t (
        length-decide gid event (live now entries) (
          omega (arith, h, length-retain-le (λ (e : TypingEntry). ltb now e.held.expires) entries)))
    | inr t ↦ rw t h
  ],
  (λ old t f. rw (t, f) (decide-Held gid event (live now entries) old f)),
)
