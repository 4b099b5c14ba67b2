-- ===== src/Tests/Events.antt =====
-- Ephemeral events: the theorems at concrete times and events.
use epochgrid.Base.{
  ◌+◌, ◌≤◌, ◌<◌, List, [], ◌∷◌, length, find, true, text, some, ok, ◌≡◌, refl, ◌↔◌, arith, ◌||◌,
  ℕ_discrete, bytes_discrete,
}
use epochgrid.Ephemeral.Typing.{
  AuthenticatedEvent, TypingEntry, typing_started, typing_stopped, is_started, is_stopped, is_entry,
  live, accept, active, supersedes, insert, check_time, lifetime, ttl_ms,
}
use epochgrid.Ephemeral.Bounded.{Held, accept_bounded, check_time_iff}

check_time_iff_example :
    ((check_time 5000 12999 ≡ ok tt) ↔ ((5000 ≤ 12999 + 1000) × (12999 < 5000 + ttl_ms)))
    × (check_time 5000 12999 ≡ ok tt
        → (1 ≤ lifetime 5000 12999)
          × (lifetime 5000 12999 ≤ ttl_ms)
          × (12999 + lifetime 5000 12999 ≤ 5000 + ttl_ms))
check_time_iff_example = check_time_iff 5000 12999 (omega arith) (omega arith)

abbrev stop : AuthenticatedEvent
stop = record {
  sender = text "alice/laptop";
  gid = text "g";
  epoch = 1;
  issued = 10;
  event = typing_stopped;
  expires = 900;
}

abbrev start : AuthenticatedEvent
start = record stop { event = typing_started }

abbrev stopped : List TypingEntry
stopped = record { group = text "g"; sender = text "alice/laptop"; held = stop } ∷ []

accept_bounded_example :
    (length (accept 100 (text "g") start stopped) ≤ 256)
    × ((old : TypingEntry)
        → (is_started start.event || is_stopped start.event) ≡ true
        → find (is_entry (text "g") start.sender) (live 100 stopped) ≡ some old
        → Held (text "g") start old (accept 100 (text "g") start stopped))
accept_bounded_example = accept_bounded 100 (text "g") start stopped (omega arith)

-- A repeated start does not come back over the stop, and an expired entry is forgotten.
tombstone : active 100 (text "g") 1 (accept 100 (text "g") start stopped) ≡ []
unfolding active accept supersedes insert ℕ_discrete bytes_discrete
tombstone = refl

typing : active 100 (text "g") 1 (accept 100 (text "g") start []) ≡ (text "alice/laptop", 900) ∷ []
unfolding active accept supersedes insert ℕ_discrete bytes_discrete
typing = refl
