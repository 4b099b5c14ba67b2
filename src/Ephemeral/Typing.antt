-- ===== src/Ephemeral/Typing.antt =====
-- `TypingState` of ephemeral.rs, and the time window of `open_ephemeral_at`. A clock reading is a
-- number: milliseconds since the epoch for `issued`, nanoseconds of an `Instant` for `expires`.
use epochgrid.Base.{
  ℕ, ◌+◌, ◌-◌, min, List, [], ◌∷◌, length, find, retain, map, ltb, leb, ◌==◌, nat_eq, bytes_eq,
  ◌&&◌, ◌||◌, Bool, true, false, Text, Bytes, Option, none, some, Result, ensure, if◌then◌else◌,
  u64_max,
}

pub data ReceiptState : Type 0 where
  delivered read : ReceiptState

pub data EphemeralEvent : Type 0 where
  typing_started typing_stopped : EphemeralEvent
  receipt_request : Bytes → EphemeralEvent
  receipt : Bytes → ReceiptState → EphemeralEvent

pub record AuthenticatedEvent : Type 0 where
  pub sender : Text
  pub gid : Text
  pub epoch : ℕ
  pub issued : ℕ
  pub event : EphemeralEvent
  pub expires : ℕ

abbrev pub ttl_ms : ℕ
ttl_ms = 8000

abbrev saturating_add : ℕ → ℕ → ℕ
saturating_add a b = min (a + b) u64_max

-- The guard of `open_ephemeral_at` on the time of issue, and the milliseconds that the event then has.
unfoldable pub check_time : ℕ → ℕ → Result (Unit {0})
check_time issued clock =
    ensure (leb issued (saturating_add clock 1000) && ltb clock (saturating_add issued ttl_ms))
      "expired or future ephemeral event"

unfoldable pub lifetime : ℕ → ℕ → ℕ
lifetime issued clock = min (saturating_add issued ttl_ms - clock) ttl_ms

abbrev pub is_started : EphemeralEvent → Bool
is_started typing_started = true
is_started _ = false

abbrev pub is_stopped : EphemeralEvent → Bool
is_stopped typing_stopped = true
is_stopped _ = false

-- An entry of the map, under the group and the sender.
pub record TypingEntry : Type 0 where
  pub group : Text
  pub sender : Text
  pub held : AuthenticatedEvent

abbrev pub is_entry : Text → Text → TypingEntry → Bool
is_entry gid sender e = e.group == gid && e.sender == sender

-- The condition of the early return: the entry that is there is newer, or as new and it is a stop or
-- the event is a start.
unfoldable pub supersedes : AuthenticatedEvent → AuthenticatedEvent → Bool
supersedes old event =
    ltb event.epoch old.epoch
    || (old.epoch == event.epoch
        && (ltb event.issued old.issued
            || (old.issued == event.issued && (is_stopped old.event || is_started event.event))))

-- `BTreeMap::insert`. The map's order by key, which decides nothing but the order of `active`, is not kept.
unfoldable pub insert : Text → AuthenticatedEvent → List TypingEntry → List TypingEntry
insert gid event [] = record { group = gid; sender = event.sender; held = event } ∷ []
insert gid event (e ∷ rest) =
    let rest' = insert gid event rest in
    if is_entry gid event.sender e then record e { held = event } ∷ rest else e ∷ rest'

abbrev pub live : ℕ → List TypingEntry → List TypingEntry
live now entries = retain (λ (e : TypingEntry). ltb now e.held.expires) entries

abbrev pub decide :
    Text → AuthenticatedEvent → List TypingEntry → Option TypingEntry → List TypingEntry
decide gid event entries (some old) =
    if supersedes old.held event then entries else insert gid event entries
decide gid event entries none =
    if leb 256 (length entries) then entries else insert gid event entries

unfoldable pub accept : ℕ → Text → AuthenticatedEvent → List TypingEntry → List TypingEntry
unfolding supersedes insert
accept now gid event entries =
    if is_started event.event || is_stopped event.event
    then decide gid event (live now entries) (find (is_entry gid event.sender) (live now entries))
    else entries

unfoldable pub active : ℕ → Text → ℕ → List TypingEntry → List (Text × ℕ)
active now gid epoch entries =
    map (λ (e : TypingEntry). (e.sender, e.held.expires))
      (retain
        (λ (e : TypingEntry).
          e.group == gid
          && e.held.epoch == epoch
          && ltb now e.held.expires
          && is_started e.held.event)
        entries)
