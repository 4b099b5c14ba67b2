-- ===== src/Conversation/Projection.antt =====
-- `application` and `projected` of relationships.rs: what a conversation shows of a message, with the
-- edits and reactions that relate to it.
use epochgrid.Base.{
  ℕ, List, [], ◌∷◌, ◌++◌, take, find, any, retain, ltb, leb, ◌==◌, nat_eq, bytes_eq, ◌&&◌, ◌||◌,
  not, Bool, true, false, Text, Bytes, text, Option, none, some, Result, ok, context, ensure, ◌>>=◌,
  ◌>>◌, is_utf8, from_utf8_lossy, if◌then◌else◌,
}
use epochgrid.Attachments.{ManifestCodec, display}
use epochgrid.Conversation.Event.{
  Relation, reply_to, replace, reaction, target_of, ApplicationEvent, EventCodec, is_root, id_text,
  short_id, transcript, is_replace,
}
use epochgrid.Conversation.Ordered.{text_leb, insert_pair, add_under, split_once, join_comma}
use epochgrid.Client.Tables.{Entry, MessageEvent}

-- A row of `message_events` with what the join with `transcript` adds.
pub record Joined : Type 0 where
  pub row : ℕ
  pub sender : Option Text
  pub id : Text
  pub target : Option Text
  pub kind : ℕ
  pub counter : ℕ
  pub event : Bytes
  pub sequence : Option ℕ

-- `Record`
pub record Unpacked : Type 0 where
  pub row : ℕ
  pub sender : Text
  pub id : Text
  pub event : ApplicationEvent

abbrev joined : MessageEvent → Entry → Joined
joined e t = record {
  row = e.transcript_id;
  sender = t.sender;
  id = e.message_id;
  target = e.target;
  kind = e.kind;
  counter = e.counter;
  event = e.event;
  sequence = t.stream_sequence;
}

join_row : List Entry → MessageEvent → List Joined
join_row transcript e = elim (find (λ (t : Entry). t.id == e.transcript_id) transcript) [
  | none ↦ []
  | some t ↦ joined e t ∷ []
]

-- `message_events e JOIN transcript t ON t.id=e.transcript_id WHERE e.gid=?1`
unfoldable pub join : Text → List Entry → List MessageEvent → List Joined
unfolding join_row
join gid transcript [] = []
join gid transcript (e ∷ events) =
    let rest = join gid transcript events in
    if e.gid == gid then join_row transcript e ++ rest else rest

-- `ORDER BY e.counter,e.message_id,e.transcript_id`
abbrev pub update_leb : Joined → Joined → Bool
update_leb a b =
    if a.counter == b.counter
    then (if a.id == b.id then leb a.row b.row else text_leb a.id b.id)
    else ltb a.counter b.counter

-- `ORDER BY t.stream_sequence IS NULL,t.stream_sequence,e.transcript_id`
abbrev pub sequence_leb : Option ℕ → ℕ → Option ℕ → ℕ → Bool
sequence_leb (some s) row (some t) row' = if s == t then leb row row' else ltb s t
sequence_leb (some s) row none row' = true
sequence_leb none row (some t) row' = false
sequence_leb none row none row' = leb row row'

unfoldable pub insert_row : Joined → List Joined → List Joined
insert_row a [] = a ∷ []
insert_row a (b ∷ rest) =
    let later = insert_row a rest in if update_leb a b then a ∷ b ∷ rest else b ∷ later

unfoldable pub order_rows : List Joined → List Joined
unfolding insert_row
order_rows [] = []
order_rows (a ∷ rest) = insert_row a (order_rows rest)

abbrev pub earlier : Joined → Option Joined → Joined
earlier a none = a
earlier a (some b) = if sequence_leb a.sequence a.row b.sequence b.row then a else b

-- The first row in that order of those with an identifier.
unfoldable pub first_with : Text → List Joined → Option Joined
first_with id [] = none
first_with id (a ∷ rest) =
    let later = first_with id rest in if a.id == id then some (earlier a later) else later

-- What the loop over the updates has: the identifiers seen, the content, whether it was edited,
-- and the reactions by device and value.
pub record Shown : Type 0 where
  pub seen : List Text
  pub content : Bytes
  pub edited : Bool
  pub reactions : List ((Text × Text) × Bool)

module _ (c : EventCodec) where
  -- `unpack`; a sender that is NULL is no `String`.
  unfoldable pub unpack : Joined → Result Unpacked
  unpack a = do
    sender ← context a.sender "invalid column type"
    taken ← context (c.take_event a.event) "encoding"
    let (event, rest) = taken
    ok (record { row = a.row; sender = sender; id = a.id; event = event })

  unfoldable pub apply_relation : Text → Bool → Unpacked → Option Relation → Shown → Shown
  apply_relation sender editable u (some (replace target)) s =
      if u.sender == sender && editable
      then record s { content = u.event.content; edited = true }
      else s
  apply_relation sender editable u (some (reaction target value add)) s = record s {
    reactions = insert_pair (u.sender, value) add s.reactions;
  }
  apply_relation sender editable u (some (reply_to target)) s = s
  apply_relation sender editable u none s = s

  -- The body of the loop.
  unfoldable pub update : Text → Bool → Unpacked → Shown → Shown
  unfolding apply_relation
  update sender editable u s =
      if any (λ t. t == u.id) s.seen
      then s
      else apply_relation sender editable u u.event.relation (record s { seen = u.id ∷ s.seen })

  unfoldable pub updates : Text → Bool → List Joined → Shown → Result Shown
  unfolding unpack update
  updates sender editable [] s = ok s
  updates sender editable (a ∷ rest) s = do
    u ← unpack a
    updates sender editable rest (update sender editable u s)

  unfoldable pub found : Option Joined → Result (Option Unpacked)
  found none = ok none
  found (some a) = do u ← unpack a; ok (some u)

  -- `application`
  unfoldable pub application : List Joined → Bytes → Result (Option Unpacked)
  unfolding first_with unpack found
  application rows id = found (first_with (id_text id) rows)

-- The user of a device: what stands before the slash.
user_of : Text → Text
user_of device = elim (split_once device) [ none ↦ device | some (user, rest) ↦ user ]

-- The users of each active reaction.
unfoldable pub by_value :
    List ((Text × Text) × Bool) → List (Text × List Text) → List (Text × List Text)
unfolding user_of add_under
by_value [] users = users
by_value (((device, value), active) ∷ rest) users =
    by_value rest (if active then add_under value (user_of device) users else users)

reaction_lines : List (Text × List Text) → Text
reaction_lines [] = []
reaction_lines ((value, users) ∷ rest) =
    (10 ∷ text "[reaction ")
    ++ value
    ++ text ": "
    ++ join_comma users
    ++ text "]"
    ++ reaction_lines rest

abbrev pub parent_name : Option Unpacked → Text
parent_name none = text "unavailable"
parent_name (some p) = if is_root p.event.relation then p.sender else text "unavailable"

targets : Text → Option Text → Bool
targets id none = false
targets id (some t) = t == id

-- `e.target=?2 AND e.kind IN (2,3)`
unfoldable pub relates : Text → Joined → Bool
unfolding targets
relates id a = (a.kind == 2 || a.kind == 3) && targets id a.target

module _ (c : EventCodec) (m : ManifestCodec) where
  unfoldable pub with_parent : List Joined → Option Relation → Text → Result Text
  with_parent rows (some (reply_to parent)) shown = do
    found ← application c rows parent
    ok (
        text "[reply to "
        ++ parent_name found
        ++ text " "
        ++ short_id parent
        ++ (text "]" ++ 10 ∷ [])
        ++ shown)
  with_parent rows _ shown = ok shown

  -- A message or a reply, with the updates that relate to it.
  unfoldable pub projected_root : List Joined → Unpacked → Result Text
  unfolding relates updates order_rows with_parent by_value reaction_lines
  projected_root rows root = do
    let related = retain (relates root.id) rows
    s ←
        updates c root.sender (is_utf8 root.event.content) (order_rows related)
          (record { seen = []; content = root.event.content; edited = false; reactions = [] })
    let shown = display m s.content
    let marked = if s.edited then shown ++ text " [edited]" else shown
    whole ← with_parent rows root.event.relation marked
    ok (whole ++ reaction_lines (by_value s.reactions []))

  -- An edit or a reaction by itself, whose target has been looked up.
  unfoldable pub control : Unpacked → Relation → Option Unpacked → Result Text
  control root relation none = ok (
      text "[unresolved "
      ++ short_id (target_of relation)
      ++ text "] "
      ++ from_utf8_lossy (transcript root.event))
  control root relation (some target) =
      if not (is_root target.event.relation)
        || (is_replace root.event.relation
            && (not (target.sender == root.sender) || not (is_utf8 target.event.content)))
      then ok (
          text "[ignored relationship to "
          ++ take 12 target.id
          ++ text ": unauthorized or invalid target]")
      else do ensure (is_utf8 (transcript root.event)) "utf-8"; ok (transcript root.event)

  -- `projected`, over the joined rows of the group.
  unfoldable pub projected : List Joined → Unpacked → Result Text
  unfolding projected_root control
  projected rows root = if is_root root.event.relation then projected_root rows root else do
    relation ← context root.event.relation "control relation missing"
    target ← application c rows (target_of relation)
    control root relation target
