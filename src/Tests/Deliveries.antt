-- ===== src/Tests/Deliveries.antt =====
-- The store of a device: the theorems of the history, the receipts and the Commits at concrete tables.
use epochgrid.Base.{
  ℕ, ◌≤◌, ◌<◌, ◌^◌, [], ◌∷◌, true, text, String, none, some, ok, err, ◌≡◌, refl, ◌⊎◌, ◌==◌,
  bytes_eq, nat_eq, if◌then◌else◌, arith, ℕ_discrete, bytes_discrete,
}
use epochgrid.Wire.{max_wire}
use epochgrid.Capacity.{default}
use epochgrid.Store.{Sqlite}
use epochgrid.Attachments.{ManifestCodec}
use epochgrid.Conversation.Event.{EventCodec}
use epochgrid.Ephemeral.Typing.{AuthenticatedEvent, receipt, read}
use epochgrid.Client.Tables.{Tables, Group, MlsGroup, Leaf, Entry}
use epochgrid.Revocation.Local.{is_revoked, revoked_mls_key}
use epochgrid.Client.Library.{Mls, application, StagedCommit, application_message, processed}
use epochgrid.Client.Groups.{group, load_group}
use epochgrid.Client.Rekey.{
  revoked_leaves, coordinator, stored_coordinator, kept_coordinator, least, is_leader, is_at,
  removes_revoked, before_cutoff, check_author, validate_commit_author, ensure_can_send,
}
use epochgrid.Client.Rekey.Commits.{Permitted, validate_commit_author-Permitted}
use epochgrid.Client.History
use epochgrid.Client.History.{Delivery, Store, process_history, stage_chat}
use epochgrid.Client.History.Processed.{Ends, process_history_lem}
use epochgrid.Client.History.Staging.{Staged, stage_chat_lem}
use epochgrid.Client.Receipts.{process_receipt, process_event, receipt_join, claim, accept_claim}
use epochgrid.Client.Receipts.Claims
use epochgrid.Client.Receipts.Claims.{process_receipt-Processed}
use epochgrid.Tests.Fixture.{fixture, alice_laptop}

abbrev pub store : {S : Type 0} → Sqlite S
store = record { page_count = λ s. 1; page_size = λ s. 4096; commits = λ s. true }

abbrev team : Group
team = record { name = text "team"; gid = text "g1"; mls_id = text "m1" }

abbrev leaf : ℕ → ℕ → String → Leaf
leaf index key name = record {
  index = index;
  signature_key = key ∷ [];
  credential = key ∷ [];
  identity = some (text name);
}

abbrev team_mls : MlsGroup
team_mls = record {
  group_id = text "m1";
  epoch = 3;
  is_active = true;
  own_leaf_index = 0;
  members = leaf 0 10 "alice/laptop" ∷ leaf 1 11 "bob/phone" ∷ leaf 2 12 "eve/pc" ∷ [];
  ratchets = [];
}

abbrev pub tables : Tables
tables = record {
  registration = alice_laptop.payload;
  groups = team ∷ [];
  join_epochs = (text "g1", 1) ∷ [];
  mls = team_mls ∷ [];
  outbox = [];
  blocked = [];
  received = [];
  transcript = [];
  receipt_messages = [];
  device_receipts = [];
  message_events = [];
  attachments = [];
  coordinators = record { gid = text "g1"; mls_key = 12 ∷ [] } ∷ [];
  revoked = [];
}

-- OpenMLS knows one message, from Bob's phone.
abbrev pub mls : Mls
mls = record {
  deserialize = λ b.
      if b == 5 ∷ []
      then some (record {
        is_private = true;
        protocol = some (record { group_id = text "m1"; epoch = 3; content_type = application });
      })
      else none;
  process_message = λ g b.
      processed
        (record {
          sender = some 1;
          identity = some (text "bob/phone");
          content = application_message (text "hi");
        })
        g;
  merge_staged_commit = λ g c. some g;
  merge_pending_commit = λ g. some g;
  new_group = λ id. some (record team_mls { group_id = id });
  create_message = λ g b. some (b, record g { ratchets = 1 ∷ [] });
  remove_members = λ g r. none;
  intent_bytes = λ t g. none;
}

abbrev pub events : EventCodec
events = record {
  bytes_of = λ e. some (e.content);
  take_event = λ b. none;
  application_id = λ gid sender wire. some wire;
  legacy_id = λ gid ciphertext. some ciphertext;
}

abbrev pub manifests : ManifestCodec
manifests = record { bytes_of = λ m. none; take = λ b. none }

abbrev delivery : ℕ → ℕ → Delivery
delivery sequence byte = record {
  sequence = sequence;
  subject = text "epochgrid.v1.group.g1.message";
  payload = byte ∷ [];
  state = History.pending;
}

-- An invalid packet before Bob's message, which is there twice.
abbrev staged : Store
staged = record { deliveries = delivery 1 9 ∷ delivery 2 5 ∷ delivery 4 5 ∷ []; tables = tables }

team_found : group (text "team") tables ≡ ok team
unfolding group bytes_discrete ℕ_discrete
team_found = refl

process_history_lem_example :
    Ends fixture events manifests mls store default
      (text "team")
      team
      staged
      (process_history fixture events manifests mls store default (text "team") staged).0
      (process_history fixture events manifests mls store default (text "team") staged).1
process_history_lem_example =
    process_history_lem fixture events manifests mls store default (text "team") team staged
      team_found ((omega arith, (omega arith, tt)), ((omega arith, tt), (tt, tt)))

stage_chat_lem_example :
    ((e : String) × (stage_chat store default 3 (text "s") (6 ∷ []) staged ≡ (err e, staged)))
    ⊎ ((s' : Store) × (stage_chat store default 3 (text "s") (6 ∷ []) staged ≡ (ok tt, s'))
        × ((0 < 3) × (3 < 2 ^ 63) × (1 ≤ max_wire))
        × Staged 3 (text "s") (6 ∷ []) staged s')
stage_chat_lem_example =
    stage_chat_lem store default 3 (text "s") (6 ∷ []) staged
      ((omega arith, (omega arith, tt)), ((omega arith, tt), (tt, tt)))

-- Eve's device, which coordinated the group, is revoked.
abbrev pub eve_lost : Tables
eve_lost = record tables {
  revoked =
      record {
        nkey = text "UE";
        user = text "eve";
        device = text "pc";
        mls_key = 12 ∷ [];
        cutoff = 7;
      }
      ∷ [];
}

abbrev removal : StagedCommit
removal = record {
  update_path_leaf = some (10 ∷ [], 10 ∷ []);
  queued_proposals = 1;
  add_proposals = 0;
  removed = 2 ∷ [];
  staged = [];
}

removal_accepted : validate_commit_author team 0 removal 9 eve_lost ≡ ok tt
unfolding validate_commit_author load_group check_author before_cutoff is_leader removes_revoked
    is_at coordinator kept_coordinator least stored_coordinator revoked_leaves revoked_mls_key
    bytes_discrete ℕ_discrete
removal_accepted = refl

team_loaded : load_group team eve_lost ≡ ok team_mls
unfolding load_group bytes_discrete ℕ_discrete
team_loaded = refl

validate_commit_author-Permitted_example : Permitted eve_lost team_mls 0 removal 9
unfolding revoked_leaves revoked_mls_key bytes_discrete ℕ_discrete
validate_commit_author-Permitted_example =
    validate_commit_author-Permitted team 0 removal 9 eve_lost team_mls team_loaded (tt, tt)
      removal_accepted

abbrev own_entry : Entry
own_entry = record {
  id = 1;
  gid = text "g1";
  payload = 8 ∷ [];
  sender = some (text "alice/laptop");
  plaintext = some (text "hi");
  outgoing = true;
  stream_sequence = some 2;
  displayed = true;
}

abbrev sent : Tables
sent = record tables {
  transcript = own_entry ∷ [];
  receipt_messages = record { transcript_id = 1; gid = text "g1"; reference = 8 ∷ [] } ∷ [];
}

abbrev bob_read : AuthenticatedEvent
bob_read = record {
  sender = text "bob/phone";
  gid = text "g1";
  epoch = 3;
  issued = 0;
  event = receipt (8 ∷ []) read;
  expires = 100;
}

abbrev read_by_bob : Tables
read_by_bob = record sent {
  device_receipts = record { transcript_id = 1; device = text "bob/phone"; state = 1 } ∷ [];
}

bob_has_read : process_receipt (text "UA") 50 (text "team") bob_read sent ≡ ok (none, read_by_bob)
unfolding process_receipt group load_group ensure_can_send is_revoked revoked_leaves revoked_mls_key
    process_event receipt_join claim accept_claim bytes_discrete ℕ_discrete
bob_has_read = refl

process_receipt-Processed_example : Claims.Processed 50 (text "team") bob_read sent read_by_bob
process_receipt-Processed_example =
    process_receipt-Processed (text "UA") 50 (text "team") bob_read sent none read_by_bob
      bob_has_read
