-- ===== src/Tests/Outgoing.antt =====
-- The sending of messaging.rs at concrete tables.
use epochgrid.Base.{[], true, false, text, none, ok, err, Bytes, String, ◌≡◌, ◌⊎◌}
use epochgrid.Capacity.{default}
use epochgrid.Conversation.Event.{ApplicationEvent}
use epochgrid.Client.Tables.{Tables}
use epochgrid.Client.Library.{Session}
use epochgrid.Client.Sending.{encrypt_event}
use epochgrid.Client.Sending.Encrypted.{Encrypted, encrypt_event_lem}
use epochgrid.Tests.Fixture.{fixture}
use epochgrid.Tests.Deliveries.{store, tables, mls, events, manifests}

abbrev session : Session
session = record {
  sqlite = store;
  capacity = default;
  recovery_budget = false;
  is_autocommit = true;
}

abbrev hello : ApplicationEvent
hello = record { nonce = []; counter = 1; content = text "hi"; relation = none }

encrypt_event_lem_example :
    ((e : String) × (encrypt_event fixture events manifests mls session
          (text "UA")
          (ok tt)
          (text "team")
          hello
          tables
        ≡ (err e, tables)))
    ⊎ ((bytes : Bytes) × (t' : Tables) × (encrypt_event fixture events manifests mls session
            (text "UA")
            (ok tt)
            (text "team")
            hello
            tables
          ≡ (ok bytes, t'))
        × Encrypted events mls (text "UA") (text "team") hello tables bytes t')
encrypt_event_lem_example =
    encrypt_event_lem fixture events manifests mls session (text "UA") (ok tt) (text "team") hello
      tables
