-- ===== src/Lib.antt =====
-- EpochGrid: an end-to-end encrypted messaging system over NATS and MLS. This development models
-- the parts of crates/epochgrid-core/src, where all files named below are, that decide what is
-- trusted: device registrations, the transparency log, revocations, the trust that a client keeps,
-- who may use a group, the messages of a group, and the budgets that bound them.
--
-- Base holds the shared names: results (anyhow's Result), executions that change a state and may
-- fail, texts as lists of bytes, and lists measured by native numbers. Store models the
-- transaction of the device's database (identity.rs): all of an action, or nothing.
--
-- Wire models crates/epochgrid-core/src/wire.rs: messages, identifiers and the envelope. What the
-- program calls of other libraries (postcard, SHA-256, NATS user keys, OpenMLS's KeyPackages)
-- stands in the record Wire.Primitives, which every definition that needs it takes as a parameter.
--
-- Identity models the checks of a registration in identity.rs. Merkle models the tree of
-- transparency.rs and revocation.rs, which have the same recursion; it runs on one more unit of
-- fuel than the list has entries, which is enough since each call is on a shorter list.
-- Merkle.Reference has the tree hash of RFC 6962, which docs/device-verification.md names.
-- Transparency models the signed snapshots of the registration log, and the loop that appends by
-- compare-and-swap to a bucket whose other writers and failures are its world. A revision is a
-- sequence number of the bucket's stream, which the key of the registrations shares with the key
-- of the revocations.
--
-- Revocation models revocation.rs: the requests, the log of them with the loop that appends to it
-- (Revocation.Append), and the tables that a client keeps (Revocation.Local). Trust models
-- trust.rs: the devices seen, pinned on first use, and the pinned directory. Capacity models
-- capacity.rs: the policy, the check of a database, and the token bucket, with an Instant as a
-- number of nanoseconds.
--
-- Audit models the bounded log of audit.rs in the authority's registry. Registry models the tables
-- of identity_model.rs, the invitation, enrollment, activation, admission and revocation of a
-- device, and the budgets of those tables. Authorization models authorization.rs: the registry's
-- record of a group's members, changed by signed updates of its coordinator inside one
-- transaction, the report of a refused one, and in authorization/delivery.rs the check of a
-- Welcome that is to be relayed. Ephemeral models the time window and the typing state of
-- ephemeral.rs. The registry and its audit log change in the same transaction, so an operation
-- that fails leaves both.
--
-- Attachments models the manifest of attachments.rs, which stands for a file in a message.
-- Conversation models relationships.rs: the events, their encoding, and the projection of a
-- message over the rows of a store. The projection takes the joined rows of message_events and
-- transcript, in any order, and sorts them as its queries do.
--
-- Client models the store of a device as messages pass through it. Client.Tables has the tables,
-- Client.Library what is called of OpenMLS and postcard (a group is the value that OpenMLS stores,
-- and a call of the library returns the next one), Client.Groups groups.rs, Client.Outbox the
-- outbox of delivery.rs and the policy intent of authorization/delivery.rs, Client.Rekey rekey.rs,
-- Client.Index what is written beside a message (receipts.rs, relationships.rs, attachments.rs),
-- Client.Messaging messaging.rs with its transactions and the creation of a group in
-- Client.Sending, Client.Epochs epochs.rs, Client.History history.rs with its queries and the
-- listing of a conversation in Client.Transcript, and Client.Receipts receipts.rs. An SQL
-- statement fails here only by a constraint of its table. The error InvalidMessage is its text.
-- The deliveries are kept in the order of their sequence, which is their primary key. The loop of
-- process_history runs on one more unit of fuel than there are deliveries, which is enough since
-- each round takes one from those that wait.
--
-- Integers are natural numbers; what wraps, saturates or is checked in the source is written out.
-- The tables of SQLite are lists or records; what SQLite reports of its pages, and whether a
-- commit succeeds, are parameters (Store.Sqlite). Not modelled: network calls other than the
-- bucket, the flushing of the outbox, MLS itself, the encrypted database itself, files, and the
-- command lines.
pub mod Base
pub mod Wire
pub mod Merkle
pub mod Identity
pub mod Transparency
pub mod Capacity
pub mod Store
pub mod Revocation
pub mod Trust
pub mod Audit
pub mod Registry
pub mod Authorization
pub mod Ephemeral
pub mod Attachments
pub mod Conversation
pub mod Client
pub mod Tests
