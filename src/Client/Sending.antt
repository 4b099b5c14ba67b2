-- ===== src/Client/Sending.antt =====
-- The transactions of messaging.rs, with the check of a relation in relationships.rs, and the creation
-- of a group in groups.rs.
pub mod Rows
pub mod Allowed
pub mod Encrypted
use epochgrid.Base.{
  ◌++◌, ◌==◌, bytes_eq, Bytes, Text, text, Option, none, some, Result, ok, err, context, ensure,
  ◌>>=◌, ◌>>◌, is_utf8, false,
}
use epochgrid.Base.Hex.{hex}
use epochgrid.Wire.{Primitives, validate_id}
use epochgrid.Store.{transaction}
use epochgrid.Attachments.{ManifestCodec}
use epochgrid.Conversation.Event.{
  Relation, replace, target_of, is_root, ApplicationEvent, EventCodec,
}
use epochgrid.Conversation.Projection.{Unpacked, join, application}
use epochgrid.Client.Tables.{Tables, Group}
use epochgrid.Client.Library.{Mls, Session}
use epochgrid.Client.Groups.{group, from_mls_id, insert_group, load_group, save_group}
use epochgrid.Client.Outbox.{queue_policy}
use epochgrid.Client.Rekey.{refresh_coordinator}
use epochgrid.Client.Index.{own_name, new_event}
use epochgrid.Client.Messaging.{encrypt_event_inner, decrypt_inner, DecryptedMessage}

-- A session in a transaction without the recovery budget.
abbrev pub in_transaction : Session → Session
in_transaction s = record s { recovery_budget = false; is_autocommit = false }

-- What follows a check that has no effect on the store.
abbrev pub after {ℓ} :
    {A : Type ℓ} {B : Type 0} → Result A → Tables → (A → Result B × Tables) → Result B × Tables
after (err e) t next = (err e, t)
after (ok a) t next = next a

check_edited : Relation → Unpacked → Tables → Result (Unit {0})
check_edited (replace id) target t = do
  ensure (target.sender == own_name t) "only the original sending device can edit a message"
  ensure (is_utf8 target.event.content) "only text messages can be edited"
check_edited _ target t = ok tt

module _ (c : EventCodec) where
  unfoldable pub validate_relation : Text → Relation → Tables → Result (Unit {0})
  unfolding check_edited
  validate_relation name relation t = do
    g ← group name t
    found ← application c (join g.gid t.transcript t.message_events) (target_of relation)
    target ← context found "target message is not available locally"
    ensure (is_root target.event.relation) "relationships must target a message or reply"
    check_edited relation target t

module _ (p : Primitives) (c : EventCodec) where
  -- `ApplicationEvent::new` in a channel.
  new_in : Option Bytes → Text → Bytes → Option Relation → Tables → Result ApplicationEvent
  new_in nonce name content relation t = do
    g ← group name t
    new_event p c nonce g.gid content relation t

module _ (p : Primitives) (c : EventCodec) (mc : ManifestCodec) (mls : Mls) where
  unfoldable pub encrypt_event :
      Session → Text → Result (Unit {0}) → Text → ApplicationEvent → Tables → Result Bytes × Tables
  encrypt_event s public_key signer name event t =
      transaction s.sqlite s.capacity false
        (encrypt_event_inner p c mc mls (in_transaction s) public_key signer name event) t

  unfoldable pub encrypt_message :
      Session
      → Text
      → Result (Unit {0})
      → Option Bytes
      → Text
      → Bytes
      → Tables
      → Result Bytes × Tables
  unfolding new_in encrypt_event
  encrypt_message s public_key signer nonce name plaintext t =
      after (new_in p c nonce name plaintext none t) t
        λ event. encrypt_event s public_key signer name event t

  unfoldable pub encrypt_related :
      Session
      → Text
      → Result (Unit {0})
      → Option Bytes
      → Text
      → Relation
      → Bytes
      → Tables
      → Result Bytes × Tables
  unfolding validate_relation new_in encrypt_event
  encrypt_related s public_key signer nonce name relation content t =
      after (validate_relation c name relation t) t λ valid.
        after (new_in p c nonce name content (some relation) t) t
          λ event. encrypt_event s public_key signer name event t

  unfoldable pub decrypt_message :
      Session → Text → Bytes → Tables → Result (Option DecryptedMessage) × Tables
  decrypt_message s name bytes t =
      transaction s.sqlite s.capacity false (decrypt_inner p c mc mls name bytes) t

module _ (p : Primitives) (mls : Mls) where
  -- The group's descriptor, from 16 random bytes.
  describe : Option Bytes → Text → Result Group
  describe random name = do
    validate_id name
    bytes ← context random "group randomness"
    from_mls_id (text "epochgrid/v1/" ++ name ++ text "/" ++ hex bytes)

  -- The transaction of `create_group`.
  found_group : Session → Group → Tables → Result (Group × Tables)
  found_group s descriptor t = do
    inserted ← insert_group s.capacity descriptor t
    g ← context (mls.new_group descriptor.mls_id) "create MLS group"
    let created : Tables = record inserted { mls = save_group g inserted.mls }
    loaded ← load_group descriptor created
    refreshed ← refresh_coordinator loaded created
    again ← load_group descriptor refreshed
    announced ← queue_policy p mls s again refreshed
    ok (descriptor, announced)

  unfoldable pub create_group :
      Session → Result (Unit {0}) → Option Bytes → Text → Tables → Result Group × Tables
  unfolding describe found_group
  create_group s signer random name t = after (describe random name) t λ descriptor.
      after signer t λ signed.
        transaction s.sqlite s.capacity false (found_group (in_transaction s) descriptor) t
