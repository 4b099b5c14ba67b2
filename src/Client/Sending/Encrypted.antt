-- ===== src/Client/Sending/Encrypted.antt =====
-- `encrypt_event` of messaging.rs.
use epochgrid.Base.{
  ◌≤◌, [], ◌∷◌, ◌++◌, length, leb, nat_eq, bytes_eq, Bool, true, false, Bool-cases, Bytes, Text,
  text, Option, none, some, Result, ok, err, ensure, context, ◌>>=◌, >>=-eq-ok, String, ◌≡◌, refl,
  sym, ap, ◌∙◌, ◌⊎◌, inl, inr, subst, if◌then◌else◌, arith,
}
use epochgrid.Base.Members.{In, In-right}
use epochgrid.Wire.{Primitives}
use epochgrid.Store.{transaction_atomic}
use epochgrid.Attachments.{ManifestCodec}
use epochgrid.Conversation.Event.{ApplicationEvent, EventCodec, wire, transcript, root}
use epochgrid.Client.Tables.{Tables, Group, MlsGroup}
use epochgrid.Client.Library.{Mls, Session}
use epochgrid.Client.Groups.{group, load_group, save_group, subject_of}
use epochgrid.Client.Outbox.{queue}
use epochgrid.Client.Rekey.{ensure_can_send}
use epochgrid.Client.Index.{index_receipt, index_application, index_attachment, own_name}
use epochgrid.Client.Index.Rest.{
  index_receipt-rest, index_attachment-rest, index_application-Indexed,
}
use epochgrid.Client.Messaging.{insert_entry, next_row, encrypt_event_inner}
use epochgrid.Client.Sending.Rows.{waiting_row, queue-row, own_row, insert_entry-row}
use epochgrid.Client.Sending.Allowed.{
  MaySend, ensure_can_send-MaySend, MaySend-before, load_group_before,
}
use epochgrid.Client.Sending.{in_transaction, encrypt_event}

ok_injective {ℓ} : {A : Type ℓ} {a b : A} → ok a ≡ ok b → a ≡ b
ok_injective h = cc

ensure-true : (b : Bool) (message : String) → ensure b message ≡ ok tt → b ≡ true
ensure-true true message h = refl
ensure-true false message h = cc

context-some {ℓ} :
    {A : Type ℓ} (o : Option A) (message : String) (a : A) → context o message ≡ ok a → o ≡ some a
context-some none message a h = cc
context-some (some b) message a h = cc

-- What the steps behind OpenMLS leave, in the outbox and in the transcript.
record Written (subject gid : Text) (bytes : Bytes) (own : Text) (plaintext : Bytes)
    (base t' : Tables) : Type 0 where
  advanced : t'.mls ≡ base.mls
  queued : t'.outbox ≡ base.outbox ++ waiting_row subject bytes base ∷ []
  shown : In (own_row gid bytes own plaintext base) t'.transcript

-- What an event that was encrypted leaves: the ciphertext that OpenMLS makes of the event's encoding
-- waits in the outbox, its text stands in the transcript, and the group is the one behind it.
module _ (c : EventCodec) (mls : Mls) where
  pub record Encrypted (public_key name : Text) (event : ApplicationEvent) (t : Tables)
      (bytes : Bytes) (t' : Tables) : Type 0 where
    pub descriptor : Group
    pub g : MlsGroup
    pub next : MlsGroup
    pub encoded : Bytes
    pub found : group name t ≡ ok descriptor
    pub loaded : load_group descriptor t ≡ ok g
    pub may_send : MaySend public_key t g
    pub peers : 2 ≤ length g.members
    pub wired : wire c event ≡ ok encoded
    pub created : mls.create_message g encoded ≡ some (bytes, next)
    pub advanced : t'.mls ≡ save_group next t.mls
    pub queued :
        t'.outbox ≡ t.outbox ++ waiting_row (subject_of descriptor (text "message")) bytes t ∷ []
    pub written : In (own_row descriptor.gid bytes (own_name t) (transcript event) t) t'.transcript

  module _ (p : Primitives) (mc : ManifestCodec) (s : Session) where
    -- The steps behind OpenMLS, from the tables with the group that it returns.
    steps-Written :
        (subject gid : Text) (bytes : Bytes) (own : Text) (plaintext : Bytes)
        (event : Option ApplicationEvent) (base queued written receipted t' : Tables)
        → queue s subject bytes base ≡ ok queued
        → insert_entry gid bytes own plaintext true true queued ≡ ok written
        → index_receipt p (next_row queued.transcript) gid bytes written ≡ ok receipted
        → index_application p c (next_row queued.transcript) gid own bytes event plaintext receipted
          ≡ ok t'
        → Written subject gid bytes own plaintext base t'
    steps-Written subject gid bytes own plaintext event base queued written receipted t' a1 a2 a3
          a4 =
        let row = next_row queued.transcript in
        let q = queue-row s subject bytes base queued a1 in
        let w = insert_entry-row gid bytes own plaintext queued written a2 in
        let r = index_receipt-rest p row gid bytes written receipted a3 in
        let x = index_application-Indexed p c row gid own bytes event plaintext receipted t' a4 in
        let at = own_row gid bytes own plaintext in
        let there =
          subst (In (at queued)) (ap (λ (y : Tables). y.transcript) w)
            (In-right queued.transcript (at queued ∷ []) (at queued) (inl refl)) in
        record {
          advanced =
              ap (λ (y : Tables). y.mls) x.rest
              ∙ ap (λ (y : Tables). y.mls) r
              ∙ sym (ap (λ (y : Tables). y.mls) w)
              ∙ sym (ap (λ (y : Tables). y.mls) q);
          queued =
              ap (λ (y : Tables). y.outbox) x.rest
              ∙ ap (λ (y : Tables). y.outbox) r
              ∙ sym (ap (λ (y : Tables). y.outbox) w)
              ∙ sym (ap (λ (y : Tables). y.outbox) q);
          shown = x.shown (at base) refl (
              subst (In (at base)) (sym (ap (λ (y : Tables). y.transcript) r))
                (subst (λ e. In e written.transcript) (sym (ap at q)) there));
        }

    written-Encrypted :
        (public_key name : Text) (event : ApplicationEvent) (t indexed : Tables)
        (descriptor : Group) (encoded : Bytes) (g : MlsGroup) (bytes : Bytes) (next : MlsGroup)
        (r : Bytes × Tables)
        → indexed ≡ record t { attachments = indexed.attachments }
        → group name t ≡ ok descriptor
        → wire c event ≡ ok encoded
        → load_group descriptor indexed ≡ ok g
        → ensure_can_send public_key indexed g ≡ ok tt
        → leb 2 (length g.members) ≡ true
        → mls.create_message g encoded ≡ some (bytes, next)
        → ((queue s
              (subject_of descriptor (text "message"))
              bytes
              (record indexed { mls = save_group next indexed.mls }))
            >>= λ queued.
                (insert_entry descriptor.gid bytes (own_name t) (transcript event) true true queued
                  >>= λ written.
                      (index_receipt p (next_row queued.transcript) descriptor.gid bytes written
                        >>= λ receipted.
                            (index_application p c
                                (next_row queued.transcript)
                                descriptor.gid
                                (own_name t)
                                bytes
                                (some event)
                                (transcript event)
                                receipted
                              >>= λ final. ok (bytes, final)))))
          ≡ ok r
        → Encrypted public_key name event t r.0 r.1
    written-Encrypted public_key name event t indexed descriptor encoded g bytes next result e0
          found wired loaded may peers created h =
        let subject = subject_of descriptor (text "message") in
        let own = own_name t in
        let base : Tables = record indexed { mls = save_group next indexed.mls } in
        let (queued, a1, h1) = >>=-eq-ok (queue s subject bytes base) _ h in
        let row = next_row queued.transcript in
        let (written, a2, h2) =
          >>=-eq-ok (insert_entry descriptor.gid bytes own (transcript event) true true queued) _
            h1 in
        let (receipted, a3, h3) =
          >>=-eq-ok (index_receipt p row descriptor.gid bytes written) _ h2 in
        let (t', a4, h4) =
          >>=-eq-ok
            (index_application p c row descriptor.gid own bytes (some event) (transcript event)
              receipted)
            _ h3 in
        let z =
          steps-Written subject descriptor.gid bytes own (transcript event) (some event) base queued
            written receipted t' a1 a2 a3 a4 in
        subst (λ (y : Bytes × Tables). Encrypted public_key name event t y.0 y.1) (ok_injective h4)
          (record {
            descriptor = descriptor;
            g = g;
            next = next;
            encoded = encoded;
            found = found;
            loaded = load_group_before descriptor t indexed g e0 loaded;
            may_send =
                MaySend-before public_key t indexed g e0
                  (ensure_can_send-MaySend public_key indexed g may);
            peers = ground arith;
            wired = wired;
            created = created;
            advanced = z.advanced ∙ ap (λ (y : Tables). save_group next y.mls) e0;
            queued =
                z.queued ∙ ap (λ (y : Tables). y.outbox ++ waiting_row subject bytes y ∷ []) e0;
            written =
                subst (λ e. In e t'.transcript)
                  (ap (own_row descriptor.gid bytes own (transcript event)) e0) z.shown;
          })

    attachment-rest :
        (event : ApplicationEvent) (gid : Text) (t indexed : Tables)
        → (if root event then index_attachment mc gid event.content t else ok t) ≡ ok indexed
        → indexed ≡ record t { attachments = indexed.attachments }
    attachment-rest event gid t indexed h = elim (Bool-cases (root event)) [
      | inl e ↦ index_attachment-rest mc gid event.content t indexed (rw e at h)
      | inr e ↦
          subst (λ x. x ≡ record t { attachments = x.attachments }) (ok_injective (rw e at h)) refl
    ]

    inner-Encrypted :
        (public_key name : Text) (signer : Result (Unit {0})) (event : ApplicationEvent)
        (t : Tables) (bytes : Bytes) (t' : Tables)
        → encrypt_event_inner p c mc mls s public_key signer name event t ≡ ok (bytes, t')
        → Encrypted public_key name event t bytes t'
    unfolding encrypt_event_inner
    inner-Encrypted public_key name signer event t bytes t' h =
        let (encoded, a1, h1) = >>=-eq-ok (wire c event) _ h in
        let (descriptor, a2, h2) = >>=-eq-ok (group name t) _ h1 in
        let (signed, a3, h3) = >>=-eq-ok signer _ h2 in
        let (indexed, a4, h4) =
          >>=-eq-ok
            (if root event then index_attachment mc descriptor.gid event.content t else ok t) _
            h3 in
        let (g, a5, h5) = >>=-eq-ok (load_group descriptor indexed) _ h4 in
        let (u, a6, h6) = >>=-eq-ok (ensure_can_send public_key indexed g) _ h5 in
        let (v, a7, h7) =
          >>=-eq-ok (ensure (leb 2 (length g.members)) "invite a peer before sending messages") _
            h6 in
        let ((made, next), a8, h8) =
          >>=-eq-ok (context (mls.create_message g encoded) "encrypt MLS application") _ h7 in
        written-Encrypted public_key name event t indexed descriptor encoded g made next (bytes, t')
          (attachment-rest event descriptor.gid t indexed a4) a2 a1 a5 a6
          (ensure-true (leb 2 (length g.members)) "invite a peer before sending messages" a7)
          (context-some (mls.create_message g encoded) "encrypt MLS application" (made, next) a8) h8

-- An event that is sent in a transaction either fails and leaves every table, or succeeds: then the
-- device may send, the group has no revoked member and at least two members; the ciphertext that
-- OpenMLS makes of the event's encoding waits behind the rest of the outbox, to the group's subject;
-- the transcript has it with the event's text under this device's name; and the group's state is
-- the one behind it. So no ciphertext is queued without its row and its ratchet.
pub encrypt_event_lem :
    (p : Primitives) (c : EventCodec) (mc : ManifestCodec) (mls : Mls) (s : Session)
    (public_key : Text) (signer : Result (Unit {0})) (name : Text) (event : ApplicationEvent)
    (t : Tables)
    → ((e : String) × (encrypt_event p c mc mls s public_key signer name event t ≡ (err e, t)))
      ⊎ ((bytes : Bytes) × (t' : Tables) × (encrypt_event p c mc mls s public_key signer name event
              t
            ≡ (ok bytes, t'))
          × Encrypted c mls public_key name event t bytes t')
unfolding encrypt_event
encrypt_event_lem p c mc mls s public_key signer name event t =
    let action = encrypt_event_inner p c mc mls (in_transaction s) public_key signer name event in
    elim (transaction_atomic s.sqlite s.capacity false action t) [
      | inr (e, h) ↦ inl (e, h)
      | inl done ↦ inr (
        done.value,
        done.after,
        done.result,
        inner-Encrypted c mls p mc (in_transaction s) public_key name signer event t done.value
            done.after done.acted,
      )
    ]
