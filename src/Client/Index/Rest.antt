-- ===== src/Client/Index/Rest.antt =====
-- Which tables are written beside a message of the transcript.
use epochgrid.Base.{
  ℕ, List, [], ◌∷◌, find, ◌==◌, nat_eq, bytes_eq, ◌&&◌, ◌||◌, any, true, Bool-cases, Bytes, Text,
  Option, none, some, Option-cases, Result, ok, err, ensure, context, >>=-eq-ok, ◌≡◌, refl, sym, ap,
  ◌∙◌, inl, inr, subst,
}
use mathlib.Core.Option
use epochgrid.Base.Members.{In}
use epochgrid.Wire.{Primitives}
use epochgrid.Merkle.{hash}
use epochgrid.Attachments.{ManifestCodec, Manifest, decode_manifest}
use epochgrid.Conversation.Event.{ApplicationEvent, EventCodec, id_text, target_of}
use epochgrid.Client.Tables.{Tables, Entry, ReceiptMessage, MessageEvent, Attachment, insert_new}
use epochgrid.Client.Rekey.{invalid_message}
use epochgrid.Client.Index.{
  index_receipt, identify, is_shown, mark_shown, kind_of, index_application, same_manifest,
  store_manifest, index_decoded, index_attachment,
}

ok_injective {ℓ} : {A : Type ℓ} {a b : A} → ok a ≡ ok b → a ≡ b
ok_injective h = cc

-- `t'` differs from `t` in the claims that may be made about messages alone.
pub index_receipt-rest :
    (p : Primitives) (id : ℕ) (gid : Text) (payload : Bytes) (t t' : Tables)
    → index_receipt p id gid payload t ≡ ok t'
    → t' ≡ record t { receipt_messages = t'.receipt_messages }
unfolding index_receipt
index_receipt-rest p id gid payload t t' h =
    let (reference, e, h1) = >>=-eq-ok (hash p payload) _ h in
    elim (Bool-cases (
      any
        (λ (r : ReceiptMessage).
          r.transcript_id == id || (r.gid == gid && r.reference == reference))
        t.receipt_messages)) [
          | inl b ↦
              subst (λ x. x ≡ record t { receipt_messages = x.receipt_messages })
                (ok_injective (rw b at h1)) refl
          | inr b ↦
              subst (λ x. x ≡ record t { receipt_messages = x.receipt_messages })
                (ok_injective (rw b at h1)) refl
        ]

module _ (mc : ManifestCodec) where
  store_manifest-rest :
      (gid : Text) (bytes : Bytes) (m : Manifest) (t t' : Tables)
      → store_manifest mc gid bytes m t ≡ ok t'
      → t' ≡ record t { attachments = t'.attachments }
  unfolding store_manifest
  store_manifest-rest gid bytes m t t' h =
      let previous = find (λ (a : Attachment). a.gid == gid && a.object_id == m.id) t.attachments in
      let (u, e, h1) = >>=-eq-ok (ensure (same_manifest mc bytes previous) invalid_message) _ h in
      elim (Option-cases previous) [
        | inl b ↦
            subst (λ x. x ≡ record t { attachments = x.attachments }) (ok_injective (rw b at h1))
              refl
        | inr (a, b) ↦
            subst (λ x. x ≡ record t { attachments = x.attachments }) (ok_injective (rw b at h1))
              refl
      ]

  decoded-rest :
      (gid : Text) (bytes : Bytes) (r : Result (Option Manifest)) (t t' : Tables)
      → index_decoded mc gid bytes r t ≡ ok t'
      → t' ≡ record t { attachments = t'.attachments }
  unfolding index_decoded
  decoded-rest gid bytes (err e) t t' h = absurd (cc)
  decoded-rest gid bytes (ok none) t t' h =
      subst (λ x. x ≡ record t { attachments = x.attachments }) (ok_injective h) refl
  decoded-rest gid bytes (ok (some m)) t t' h = store_manifest-rest gid bytes m t t' h

  pub index_attachment-rest :
      (gid : Text) (bytes : Bytes) (t t' : Tables)
      → index_attachment mc gid bytes t ≡ ok t'
      → t' ≡ record t { attachments = t'.attachments }
  unfolding index_attachment
  index_attachment-rest gid bytes t t' h = decoded-rest gid bytes (decode_manifest mc bytes) t t' h

module _ (p : Primitives) (c : EventCodec) where
  -- A row that is displayed is as it was when rows are marked.
  mark_shown-In :
      (row : ℕ) (e : Entry) (rows : List Entry)
      → e.displayed ≡ true
      → In e rows
      → In e (mark_shown p c row rows)
  unfolding mark_shown
  mark_shown-In row e [] d i = absurd i
  mark_shown-In row e (r ∷ rest) d (inr i) = inr (mark_shown-In row e rest d i)
  mark_shown-In row e (r ∷ rest) d (inl q) =
      inl (elim (Bool-cases (r.id == row)) [ inr b ↦ rw b q | inl b ↦ rw b (q ∙ displayed_again) ])
    where
      displayed_again : r ≡ record r { displayed = true }
      displayed_again =
          λ i. record r { displayed = (ap (λ (x : Entry). x.displayed) (sym q) ∙ d) i }

  -- What is indexed of an application event: one row of the events, and a mark in the transcript.
  pub record Indexed (t t' : Tables) : Type 0 where
    pub rest : t' ≡ record t { message_events = t'.message_events; transcript = t'.transcript }
    pub shown : (e : Entry) → e.displayed ≡ true → In e t.transcript → In e t'.transcript

  pub index_application-Indexed :
      (row : ℕ) (gid sender : Text) (ciphertext : Bytes) (event : Option ApplicationEvent)
      (plaintext : Bytes) (t t' : Tables)
      → index_application p c row gid sender ciphertext event plaintext t ≡ ok t'
      → Indexed t t'
  unfolding index_application
  index_application-Indexed row gid sender ciphertext event plaintext t t' h =
      let ((id, e), a, h1) = >>=-eq-ok (identify p c gid sender ciphertext event plaintext) _ h in
      let (blob, b, h2) = >>=-eq-ok (context (c.bytes_of e) "encoding") _ h1 in
      let (events, d, h3) =
        >>=-eq-ok
          (insert_new (λ (o : MessageEvent). o.transcript_id == row)
            (record {
              transcript_id = row;
              gid = gid;
              message_id = id_text id;
              target = Option.map (λ r. id_text (target_of r)) e.relation;
              kind = kind_of e.relation;
              counter = e.counter;
              event = blob;
            })
            t.message_events)
          _ h2 in
      elim (Bool-cases (is_shown p c gid (id_text id) (record t { message_events = events }))) [
        | inl k ↦
            subst (Indexed t) (ok_injective (rw k at h3))
              (record { rest = refl; shown = λ x. mark_shown-In row x t.transcript })
        | inr k ↦
            subst (Indexed t) (ok_injective (rw k at h3))
              (record { rest = refl; shown = λ e d i. i })
      ]
