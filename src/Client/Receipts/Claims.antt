-- ===== src/Client/Receipts/Claims.antt =====
-- The claims of receipts.rs over `process_receipt`.
use epochgrid.Base.{
  ℕ, ◌≤◌, ◌<◌, List, [], ◌∷◌, find, ltb, ◌==◌, nat_eq, bytes_eq, ◌&&◌, Bool, true, false, Bytes,
  Text, String, Option, none, some, ok, ensure, ◌>>◌, >>=-eq-ok, Bool-cases, ◌≡◌, refl, sym, ap₂,
  subst, ◌⊎◌, inl, inr, arith, if◌then◌else◌,
}
use epochgrid.Ephemeral.Typing.{
  ReceiptState, EphemeralEvent, typing_started, typing_stopped, receipt_request, receipt,
  AuthenticatedEvent,
}
use epochgrid.Client.Tables.{Tables, Group, MlsGroup, Entry, ReceiptMessage, DeviceReceipt}
use epochgrid.Client.Groups.{group, load_group}
use epochgrid.Client.Rekey.{ensure_can_send}
use epochgrid.Client.Receipts.{
  claim, code, is_own, receipt_join, accept_claim, process_event, process_receipt,
}

-- What a device has claimed of a message.
abbrev pub claimed : ℕ → Text → List DeviceReceipt → Option ℕ
claimed id device [] = none
claimed id device (r ∷ rest) =
    if r.transcript_id == id && r.device == device then some r.state else claimed id device rest

abbrev pub AtMost : Option ℕ → Option ℕ → Type 0
AtMost none b = Unit
AtMost (some m) none = ⊥
AtMost (some m) (some n) = m ≤ n

-- The claim that stands after a claim.
abbrev stronger : ℕ → Option ℕ → ℕ
stronger state none = state
stronger state (some old) = if ltb old state then state else old

claimed-claim :
    (id : ℕ) (device : Text) (state : ℕ) (rows : List DeviceReceipt) (j : ℕ) (d : Text)
    → claimed j d (claim id device state rows) ≡ (
        if id == j && device == d
        then some (stronger state (claimed id device rows))
        else claimed j d rows)
unfolding claim
claimed-claim id device state [] j d = refl
claimed-claim id device state (r ∷ rest) j d =
    elim (Bool-cases (r.transcript_id == id && r.device == device)) [
      | inl q ↦ rw q (ground arith)
      | inr q ↦ rw q (ground (arith, claimed-claim id device state rest j d))
    ]

AtMost-refl : (o : Option ℕ) → AtMost o o
AtMost-refl none = tt
AtMost-refl (some n) = omega arith

AtMost-stronger : (state : ℕ) (o : Option ℕ) → AtMost o (some (stronger state o))
AtMost-stronger state none = tt
AtMost-stronger state (some n) = elim (Bool-cases (ltb n state)) [
  | inl q ↦ rw q (ground arith)
  | inr q ↦ rw q (omega arith)
]

-- What processing an event may change: no claim is lost or weakened, and one changes only as its own
-- device has claimed, of a message that this device has sent in the event's group.
pub record Claims (gid : Text) (event : AuthenticatedEvent) (t t' : Tables) : Type 0 where
  pub rest : t' ≡ record t { device_receipts = t'.device_receipts }
  pub grows :
      (id : ℕ) (device : Text)
      → AtMost (claimed id device t.device_receipts) (claimed id device t'.device_receipts)
  pub only :
      (id : ℕ) (device : Text)
      → (claimed id device t'.device_receipts ≡ claimed id device t.device_receipts) ⊎ (record {
        own_claim : device ≡ event.sender;
        message : Bytes;
        state : ReceiptState;
        which : event.event ≡ receipt message state;
        row : ReceiptMessage;
        entry : Entry;
        sent :
            find (is_own gid message) (receipt_join t.receipt_messages t.transcript)
            ≡ some (row, entry);
        about : entry.id ≡ id;
        after : AtMost (some (code state)) (claimed id device t'.device_receipts);
      })

unchanged-Claims : (gid : Text) (event : AuthenticatedEvent) (t : Tables) → Claims gid event t t
unchanged-Claims gid event t = record {
  rest = refl;
  grows = λ id device. AtMost-refl (claimed id device t.device_receipts);
  only = λ id device. inl refl;
}

code-stronger : (n : ℕ) (o : Option ℕ) → AtMost (some n) (some (stronger n o))
code-stronger n none = omega arith
code-stronger n (some m) = elim (Bool-cases (ltb m n)) [
  | inl q ↦ rw q (omega arith)
  | inr q ↦ rw q (ground arith)
]

both_equal : (m n : ℕ) (a b : Text) → (m == n && a == b) ≡ true → (m ≡ n) × (a ≡ b)
both_equal m n a b h = (ground arith, ground arith)

accept_claim-Claims :
    (gid : Text) (event : AuthenticatedEvent) (message : Bytes) (state : ReceiptState) (t : Tables)
    (o : Option (ReceiptMessage × Entry))
    → event.event ≡ receipt message state
    → find (is_own gid message) (receipt_join t.receipt_messages t.transcript) ≡ o
    → Claims gid event t (accept_claim event.sender state o t)
unfolding accept_claim
accept_claim-Claims gid event message state t none e h = unchanged-Claims gid event t
accept_claim-Claims gid event message state t (some (r, x)) e h =
    let now =
      λ (j : ℕ) (d : Text). claimed-claim x.id event.sender (code state) t.device_receipts j d in
    let both = λ (j : ℕ) (d : Text) (q : (x.id == j && event.sender == d) ≡ true).
      both_equal x.id j event.sender d q in
    let same = λ (j : ℕ) (d : Text) (q : (x.id == j && event.sender == d) ≡ true).
      ap₂ (λ (a : ℕ) (b : Text). claimed a b t.device_receipts) (both j d q).0 (both j d q).1 in
    record {
      rest = refl;
      grows = λ j d. elim (Bool-cases (x.id == j && event.sender == d)) [
        | inr q ↦ rw (now j d, q) (AtMost-refl (claimed j d t.device_receipts))
        | inl q ↦
            rw (now j d, q, same j d q)
              (AtMost-stronger (code state) (claimed j d t.device_receipts))
      ];
      only = λ j d. elim (Bool-cases (x.id == j && event.sender == d)) [
        | inr q ↦ inl (rw (now j d, q) refl)
        | inl q ↦ inr (record {
          own_claim = sym (both j d q).1;
          message = message;
          state = state;
          which = e;
          row = r;
          entry = x;
          sent = h;
          about = (both j d q).0;
          after =
              rw (now j d, q)
                (code-stronger (code state) (claimed x.id event.sender t.device_receipts));
        })
      ];
    }

event-Claims :
    (gid : Text) (event : AuthenticatedEvent) (e : EphemeralEvent) (t : Tables)
    → event.event ≡ e
    → Claims gid event t (process_event gid event e t).1
unfolding process_event
event-Claims gid event typing_started t h = unchanged-Claims gid event t
event-Claims gid event typing_stopped t h = unchanged-Claims gid event t
event-Claims gid event (receipt_request message) t h = unchanged-Claims gid event t
event-Claims gid event (receipt message state) t h =
    accept_claim-Claims gid event message state t
      (find (is_own gid message) (receipt_join t.receipt_messages t.transcript)) h refl

ensure-true : (b : Bool) (message : String) → ensure b message ≡ ok tt → b ≡ true
ensure-true true message h = refl
ensure-true false message h = cc

ap_ok : {A B : Type 0} {x : A × B} {a : A} {b : B} → ok x ≡ ok (a, b) → x.1 ≡ b
ap_ok h = cc

-- What has been checked of an event that is processed, and what it changes.
pub record Processed (now : ℕ) (name : Text) (event : AuthenticatedEvent) (t t' : Tables)
    : Type 0 where
  pub g : Group
  pub m : MlsGroup
  pub found : group name t ≡ ok g
  pub loaded : load_group g t ≡ ok m
  pub fresh : now < event.expires
  pub same_group : event.gid ≡ g.gid
  pub same_epoch : event.epoch ≡ m.epoch
  pub claims : Claims g.gid event t t'

checked-Processed :
    (now : ℕ) (name : Text) (event : AuthenticatedEvent) (t : Tables)
    (response : Option EphemeralEvent) (t' : Tables) (g : Group) (m : MlsGroup)
    → group name t ≡ ok g
    → load_group g t ≡ ok m
    → (ensure (ltb now event.expires) "expired receipt event"
        >> (ensure (event.gid == g.gid && event.epoch == m.epoch) "receipt group or epoch changed"
            >> ok (process_event g.gid event event.event t)))
      ≡ ok (response, t')
    → Processed now name event t t'
checked-Processed now name event t response t' g m found loaded h =
    let (v, fresh, h1) = >>=-eq-ok (ensure (ltb now event.expires) "expired receipt event") _ h in
    let (w, current, last) =
      >>=-eq-ok
        (ensure (event.gid == g.gid && event.epoch == m.epoch) "receipt group or epoch changed") _
        h1 in
    let in_time = ensure-true (ltb now event.expires) "expired receipt event" fresh in
    let right =
      ensure-true (event.gid == g.gid && event.epoch == m.epoch) "receipt group or epoch changed"
        current in
    let done : (process_event g.gid event event.event t).1 ≡ t' = ap_ok last in
    record {
      g = g;
      m = m;
      found = found;
      loaded = loaded;
      fresh = ground arith;
      same_group = ground arith;
      same_epoch = ground arith;
      claims = subst (Claims g.gid event t) done (event-Claims g.gid event event.event t refl);
    }

-- An event is processed only before it expires, in its own group at that group's current epoch. Then
-- no table but the claims changes, and no claim of a device about a message is lost or goes back from
-- read to delivered; a claim changes only by the event of the device whose claim it is, about a
-- message that this device has sent in the group, and then it is at least what the event says.
pub process_receipt-Processed :
    (public_key : Text) (now : ℕ) (name : Text) (event : AuthenticatedEvent) (t : Tables)
    (response : Option EphemeralEvent) (t' : Tables)
    → process_receipt public_key now name event t ≡ ok (response, t')
    → Processed now name event t t'
unfolding process_receipt
process_receipt-Processed public_key now name event t response t' h =
    let (g, found, h1) = >>=-eq-ok (group name t) _ h in
    let (m, loaded, h2) = >>=-eq-ok (load_group g t) _ h1 in
    let (u, may, h3) = >>=-eq-ok (ensure_can_send public_key t m) _ h2 in
    checked-Processed now name event t response t' g m found loaded h3
