-- ===== src/Trust/Carries.antt =====
-- What stays true of the trust tables from one state to a later one.
use epochgrid.Base.{
  List, [], ◌∷◌, ◌++◌, find, bytes_eq, Text, some, ◌≡◌, refl, ◌∙◌, inl, inr, arith, if◌then◌else◌,
  find-append, find-eq-some, Bool-cases,
}
use epochgrid.Trust.Table.{
  changed, trust_state_eq, DeviceTrust, Directory, Tables, is_row, device_trust, update_rows,
}

-- A row lives on with its first fingerprint, and once changed stays changed.
pub record RowLives (rows : List DeviceTrust) (user device : Text) (r : DeviceTrust) : Type 0 where
  pub now : DeviceTrust
  pub found : device_trust user device rows ≡ some now
  pub same_fingerprint : now.fingerprint ≡ r.fingerprint
  pub still_changed : r.state ≡ changed → now.state ≡ changed

pub record Carries (t t' : Tables) : Type 0 where
  pub rows :
      (user device : Text) (r : DeviceTrust)
      → device_trust user device t.devices ≡ some r
      → RowLives t'.devices user device r
  pub signer :
      (d : Directory)
      → t.directory ≡ some d
      → (d' : Directory) × (t'.directory ≡ some d') × (d'.signer ≡ d.signer)

pub Carries-refl : (t : Tables) → Carries t t
Carries-refl t = record {
  rows = λ u d r h. record { now = r; found = h; same_fingerprint = refl; still_changed = λ c. c };
  signer = λ d h. (d, h, refl);
}

pub Carries-trans : (a b c : Tables) → Carries a b → Carries b c → Carries a c
Carries-trans a b c f g = record {
  rows = λ u d r h.
      let x = f.rows u d r h in
      let y = g.rows u d x.now x.found in
      record {
        now = y.now;
        found = y.found;
        same_fingerprint = y.same_fingerprint ∙ x.same_fingerprint;
        still_changed = λ k. y.still_changed (x.still_changed k);
      };
  signer = λ d h.
      let (d', e, s) = f.signer d h in let (d'', e', s') = g.signer d' e in (d'', e', s' ∙ s);
}

-- The update of one row, seen at any key.
abbrev pub updated : Text → Text → (DeviceTrust → DeviceTrust) → DeviceTrust → DeviceTrust
updated user device f r = if is_row user device r then f r else r

pub device_trust-update_rows :
    (user device u d : Text) (f : DeviceTrust → DeviceTrust) (rows : List DeviceTrust)
    (r : DeviceTrust)
    → ((x : DeviceTrust) → ((f x).user ≡ x.user) × ((f x).device ≡ x.device))
    → device_trust u d rows ≡ some r
    → device_trust u d (update_rows user device f rows) ≡ some (updated user device f r)
unfolding device_trust update_rows
device_trust-update_rows user device u d f [] r keeps h = absurd (ground arith)
device_trust-update_rows user device u d f (x ∷ rows) r keeps h = ground (
  arith,
  keeps x,
  λ (e : find (is_row u d) rows ≡ some r).
      device_trust-update_rows user device u d f rows r keeps e,
)

pub device_trust-is_row :
    (u d : Text) (rows : List DeviceTrust) (r : DeviceTrust)
    → device_trust u d rows ≡ some r
    → (r.user ≡ u) × (r.device ≡ d)
unfolding device_trust
device_trust-is_row u d rows r h =
    let t = find-eq-some (is_row u d) rows r h in (ground arith, ground arith)

-- An update of one row that keeps its key and its fingerprint, and does not clear a change.
pub update-Carries :
    (user device : Text) (f : DeviceTrust → DeviceTrust) (t : Tables)
    → ((x : DeviceTrust) → ((f x).user ≡ x.user) × ((f x).device ≡ x.device))
    → ((x : DeviceTrust) → (f x).fingerprint ≡ x.fingerprint)
    → ((x : DeviceTrust)
        → device_trust user device t.devices ≡ some x
        → x.state ≡ changed
        → (f x).state ≡ changed)
    → Carries t (record t { devices = update_rows user device f t.devices })
update-Carries user device f t keys prints changes = record {
  rows = λ u d r h.
      let (eu, ed) = device_trust-is_row u d t.devices r h in
      record {
        now = updated user device f r;
        found = device_trust-update_rows user device u d f t.devices r keys h;
        same_fingerprint = ground (arith, prints r);
        still_changed = λ c. elim (Bool-cases (is_row user device r)) [
          | inr e ↦ ground arith
          | inl e ↦
              let eu' : u ≡ user = ground arith in
              let ed' : d ≡ device = ground arith in
              let here : device_trust user device t.devices ≡ some r = cc (eu', ed', h) in
              ground (arith, changes r here c)
        ];
      };
  signer = λ d h. (d, h, refl);
}

pub append-Carries :
    (x : DeviceTrust) (t : Tables) → Carries t (record t { devices = t.devices ++ x ∷ [] })
append-Carries x t = record {
  rows = λ u d r h. record {
    now = r;
    found =
        unfold device_trust in
        find-append (is_row u d) t.devices (x ∷ []) r (unfold device_trust in h);
    same_fingerprint = refl;
    still_changed = λ c. c;
  };
  signer = λ d h. (d, h, refl);
}
