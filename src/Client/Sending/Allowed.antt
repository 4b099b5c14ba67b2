-- ===== src/Client/Sending/Allowed.antt =====
-- Whether a device may send to a group, as messaging.rs asks it.
use epochgrid.Base.{
  ℕ, List, [], ◌∷◌, nat_eq, bytes_eq, ◌&&◌, not, Bool, true, false, Text, ok, ensure, >>=-eq-ok,
  is_empty, String, ◌≡◌, refl, subst, arith,
}
use epochgrid.Revocation.Local.{is_revoked}
use epochgrid.Client.Tables.{Tables, Group, MlsGroup}
use epochgrid.Client.Groups.{load_group}
use epochgrid.Client.Rekey.{ensure_can_send, revoked_leaves}

ensure-true : (b : Bool) (message : String) → ensure b message ≡ ok tt → b ≡ true
ensure-true true message h = refl
ensure-true false message h = cc

-- A device that may send to a group, and the group may be sent to.
pub record MaySend (public_key : Text) (t : Tables) (g : MlsGroup) : Type 0 where
  pub own : is_revoked t.revoked public_key ≡ false
  pub active : g.is_active ≡ true
  pub current : revoked_leaves t g ≡ []

none_left : (ns : List ℕ) → is_empty ns ≡ true → ns ≡ []
none_left [] h = refl
none_left (n ∷ ns) h = absurd (cc)

pub ensure_can_send-MaySend :
    (public_key : Text) (t : Tables) (g : MlsGroup)
    → ensure_can_send public_key t g ≡ ok tt
    → MaySend public_key t g
unfolding ensure_can_send
ensure_can_send-MaySend public_key t g h =
    let (u, a, h1) =
      >>=-eq-ok
        (ensure (not (is_revoked t.revoked public_key) && g.is_active)
          "this device is revoked or removed from the group")
        _ h in
    let both =
      ensure-true (not (is_revoked t.revoked public_key) && g.is_active)
        "this device is revoked or removed from the group" a in
    record {
      own = ground arith;
      active = ground arith;
      current = none_left (revoked_leaves t g) (
          ensure-true (is_empty (revoked_leaves t g))
            "group rekey pending; its active coordinator must sync before sending" h1);
    }

-- The attachments have no part in that.
pub MaySend-before :
    (public_key : Text) (t indexed : Tables) (g : MlsGroup)
    → indexed ≡ record t { attachments = indexed.attachments }
    → MaySend public_key indexed g
    → MaySend public_key t g
unfolding revoked_leaves
MaySend-before public_key t indexed g e h =
    let k = subst (λ x. MaySend public_key x g) e h in
    record { own = k.own; active = k.active; current = k.current }

pub load_group_before :
    (descriptor : Group) (t indexed : Tables) (g : MlsGroup)
    → indexed ≡ record t { attachments = indexed.attachments }
    → load_group descriptor indexed ≡ ok g
    → load_group descriptor t ≡ ok g
unfolding load_group
load_group_before descriptor t indexed g e h = subst (λ x. load_group descriptor x ≡ ok g) e h
