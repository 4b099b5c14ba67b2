-- ===== src/Tests/Withheld.antt =====
-- What rekey.rs holds back at a concrete outbox.
use epochgrid.Base.{
  ℕ, [], ◌∷◌, ◌++◌, Bool, true, false, text, String, ok, ◌≡◌, refl, ℕ_discrete, bytes_discrete,
}
use epochgrid.Revocation.Local.{revoked_mls_key}
use epochgrid.Client.Tables.{Tables, Outgoing}
use epochgrid.Client.Groups.{load_group, subject_of}
use epochgrid.Client.Rekey.{revoked_leaves, block_subject, block_groups, block_revoked_outbox}
use epochgrid.Client.Rekey.Blocked.{Holds, block_revoked_outbox-Holds}
use epochgrid.Tests.Deliveries.{eve_lost}

abbrev outgoing : ℕ → String → Bool → Outgoing
outgoing id kind sent = record {
  id = id;
  subject = text "epochgrid.v1.group.g1." ++ text kind;
  payload = id ∷ [];
  sent = sent;
}

-- One message is sent, one waits, and there is a Commit.
abbrev before : Tables
before = record eve_lost {
  outbox =
      outgoing 1 "message" true ∷ outgoing 2 "message" false ∷ outgoing 3 "handshake" false ∷ [];
}

abbrev after : Tables
after = record before { blocked = 2 ∷ [] }

held_back : block_revoked_outbox before ≡ ok after
unfolding block_revoked_outbox block_groups block_subject load_group subject_of revoked_leaves
    revoked_mls_key bytes_discrete ℕ_discrete
held_back = refl

block_revoked_outbox-Holds_example : Holds before.groups before after
block_revoked_outbox-Holds_example = block_revoked_outbox-Holds before after held_back
