-- ===== src/Tests/Logs.antt =====
-- The registration log: the theorems at the fixture's logs.
use mathlib.Core.List.{map}
use epochgrid.Base.{
  ℕ, ◌+◌, Bool, List, [], ◌∷◌, take, ◌==◌, nat_eq, if◌then◌else◌, Bytes, Option, some, none, ok,
  ℕ_discrete, bytes_discrete, ◌≡◌, refl, ◌⊎◌, arith, ◌↔◌, true, false,
}
use epochgrid.Wire.{encode, decode, registered}
use epochgrid.Wire.RoundTrip.{decode-encode}
use epochgrid.Identity.{verify_signature, verify, key}
use epochgrid.Merkle.{root, hash_node, split_at}
use epochgrid.Merkle
use epochgrid.Merkle.Binding.{Collision, root_binding}
use epochgrid.Merkle.Reference.{IsTree, root_iff}
use epochgrid.Transparency
use epochgrid.Transparency.Validity.{IsValid, validate_iff}
use epochgrid.Transparency.Extension.{extends_prefix, extends-append}
use epochgrid.Transparency.Log
use epochgrid.Transparency.Log.{Bucket, append, attempt, propose}
use epochgrid.Transparency.Log.Writers.{write, here, next, Newest, Begins, Writes-Begins}
use epochgrid.Transparency.Log.Pushes.{Pushes}
use epochgrid.Tests.Fixture.{
  fixture, alice_laptop, bob_phone, one_log, two_log, directory_key, fixture_law, fixture_TakesBack,
}

alice_verifies : verify fixture alice_laptop ≡ ok tt
unfolding verify ℕ_discrete bytes_discrete
alice_verifies = refl

decode-encode_example : decode fixture (1 ∷ 1 ∷ []) ≡ ok registered
unfolding encode
decode-encode_example =
    decode-encode fixture registered (1 ∷ 1 ∷ []) (λ written h. reads written (ground (arith, h)))
      refl
  where
    reads :
        (written : Bytes)
        → written ≡ 1 ∷ 1 ∷ []
        → fixture.take_envelope written ≡ some (record { version = 1; body = registered }, [])
    reads written e = rw e (unfold bytes_discrete ℕ_discrete in refl)

one_valid : Transparency.validate fixture one_log ≡ ok tt
unfolding Transparency.validate encode Transparency.root Merkle.root Merkle.hash_leaf
    Transparency.leaf Merkle.hash_node Merkle.split_at Merkle.next_power_of_two
    Transparency.signing_bytes Transparency.distinct_identities verify_signature key ℕ_discrete
    bytes_discrete
one_valid = refl

two_valid : Transparency.validate fixture two_log ≡ ok tt
unfolding Transparency.validate encode Transparency.root Merkle.root Merkle.hash_leaf
    Transparency.leaf Merkle.hash_node Merkle.split_at Merkle.next_power_of_two
    Transparency.signing_bytes Transparency.distinct_identities verify_signature key ℕ_discrete
    bytes_discrete
two_valid = refl

two_root : root fixture (Transparency.leaf fixture) two_log.entries ≡ ok two_log.checkpoint.root
unfolding encode Merkle.root Merkle.hash_leaf Transparency.leaf Merkle.hash_node Merkle.split_at
    Merkle.next_power_of_two ℕ_discrete
two_root = refl

root_iff_example :
    root fixture (Transparency.leaf fixture) two_log.entries ≡ ok two_log.checkpoint.root
    ↔ IsTree fixture (Transparency.leaf fixture) two_log.entries two_log.checkpoint.root
root_iff_example =
    root_iff fixture (Transparency.leaf fixture) two_log.entries two_log.checkpoint.root

root_binding_example :
    Collision fixture
    ⊎ (map (Transparency.leaf fixture) two_log.entries
        ≡ map (Transparency.leaf fixture) two_log.entries)
root_binding_example =
    root_binding fixture (Transparency.leaf fixture) two_log.entries two_log.entries
      two_log.checkpoint.root refl two_root two_root

validate_iff_example : (Transparency.validate fixture two_log ≡ ok tt) ↔ IsValid fixture two_log
validate_iff_example = validate_iff fixture two_log

one_IsValid : IsValid fixture one_log
one_IsValid = (validate_iff fixture one_log).0 one_valid

extends_append_example : Transparency.extends fixture two_log one_log.checkpoint ≡ ok tt
extends_append_example =
    extends-append fixture two_log one_log (bob_phone ∷ []) one_IsValid refl refl

extends_prefix_example :
    (two_log.checkpoint.signer ≡ one_log.checkpoint.signer)
    × (Collision fixture ⊎ (take 1 two_log.entries ≡ one_log.entries))
extends_prefix_example =
    extends_prefix fixture fixture_TakesBack two_log one_log one_IsValid
      (extends-append fixture two_log one_log (bob_phone ∷ []) one_IsValid refl refl)

bob_proposed :
    attempt fixture directory_key bob_phone (1 ∷ 11 ∷ 1 ∷ []) ≡ ok (propose (1 ∷ 11 ∷ 2 ∷ []))
unfolding attempt decode Transparency.decode Transparency.signed Transparency.validate encode
    Transparency.root Merkle.root Merkle.hash_leaf Transparency.leaf Merkle.hash_node
    Merkle.split_at Merkle.next_power_of_two Transparency.signing_bytes
    Transparency.distinct_identities verify_signature key ℕ_discrete bytes_discrete
bob_proposed = refl

abbrev start : List Bytes
start = (1 ∷ 11 ∷ 1 ∷ []) ∷ []

one_read : Transparency.decode fixture (1 ∷ 11 ∷ 1 ∷ []) ≡ ok one_log
unfolding decode Transparency.decode Transparency.validate encode Transparency.root Merkle.root
    Merkle.hash_leaf Transparency.leaf Merkle.hash_node Merkle.split_at Merkle.next_power_of_two
    Transparency.signing_bytes Transparency.distinct_identities verify_signature key ℕ_discrete
    bytes_discrete
one_read = refl

one-Begins : Begins fixture (alice_laptop ∷ []) (1 ∷ 11 ∷ 1 ∷ [])
one-Begins = record { snapshot = one_log; holds = one_read; rest = []; begins = refl }

Writes-Begins_example : Newest (Begins fixture (alice_laptop ∷ [])) ((1 ∷ 11 ∷ 2 ∷ []) ∷ start)
Writes-Begins_example =
    Writes-Begins fixture directory_key fixture_law (alice_laptop ∷ []) one-Begins
      (next here (write bob_phone (1 ∷ 11 ∷ 1 ∷ []) (1 ∷ 11 ∷ 2 ∷ []) [] bob_proposed))

-- A bucket whose stream another key shares: before every read something is written there, and nothing
-- fails. Its world is the history of the key `snapshot` and the number of the other writes.
abbrev World : Type 0
World = List (ℕ × Bytes) × ℕ

abbrev read_newest : List (ℕ × Bytes) → Option (Bytes × ℕ)
read_newest [] = none
read_newest ((revision, value) ∷ older) = some (value, revision)

abbrev put : Bytes → ℕ → World → Bool × World
put bytes revision ([], others) = (false, ([], others))
put bytes revision ((n, value) ∷ older, others) =
    if n == revision
    then (true, ((n + others + 1, bytes) ∷ (n, value) ∷ older, 0))
    else (false, ((n, value) ∷ older, others))

abbrev shared : Bucket World
shared = record { entry = λ w. (ok (read_newest w.0), (w.0, w.1 + 1)); update = put }

abbrev history : World → List (ℕ × Bytes)
history w = w.0

abbrev before_bob : World
before_bob = ((4, 1 ∷ 11 ∷ 1 ∷ []) ∷ [], 2)

-- The run of the example confirms, and writes one value.
bob_appended :
    append fixture directory_key bob_phone shared before_bob
    ≡ (ok tt, ((8, 1 ∷ 11 ∷ 2 ∷ []) ∷ before_bob.0, 0))
unfolding append verify attempt decode Transparency.decode Transparency.signed Transparency.validate
    encode Transparency.root Merkle.root Merkle.hash_leaf Transparency.leaf Merkle.hash_node
    Merkle.split_at Merkle.next_power_of_two Transparency.signing_bytes
    Transparency.distinct_identities verify_signature key ℕ_discrete bytes_discrete Log.round
bob_appended = refl
