-- ===== src/Client/Rekey/Commits.antt =====
-- Who may commit to a group, and whom the coordinator's election of rekey.rs chooses.
use epochgrid.Base.{
  ℕ, ◌+◌, ◌≤◌, List, [], ◌∷◌, length, find, all, ◌==◌, nat_eq, bytes_eq, ==→≡, ◌||◌, Bool, true,
  false, Option, none, some, Result, ok, context, ensure, ◌>>◌, >>=-eq-ok, Unique, Bool-cases, ◌≡◌,
  refl, sym, ◌⊎◌, inl, inr, arith,
}
use epochgrid.Base.Members.{In, pigeonhole}
use epochgrid.Revocation.Local.{revoked_mls_key}
use epochgrid.Client.Tables.{Tables, Group, MlsGroup, Leaf}
use epochgrid.Client.Library.{StagedCommit}
use epochgrid.Client.Groups.{load_group}
use epochgrid.Client.Rekey.{
  invalid_message, revoked_leaves, stored_coordinator, contains, coordinator, same_leaf,
  before_cutoff, is_leader, is_at, removes_revoked, check_author, validate_commit_author,
}

contains-In : (ns : List ℕ) (n : ℕ) → contains ns n ≡ true → In n ns
contains-In [] n h = absurd (cc)
contains-In (m ∷ ns) n h = elim (Bool-cases (m == n)) [
  | inl e ↦ inl (sym (==→≡ m n e))
  | inr e ↦ inr (contains-In ns n (rw e at h))
]

In-contains : (ns : List ℕ) (n : ℕ) → In n ns → contains ns n ≡ true
In-contains [] n i = absurd i
In-contains (m ∷ ns) n (inl q) = ground (arith, q)
In-contains (m ∷ ns) n (inr i) = ground (arith, In-contains ns n i)

all-In : (p : ℕ → Bool) (ns : List ℕ) (n : ℕ) → all p ns ≡ true → In n ns → p n ≡ true
all-In p [] n h i = absurd i
all-In p (m ∷ ns) n h (inl q) = rw q (ground arith)
all-In p (m ∷ ns) n h (inr i) = all-In p ns n (ground arith) i

-- What a Commit that is let through is: it comes from a member, which keeps its leaf; it only adds
-- and removes; a revoked member's stands before its cutoff; and it is the coordinator's, or it removes the
-- revoked leaves, all of them, and does nothing else, and the elected coordinator sent it.
pub record Permitted (t : Tables) (g : MlsGroup) (index : ℕ) (c : StagedCommit) (sequence : ℕ)
    : Type 0 where
  pub sender : Leaf
  pub is_member : find (λ (l : Leaf). l.index == index) g.members ≡ some sender
  pub keeps_leaf : same_leaf sender c.update_path_leaf ≡ true
  pub adds_and_removes : c.queued_proposals ≡ c.add_proposals + length c.removed
  pub cutoff : (n : ℕ) → revoked_mls_key t.revoked sender.signature_key ≡ some n → sequence ≤ n
  pub author :
      (is_leader g (stored_coordinator t g) index ≡ true)
      ⊎ ((coordinator t g ≡ some index)
          × (c.add_proposals ≡ 0)
          × ((n : ℕ) → In n c.removed → In n (revoked_leaves t g))
          × ((n : ℕ) → In n (revoked_leaves t g) → In n c.removed))

ensure-true : (b : Bool) → ensure b invalid_message ≡ ok tt → b ≡ true
ensure-true true h = refl
ensure-true false h = cc

is_at-some : (o : Option ℕ) (n : ℕ) → is_at o n ≡ true → o ≡ some n
unfolding is_at
is_at-some none n h = absurd (cc)
is_at-some (some m) n h = rw (==→≡ m n h) refl

cutoff_of :
    (sequence n : ℕ) (o : Option ℕ) → before_cutoff sequence o ≡ true → o ≡ some n → sequence ≤ n
unfolding before_cutoff
cutoff_of sequence n none h e = absurd (cc)
cutoff_of sequence n (some m) h e = ground arith

removed-exactly :
    (t : Tables) (g : MlsGroup) (index : ℕ) (c : StagedCommit)
    → Unique (revoked_leaves t g)
    → c.queued_proposals ≡ c.add_proposals + length c.removed
    → removes_revoked t g index c ≡ true
    → (coordinator t g ≡ some index)
      × (c.add_proposals ≡ 0)
      × ((n : ℕ) → In n c.removed → In n (revoked_leaves t g))
      × ((n : ℕ) → In n (revoked_leaves t g) → In n c.removed)
unfolding removes_revoked
removed-exactly t g index c u q h =
    let every : all (contains c.removed) (revoked_leaves t g) ≡ true = ground arith in
    let forth = λ (n : ℕ) (i : In n (revoked_leaves t g)).
      contains-In c.removed n (all-In (contains c.removed) (revoked_leaves t g) n every i) in
    (
      is_at-some (coordinator t g) index (ground arith),
      ground arith,
      pigeonhole (revoked_leaves t g) c.removed u (ground arith) forth,
      forth,
    )

first-check :
    (test : Bool) (rest : Result (Unit {0}))
    → (ensure test invalid_message >> rest) ≡ ok tt
    → (test ≡ true) × (rest ≡ ok tt)
first-check true rest h = (refl, h)
first-check false rest h = cc

check_author-Permitted :
    (t : Tables) (g : MlsGroup) (index : ℕ) (c : StagedCommit) (sequence : ℕ) (sender : Leaf)
    → find (λ (l : Leaf). l.index == index) g.members ≡ some sender
    → Unique (revoked_leaves t g)
    → check_author t g index c sequence sender ≡ ok tt
    → Permitted t g index c sequence
unfolding check_author
check_author-Permitted t g index c sequence sender member u h =
    let (leaf, h1) = first-check (same_leaf sender c.update_path_leaf) _ h in
    let (counts, h2) =
      first-check (c.queued_proposals == c.add_proposals + length c.removed) _ h1 in
    let (before, h3) =
      first-check (before_cutoff sequence (revoked_mls_key t.revoked sender.signature_key)) _ h2 in
    let counted : c.queued_proposals ≡ c.add_proposals + length c.removed =
      ==→≡ c.queued_proposals (c.add_proposals + length c.removed) counts in
    let either =
      ensure-true (is_leader g (stored_coordinator t g) index || removes_revoked t g index c) h3 in
    record {
      sender = sender;
      is_member = member;
      keeps_leaf = leaf;
      adds_and_removes = counted;
      cutoff =
          λ n e. cutoff_of sequence n (revoked_mls_key t.revoked sender.signature_key) before e;
      author = elim (Bool-cases (is_leader g (stored_coordinator t g) index)) [
        | inl e ↦ inl e
        | inr e ↦ inr (removed-exactly t g index c u counted (rw e at either))
      ];
    }

context-some {ℓ} :
    {A : Type ℓ} (o : Option A) (a : A) → context o invalid_message ≡ ok a → o ≡ some a
context-some none a h = cc
context-some (some b) a h = cc

-- Where the revoked leaves have distinct indexes, a Commit is let through only if a member of the
-- group sent it, which keeps its key and credential; it only adds and removes members; a revoked
-- member's stands at or before its cutoff in the stream; and it is the stored coordinator's, or it
-- is the elected coordinator's, adds nobody, and removes exactly the leaves of revoked devices.
pub validate_commit_author-Permitted :
    (descriptor : Group) (index : ℕ) (c : StagedCommit) (sequence : ℕ) (t : Tables) (g : MlsGroup)
    → load_group descriptor t ≡ ok g
    → Unique (revoked_leaves t g)
    → validate_commit_author descriptor index c sequence t ≡ ok tt
    → Permitted t g index c sequence
unfolding validate_commit_author
validate_commit_author-Permitted descriptor index c sequence t g loaded u h =
    let (sender, m, checked) =
      >>=-eq-ok (context (find (λ (l : Leaf). l.index == index) g.members) invalid_message) _
        (rw loaded at h) in
    check_author-Permitted t g index c sequence sender
      (context-some (find (λ (l : Leaf). l.index == index) g.members) sender m) u checked
