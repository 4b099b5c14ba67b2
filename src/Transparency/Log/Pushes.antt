-- ===== src/Transparency/Log/Pushes.antt =====
-- The bucket of transparency.rs: the writes under one key, and what NATS documents of it.
use epochgrid.Base.{
  ℕ, List, [], ◌∷◌, bytes_eq, false, Bytes, some, ok, ◌≡◌, ◌<◌, refl, ◌⊎◌, inl, inr, arith, ap,
}
use epochgrid.Wire.{DeviceRegistration, Primitives, KeyPair}
use epochgrid.Transparency.Log.{propose, attempt, Bucket}
use epochgrid.Transparency.Log.Writers.{Writes, here, next, write}

-- One write of a log, on the value that its writer has read.
pub data Push (p : Primitives) (pair : KeyPair) : List (ℕ × Bytes) → List (ℕ × Bytes) → Type 0 where
  push :
      (r : DeviceRegistration) (n : ℕ) (value : Bytes) (m : ℕ) (bytes : Bytes)
      (older : List (ℕ × Bytes))
      → n < m
      → attempt p pair r value ≡ ok (propose bytes)
      → Push p pair ((n, value) ∷ older) ((m, bytes) ∷ (n, value) ∷ older)

abbrev revision_of : List (ℕ × Bytes) → ℕ
revision_of [] = 0
revision_of ((n, value) ∷ rest) = n

-- The values of the key `snapshot` with their revisions, newest first. A revision is the place of a
-- write in the bucket's stream, which other keys share: under one key it only increases.
pub data Pushes (p : Primitives) (pair : KeyPair) (start : List (ℕ × Bytes))
    : List (ℕ × Bytes) → Type 0 where
  unwritten : Pushes p pair start start
  written :
      {h h' : List (ℕ × Bytes)} → Pushes p pair start h → Push p pair h h' → Pushes p pair start h'

abbrev pub values : List (ℕ × Bytes) → List Bytes
values [] = []
values ((revision, value) ∷ rest) = value ∷ values rest

pub Pushes-Writes :
    {p : Primitives} {pair : KeyPair} {a b : List (ℕ × Bytes)}
    → Pushes p pair a b
    → Writes p pair (values a) (values b)
Pushes-Writes unwritten = here
Pushes-Writes (written w (push r n value m bytes older lt a)) =
    next (Pushes-Writes w) (write r value bytes (values older) a)

-- What NATS documents of a key-value bucket: a read returns the key's newest value with its revision;
-- an update is written, under a greater revision, only where the key's newest revision is the one that
-- it names; and a confirmed update was written. An update that is not confirmed may have been written
-- or not. Between these, the other writers write, to this key and to others.
pub record Contract (p : Primitives) (pair : KeyPair) {W : Type 0} (bucket : Bucket W)
    (history : W → List (ℕ × Bytes)) : Type 0 where
  pub reads : (w : W) → Pushes p pair (history w) (history (bucket.entry w).1)
  pub newest :
      (w : W) (value : Bytes) (revision : ℕ)
      → (bucket.entry w).0 ≡ ok (some (value, revision))
      → (older : List (ℕ × Bytes)) × (history (bucket.entry w).1 ≡ (revision, value) ∷ older)
  pub updates :
      (bytes : Bytes) (revision : ℕ) (w : W)
      → (h : List (ℕ × Bytes)) × Pushes p pair (history w) h
        × ((record {
          value : Bytes;
          older : List (ℕ × Bytes);
          number : ℕ;
          named : h ≡ (revision, value) ∷ older;
          greater : revision < number;
          put : history (bucket.update bytes revision w).1 ≡ (number, bytes) ∷ h;
        })
            ⊎ ((bucket.update bytes revision w).0 ≡ false)
              × (history (bucket.update bytes revision w).1 ≡ h))

abbrev Reaches : ℕ → List (ℕ × Bytes) → Type 0
Reaches n [] = ⊥
Reaches n ((m, value) ∷ older) = n < m

-- A key that has been written since has a greater revision.
Pushes-revision :
    {p : Primitives} {pair : KeyPair} (n : ℕ) (value : Bytes) (older : List (ℕ × Bytes))
    {b : List (ℕ × Bytes)}
    → Pushes p pair ((n, value) ∷ older) b
    → ((n, value) ∷ older ≡ b) ⊎ Reaches n b
Pushes-revision n value older unwritten = inl refl
Pushes-revision n value older (written w (push r m v k bytes rest lt a)) =
    elim (Pushes-revision n value older w) [
      | inl e ↦ inr (omega (arith, lt, first e))
      | inr h ↦ inr (omega (arith, lt, h))
    ]
  where
    first : {a b : List (ℕ × Bytes)} → a ≡ b → revision_of a ≡ revision_of b
    first e = ap revision_of e

pub Pushes-same :
    {p : Primitives} {pair : KeyPair} (n : ℕ) (value : Bytes) (older : List (ℕ × Bytes)) (v : Bytes)
    (rest : List (ℕ × Bytes))
    → Pushes p pair ((n, value) ∷ older) ((n, v) ∷ rest)
    → (n, value) ∷ older ≡ (n, v) ∷ rest
Pushes-same n value older v rest w = elim (Pushes-revision n value older w) [
  | inl q ↦ q
  | inr h ↦ absurd (omega (arith, h))
]
