-- ===== src/Revocation/Append.antt =====
-- `append` of revocation.rs: a revocation is published by compare-and-swap on the key `revocations`, in
-- at most four rounds.
use epochgrid.Base.{
  ℕ, zero, suc, List, [], ◌∷◌, ◌++◌, any, ◌==◌, nat_eq, bytes_eq, Bool, true, Text, Bytes, Option,
  none, some, Result, ok, err, ◌>>=◌, ◌>>◌, if◌then◌else◌, ◌≡◌, arith, inl, inr, Bool-cases,
  Option-cases, Result-cases, >>=-eq-ok, any-snoc,
}
use epochgrid.Wire.{
  Body, RevokeRequest, Revocation, RevocationLog, Snapshot, Primitives, KeyPair, revocation_log,
  encode,
}
use epochgrid.Wire
use epochgrid.Transparency.Log.{Bucket}
use epochgrid.Revocation.Requests.{validate_request}
use epochgrid.Revocation.Logs.{signed, validate}

pub data Attempt : Type 0 where
  already : RevocationLog → Attempt
  propose : RevocationLog → Bytes → Attempt

abbrev pub is_device : Text → Revocation → Bool
is_device nkey r = r.request.nkey == nkey

abbrev pub expect_log : Body → Result RevocationLog
expect_log (revocation_log log) = ok log
expect_log _ = err "invalid revocation log"

module _ (p : Primitives) (registrations : Snapshot) (pair : KeyPair) (request : RevokeRequest)
    (cutoff : ℕ) where
  unfoldable pub propose_log : List Revocation → Result Attempt
  propose_log entries = do
    next ← signed p (entries ++ record { request = request; chat_cutoff = cutoff } ∷ []) pair
    validate p next registrations
    bytes ← encode p (revocation_log next)
    ok (propose next bytes)

  -- The body of the loop between the read and the update.
  unfoldable pub attempt : Bytes → Result Attempt
  unfolding propose_log
  attempt value = do
    body ← Wire.decode p value
    log ← expect_log body
    validate p log registrations
    validate_request p request registrations log.entries
    if any (is_device request.nkey) log.entries then ok (already log) else propose_log log.entries

  module _ {W : Type 0} (bucket : Bucket W) where
    -- One round: `none` asks for another.
    unfoldable pub try_update : Attempt → ℕ → W → Option (Result RevocationLog) × W
    try_update (already log) revision w = (some (ok log), w)
    try_update (propose log bytes) revision w =
        let (confirmed, w') = bucket.update bytes revision w in
        (if confirmed then some (ok log) else none, w')

    unfoldable pub after_read : Result (Option (Bytes × ℕ)) → W → Option (Result RevocationLog) × W
    unfolding try_update
    after_read (err e) w = (some (err e), w)
    after_read (ok none) w = (some (err "revocation log missing"), w)
    after_read (ok (some (value, revision))) w = elim (attempt value) [
      | err e ↦ (some (err e), w)
      | ok a ↦ try_update a revision w
    ]

    unfoldable pub rounds : ℕ → W → Result RevocationLog × W
    unfolding after_read
    rounds zero w = (err "revocation could not be confirmed; retry", w)
    rounds (suc n) w =
        let (answer, w') = bucket.entry w in
        let (result, w'') = after_read answer w' in
        elim result [ some r ↦ (r, w'') | none ↦ rounds n w'' ]

    unfoldable pub append : W → Result RevocationLog × W
    unfolding rounds
    append w = rounds 4 w

  -- A log that is returned is valid and covers the request.
  pub record Covers (log : RevocationLog) : Type 0 where
    pub valid : validate p log registrations ≡ ok tt
    pub covered : any (is_device request.nkey) log.entries ≡ true

  abbrev log_of : Attempt → RevocationLog
  log_of (already log) = log
  log_of (propose log bytes) = log

  signed-entries :
      (entries : List Revocation) (log : RevocationLog)
      → signed p entries pair ≡ ok log
      → log.entries ≡ entries
  unfolding signed
  signed-entries entries log h = ground arith

  propose_log-Covers :
      (entries : List Revocation) (a : Attempt) → propose_log entries ≡ ok a → Covers (log_of a)
  unfolding propose_log
  propose_log-Covers entries a h =
      let (next, s, h1) =
        >>=-eq-ok
          (signed p (entries ++ record { request = request; chat_cutoff = cutoff } ∷ []) pair) _
          h in
      let (u, v, h2) = >>=-eq-ok (validate p next registrations) _ h1 in
      let (bytes, b, h3) = >>=-eq-ok (encode p (revocation_log next)) _ h2 in
      let same : a ≡ propose next bytes = ground arith in
      rw same (record {
        valid = v;
        covered = rw (signed-entries _ next s) (
            any-snoc (is_device request.nkey) entries
              (record { request = request; chat_cutoff = cutoff }) (ground arith));
      })

  attempt-Covers : (value : Bytes) (a : Attempt) → attempt value ≡ ok a → Covers (log_of a)
  unfolding attempt
  attempt-Covers value a h =
      let (body, d, h1) = >>=-eq-ok (Wire.decode p value) _ h in
      let (log, e, h2) = >>=-eq-ok (expect_log body) _ h1 in
      let (u, v, h3) = >>=-eq-ok (validate p log registrations) _ h2 in
      let (u', q, h4) = >>=-eq-ok (validate_request p request registrations log.entries) _ h3 in
      elim (Bool-cases (any (is_device request.nkey) log.entries)) [
        | inl t ↦
            (let same : a ≡ already log = ground arith in
              rw same (record { valid = v; covered = t }))
        | inr f ↦ propose_log-Covers log.entries a (ground arith)
      ]

  module _ {W : Type 0} (bucket : Bucket W) where
    try_update-Covers :
        (a : Attempt) (revision : ℕ) (w : W) (log : RevocationLog)
        → Covers (log_of a)
        → (try_update bucket a revision w).0 ≡ some (ok log)
        → Covers log
    unfolding try_update
    try_update-Covers (already l) revision w log c h =
        (let same : log ≡ l = ground arith in rw same c)
    try_update-Covers (propose l bytes) revision w log c h =
        (let same : log ≡ l = ground arith in rw same c)

    after_read-Covers :
        (answer : Result (Option (Bytes × ℕ))) (w : W) (log : RevocationLog)
        → (after_read bucket answer w).0 ≡ some (ok log)
        → Covers log
    unfolding after_read
    after_read-Covers (err e) w log h = absurd (ground arith)
    after_read-Covers (ok none) w log h = absurd (ground arith)
    after_read-Covers (ok (some (value, revision))) w log h = elim (Result-cases (attempt value)) [
      | inr (e, k) ↦ absurd (ground arith)
      | inl (a, k) ↦ try_update-Covers a revision w log (attempt-Covers value a k) (ground arith)
    ]

    rounds-Covers :
        (n : ℕ) (w : W) (log : RevocationLog) → (rounds bucket n w).0 ≡ ok log → Covers log
    unfolding rounds
    rounds-Covers zero w log h = absurd (ground arith)
    rounds-Covers (suc n) w log h =
        let r = after_read bucket (bucket.entry w).0 (bucket.entry w).1 in
        elim (Option-cases r.0) [
          | inl k ↦ rounds-Covers n r.1 log (ground arith)
          | inr (x, k) ↦ after_read-Covers (bucket.entry w).0 (bucket.entry w).1 log (ground arith)
        ]

    -- Whatever the bucket and its other writers do, a log that `append` returns is valid against the
    -- registrations and revokes the device of the request.
    pub append-Covers : (w : W) (log : RevocationLog) → (append bucket w).0 ≡ ok log → Covers log
    unfolding append
    append-Covers w log h = rounds-Covers 4 w log h
