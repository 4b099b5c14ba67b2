-- ===== src/Registry/Invite/Issued.antt =====
-- What an invitation adds to the registry.
use epochgrid.Base.{
  ℕ, ◌+◌, List, [], ◌∷◌, ◌++◌, any, find, leb, nat_eq, bytes_eq, ◌&&◌, true, false, Text, Bytes,
  none, some, ok, err, String, context, ensure, ◌≡◌, ◌≤◌, refl, ap, ◌∙◌, arith, ◌⊎◌, inl, inr,
  Bool-cases, Result-cases, >>=-eq-ok,
}
use epochgrid.Wire.{Primitives, validate_id}
use epochgrid.Merkle.{hash}
use epochgrid.Capacity.{Capacity}
use epochgrid.Store.{Sqlite}
use epochgrid.Audit.Events.{reference_of}
use epochgrid.Audit.Log.{Surroundings, append}
use epochgrid.Registry.Tables.{Registry, User, Token}
use epochgrid.Registry.Enroll.{is_token}
use epochgrid.Registry.Invite.{
  Randomness, is_user, find_or_create, token_text, insert_token, record_issue, issue, invite_action,
  invite,
}

module _ (p : Primitives) where
  module _ (sql : Sqlite Registry) (capacity : Capacity) where
    -- What an invitation adds.
    pub record Issued (now : ℕ) (token : Text) (db db' : Registry) : Type 0 where
      pub row : Token
      pub digested : hash p token ≡ ok row.digest
      pub added : db'.tokens ≡ db.tokens ++ row ∷ []
      pub new_digest : any (is_token row.digest) db.tokens ≡ false
      pub unused : row.used_key ≡ none
      pub expires_soon : (now + 1 ≤ row.expires) × (row.expires ≤ now + 3600)
      pub enabled_user :
          (u : User) × (find (is_user row.user_id) db'.users ≡ some u) × (u.enabled ≡ true)
      pub devices_same :
          (db'.devices ≡ db.devices) × (db'.members ≡ db.members) × (db'.groups ≡ db.groups)

    find_or_create-same :
        (around : Surroundings) (random : Randomness) (handle : Text) (db : Registry) (id : Text)
        (db' : Registry)
        → find_or_create p around random handle db ≡ ok (id, db')
        → (db'.tokens ≡ db.tokens)
          × (db'.devices ≡ db.devices)
          × (db'.members ≡ db.members)
          × (db'.groups ≡ db.groups)
    unfolding find_or_create
    find_or_create-same around random handle db id db' h =
        (ground arith, ground arith, ground arith, ground arith)

    record_issue-same :
        (around : Surroundings) (token audit_ref : Text) (db : Registry) (t : Text) (db' : Registry)
        → record_issue p sql capacity around token audit_ref db ≡ ok (t, db')
        → (t ≡ token) × (db' ≡ record db { audit = db'.audit })
    unfolding record_issue
    record_issue-same around token audit_ref db t db' h =
        let (target, c8, h8) = >>=-eq-ok (reference_of audit_ref) _ h in
        let (done, c9, h9) = >>=-eq-ok (append around _ false db.audit) _ h8 in
        (ground arith, ground arith)

    insert_token-added :
        (t : Token) (db db' : Registry)
        → insert_token p t db ≡ ok db'
        → (db' ≡ record db { tokens = db.tokens ++ t ∷ [] })
          × (any (is_token t.digest) db.tokens ≡ false)
    unfolding insert_token
    insert_token-added t db db' h = (ground arith, ground arith)

    -- The rows that `issue` adds to those it is given.
    record Added (expires : ℕ) (user token : Text) (db db' : Registry) : Type 0 where
      digest : Bytes
      digested : hash p token ≡ ok digest
      new_digest : any (is_token digest) db.tokens ≡ false
      rows : db' ≡ record db {
        tokens =
            db.tokens
            ++ record { digest = digest; user_id = user; expires = expires; used_key = none } ∷ [];
        audit = db'.audit;
      }

    issue-Added :
        (around : Surroundings) (random : Randomness) (expires : ℕ) (user audit_ref : Text)
        (db : Registry) (token : Text) (db' : Registry)
        → issue p sql capacity around random expires user audit_ref db ≡ ok (token, db')
        → Added expires user token db db'
    unfolding issue
    issue-Added around random expires user audit_ref db token db' h =
        let (t, c5, h5) = >>=-eq-ok (token_text p random user) _ h in
        let (digest, c6, h6) = >>=-eq-ok (hash p t) _ h5 in
        let (issued, c7, h7) =
          >>=-eq-ok
            (insert_token p
              (record { digest = digest; user_id = user; expires = expires; used_key = none }) db)
            _ h6 in
        let (same, rows) = record_issue-same around t audit_ref issued token db' h7 in
        let (added, new) = insert_token-added _ db issued c7 in
        record {
          digest = digest;
          digested = ap (hash p) same ∙ c6;
          new_digest = new;
          rows = rows ∙ ap (λ (r : Registry). record r { audit = db'.audit }) added;
        }

    Added-Issued :
        (now ttl : ℕ) (token user : Text) (u : User) (db mid db' : Registry)
        → (1 ≤ ttl) × (ttl ≤ 3600)
        → find (is_user user) mid.users ≡ some u
        → u.enabled ≡ true
        → (mid.tokens ≡ db.tokens)
          × (mid.devices ≡ db.devices)
          × (mid.members ≡ db.members)
          × (mid.groups ≡ db.groups)
        → Added (now + ttl) user token mid db'
        → Issued now token db db'
    Added-Issued now ttl token user u db mid db' range found enabled (ts, ds, ms, gs) x = record {
      row = record { digest = x.digest; user_id = user; expires = now + ttl; used_key = none };
      digested = x.digested;
      added =
          ap (λ (r : Registry). r.tokens) x.rows
          ∙ ap
              (λ (l : List Token).
                l
                ++ record {
                  digest = x.digest;
                  user_id = user;
                  expires = now + ttl;
                  used_key = none;
                }
                  ∷ [])
              ts;
      new_digest = rw⁻¹ ts x.new_digest;
      unused = refl;
      expires_soon = omega (arith, range);
      enabled_user =
          (u, ap (λ (r : Registry). find (is_user user) r.users) x.rows ∙ found, enabled);
      devices_same = (
        ap (λ (r : Registry). r.devices) x.rows ∙ ds,
        ap (λ (r : Registry). r.members) x.rows ∙ ms,
        ap (λ (r : Registry). r.groups) x.rows ∙ gs,
      );
    }

    invite_action-Issued :
        (around : Surroundings) (random : Randomness) (now : ℕ) (handle : Text) (ttl : ℕ)
        (db : Registry) (token : Text) (db' : Registry)
        → invite_action p sql capacity around random now handle ttl db ≡ ok (token, db')
        → Issued now token db db'
    unfolding invite_action
    invite_action-Issued around random now handle ttl db token db' h =
        let (u0, c0, h0) = >>=-eq-ok (validate_id handle) _ h in
        let (u1, c1, h1) =
          >>=-eq-ok
            (ensure (leb 1 ttl && leb ttl 3600) "enrollment lifetime must be 1–3600 seconds") _
            h0 in
        let (found, c2, h2) = >>=-eq-ok (find_or_create p around random handle db) _ h1 in
        let (row, c3, h3) =
          >>=-eq-ok (context (find (is_user found.0) found.1.users) "no row") _ h2 in
        let (u4, c4, h4) = >>=-eq-ok (ensure row.enabled "user disabled") _ h3 in
        let x = issue-Added around random (now + ttl) found.0 row.audit_ref found.1 token db' h4 in
        let (ts, ds, ms, gs) = find_or_create-same around random handle db found.0 found.1 c2 in
        Added-Issued now ttl token found.0 row db found.1 db' (ground arith) (ground arith)
          (ground arith) (ts, ds, ms, gs) x

    -- An invitation fails and leaves every table, or adds one token under a digest that no token had,
    -- unused, of an enabled user, that expires within an hour; devices and groups stay as they are.
    pub invite_lem :
        (around : Surroundings) (random : Randomness) (now : ℕ) (handle : Text) (ttl : ℕ)
        (db : Registry)
        → ((e : String) × (invite p sql capacity around random now handle ttl db ≡ (err e, db)))
          ⊎ (record {
            token : Text;
            db' : Registry;
            result : invite p sql capacity around random now handle ttl db ≡ (ok token, db');
            issued : Issued now token db db';
          })
    unfolding invite
    invite_lem around random now handle ttl db =
        elim (Result-cases (invite_action p sql capacity around random now handle ttl db)) [
          | inr (e, k) ↦ inl (e, rw (k, invite))
          | inl ((token, after), k) ↦ elim (Bool-cases (sql.commits after)) [
            | inr c ↦ inl ("commit", rw (k, invite, c))
            | inl c ↦ inr (record {
              token = token;
              db' = after;
              result = rw (k, invite, c);
              issued = invite_action-Issued around random now handle ttl db token after k;
            })
          ]
        ]
