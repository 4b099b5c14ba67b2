-- ===== src/Registry/Enroll/Spending.antt =====
-- The update that spends a token.
use epochgrid.Base.{
  ℕ, List, [], ◌∷◌, map, any, bytes_eq, nat_eq, Bool, true, false, Text, Bytes, some, ◌≡◌, ◌≢◌,
  refl, arith, All, Unique, subst, bytes_discrete,
}
use epochgrid.Registry.Tables.{User, Token}
use epochgrid.Registry.Enroll.{used_by, is_consumable, consume, count_if}

abbrev pub digest_of : Token → Bytes
digest_of t = t.digest

pub count_if-any : (p : Token → Bool) (ts : List Token) → count_if p ts ≡ 1 → any p ts ≡ true
unfolding count_if
count_if-any p [] h = absurd (ground arith)
count_if-any p (t ∷ ts) h = ground (arith, count_if-any p ts)

pub other_digests :
    (users : List User) (now : ℕ) (digest : Bytes) (ts : List Token)
    → All (λ d. digest ≢ d) (map digest_of ts)
    → any (is_consumable users now digest) ts ≡ false
other_digests users now digest [] h = refl
other_digests users now digest (t ∷ ts) h =
    ground (arith, h.0, other_digests users now digest ts h.1)

pub used_by-consume :
    (users : List User) (now : ℕ) (digest : Bytes) (key : Text) (ts : List Token)
    → Unique (map digest_of ts)
    → any (is_consumable users now digest) ts ≡ true
    → used_by digest (map (consume users now digest key) ts) ≡ some key
unfolding used_by
used_by-consume users now digest key [] u h = absurd (ground arith)
used_by-consume users now digest key (t ∷ ts) u h = elim (bytes_discrete t.digest digest) [
  | yes e ↦
      let none_later =
        other_digests users now digest ts
          (subst (λ (d : Bytes). All (λ x. d ≢ x) (map digest_of ts)) e u.0) in
      ground (arith, none_later, e)
  | no n ↦ ground (arith, n, used_by-consume users now digest key ts u.1)
]

pub consume-digest :
    (users : List User) (now : ℕ) (digest : Bytes) (key : Text) (ts : List Token)
    → map digest_of (map (consume users now digest key) ts) ≡ map digest_of ts
consume-digest users now digest key [] = refl
consume-digest users now digest key (t ∷ ts) =
    ground (arith, consume-digest users now digest key ts)
