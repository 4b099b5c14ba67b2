-- ===== src/Conversation/Ordered.antt =====
-- SQLite's order of texts, and Rust's maps and sets of them in that order (`BTreeMap`, `BTreeSet`).
use epochgrid.Base.{
  List, [], ◌∷◌, ◌++◌, ltb, ◌==◌, nat_eq, bytes_eq, ◌&&◌, ◌||◌, Bool, true, false, Text, Option,
  none, some, if◌then◌else◌, ◌≡◌, refl, arith, text,
}

abbrev pub text_leb : Text → Text → Bool
text_leb [] t = true
text_leb (c ∷ s) [] = false
text_leb (c ∷ s) (d ∷ t) = ltb c d || (c == d && text_leb s t)

abbrev pub pair_leb : Text × Text → Text × Text → Bool
pair_leb (a, b) (c, d) = if a == c then text_leb b d else text_leb a c

abbrev pub pair_eq : Text × Text → Text × Text → Bool
pair_eq (a, b) (c, d) = a == c && b == d

module _ {V : Type 0} where
  -- `BTreeMap::insert`
  unfoldable pub insert_pair : Text × Text → V → List ((Text × Text) × V) → List ((Text × Text) × V)
  insert_pair k v [] = (k, v) ∷ []
  insert_pair k v ((j, w) ∷ rest) =
      let later = insert_pair k v rest in
      if pair_eq j k
      then (j, v) ∷ rest
      else if pair_leb k j
      then (k, v) ∷ (j, w) ∷ rest
      else (j, w) ∷ later

-- `BTreeSet::insert`
unfoldable pub insert_text : Text → List Text → List Text
insert_text t [] = t ∷ []
insert_text t (s ∷ rest) =
    let later = insert_text t rest in
    if s == t then s ∷ rest else if text_leb t s then t ∷ s ∷ rest else s ∷ later

-- `entry(key).or_default().insert(text)` of a map to sets.
unfoldable pub add_under : Text → Text → List (Text × List Text) → List (Text × List Text)
unfolding insert_text
add_under k t [] = (k, t ∷ []) ∷ []
add_under k t ((j, set) ∷ rest) =
    let later = add_under k t rest in
    if j == k
    then (j, insert_text t set) ∷ rest
    else if text_leb k j
    then (k, t ∷ []) ∷ (j, set) ∷ rest
    else (j, set) ∷ later

-- `split_once('/')`: what stands before the first slash and behind it.
unfoldable pub split_once : Text → Option (Text × Text)
split_once [] = none
split_once (c ∷ t) =
    if c == b'/'
    then some ([], t)
    else elim (split_once t) [ none ↦ none | some (before, behind) ↦ some (c ∷ before, behind) ]

-- `join(", ")`
unfoldable pub join_comma : List Text → Text
join_comma [] = []
join_comma (t ∷ []) = t
join_comma (t ∷ u ∷ rest) = t ++ text ", " ++ join_comma (u ∷ rest)

pub text_leb_refl : (s : Text) → text_leb s s ≡ true
text_leb_refl [] = refl
text_leb_refl (c ∷ s) = ground (arith, text_leb_refl s)

pub text_leb_trans :
    (s t u : Text) → text_leb s t ≡ true → text_leb t u ≡ true → text_leb s u ≡ true
text_leb_trans [] t u h k = refl
text_leb_trans (c ∷ s) [] u h k = absurd (ground arith)
text_leb_trans (c ∷ s) (d ∷ t) [] h k = absurd (ground arith)
text_leb_trans (c ∷ s) (d ∷ t) (e ∷ u) h k = ground (arith, text_leb_trans s t u)

pub text_leb_antisym : (s t : Text) → text_leb s t ≡ true → text_leb t s ≡ true → s ≡ t
text_leb_antisym [] [] h k = refl
text_leb_antisym [] (d ∷ t) h k = absurd (ground arith)
text_leb_antisym (c ∷ s) [] h k = absurd (ground arith)
text_leb_antisym (c ∷ s) (d ∷ t) h k = ground (arith, text_leb_antisym s t)

pub text_leb_total : (s t : Text) → text_leb s t ≡ false → text_leb t s ≡ true
text_leb_total [] t h = absurd (ground arith)
text_leb_total (c ∷ s) [] h = refl
text_leb_total (c ∷ s) (d ∷ t) h = ground (arith, text_leb_total s t)
