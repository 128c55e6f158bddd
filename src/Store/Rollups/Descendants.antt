-- ===== src/Store/Rollups/Descendants.antt =====
-- The path test of internal/store/mutate.go that refuses a move below the item itself.
use sierx.Prelude.{
  ◌≡◌, refl, sym, ap, Bool, true, false, Option, some, List, [], ◌∷◌, ◌++◌, append_assoc, arith,
  Bytes, codes, ◌==◌, if◌then◌else◌, eqb_bytes,
}
use sierx.Store.Changes.{Uuid}
use sierx.Store.Rollups.{is_prefix, is_descendant_or_self}
use sierx.Store.Rollups.Ancestors.{has_dot, path_text, eqb_strings}

-- The first list of UUIDs is where the second one starts.
abbrev pub starts : List Uuid → List Uuid → Bool
starts [] c = true
starts (x ∷ a) [] = false
starts (x ∷ a) (y ∷ c) = if y == x then starts a c else false

-- A text with a dot starts no text without one.
is_prefix_dot : (s r t : Bytes) → has_dot t ≡ false → is_prefix (s ++ b'.' ∷ r) t ≡ false
is_prefix_dot [] r [] h = refl
is_prefix_dot [] r (d ∷ t) h = ground arith
is_prefix_dot (c ∷ s) r [] h = refl
is_prefix_dot (c ∷ s) r (d ∷ t) h = ground (arith, is_prefix_dot s r t)

-- Up to the first dot on each side, and behind it.
is_prefix_dots :
    (s t r u : Bytes)
    → has_dot s ≡ false
    → has_dot t ≡ false
    → is_prefix (s ++ b'.' ∷ r) (t ++ b'.' ∷ u) ≡ (if eqb_bytes t s then is_prefix r u else false)
unfolding eqb_bytes
is_prefix_dots [] [] r u hs ht = refl
is_prefix_dots [] (d ∷ t) r u hs ht = ground arith
is_prefix_dots (c ∷ s) [] r u hs ht = ground arith
is_prefix_dots (c ∷ s) (d ∷ t) r u hs ht = ground (arith, is_prefix_dots s t r u)

eqb_dot : (s t u : Bytes) → has_dot s ≡ false → eqb_bytes (t ++ b'.' ∷ u) s ≡ false
unfolding eqb_bytes
eqb_dot [] [] u h = refl
eqb_dot [] (d ∷ t) u h = refl
eqb_dot (c ∷ s) [] u h = ground arith
eqb_dot (c ∷ s) (d ∷ t) u h = ground (arith, eqb_dot s t u)

eqb_dot_left : (s r t : Bytes) → has_dot t ≡ false → eqb_bytes t (s ++ b'.' ∷ r) ≡ false
unfolding eqb_bytes
eqb_dot_left [] r [] h = refl
eqb_dot_left [] r (d ∷ t) h = ground arith
eqb_dot_left (c ∷ s) r [] h = refl
eqb_dot_left (c ∷ s) r (d ∷ t) h = ground (arith, eqb_dot_left s r t)

eqb_dots :
    (s t r u : Bytes)
    → has_dot s ≡ false
    → has_dot t ≡ false
    → eqb_bytes (t ++ b'.' ∷ u) (s ++ b'.' ∷ r) ≡ (if eqb_bytes t s then eqb_bytes u r else false)
unfolding eqb_bytes
eqb_dots [] [] r u hs ht = refl
eqb_dots [] (d ∷ t) r u hs ht = ground arith
eqb_dots (c ∷ s) [] r u hs ht = ground arith
eqb_dots (c ∷ s) (d ∷ t) r u hs ht = ground (arith, eqb_dots s t r u)

if_both :
    (b e p : Bool)
    → (if (if b then e else false) then true else (if b then p else false))
      ≡ (if b then (if e then true else p) else false)
if_both true e p = refl
if_both false e p = refl

if_false : (b : Bool) → (if b then false else false) ≡ false
if_false true = refl
if_false false = refl

module _ (parse_uuid : Bytes → Option Uuid) (uuid_string : Uuid → Bytes)
    (parse_string : (id : Uuid) → parse_uuid (uuid_string id) ≡ some id)
    (no_dot : (id : Uuid) → has_dot (uuid_string id) ≡ false) where
  -- If the texts of UUIDs hold no dot and are parsed back, the test holds of the paths of two items
  -- exactly if the second item is the first one or one of its ancestors.
  pub is_descendant_or_self-path_text :
      (y : Uuid) (c : List Uuid) (x : Uuid) (a : List Uuid)
      → is_descendant_or_self (path_text uuid_string (y ∷ c)) (path_text uuid_string (x ∷ a))
        ≡ starts (x ∷ a) (y ∷ c)
  unfolding is_descendant_or_self
  is_descendant_or_self-path_text y [] x [] =
      rw
        (
          is_prefix_dot (uuid_string x) [] (uuid_string y) (no_dot y),
          eqb_strings parse_uuid uuid_string parse_string no_dot y x,
        )
        refl
  is_descendant_or_self-path_text y (z ∷ c) x [] =
      rw
        (
          eqb_dot (uuid_string x) (uuid_string y) (path_text uuid_string (z ∷ c)) (no_dot x),
          is_prefix_dots (uuid_string x) (uuid_string y) [] (path_text uuid_string (z ∷ c))
              (no_dot x) (no_dot y),
          eqb_strings parse_uuid uuid_string parse_string no_dot y x,
        )
        refl
  is_descendant_or_self-path_text y [] x (w ∷ a) =
      let rest = path_text uuid_string (w ∷ a) in
      rw
        (
          append_assoc (uuid_string x) (b'.' ∷ rest) (codes "."),
          eqb_dot_left (uuid_string x) rest (uuid_string y) (no_dot y),
          is_prefix_dot (uuid_string x) (rest ++ codes ".") (uuid_string y) (no_dot y),
        )
        (sym (if_false (y == x)))
  is_descendant_or_self-path_text y (z ∷ c) x (w ∷ a) =
      let rest = path_text uuid_string (w ∷ a) in
      let more = path_text uuid_string (z ∷ c) in
      rw
        (
          append_assoc (uuid_string x) (b'.' ∷ rest) (codes "."),
          eqb_dots (uuid_string x) (uuid_string y) rest more (no_dot x) (no_dot y),
          is_prefix_dots (uuid_string x) (uuid_string y) (rest ++ codes ".") more (no_dot x)
              (no_dot y),
          eqb_strings parse_uuid uuid_string parse_string no_dot y x,
          if_both (y == x) (eqb_bytes more rest) (is_prefix (rest ++ codes ".") more),
        )
        (ap (λ b. if y == x then b else false) (is_descendant_or_self-path_text z c w a))
