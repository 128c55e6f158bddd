-- ===== src/Paging.antt =====
-- internal/api/cursor.go. encoding/json at a cursor, base64.RawURLEncoding and HMAC-SHA256 are a record of functions; the
-- values of a cursor's sort key are of any type.
pub mod Tokens
mod Examples
use sierx.Prelude.{
  ℕ, zero, suc, ◌+◌, ◌-◌, ◌*◌, ◌^◌, Bool, true, false, not, ◌&&◌, ◌||◌, Option, none, some, List,
  [], ◌∷◌, ◌++◌, Bytes, codes, eqb_bytes, length, ltb, leb, ◌==◌, if◌then◌else◌,
}
use sierx.Prelude.Int.{ℤ, pos, ltb_ℤ, eqb_ℤ, sub_ℕ}
use sierx.Prelude.Results.{Result, ok, err, ◌>>=◌, ◌>>◌, guard, or_fail}

pub record Cursor (V : Type 0) : Type 0 where
  pub version : ℤ
  pub after : Bytes
  pub sort : List V
  pub upper : Bytes
  pub scope : Bytes
  pub at : Bytes

pub record TokenCode (V : Type 0) : Type 0 where
  pub marshal : Cursor V → Option Bytes
  pub decode : Bytes → Option (Cursor V)
  pub to_base64 : Bytes → Bytes
  pub of_base64 : Bytes → Option Bytes
  pub mac : Bytes → Bytes → Bytes

pub data PageError : Type 0 where
  bad_cursor not_encoded no_offset one_each bad_limit : PageError

-- The first bytes of a string but its last 32, and these.
abbrev pub front : ℕ → Bytes → Bytes
front zero s = []
front (suc n) [] = []
front (suc n) (c ∷ s) = c ∷ front n s

abbrev pub back : ℕ → Bytes → Bytes
back zero s = s
back (suc n) [] = []
back (suc n) (c ∷ s) = back n s

abbrev pub is_empty : Bytes → Bool
is_empty [] = true
is_empty (c ∷ s) = false

abbrev pub is_for : {V : Type 0} → Bytes → Cursor V → Bool
is_for scope c =
    eqb_ℤ c.version (pos 1)
    && eqb_bytes c.scope scope
    && not (is_empty c.after)
    && not (is_empty c.upper)

module _ {V : Type 0} (t : TokenCode V) where
  unfoldable pub encode_cursor : Cursor V → Bytes → Result PageError Bytes
  encode_cursor c key = do
    raw ← or_fail (t.marshal (record c { version = pos 1 })) not_encoded
    ok (t.to_base64 (raw ++ t.mac key raw))

  unfoldable pub decode_cursor : Bytes → Bytes → Bytes → Result PageError (Cursor V)
  decode_cursor token key scope = do
    guard (not (ltb 8192 (length token))) bad_cursor
    raw ← or_fail (t.of_base64 token) bad_cursor
    guard (ltb 32 (length raw)) bad_cursor
    guard (eqb_bytes (back (length raw - 32) raw) (t.mac key (front (length raw - 32) raw)))
        bad_cursor
    c ← or_fail (t.decode (front (length raw - 32) raw)) bad_cursor
    guard (is_for scope c) bad_cursor
    ok c

-- The values of a query by their names.
abbrev pub QueryValues : Type 0
QueryValues = List (Bytes × List Bytes)

unfoldable pub values_of : Bytes → QueryValues → Option (List Bytes)
values_of name [] = none
values_of name ((k, vs) ∷ rest) =
    let found = values_of name rest in if eqb_bytes k name then some vs else found

abbrev pub count_of : Bytes → QueryValues → ℕ
count_of name q = elim (values_of name q) [ none ↦ 0 | some vs ↦ length vs ]

unfoldable pub digits_from : ℕ → Bytes → Option ℕ
digits_from n [] = some n
digits_from n (c ∷ s) =
    let rest = digits_from (n * 10 + (c - b'0')) s in
    if leb b'0' c && leb c b'9' then rest else none

unfoldable pub number_of : Bytes → Option ℕ
unfolding digits_from
number_of [] = none
number_of (c ∷ s) = digits_from 0 (c ∷ s)

abbrev in_range : ℕ → ℕ → (ℕ → ℤ) → Option ℤ
in_range top n sign = if leb n top then some (sign n) else none

-- strconv.Atoi.
unfoldable pub atoi : Bytes → Option ℤ
unfolding number_of
atoi [] = none
atoi (c ∷ s) =
    if c == b'-'
    then elim (number_of s) [ none ↦ none | some n ↦ in_range (2 ^ 63) n (λ m. sub_ℕ 0 m) ]
    else elim (number_of (if c == b'+' then s else c ∷ s)) [
      | none ↦ none
      | some n ↦ in_range (2 ^ 63 - 1) n pos
    ]

abbrev pub first_value : Option (List Bytes) → Bytes
first_value none = []
first_value (some []) = []
first_value (some (v ∷ vs)) = v

abbrev pub is_there : Option (List Bytes) → Bool
is_there none = false
is_there (some vs) = true

unfoldable pub limit_of : Option (List Bytes) → Result PageError ℤ
unfolding atoi
limit_of none = ok (pos 50)
limit_of (some vs) = do
  n ← or_fail (atoi (first_value (some vs))) bad_limit
  guard (not (ltb_ℤ n (pos 1) || ltb_ℤ (pos 200) n)) bad_limit
  ok n

unfoldable pub page_limit : QueryValues → Result PageError ℤ
unfolding values_of limit_of
page_limit q = do
  guard (not (is_there (values_of (codes "offset") q))) no_offset
  guard (not (ltb 1 (count_of (codes "limit") q) || ltb 1 (count_of (codes "cursor") q))) one_each
  limit_of (values_of (codes "limit") q)
