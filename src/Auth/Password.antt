-- ===== src/Auth/Password.antt =====
-- internal/api/auth/password.go. Argon2id and base64.RawStdEncoding are a record of functions.
use sierx.Prelude.{
  ◌≤◌, ◌≡◌, ◌≢◌, refl, Bool, true, false, not, ◌&&◌, ◌||◌, Option, none, some, List, [], ◌∷◌, ◌++◌,
  Bytes, codes, eqb_bytes, eqb_bytes_refl, length, All, ltb, leb, ◌==◌, arith, if◌then◌else◌,
}
use sierx.Prelude.Results.{Result, ok, ◌>>◌, guard}
use sierx.Prelude.Splits.{split_on, split_on-append, split_on_lem}

-- argon2.IDKey of a password and a salt at the code's cost, and base64.
pub record PasswordCode : Type 0 where
  pub id_key : Bytes → Bytes → Bytes
  pub encode : Bytes → Bytes
  pub decode : Bytes → Option Bytes

pub data PasswordError : Type 0 where
  bad_length : PasswordError

unfoldable pub validate_password : Bytes → Result PasswordError (Unit {0})
validate_password password =
    guard (not (ltb (length password) 12 || ltb 1024 (length password))) bad_length

abbrev pub kind : Bytes
kind = codes "argon2id"

abbrev pub version : Bytes
version = codes "v=19"

abbrev pub cost : Bytes
cost = codes "m=65536,t=3,p=1"

abbrev pub hash_text : PasswordCode → Bytes → Bytes → Bytes
hash_text p salt key =
    codes "$argon2id$v=19$m=65536,t=3,p=1$" ++ (p.encode salt ++ (codes "$" ++ p.encode key))

unfoldable pub hash_password : PasswordCode → Bytes → Bytes → Result PasswordError Bytes
unfolding validate_password
hash_password p salt password =
    validate_password password >> ok (hash_text p salt (p.id_key password salt))

-- The last two parts.
unfoldable pub verify_key : PasswordCode → Option Bytes → Option Bytes → Bytes → Bool
verify_key p none want password = false
verify_key p (some salt) none password = false
verify_key p (some salt) (some want) password =
    if length salt == 16 && length want == 32
    then eqb_bytes (p.id_key password salt) want
    else false

unfoldable pub verify_parts : PasswordCode → List Bytes → Bytes → Bool
unfolding verify_key
verify_parts p (a ∷ b ∷ c ∷ d ∷ salt ∷ want ∷ []) password =
    if eqb_bytes b kind && eqb_bytes c version && eqb_bytes d cost
    then verify_key p (p.decode salt) (p.decode want) password
    else false
verify_parts p _ password = false

unfoldable pub verify_password : PasswordCode → Bytes → Bytes → Bool
unfolding verify_parts
verify_password p encoded password =
    if ltb 1024 (length password) then false else verify_parts p (split_on b'$' encoded) password

-- base64 has no '$' and is read back; the derived key has 32 bytes.
pub record IsPasswordCode (p : PasswordCode) : Type 0 where
  pub decode-encode : (b : Bytes) → p.decode (p.encode b) ≡ some b
  pub plain : (b : Bytes) → All (λ c. c ≢ b'$') (p.encode b)
  pub sized : (password salt : Bytes) → length (p.id_key password salt) ≡ 32

split-hash :
    (p : PasswordCode) (c : IsPasswordCode p) (salt key : Bytes)
    → split_on b'$' (hash_text p salt key)
      ≡ [] ∷ kind ∷ version ∷ cost ∷ p.encode salt ∷ p.encode key ∷ []
unfolding split_on
split-hash p c salt key =
    rw
      (
        split_on-append b'$' (p.encode salt) (p.encode key) (c.plain salt),
        split_on_lem b'$' (p.encode key) (c.plain key),
      )
      refl

header_known : (eqb_bytes kind kind && eqb_bytes version version && eqb_bytes cost cost) ≡ true
unfolding eqb_bytes
header_known = refl

-- A password of 12 to 1,024 bytes is hashed, and the hash accepts just the passwords of at most 1,024 bytes that Argon2id
-- takes to the same key under the salt, so the password itself. (The salt has 16 bytes; base64 texts have no '$' and are
-- read back, and a key has 32 bytes.)
pub verify-hash :
    (p : PasswordCode) (c : IsPasswordCode p) (salt password other : Bytes)
    → length salt ≡ 16
    → 12 ≤ length password
    → length password ≤ 1024
    → (h : Bytes) × (hash_password p salt password ≡ ok h)
      × (verify_password p h other
          ≡ (leb (length other) 1024 && eqb_bytes (p.id_key other salt) (p.id_key password salt)))
      × (verify_password p h password ≡ true)
unfolding hash_password verify_password
verify-hash p c salt password other size low high =
    let valid : not (ltb (length password) 12 || ltb 1024 (length password)) ≡ true =
      ground arith in
    let short : ltb 1024 (length password) ≡ false = ground arith in
    let sizes : (length salt == 16 && length (p.id_key password salt) == 32) ≡ true =
      ground (arith, c.sized password salt) in
    (
      hash_text p salt (p.id_key password salt),
      rw valid refl,
      rw
          (
            split-hash p c salt (p.id_key password salt),
            c.decode-encode salt,
            c.decode-encode (p.id_key password salt),
            header_known,
            sizes,
          )
          (ground arith),
      rw
          (
            short,
            split-hash p c salt (p.id_key password salt),
            c.decode-encode salt,
            c.decode-encode (p.id_key password salt),
            header_known,
            sizes,
          )
          (eqb_bytes_refl (p.id_key password salt)),
    )
