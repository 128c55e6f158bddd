-- ===== src/Auth/Account.antt =====
-- Enroll, Confirm, checkSecondFactor and Disable of internal/api/auth/totp.go on the row of an active user. A transaction
-- that fails leaves the row as it was. The row has no secret when the column is NULL. Reads of random bytes are
-- taken to work.
pub mod Setup
pub mod Login
use sierx.Prelude.{
  ℕ, count_up, zero, suc, ◌+◌, ◌*◌, ◌<◌, ◌≤◌, ◌≡◌, ◌≢◌, refl, sym, ◌∙◌, Bool, true, false, not,
  ◌&&◌, ◌||◌, Option, none, some, List, [], ◌∷◌, ◌++◌, map, Bytes, codes, eqb_bytes, length, ltb,
  leb, ◌==◌, arith, if◌then◌else◌,
}
use sierx.Prelude.Int.{ℤ, pos, negsuc, ◌+ℤ◌, ltb_ℤ}
use sierx.Prelude.Hex.{hex}
use sierx.Prelude.Results.{Result, ok, err, ◌>>=◌, ◌>>◌, guard, or_fail}
use sierx.Auth.Password.{PasswordCode, verify_password}
use sierx.Auth.Totp.{TotpState, Digests, consume_code}

-- cipher.AEAD under the service's key, and encoding/json at the state.
pub record Vault : Type 0 where
  pub nonce_size : ℕ
  pub encrypt : Bytes → Bytes → Bytes → Bytes
  pub decrypt : Bytes → Bytes → Bytes → Option Bytes
  pub marshal : TotpState → Option Bytes
  pub unmarshal : Bytes → Option TotpState

pub data AuthError : Type 0 where
  credentials no_row bad_state no_database panics : AuthError

pub record Account : Type 0 where
  pub password_hash : Option Bytes
  pub totp_secret : Bytes
  pub sessions : List Bytes

-- Whether the statements of a transaction work: Begin, the UPDATE of the secret, the call of sierx_create_session, the DELETE of
-- the sessions, and Commit.
pub record Statements : Type 0 where
  pub begun : Bool
  pub stored : Bool
  pub asked : Bool
  pub ended : Bool
  pub committed : Bool

abbrev pub all_work : Statements
all_work = record { begun = true; stored = true; asked = true; ended = true; committed = true }

-- What the service and a request bring.
pub record Service : Type 0 where
  pub digests : Digests
  pub passwords : PasswordCode
  pub vault : Vault

abbrev pub take_bytes : ℕ → Bytes → Bytes
take_bytes zero s = []
take_bytes (suc n) [] = []
take_bytes (suc n) (c ∷ s) = c ∷ take_bytes n s

abbrev pub drop_bytes : ℕ → Bytes → Bytes
drop_bytes zero s = s
drop_bytes (suc n) [] = []
drop_bytes (suc n) (c ∷ s) = drop_bytes n s

abbrev pub no_state : TotpState
no_state = record {
  secret = [];
  active = false;
  last_step = pos 0;
  pending_until = pos 0;
  recovery = [];
}

unfoldable pub seal_state : Vault → Bytes → Bytes → TotpState → Result AuthError Bytes
seal_state v nonce id state = do
  plain ← or_fail (v.marshal state) bad_state
  ok (nonce ++ v.encrypt nonce plain id)

unfoldable pub open_state : Vault → Bytes → Bytes → Result AuthError TotpState
open_state v id [] = ok no_state
open_state v id (c ∷ rest) = do
  let raw = c ∷ rest
  guard (leb v.nonce_size (length raw)) credentials
  plain ←
      or_fail (v.decrypt (take_bytes v.nonce_size raw) (drop_bytes v.nonce_size raw) id) bad_state
  or_fail (v.unmarshal plain) bad_state

-- A user who is not active has no row.
unfoldable pub check_password : PasswordCode → Option Bytes → Bytes → Bool
check_password p none password = false
check_password p (some hash) password = verify_password p hash password

unfoldable pub enroll :
    Service
    → Statements
    → Bytes
    → Bytes
    → ℤ
    → Bytes
    → Bytes
    → Option Account
    → Result AuthError (Account × Bytes)
unfolding check_password open_state seal_state
enroll s q id password now secret nonce row = do
  guard q.begun no_database
  a ← or_fail row no_row
  guard (check_password s.passwords a.password_hash password) credentials
  old ← open_state s.vault id a.totp_secret
  guard (not old.active) credentials
  let state : TotpState = record {
    secret = secret;
    active = false;
    last_step = negsuc 0;
    pending_until = now +ℤ pos 600;
    recovery = [];
  }
  raw ← seal_state s.vault nonce id state
  guard q.stored no_database
  guard q.committed no_database
  ok (record a { totp_secret = raw }, secret)

-- The state after a good code, or the error.
unfoldable pub require_code : Digests → TotpState → Bytes → ℤ → Bool → Result AuthError TotpState
require_code d state typed now allow_recovery = do
  r ← or_fail (consume_code d state typed now allow_recovery) panics
  guard r.1 credentials
  ok r.0

-- The recovery codes, from what eight reads of random bytes give, and their hashes.
abbrev pub drawn_codes : (ℕ → Bytes) → List Bytes
drawn_codes read = map (λ i. hex (read i)) (count_up 0 8)

abbrev pub recovery_hash : Digests → Bytes → Bytes
recovery_hash d drawn = hex (d.sha256 drawn)

-- The clock is read twice, for the deadline and for the code.
unfoldable pub confirm :
    Service
    → Statements
    → Bytes
    → Bytes
    → ℤ
    → ℤ
    → (ℕ → Bytes)
    → Bytes
    → Option Account
    → Result AuthError (Account × List Bytes)
unfolding open_state seal_state require_code
confirm s q id typed now later read nonce row = do
  guard q.begun no_database
  a ← or_fail row no_row
  state ← open_state s.vault id a.totp_secret
  guard (length state.secret == 20 && not state.active && not (ltb_ℤ state.pending_until now))
      credentials
  next ← require_code s.digests state typed later false
  let active : TotpState = record next {
    active = true;
    pending_until = pos 0;
    recovery = next.recovery ++ map (recovery_hash s.digests) (drawn_codes read);
  }
  raw ← seal_state s.vault nonce id active
  guard q.stored no_database
  guard q.ended no_database
  guard q.committed no_database
  ok (record a { totp_secret = raw; sessions = [] }, drawn_codes read)

-- What is stored of the state after a code; without a second factor, what was there.
unfoldable pub spend_code :
    Service → Bool → Bytes → Bytes → Bytes → ℤ → Bytes → TotpState → Bool → Result AuthError Bytes
spend_code s stored id nonce typed now raw state false = ok raw
spend_code s stored id nonce typed now raw state true = do
  next ← require_code s.digests state typed now true
  sealed ← seal_state s.vault nonce id next
  guard stored no_database
  ok sealed

-- A session is stored by the hash of its token; `created` is what the database says of it.
unfoldable pub check_second_factor :
    Service
    → Statements
    → Bytes
    → Bytes
    → ℤ
    → Bytes
    → Bool
    → Bytes
    → Option Account
    → Result AuthError (Account × Bytes)
unfolding spend_code
check_second_factor s q id typed now token created nonce row = do
  guard q.begun no_database
  a ← or_fail row no_row
  state ← open_state s.vault id a.totp_secret
  raw ← spend_code s q.stored id nonce typed now a.totp_secret state state.active
  guard q.asked no_database
  guard created credentials
  guard q.committed no_database
  ok (record a { totp_secret = raw; sessions = a.sessions ++ s.digests.sha256 token ∷ [] }, token)

unfoldable pub disable :
    Service → Statements → Bytes → Bytes → Bytes → ℤ → Option Account → Result AuthError Account
unfolding check_password open_state require_code
disable s q id password typed now row = do
  guard q.begun no_database
  a ← or_fail row no_row
  guard (check_password s.passwords a.password_hash password) credentials
  state ← open_state s.vault id a.totp_secret
  guard state.active credentials
  next ← require_code s.digests state typed now true
  guard q.stored no_database
  guard q.ended no_database
  guard q.committed no_database
  ok (record a { totp_secret = []; sessions = [] })
