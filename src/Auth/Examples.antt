-- ===== src/Auth/Examples.antt =====
-- The second factor and passwords at concrete inputs, with simple stand-ins for the digests and ciphers.
use sierx.Prelude.{
  ℕ, ◌+◌, ◌-◌, ◌%◌, ◌≡◌, ◌≢◌, refl, ap, Bool, true, false, ◌&&◌, Option, none, some, List, [], ◌∷◌,
  ◌++◌, map, Bytes, codes, eqb_bytes, length, All, replicate, arith, leb, if◌then◌else◌,
}
use sierx.Prelude.Int.{ℤ, pos}
use sierx.Prelude.Hex.{hex}
use sierx.Prelude.Results.{ok, err}
use sierx.Prelude.Splits.{split_on}
use sierx.Journal.Examples.Codec.{put_list, get_list, get-put_list, put_int, get_int, get-put_int}
use sierx.Auth.Password.{PasswordCode, IsPasswordCode, hash_password, verify_password, verify-hash}
use sierx.Auth.Totp.{
  big_endian_64, to_uint64, quot_30, consume_code, TotpState, Digests, code, consume_recovery,
}
use sierx.Auth.Totp.Codes.{IsTruncated, IsSixDigits, IsSha1, code_total}
use sierx.Auth.Totp.Runs.{Try, IsRun, attempts, attempts_ascend, recovery_once}
use sierx.Auth.Account.{
  all_work, drawn_codes, Vault, Account, Service, AuthError, seal_state, open_state, check_password,
  enroll, confirm, check_second_factor, recovery_hash,
}
use sierx.Auth.Account.Setup.{IsVault, enroll-confirm}
use sierx.Auth.Account.Login.{IsLogin, check_second_factor-IsLogin}

digests : Digests
digests = record {
  hmac_sha1 = λ key text. replicate 20 ((length key + 3) % 256);
  sha256 = λ b. replicate 32 (length b % 256);
}

digests-IsSha1 : IsSha1 digests
unfolding digests
digests-IsSha1 key text = refl

code_total_example :
    (c : Bytes) × (n : ℕ) × (code digests (codes "s") (pos 59) ≡ some c)
    × IsTruncated (digests.hmac_sha1 (codes "s") (big_endian_64 (to_uint64 (quot_30 (pos 59))))) n
    × IsSixDigits (n % 1000000) c
code_total_example = code_total digests (codes "s") (pos 59) digests-IsSha1

abbrev secret : Bytes
secret = replicate 20 9

abbrev state : TotpState
state = record {
  secret = secret;
  active = true;
  last_step = pos 0;
  pending_until = pos 0;
  recovery = hex (replicate 32 1) ∷ hex (replicate 32 2) ∷ [];
}

typed : Bytes
unfolding code digests
typed = elim (code digests secret (pos 30)) [ none ↦ [] | some c ↦ c ]

-- A code that is typed twice in one period, a recovery code, and a code a minute later.
abbrev tries : List Try
tries =
    record { typed = typed; now = pos 95; allow_recovery = true }
    ∷ record { typed = typed; now = pos 95; allow_recovery = true }
    ∷ record { typed = codes "a"; now = pos 95; allow_recovery = true }
    ∷ record { typed = typed; now = pos 155; allow_recovery = false }
    ∷ []

attempts_ascend_example :
    (u : TotpState) × (steps : List (Bytes × ℤ)) × (attempts digests state tries ≡ some (u, steps))
    × IsRun digests state u steps
attempts_ascend_example = attempts_ascend digests state tries digests-IsSha1

recovery_once_example :
    consume_recovery digests
      (record state { recovery = hex (replicate 32 2) ∷ [] })
      (codes "a")
      true
    ≡ (record state { recovery = hex (replicate 32 2) ∷ [] }, false)
unfolding consume_recovery digests eqb_bytes hex
recovery_once_example =
    recovery_once digests state (record state { recovery = hex (replicate 32 2) ∷ [] }) (codes "a")
      ((refl, tt), (tt, tt)) refl

passwords : PasswordCode
passwords = record {
  id_key = λ password salt. replicate 32 (length password % 256);
  encode = map (λ x. x + 64);
  decode = λ s. some (map (λ x. x - 64) s);
}

map_back : (b : Bytes) → map (λ x. x - 64) (map (λ x. x + 64) b) ≡ b
map_back [] = refl
map_back (c ∷ b) = let e : c + 64 - 64 ≡ c = omega arith in rw (e, map_back b) refl

map_plain : (b : Bytes) → All (λ c. c ≢ b'$') (map (λ x. x + 64) b)
map_plain [] = tt
map_plain (c ∷ b) = (omega arith, map_plain b)

passwords_fit : IsPasswordCode passwords
unfolding passwords
passwords_fit = record {
  decode-encode = λ b. ap some (map_back b);
  plain = map_plain;
  sized = λ password salt. refl;
}

verify-hash_example :
    (h : Bytes) × (hash_password passwords (replicate 16 1) (codes "correct horse") ≡ ok h)
    × (verify_password passwords h (codes "wrong") ≡ (
        leb (length (codes "wrong")) 1024
        && eqb_bytes
            (passwords.id_key (codes "wrong") (replicate 16 1))
            (passwords.id_key (codes "correct horse") (replicate 16 1))))
    × (verify_password passwords h (codes "correct horse") ≡ true)
verify-hash_example =
    verify-hash passwords passwords_fit (replicate 16 1) (codes "correct horse") (codes "wrong")
      refl (omega arith) (omega arith)

marshal_state : TotpState → Bytes
marshal_state s =
    put_list (s.secret ∷ (if s.active then codes "a" else []) ∷ s.recovery)
    ++ (put_int s.last_step ++ (put_int s.pending_until ++ []))

flagged : Bytes → Bool
flagged [] = false
flagged (c ∷ s) = true

state_of : List Bytes → ℤ → ℤ → Option TotpState
unfolding flagged
state_of [] m n = none
state_of (x ∷ []) m n = none
state_of (x ∷ a ∷ rs) m n =
    some
      (record { secret = x; active = flagged a; last_step = m; pending_until = n; recovery = rs })

unmarshal_state : Bytes → Option TotpState
unfolding state_of
unmarshal_state s = elim (get_list s) [
  | none ↦ none
  | some (xs, s1) ↦ elim (get_int s1) [
    | none ↦ none
    | some (m, s2) ↦ elim (get_int s2) [ none ↦ none | some (n, s3) ↦ state_of xs m n ]
  ]
]

flagged_lem : (b : Bool) → flagged (if b then codes "a" else []) ≡ b
unfolding flagged
flagged_lem true = refl
flagged_lem false = refl

unmarshal-marshal : (s : TotpState) → unmarshal_state (marshal_state s) ≡ some s
unfolding unmarshal_state marshal_state
unmarshal-marshal s =
    rw
      (
        get-put_list (s.secret ∷ (if s.active then codes "a" else []) ∷ s.recovery) _,
        get-put_int s.last_step _,
        get-put_int s.pending_until [],
        unmarshal_state,
      )
      (rw (flagged_lem s.active) refl)

vault : Vault
unfolding marshal_state unmarshal_state
vault = record {
  nonce_size = 12;
  encrypt = λ nonce plain id. plain;
  decrypt = λ nonce text id. some text;
  marshal = λ s. some (marshal_state s);
  unmarshal = unmarshal_state;
}

vault-IsVault : IsVault vault
unfolding vault
vault-IsVault = record {
  valid = λ b. true;
  valid_hex = λ b. refl;
  marshal_kept = λ s h. (marshal_state s, refl, unmarshal-marshal s);
  decrypt_kept = λ nonce plain id e. refl;
  some_nonce = omega arith;
}

abbrev service : Service
service = record { digests = digests; passwords = passwords; vault = vault }

password_text : Bytes
unfolding hash_password passwords
password_text = elim (hash_password passwords (replicate 16 1) (codes "correct horse")) [
  | err e ↦ []
  | ok h ↦ h
]

abbrev user : Account
user = record { password_hash = some password_text; totp_secret = []; sessions = codes "old" ∷ [] }

abbrev no_secret : TotpState
no_secret = sierx.Auth.Account.no_state

enroll-confirm_example :
    (b : Account) × (done : Account) × (t : TotpState) × (enroll service all_work
        (codes "u")
        (codes "correct horse")
        (pos 100)
        secret
        (replicate 12 0)
        (some user)
      ≡ ok (b, secret))
    × (confirm service all_work
          (codes "u")
          typed
          (pos 115)
          (pos 115)
          (λ i. i ∷ [])
          (replicate 12 1)
          (some b)
        ≡ ok (done, drawn_codes (λ i. i ∷ [])))
    × (open_state vault (codes "u") done.totp_secret ≡ ok t)
    × (t.active ≡ true)
    × (t.secret ≡ secret)
    × (t.recovery ≡ map (recovery_hash digests) (drawn_codes (λ i. i ∷ [])))
    × (length t.recovery ≡ 8)
    × (done.sessions ≡ [])
unfolding check_password verify_password open_state password_text passwords split_on eqb_bytes typed
    code digests vault
enroll-confirm_example =
    enroll-confirm service vault-IsVault (codes "u") (codes "correct horse") secret (replicate 12 0)
      (replicate 12 1) typed (λ i. i ∷ []) user no_secret 100 115 115 digests-IsSha1 refl refl refl
      refl refl refl (omega arith) refl

stored_state : Bytes
unfolding seal_state vault
stored_state = elim (seal_state vault (replicate 12 0) (codes "u") state) [
  | err e ↦ []
  | ok raw ↦ raw
]

check_second_factor-IsLogin_example :
    (left : TotpState) × (good : Bool) × (consume_code digests state typed (pos 95) true
      ≡ some (left, good))
    × IsLogin service all_work
        (codes "u")
        (codes "token")
        (record user { totp_secret = stored_state })
        left
        good
        true
        (check_second_factor service all_work
          (codes "u")
          typed
          (pos 95)
          (codes "token")
          true
          (replicate 12 3)
          (some (record user { totp_secret = stored_state })))
unfolding open_state stored_state vault put_list hex put_int get_list get_int vault-IsVault
check_second_factor-IsLogin_example =
    check_second_factor-IsLogin service vault-IsVault digests-IsSha1 all_work (codes "u") typed
      (codes "token") (replicate 12 3) (pos 95) true (record user { totp_secret = stored_state })
      state refl refl refl (refl, (refl, tt))
