-- ===== src/Auth/Account/Setup.antt =====
-- From Enroll to Confirm.
use sierx.Prelude.{
  ℕ, ◌+◌, ◌<◌, ◌≤◌, ◌≡◌, refl, sym, ap, ◌∙◌, Bool, true, false, not, ◌&&◌, some, List, [], ◌∷◌,
  ◌++◌, map, Bytes, eqb_bytes_refl, length, All, leb, ◌==◌, arith,
}
use sierx.Prelude.Int.{ℤ, pos, negsuc, ◌+ℤ◌, ltb_ℤ}
use sierx.Prelude.Hex.{hex}
use sierx.Prelude.Results.{ok, or_fail}
use sierx.Auth.Totp.{
  TotpState, Digests, quot_30, times_30, code, code_of_sum, big_endian_64, to_uint64, matching_step,
  consume_code,
}
use sierx.Auth.Totp.Codes.{IsSha1, code_total}
use sierx.Auth.Account.{
  all_work, drawn_codes, Vault, AuthError, Account, Service, take_bytes, drop_bytes, seal_state,
  open_state, check_password, enroll, require_code, recovery_hash, confirm,
}

-- States whose recovery hashes are UTF-8 are marshalled and read back; decryption undoes encryption for the same user.
pub record IsVault (v : Vault) : Type 0 where
  pub valid : Bytes → Bool
  pub valid_hex : (b : Bytes) → valid (hex b) ≡ true
  pub marshal_kept :
      (s : TotpState)
      → All (λ x. valid x ≡ true) s.recovery
      → (b : Bytes) × (v.marshal s ≡ some b) × (v.unmarshal b ≡ some s)
  pub decrypt_kept :
      (nonce plain id : Bytes)
      → length nonce ≡ v.nonce_size
      → v.decrypt nonce (v.encrypt nonce plain id) id ≡ some plain
  pub some_nonce : 0 < v.nonce_size

some-inj : {x y : Bytes} → some x ≡ some y → x ≡ y
some-inj e = cc

take_bytes-append : (s t : Bytes) → take_bytes (length s) (s ++ t) ≡ s
take_bytes-append [] t = refl
take_bytes-append (c ∷ s) t = ap (λ x. c ∷ x) (take_bytes-append s t)

drop_bytes-append : (s t : Bytes) → drop_bytes (length s) (s ++ t) ≡ t
drop_bytes-append [] t = refl
drop_bytes-append (c ∷ s) t = drop_bytes-append s t

length-append-le : (s t : Bytes) → length s ≤ length (s ++ t)
length-append-le [] t = omega arith
length-append-le (c ∷ s) t = omega (arith, length-append-le s t)

open-nonempty :
    (v : Vault) (id nonce text plain : Bytes)
    → 0 < v.nonce_size
    → length nonce ≡ v.nonce_size
    → v.decrypt nonce text id ≡ some plain
    → open_state v id (nonce ++ text) ≡ or_fail (v.unmarshal plain) AuthError.bad_state
unfolding open_state
open-nonempty v id [] text plain pos_ sized e = absurd (omega arith)
open-nonempty v id (c ∷ nonce) text plain pos_ sized e =
    let enough : leb (length (c ∷ nonce)) (length ((c ∷ nonce) ++ text)) ≡ true =
      ground (arith, length-append-le (c ∷ nonce) text) in
    rw (← sized, enough, take_bytes-append (c ∷ nonce) text, drop_bytes-append (c ∷ nonce) text, e)
      refl

-- A stored state is read back by the user whose it is.
pub seal_state-open :
    (v : Vault) (h : IsVault v) (id nonce : Bytes) (s : TotpState)
    → length nonce ≡ v.nonce_size
    → All (λ x. h.valid x ≡ true) s.recovery
    → (raw : Bytes) × (seal_state v nonce id s ≡ ok raw) × (open_state v id raw ≡ ok s)
unfolding seal_state
seal_state-open v h id nonce s sized valid =
    let (b, e1, e2) = h.marshal_kept s valid in
    (
      nonce ++ v.encrypt nonce b id,
      rw e1 refl,
      open-nonempty v id nonce (v.encrypt nonce b id) b h.some_nonce sized
            (h.decrypt_kept nonce b id sized)
          ∙ rw e2 refl,
    )

this_step : (n : ℕ) → quot_30 (times_30 (quot_30 (pos n) +ℤ pos 0)) ≡ quot_30 (pos n)
this_step n = ground arith

code_now :
    (d : Digests) (secret : Bytes) (n : ℕ)
    → code d secret (times_30 (quot_30 (pos n) +ℤ pos 0)) ≡ code d secret (pos n)
unfolding code
code_now d secret n =
    ap (λ (z : ℤ). code_of_sum (d.hmac_sha1 secret (big_endian_64 (to_uint64 z)))) (this_step n)

-- The code of the present step is good, if no step has been used.
consume_code-now :
    (d : Digests) (s : TotpState) (n : ℕ) (c : Bytes)
    → IsSha1 d
    → s.last_step ≡ negsuc 0
    → code d s.secret (pos n) ≡ some c
    → consume_code d s c (pos n) false
      ≡ some (record s { last_step = quot_30 (pos n) +ℤ pos 0 }, true)
unfolding consume_code matching_step
consume_code-now d s n c sized unused made =
    let (c', _, made', _, fit) = code_total d s.secret (pos n) sized in
    let long : (length c == 6) ≡ true =
      ground (arith, fit.six, ap (length {0}) (some-inj (sym made ∙ made'))) in
    let above : ltb_ℤ s.last_step (quot_30 (pos n) +ℤ pos 0) ≡ true = rw unused (ground arith) in
    rw (long, above, code_now d s.secret n, made, eqb_bytes_refl c) refl

recovery_valid :
    (s : Service) (h : IsVault s.vault) (drawn : List Bytes)
    → All (λ x. h.valid x ≡ true) (map (recovery_hash s.digests) drawn)
recovery_valid s h [] = tt
recovery_valid s h (b ∷ drawn) = (h.valid_hex (s.digests.sha256 b), recovery_valid s h drawn)

-- From Enroll to Confirm. If a user gives the password, has no second factor yet, and confirms within ten minutes with the
-- code of the new secret, then Confirm succeeds: it stores an active state with the secret and the eight hashes of the
-- recovery codes that it returns, and ends all sessions. (The clock is not before 1970; a nonce has its size, the secret 20 bytes, HMAC-SHA1
-- 20 bytes; the database's statements work.)
pub enroll-confirm :
    (s : Service) (h : IsVault s.vault) (id password secret nonce nonce' c : Bytes)
    (read : ℕ → Bytes) (a : Account) (old : TotpState) (start n later : ℕ)
    → IsSha1 s.digests
    → length nonce ≡ s.vault.nonce_size
    → length nonce' ≡ s.vault.nonce_size
    → length secret ≡ 20
    → check_password s.passwords a.password_hash password ≡ true
    → open_state s.vault id a.totp_secret ≡ ok old
    → old.active ≡ false
    → n ≤ start + 600
    → code s.digests secret (pos later) ≡ some c
    → (b : Account) × (done : Account) × (state : TotpState) × (enroll s all_work id password
          (pos start)
          secret
          nonce
          (some a)
        ≡ ok (b, secret))
      × (confirm s all_work id c (pos n) (pos later) read nonce' (some b)
          ≡ ok (done, drawn_codes read))
      × (open_state s.vault id done.totp_secret ≡ ok state)
      × (state.active ≡ true)
      × (state.secret ≡ secret)
      × (state.recovery ≡ map (recovery_hash s.digests) (drawn_codes read))
      × (length state.recovery ≡ 8)
      × (done.sessions ≡ [])
unfolding enroll confirm require_code
enroll-confirm s h id password secret nonce nonce' c read a old start n later sha sized sized'
      twenty known opened inactive soon made =
    let pending : TotpState = record {
      secret = secret;
      active = false;
      last_step = negsuc 0;
      pending_until = pos start +ℤ pos 600;
      recovery = [];
    } in
    let (raw, e1, e2) = seal_state-open s.vault h id nonce pending sized tt in
    let active : TotpState = record {
      secret = secret;
      active = true;
      last_step = quot_30 (pos later) +ℤ pos 0;
      pending_until = pos 0;
      recovery = map (recovery_hash s.digests) (drawn_codes read);
    } in
    let (raw', e3, e4) =
      seal_state-open s.vault h id nonce' active sized' (recovery_valid s h (drawn_codes read)) in
    let open_still : (length secret == 20 && true && not (ltb_ℤ (pos start +ℤ pos 600) (pos n)))
        ≡ true =
      ground arith in
    (
      record a { totp_secret = raw },
      record a { totp_secret = raw'; sessions = [] },
      active,
      rw (known, opened, inactive, e1) refl,
      rw (e2, open_still, consume_code-now s.digests pending later c sha refl made, e3) refl,
      e4,
      refl,
      refl,
      refl,
      refl,
      refl,
    )
