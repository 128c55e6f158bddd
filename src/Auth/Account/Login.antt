-- ===== src/Auth/Account/Login.antt =====
-- checkSecondFactor on an account with an active second factor.
use sierx.Prelude.{
  ◌≡◌, refl, sym, ap, ◌∙◌, subst, inl, inr, Bool, true, false, some, List, [], ◌∷◌, ◌++◌, ◌&&◌,
  Bytes, eqb_bytes, length, All, Bool-cases, Option-cases,
}
use sierx.Prelude.Int.{ℤ}
use sierx.Prelude.Results.{Result, ok, err, ◌>>◌, guard}
use sierx.Auth.Totp.{TotpState, Digests, without, consume_code}
use sierx.Auth.Totp.Codes.{IsSha1}
use sierx.Auth.Totp.Replay.{Consumed, by_code, by_recovery, is_refused, consume_code-Consumed}
use sierx.Auth.Account.{
  Statements, no_database, credentials, AuthError, Account, Service, open_state, require_code,
  spend_code, check_second_factor,
}
use sierx.Auth.Account.Setup.{IsVault, seal_state-open}

some-inj {ℓ} : {A : Type ℓ} {x y : A} → some x ≡ some y → x ≡ y
some-inj e = cc

All-without {ℓ} :
    (P : Bytes → Type ℓ) (x : Bytes) (xs : List Bytes) {ys : List Bytes}
    → All P xs
    → without x xs ≡ some ys
    → All P ys
unfolding without
All-without P x [] h e = cc
All-without P x (y ∷ xs) (py, h) e = elim (Bool-cases (eqb_bytes x y)) [
  | inl same ↦ subst (All P) (some-inj (rw same at e)) h
  | inr differs ↦ elim (Option-cases (without x xs)) [
    | inl missing ↦ cc (rw (differs, missing) at e)
    | inr (zs, found) ↦
        subst (All P) (some-inj (rw (differs, found) at e)) (py, All-without P x xs h found)
  ]
]

Consumed-valid {ℓ} :
    (P : Bytes → Type ℓ) (d : Digests) (s t : TotpState) (typed : Bytes) (now : ℤ)
    (allow good : Bool)
    → Consumed d s typed now allow t good
    → All P s.recovery
    → All P t.recovery
Consumed-valid P d s t typed now allow good (by_code candidate m six e g) h = rw e h
Consumed-valid P d s t typed now allow good (by_recovery kept a found e g) h =
    rw e (All-without P _ s.recovery h found)
Consumed-valid P d s t typed now allow good (is_refused e g) h = rw e h

-- Whether the statements of checkSecondFactor work.
abbrev pub works : Statements → Bool
works q = q.begun && q.stored && q.asked && q.committed

-- What checkSecondFactor answers, by what consumeCode said of the code and left, and by whether the session was made.
pub data IsLogin (s : Service) (q : Statements) (id token : Bytes) (a : Account) (left : TotpState)
    : Bool → Bool → Result AuthError (Account × Bytes) → Type 0 where
  session :
      (raw : Bytes)
      → works q ≡ true
      → open_state s.vault id raw ≡ ok left
      → IsLogin s q id token a left true true (
          ok (
            record a { totp_secret = raw; sessions = a.sessions ++ s.digests.sha256 token ∷ [] },
            token,
          ))
  wrong_code : (created : Bool) → IsLogin s q id token a left false created (err credentials)
  not_created : IsLogin s q id token a left true false (err credentials)
  failed :
      (good created : Bool)
      → works q ≡ false
      → IsLogin s q id token a left good created (err no_database)

module _ (s : Service) (h : IsVault s.vault) (sha : IsSha1 s.digests) where
  consumed_valid :
      (state next : TotpState) (typed : Bytes) (now : ℤ)
      → All (λ x. h.valid x ≡ true) state.recovery
      → consume_code s.digests state typed now true ≡ some (next, true)
      → All (λ x. h.valid x ≡ true) next.recovery
  consumed_valid state next typed now valid e =
      let (t, good, e', c) = consume_code-Consumed s.digests state typed now true sha in
      let same : t ≡ next = ap (λ (p : TotpState × Bool). p.0) (some-inj (sym e' ∙ e)) in
      subst (λ (x : TotpState). All (λ y. h.valid y ≡ true) x.recovery) same
        (Consumed-valid (λ y. h.valid y ≡ true) s.digests state t typed now true good c valid)

  spend_code-wrong :
      (stored : Bool) (id nonce typed raw : Bytes) (now : ℤ) (state left : TotpState)
      (active : Bool)
      → active ≡ true
      → consume_code s.digests state typed now true ≡ some (left, false)
      → spend_code s stored id nonce typed now raw state active ≡ err credentials
  unfolding spend_code require_code
  spend_code-wrong stored id nonce typed raw now state left false on e = cc
  spend_code-wrong stored id nonce typed raw now state left true on e = rw e refl

  spend_code-good :
      (id nonce typed raw : Bytes) (now : ℤ) (state left : TotpState) (active : Bool)
      → length nonce ≡ s.vault.nonce_size
      → All (λ x. h.valid x ≡ true) state.recovery
      → active ≡ true
      → consume_code s.digests state typed now true ≡ some (left, true)
      → (r : Bytes) × (spend_code s true id nonce typed now raw state active ≡ ok r)
        × (open_state s.vault id r ≡ ok left)
  unfolding spend_code require_code
  spend_code-good id nonce typed raw now state left false sized valid on e = cc
  spend_code-good id nonce typed raw now state left true sized valid on e =
      let (r, sealed, stored) =
        seal_state-open s.vault h id nonce left sized
          (consumed_valid state left typed now valid e) in
      (r, rw (e, sealed) refl, stored)

  spend_code-unstored :
      (id nonce typed raw : Bytes) (now : ℤ) (state left : TotpState) (active : Bool)
      → length nonce ≡ s.vault.nonce_size
      → All (λ x. h.valid x ≡ true) state.recovery
      → active ≡ true
      → consume_code s.digests state typed now true ≡ some (left, true)
      → spend_code s false id nonce typed now raw state active ≡ err no_database
  unfolding spend_code require_code
  spend_code-unstored id nonce typed raw now state left false sized valid on e = cc
  spend_code-unstored id nonce typed raw now state left true sized valid on e =
      let (r, sealed, stored) =
        seal_state-open s.vault h id nonce left sized
          (consumed_valid state left typed now valid e) in
      rw (e, sealed) refl

  IsLogin-stored :
      (asked committed : Bool) (ended : Bool) (id token : Bytes) (a : Account) (left : TotpState)
      (created : Bool) (raw : Bytes)
      → open_state s.vault id raw ≡ ok left
      → IsLogin s
          (record {
            begun = true;
            stored = true;
            asked = asked;
            ended = ended;
            committed = committed;
          })
          id
          token
          a
          left
          true
          created
          (do
            guard asked no_database
            guard created credentials
            guard committed no_database
            ok (
              record a { totp_secret = raw; sessions = a.sessions ++ s.digests.sha256 token ∷ [] },
              token,
            ))
  IsLogin-stored false committed ended id token a left created raw e = failed true created refl
  IsLogin-stored true committed ended id token a left false raw e = not_created
  IsLogin-stored true false ended id token a left true raw e = failed true true refl
  IsLogin-stored true true ended id token a left true raw e = session raw refl e

  IsLogin-spent :
      (begun stored asked ended committed : Bool) (id typed token nonce : Bytes) (now : ℤ)
      (created : Bool) (a : Account) (state left : TotpState) (good : Bool)
      → length nonce ≡ s.vault.nonce_size
      → open_state s.vault id a.totp_secret ≡ ok state
      → state.active ≡ true
      → All (λ x. h.valid x ≡ true) state.recovery
      → consume_code s.digests state typed now true ≡ some (left, good)
      → let q : Statements = record {
        begun = begun;
        stored = stored;
        asked = asked;
        ended = ended;
        committed = committed;
      } in
        IsLogin s q id token a left good created
          (check_second_factor s q id typed now token created nonce (some a))
  unfolding check_second_factor
  IsLogin-spent false stored asked ended committed id typed token nonce now created a state left
        good sized opened active valid e =
      failed good created refl
  IsLogin-spent true stored asked ended committed id typed token nonce now created a state left
        false sized opened active valid e =
      rw
        (
          opened,
          spend_code-wrong stored id nonce typed a.totp_secret now state left state.active active e,
        )
        (wrong_code created)
  IsLogin-spent true false asked ended committed id typed token nonce now created a state left true
        sized opened active valid e =
      rw
        (
          opened,
          spend_code-unstored id nonce typed a.totp_secret now state left state.active sized valid
              active e,
        )
        (failed true created refl)
  IsLogin-spent true true asked ended committed id typed token nonce now created a state left true
        sized opened active valid e =
      let (raw, spent, kept) =
        spend_code-good id nonce typed a.totp_secret now state left state.active sized valid active
          e in
      rw (opened, spent) (IsLogin-stored asked committed ended id token a left created raw kept)

  -- For a user with an active second factor checkSecondFactor answers in each case: without the error that consumeCode
  -- could panic with; with a session exactly if consumeCode takes the code, the database makes the session and its
  -- statements work. Then the state
  -- that consumeCode left is the stored one, against which the next code is checked, and the hash of the returned token is
  -- among the sessions. (HMAC-SHA1 has 20 bytes, a nonce its size, and the stored hashes are UTF-8.)
  pub check_second_factor-IsLogin :
      (q : Statements) (id typed token nonce : Bytes) (now : ℤ) (created : Bool) (a : Account)
      (state : TotpState)
      → length nonce ≡ s.vault.nonce_size
      → open_state s.vault id a.totp_secret ≡ ok state
      → state.active ≡ true
      → All (λ x. h.valid x ≡ true) state.recovery
      → (left : TotpState) × (good : Bool) × (consume_code s.digests state typed now true
          ≡ some (left, good))
        × IsLogin s q id token a left good created
            (check_second_factor s q id typed now token created nonce (some a))
  check_second_factor-IsLogin q id typed token nonce now created a state sized opened active valid =
      let (left, good, e, _) = consume_code-Consumed s.digests state typed now true sha in
      (
        left,
        good,
        e,
        IsLogin-spent q.begun q.stored q.asked q.ended q.committed id typed token nonce now created
            a state left good sized opened active valid e,
      )
