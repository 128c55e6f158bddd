-- ===== src/Auth/Totp/Runs.antt =====
-- Texts that are typed one after the other, against consumeCode of internal/api/auth/totp.go.
use sierx.Prelude.{
  ◌+◌, ◌≤◌, ◌∙◌, arith, length, ◌==◌, ◌≡◌, refl, sym, ap, subst, inl, inr, Bool, true, false,
  Option, none, some, List, [], ◌∷◌, Bytes, eqb_bytes, eq_of_eqb_bytes, if◌then◌else◌, Bool-cases,
  Option-cases,
}
use sierx.Prelude.Int.{ℤ}
use sierx.Prelude.Hex.{hex}
use sierx.Auth.Totp.{
  times_30, code, TotpState, Digests, clock_offsets, without, consume_code, consume_recovery,
}
use sierx.Auth.Totp.Codes.{IsSha1}
use sierx.Auth.Totp.Replay.{
  ◌<ℤ◌, Matches, Consumed, by_code, by_recovery, is_refused, consume_code-Consumed,
}

-- What is typed, when, and whether a recovery code may be.
pub record Try : Type 0 where
  pub typed : Bytes
  pub now : ℤ
  pub allow_recovery : Bool

-- An accepted text that costs no recovery code is a code of the step that it stores.
abbrev pub accepted : Try → TotpState → TotpState → Bool → List (Bytes × ℤ) → List (Bytes × ℤ)
accepted y s t false steps = steps
accepted y s t true steps =
    if length t.recovery == length s.recovery then (y.typed, t.last_step) ∷ steps else steps

-- Texts that are typed one after the other: the state at the end, and the accepted codes with their steps.
pub attempts : Digests → TotpState → List Try → Option (TotpState × List (Bytes × ℤ))
attempts p s [] = some (s, [])
attempts p s (y ∷ rest) = elim (consume_code p s y.typed y.now y.allow_recovery) [
  | none ↦ none
  | some (t, good) ↦ elim (attempts p t rest) [
    | none ↦ none
    | some (u, steps) ↦ some (u, accepted y s t good steps)
  ]
]

-- Each step is above the one before, and its code is what was typed.
abbrev pub Ascends : Digests → Bytes → ℤ → List (Bytes × ℤ) → Type 0
Ascends p secret low [] = Unit
Ascends p secret low ((typed, step) ∷ steps) =
    ((low <ℤ step) × (code p secret (times_30 step) ≡ some typed)) × Ascends p secret step steps

pub last_of : ℤ → List (Bytes × ℤ) → ℤ
last_of step [] = step
last_of step ((typed, next) ∷ steps) = last_of next steps

Matches-above :
    (p : Digests) (s : TotpState) (typed : Bytes) (step : ℤ) (offsets : List ℤ) (candidate : ℤ)
    → Matches p s typed step offsets candidate
    → (s.last_step <ℤ candidate) × (code p s.secret (times_30 candidate) ≡ some typed)
Matches-above p s typed step [] c m = elim m [ ]
Matches-above p s typed step (o ∷ os) c (inl (_, above, made)) = (above, made)
Matches-above p s typed step (o ∷ os) c (inr m) = Matches-above p s typed step os c m

some-inj : {xs ys : List Bytes} → some xs ≡ some ys → xs ≡ ys
some-inj e = cc

length-without :
    (x : Bytes) (xs : List Bytes) {ys : List Bytes}
    → without x xs ≡ some ys
    → length xs ≡ length ys + 1
unfolding without
length-without x [] e = cc
length-without x (y ∷ xs) e = elim (Bool-cases (eqb_bytes x y)) [
  | inl same ↦ ground (arith, ap (length {0}) (some-inj (rw same at e)))
  | inr differs ↦ elim (Option-cases (without x xs)) [
    | inl missing ↦ cc (rw (differs, missing) at e)
    | inr (zs, found) ↦
        ground
          (arith, length-without x xs found, ap (length {0}) (some-inj (rw (differs, found) at e)))
  ]
]

-- What a run keeps of a state, and where its last step is.
pub record IsRun (p : Digests) (s u : TotpState) (steps : List (Bytes × ℤ)) : Type 0 where
  pub ascends : Ascends p s.secret s.last_step steps
  pub last : u.last_step ≡ last_of s.last_step steps
  pub secret : u.secret ≡ s.secret
  pub active : u.active ≡ s.active
  pub fewer : length u.recovery ≤ length s.recovery

-- A state with the same secret and step is as good to start from.
Ascends-from :
    (p : Digests) {a b : Bytes} {m n : ℤ} (steps : List (Bytes × ℤ))
    → a ≡ b
    → m ≡ n
    → Ascends p a m steps
    → Ascends p b n steps
Ascends-from p {a} {b} {m} {n} steps e e' h =
    subst (λ (z : ℤ). Ascends p b z steps) e' (subst (λ (x : Bytes). Ascends p x m steps) e h)

IsRun-unchanged :
    (p : Digests) {s t u : TotpState} (steps : List (Bytes × ℤ))
    → t.secret ≡ s.secret
    → t.active ≡ s.active
    → t.last_step ≡ s.last_step
    → length t.recovery ≤ length s.recovery
    → IsRun p t u steps
    → IsRun p s u steps
IsRun-unchanged p steps es ea el le r = record {
  ascends = Ascends-from p steps es el r.ascends;
  last = r.last ∙ ap (λ z. last_of z steps) el;
  secret = r.secret ∙ es;
  active = r.active ∙ ea;
  fewer = omega (arith, r.fewer, le);
}

attempt_extends :
    (p : Digests) (s : TotpState) (y : Try) {t u : TotpState} {good : Bool}
    → Consumed p s y.typed y.now y.allow_recovery t good
    → (steps : List (Bytes × ℤ)) → IsRun p t u steps
    → IsRun p s u (accepted y s t good steps)
unfolding last_of
attempt_extends p s y {t} (by_code candidate m six e good) steps r =
    let (above, made) = Matches-above p s y.typed _ clock_offsets candidate m in
    let el : t.last_step ≡ candidate = ap (λ (x : TotpState). x.last_step) e in
    let es : t.secret ≡ s.secret = ap (λ (x : TotpState). x.secret) e in
    let er : length t.recovery ≡ length s.recovery = ap (λ (x : TotpState). length x.recovery) e in
    let same : (length t.recovery == length s.recovery) ≡ true = ground (arith, er) in
    rw (good, same)
      (record {
        ascends = ((rw el above, rw el made), Ascends-from p steps es refl r.ascends);
        last = r.last;
        secret = r.secret ∙ es;
        active = r.active ∙ ap (λ (x : TotpState). x.active) e;
        fewer = omega (arith, r.fewer, er);
      })
attempt_extends p s y {t} (by_recovery kept allowed found e good) steps r =
    let er : length t.recovery ≡ length kept = ap (λ (x : TotpState). length x.recovery) e in
    let less = length-without (hex (p.sha256 y.typed)) s.recovery found in
    let fewer : (length t.recovery == length s.recovery) ≡ false = ground (arith, er, less) in
    rw (good, fewer)
      (IsRun-unchanged p steps (ap (λ (x : TotpState). x.secret) e)
        (ap (λ (x : TotpState). x.active) e) (ap (λ (x : TotpState). x.last_step) e)
        (omega (arith, er, less)) r)
attempt_extends p s y {t} (is_refused e good) steps r = rw good (
    IsRun-unchanged p steps (ap (λ (x : TotpState). x.secret) e)
      (ap (λ (x : TotpState). x.active) e) (ap (λ (x : TotpState). x.last_step) e)
      (omega (arith, ap (λ (x : TotpState). length x.recovery) e)) r)

-- Whatever is typed and whenever, recovery codes included: consumeCode answers each time; the time steps whose codes it accepts
-- strictly ascend from the last one before, so none is accepted twice; each was typed as the code of its step; the last
-- of them is stored; and recovery codes only get fewer. (HMAC-SHA1 has 20 bytes.)
pub attempts_ascend :
    (p : Digests) (s : TotpState) (tries : List Try)
    → IsSha1 p
    → (u : TotpState) × (steps : List (Bytes × ℤ)) × (attempts p s tries ≡ some (u, steps))
      × IsRun p s u steps
unfolding attempts last_of
attempts_ascend p s [] sized = (
  s,
  [],
  refl,
  record { ascends = tt; last = refl; secret = refl; active = refl; fewer = omega arith },
)
attempts_ascend p s (y ∷ rest) sized =
    let (t, good, e, c) = consume_code-Consumed p s y.typed y.now y.allow_recovery sized in
    let (u, steps, e', r) = attempts_ascend p t rest sized in
    (u, accepted y s t good steps, rw (e, e', attempts) refl, attempt_extends p s y c steps r)

abbrev pub Absent : Bytes → List Bytes → Type 0
Absent x [] = Unit
Absent x (y ∷ ys) = (eqb_bytes x y ≡ false) × Absent x ys

abbrev pub Distinct : List Bytes → Type 0
Distinct [] = Unit
Distinct (x ∷ xs) = Absent x xs × Distinct xs

without-Absent : (x : Bytes) (xs : List Bytes) → Absent x xs → without x xs ≡ none
unfolding without
without-Absent x [] h = refl
without-Absent x (y ∷ ys) (ne, h) = rw (ne, without-Absent x ys h) refl

without_once :
    (x : Bytes) (xs : List Bytes) {ys : List Bytes}
    → Distinct xs
    → without x xs ≡ some ys
    → without x ys ≡ none
unfolding without
without_once x [] d e = cc
without_once x (y ∷ ys) (absent, d) e = elim (Bool-cases (eqb_bytes x y)) [
  | inl same ↦ rw (← some-inj (rw same at e)) (
      without-Absent x ys
        (subst (λ (z : Bytes). Absent z ys) (sym (eq_of_eqb_bytes x y same)) absent))
  | inr differs ↦ elim (Option-cases (without x ys)) [
    | inl missing ↦ cc (rw (differs, missing) at e)
    | inr (zs, found) ↦
        rw (← some-inj (rw (differs, found) at e)) (rw (differs, without_once x ys d found) refl)
  ]
]

-- A recovery code that was accepted is refused the next time, if the stored hashes differ from one another.
pub recovery_once :
    (p : Digests) (s t : TotpState) (typed : Bytes)
    → Distinct s.recovery
    → consume_recovery p s typed true ≡ (t, true)
    → consume_recovery p t typed true ≡ (t, false)
unfolding consume_recovery
recovery_once p s t typed d e = elim (Option-cases (without (hex (p.sha256 typed)) s.recovery)) [
  | inl missing ↦ cc (rw (missing) at e)
  | inr (kept, found) ↦
      let same : record s { recovery = kept } ≡ t = ap (λ x. x.0) (rw found at e) in
      subst (λ (x : TotpState). consume_recovery p x typed true ≡ (x, false)) same
        (rw (without_once (hex (p.sha256 typed)) s.recovery d found, consume_recovery) refl)
]
