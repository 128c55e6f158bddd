-- ===== src/Auth/Totp/Replay.antt =====
-- What consumeCode of internal/api/auth/totp.go answers and leaves.
use sierx.Prelude.{
  ◌+◌, ◌<◌, ◌≡◌, refl, sym, ap, ◌∙◌, ◌⊎◌, inl, inr, Bool, true, false, Option, none, some, List, [],
  ◌∷◌, Bytes, eqb_bytes, eq_of_eqb_bytes, length, ◌==◌, arith, Bool-cases, Option-cases,
}
use sierx.Prelude.Int.{ℤ, pos_part, neg_part, ◌+ℤ◌, ltb_ℤ}
use sierx.Prelude.Hex.{hex}
use sierx.Auth.Totp.{
  TotpState, Digests, quot_30, times_30, code, matching_step, without, consume_recovery,
  clock_offsets, consume_code,
}
use sierx.Auth.Totp.Codes.{IsSha1, code_total}

infix 50 ◌<ℤ◌
abbrev pub ◌<ℤ◌ : ℤ → ℤ → Type 0
a <ℤ b = pos_part a + neg_part b < pos_part b + neg_part a

module _ (p : Digests) (state : TotpState) (typed : Bytes) where
  -- A step that matches: above the last one, one of the candidates, and with the code that was typed.
  abbrev pub Matches : ℤ → List ℤ → ℤ → Type 0
  Matches step [] candidate = ⊥
  Matches step (offset ∷ offsets) candidate =
      ((candidate ≡ step +ℤ offset)
        × (state.last_step <ℤ candidate)
        × (code p state.secret (times_30 candidate) ≡ some typed))
      ⊎ Matches step offsets candidate

  abbrev Stops : Option (Option ℤ) → ℤ → List ℤ → Type 0
  Stops r step offsets =
      (r ≡ some none)
      ⊎ ((candidate : ℤ) × (r ≡ some (some candidate)) × Matches step offsets candidate)

  skipped :
      (step offset : ℤ) (offsets : List ℤ) {r : Option (Option ℤ)}
      → Stops r step offsets
      → Stops r step (offset ∷ offsets)
  skipped step offset offsets (inl e) = inl e
  skipped step offset offsets (inr (c, e, m)) = inr (c, e, inr m)

  matching_step_lem :
      (step : ℤ) (offsets : List ℤ)
      → IsSha1 p
      → Stops (matching_step p state typed step offsets) step offsets
  unfolding matching_step
  matching_step_lem step [] sized = inl refl
  matching_step_lem step (offset ∷ offsets) sized =
      let candidate : ℤ = step +ℤ offset in
      let (c, _, made, _, _) = code_total p state.secret (times_30 candidate) sized in
      let later = matching_step_lem step offsets sized in
      elim (Bool-cases (ltb_ℤ state.last_step candidate)) [
        | inr old ↦ rw old (skipped step offset offsets later)
        | inl new ↦ elim (Bool-cases (eqb_bytes typed c)) [
          | inr differs ↦ rw (new, made, differs) (skipped step offset offsets later)
          | inl same ↦
              rw (new, made, same)
                (inr (
                  candidate,
                  refl,
                  inl (refl, ground arith, made ∙ ap some (sym (eq_of_eqb_bytes typed c same))),
                ))
        ]
      ]

  -- What consumeCode says and leaves.
  pub data Consumed (now : ℤ) (allow_recovery : Bool) : TotpState → Bool → Type 0 where
    by_code :
        {t : TotpState} {good : Bool} (candidate : ℤ)
        → Matches (quot_30 now) clock_offsets candidate
        → length typed ≡ 6
        → t ≡ record state { last_step = candidate }
        → good ≡ true
        → Consumed now allow_recovery t good
    by_recovery :
        {t : TotpState} {good : Bool} (kept : List Bytes)
        → allow_recovery ≡ true
        → without (hex (p.sha256 typed)) state.recovery ≡ some kept
        → t ≡ record state { recovery = kept }
        → good ≡ true
        → Consumed now allow_recovery t good
    is_refused :
        {t : TotpState} {good : Bool}
        → t ≡ state
        → good ≡ false
        → Consumed now allow_recovery t good

  consume_recovery-Consumed :
      (now : ℤ) (allow_recovery : Bool)
      → let r = consume_recovery p state typed allow_recovery in Consumed now allow_recovery r.0 r.1
  unfolding consume_recovery
  consume_recovery-Consumed now false = is_refused refl refl
  consume_recovery-Consumed now true =
      elim (Option-cases (without (hex (p.sha256 typed)) state.recovery)) [
        | inl e ↦ rw (e, consume_recovery) (is_refused refl refl)
        | inr (kept, e) ↦ rw (e, consume_recovery) (by_recovery kept refl e refl refl)
      ]

  pub consume_code-Consumed :
      (now : ℤ) (allow_recovery : Bool)
      → IsSha1 p
      → (t : TotpState) × (good : Bool) × (consume_code p state typed now allow_recovery
          ≡ some (t, good))
        × Consumed now allow_recovery t good
  unfolding consume_code
  consume_code-Consumed now allow_recovery sized =
      let recovered = consume_recovery-Consumed now allow_recovery in
      elim (Bool-cases (length typed == 6)) [
        | inr other ↦ (_, _, rw (other) refl, recovered)
        | inl six ↦ elim (matching_step_lem (quot_30 now) clock_offsets sized) [
          | inl e ↦ (_, _, rw (six, e, consume_code) refl, recovered)
          | inr (candidate, e, m) ↦ (
            record state { last_step = candidate },
            true,
            rw (six, e, consume_code) refl,
            by_code candidate m (ground arith) refl refl,
          )
        ]
      ]
