-- ===== src/Paging/Tokens.antt =====
-- EncodeCursor and DecodeCursor of internal/api/cursor.go against one another.
use sierx.Prelude.{
  ℕ, Bool, All, zero, suc, ◌+◌, ◌-◌, ◌<◌, ◌≤◌, ◌≡◌, ◌≢◌, refl, ap, sym, ◌∙◌, true, false, not, some,
  List, [], ◌∷◌, ◌++◌, Bytes, eqb_bytes, eqb_bytes_refl, eq_of_eqb_bytes, length, length-append,
  ltb, arith, &&-eq-true,
}
use sierx.Prelude.Int.{pos}
use sierx.Prelude.Results.{
  ok, or_fail, Ensures, holds, Ensures-or_fail, Ensures-guard, bind-value, or_fail-eq-ok, ok-inj,
}
use sierx.Sxq.Utf8.{valid_utf8}
use sierx.Journal.Chain.{eq_of_eqb_ℤ}
use sierx.Paging.{
  Cursor, TokenCode, PageError, front, back, encode_cursor, decode_cursor, is_for, is_empty,
}

-- The texts of a cursor and of the values of its sort key are UTF-8; encoding/json replaces other bytes.
pub record IsUtf8 {V : Type 0} (valid_value : V → Bool) (c : Cursor V) : Type 0 where
  pub after : valid_utf8 c.after ≡ true
  pub upper : valid_utf8 c.upper ≡ true
  pub scope : valid_utf8 c.scope ≡ true
  pub at_text : valid_utf8 c.at ≡ true
  pub sort : All (λ v. valid_value v ≡ true) c.sort

-- base64 is read back, and so is a cursor in JSON whose texts are UTF-8, though the decoder keeps a number of the sort key as
-- its text; a digest has 32 bytes.
pub record IsTokenCode {V : Type 0} (t : TokenCode V) : Type 0 where
  pub valid_value : V → Bool
  pub read_sort : List V → List V
  pub decode-marshal :
      (c : Cursor V) {raw : Bytes}
      → IsUtf8 valid_value c
      → t.marshal c ≡ some raw
      → t.decode raw ≡ some (record c { sort = read_sort c.sort })
  pub marshalled : (c : Cursor V) {raw : Bytes} → t.marshal c ≡ some raw → 0 < length raw
  pub of-to_base64 : (b : Bytes) → t.of_base64 (t.to_base64 b) ≡ some b
  pub mac_size : (key raw : Bytes) → length (t.mac key raw) ≡ 32

front-append : (s t : Bytes) → front (length s) (s ++ t) ≡ s
front-append [] t = refl
front-append (c ∷ s) t = ap (λ x. c ∷ x) (front-append s t)

back-append : (s t : Bytes) → back (length s) (s ++ t) ≡ t
back-append [] t = refl
back-append (c ∷ s) t = back-append s t

front-back : (n : ℕ) (s : Bytes) → front n s ++ back n s ≡ s
front-back zero s = refl
front-back (suc n) [] = refl
front-back (suc n) (c ∷ s) = ap (λ x. c ∷ x) (front-back n s)

is_empty-eq_false : (s : Bytes) → s ≢ [] → is_empty s ≡ false
is_empty-eq_false [] h = absurd (h refl)
is_empty-eq_false (c ∷ s) h = refl

module _ {V : Type 0} (t : TokenCode V) (h : IsTokenCode t) where
  decode_signed :
      (token key scope raw : Bytes) {c : Cursor V}
      → length token ≤ 8192
      → t.of_base64 token ≡ some (raw ++ t.mac key raw)
      → 0 < length raw
      → t.decode raw ≡ some c
      → is_for scope c ≡ true
      → decode_cursor t token key scope ≡ ok c
  unfolding decode_cursor
  decode_signed token key scope raw {c} short read some_raw decoded fits =
      let size : length (raw ++ t.mac key raw) ≡ length raw + 32 =
        length-append raw (t.mac key raw) ∙ ap (λ n. length raw + n) (h.mac_size key raw) in
      let cut : length (raw ++ t.mac key raw) - 32 ≡ length raw = ground (arith, size) in
      let fits_length : ltb 8192 (length token) ≡ false = ground (arith, short) in
      let long : ltb 32 (length (raw ++ t.mac key raw)) ≡ true = ground (arith, size, some_raw) in
      rw (
        fits_length,
        read,
        long,
        cut,
        back-append raw (t.mac key raw),
        front-append raw (t.mac key raw),
        eqb_bytes_refl (t.mac key raw),
        decoded,
        fits,
      )

  -- A token of at most 8,192 bytes is decoded, under the key and scope it was made with, to the cursor that it was made of,
  -- with version 1 and its sort key as JSON gives it back. (The cursor has a position and an
  -- upper bound, and its texts are UTF-8.)
  pub decode-encode_cursor :
      (c : Cursor V) (key token : Bytes)
      → encode_cursor t c key ≡ ok token
      → length token ≤ 8192
      → c.after ≢ []
      → c.upper ≢ []
      → IsUtf8 h.valid_value c
      → decode_cursor t token key c.scope
        ≡ ok (record c { version = pos 1; sort = h.read_sort c.sort })
  unfolding encode_cursor
  decode-encode_cursor c key token made short some_after some_upper utf8 =
      let (raw, read, last) =
        bind-value (or_fail (t.marshal (record c { version = pos 1 })) PageError.not_encoded) _
          made in
      let marshalled : t.marshal (record c { version = pos 1 }) ≡ some raw =
        or_fail-eq-ok _ _ read in
      let numbered : IsUtf8 h.valid_value (record c { version = pos 1 }) = record {
        after = utf8.after;
        upper = utf8.upper;
        scope = utf8.scope;
        at_text = utf8.at_text;
        sort = utf8.sort;
      } in
      let token_is : t.to_base64 (raw ++ t.mac key raw) ≡ token = ok-inj last in
      decode_signed token key c.scope raw short (ap t.of_base64 (sym token_is) ∙ h.of-to_base64 _)
        (h.marshalled _ marshalled) (h.decode-marshal _ numbered marshalled)
        (rw
          (eqb_bytes_refl c.scope, is_empty-eq_false _ some_after, is_empty-eq_false _ some_upper))

module _ {V : Type 0} (t : TokenCode V) where
  is_for-eq-true :
      (scope : Bytes) (c : Cursor V)
      → is_for scope c ≡ true
      → (c.version ≡ pos 1) × (c.scope ≡ scope)
  is_for-eq-true scope c fits =
      let (fits_3, _) = &&-eq-true _ _ fits in
      let (fits_2, _) = &&-eq-true _ _ fits_3 in
      let (v, s) = &&-eq-true _ _ fits_2 in (eq_of_eqb_ℤ _ _ v, eq_of_eqb_bytes _ _ s)

  -- What is decoded was signed with the key.
  pub data IsGenuine (token key scope : Bytes) (c : Cursor V) : Type 0 where
    genuine :
        (raw : Bytes)
        → t.of_base64 token ≡ some (raw ++ t.mac key raw)
        → t.decode raw ≡ some c
        → c.version ≡ pos 1
        → c.scope ≡ scope
        → IsGenuine token key scope c

  -- A cursor is decoded only from bytes that were signed with the key, and only for its own scope.
  pub decode_cursor-IsGenuine :
      (token key scope : Bytes)
      → Ensures (IsGenuine token key scope) (decode_cursor t token key scope)
  unfolding decode_cursor
  decode_cursor-IsGenuine token key scope = Ensures-guard (not (ltb 8192 (length token))) _ _ λ _.
      Ensures-or_fail (t.of_base64 token) _ _ λ raw e. Ensures-guard (ltb 32 (length raw)) _ _ λ _.
        Ensures-guard
          (eqb_bytes (back (length raw - 32) raw) (t.mac key (front (length raw - 32) raw))) _ _
          λ signed. Ensures-or_fail (t.decode (front (length raw - 32) raw)) _ _ λ c d.
            Ensures-guard (is_for scope c) _ _ λ fits.
              let (v, s) = is_for-eq-true scope c fits in
              holds (
                genuine (front (length raw - 32) raw)
                  (e
                    ∙ ap some (
                        sym (front-back _ raw)
                        ∙ ap (λ m. front (length raw - 32) raw ++ m) (eq_of_eqb_bytes _ _ signed)))
                  d v s)
