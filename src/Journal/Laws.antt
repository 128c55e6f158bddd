-- ===== src/Journal/Laws.antt =====
-- What internal/lifecycle/journal.go relies on in encoding/json and crypto, and reading and writing one line.
use sierx.Journal.Chain.{eq_of_eqb_ℤ}
use sierx.Prelude.{
  ||-true, eq_of_eqb_bytes, ℕ, ◌^◌, ◌<◌, ◌≤◌, ◌≡◌, refl, ap, sym, ◌∙◌, Bool, true, ◌||◌, List, [],
  ◌∷◌, ◌++◌, Bytes, eqb_bytes_refl, length, All, some, arith, ltb, get_last?, append_assoc,
  append-nil, inl, inr, Option-cases, Bool-cases,
}
use sierx.Prelude.Int.{ℤ, pos, pos_part, neg_part}
use sierx.Prelude.Results.{
  Ensures, holds, Ensures-bind, Ensures-guard, Ensures-eq_ok, ok, ◌>>=◌, Result-cases, bind-value,
  >>-eq-ok,
}
use sierx.Prelude.Hex.{hex}
use sierx.Journal.{Action, Head, Record, Envelope, Primitives, file_limit, line_limit}
use sierx.Journal.Load.{
  open_line, start, Reading, lines_from, drop_cr, is_saved, take_record, read_line, read_lines,
}

abbrev pub IsInt64 : ℤ → Type 0
IsInt64 z = (pos_part z < 2 ^ 63) × (neg_part z ≤ 2 ^ 63)

abbrev pub action_texts : Action → List Bytes
action_texts a =
    (a.kind ∷ a.case_ref ∷ a.workspace_id ∷ a.target_id ∷ a.replacement_id ∷ a.authority_ref
      ∷ a.review_at ∷ a.cutoff ∷ a.correction ∷ a.at ∷ a.instance_id ∷ a.workspace_origin ∷ [])
    ++ (a.item_ids ++ (a.comment_ids ++ a.view_ids))

-- Every string is UTF-8, so that encoding/json keeps it.
abbrev pub IsText : (Bytes → Bool) → Action → Type 0
IsText valid a = All (λ s. valid s ≡ true) (action_texts a) × IsInt64 a.event_seq

abbrev pub IsRecordText : (Bytes → Bool) → Record → Type 0
IsRecordText valid r =
    (valid r.instance_id ≡ true)
    × IsInt64 r.sequence
    × (valid r.previous ≡ true)
    × IsText valid r.action

-- Marshalling and reading back texts; JSON without control characters; decryption with the same key, nonce and
-- associated data; the lengths of digests. `valid` is utf8.Valid.
pub record Documented (p : Primitives) : Type 0 where
  pub valid : Bytes → Bool
  pub valid_hex : (b : Bytes) → valid (hex b) ≡ true
  pub record_kept :
      (r : Record)
      → IsRecordText valid r
      → (b : Bytes) × (p.encode_record r ≡ some b)
        × (p.decode_record b ≡ some (record r { hash = [] }))
  pub envelope_kept : (e : Envelope) → p.decode_envelope (p.encode_envelope e) ≡ some e
  pub envelope_printed : (e : Envelope) → All (λ c. 32 ≤ c) (p.encode_envelope e)
  pub head_kept :
      (h : Head)
      → valid h.instance_id ≡ true
      → valid h.hash ≡ true
      → valid h.mac ≡ true
      → IsInt64 h.sequence
      → p.decode_head (p.encode_head h ++ 10 ∷ []) ≡ some h
  pub head_short :
      (h : Head)
      → length h.instance_id ≤ 36
      → length h.hash ≤ 64
      → length h.mac ≤ 64
      → IsInt64 h.sequence
      → length (p.encode_head h) < file_limit
  pub seal_kept :
      (key nonce plain extra : Bytes)
      → length nonce ≡ p.nonce_size
      → p.unseal key nonce (p.seal key nonce plain extra) extra ≡ some plain
  pub length-sha256 : (b : Bytes) → length (p.sha256 b) ≡ 32
  pub length-hmac : (k b : Bytes) → length (p.hmac k b) ≡ 32

-- A file with whole lines only.
pub data IsWhole : Bytes → Type 0 where
  no_line : IsWhole []
  lines : (s t : Bytes) → t ≡ s ++ 10 ∷ [] → IsWhole t

lines_from-newline :
    (cur s t : Bytes)
    → lines_from cur (s ++ 10 ∷ t) ≡ lines_from cur (s ++ 10 ∷ []) ++ lines_from [] t
unfolding lines_from
lines_from-newline cur [] t = refl
lines_from-newline cur (c ∷ s) t =
    ground (arith, lines_from-newline (cur ++ c ∷ []) s t, lines_from-newline [] s t)

lines_from-printed :
    (cur b : Bytes) → All (λ c. 32 ≤ c) b → lines_from cur (b ++ 10 ∷ []) ≡ (cur ++ b) ∷ []
unfolding lines_from
lines_from-printed cur [] h = ap (λ l. l ∷ []) (sym (append-nil cur))
lines_from-printed cur (c ∷ b) (le, h) =
    ground (arith, lines_from-printed (cur ++ c ∷ []) b h, append_assoc cur (c ∷ []) b)

-- A line behind whole lines is read as one more line.
pub lines_from-append :
    (content b : Bytes)
    → IsWhole content
    → All (λ c. 32 ≤ c) b
    → lines_from [] (content ++ (b ++ 10 ∷ [])) ≡ lines_from [] content ++ b ∷ []
unfolding lines_from
lines_from-append content b no_line h = lines_from-printed [] b h
lines_from-append content b (lines s t e) h =
    rw (e, append_assoc s (10 ∷ []) (b ++ 10 ∷ []))
      (lines_from-newline [] s (b ++ 10 ∷ [])
        ∙ ap (λ l. lines_from [] (s ++ 10 ∷ []) ++ l) (lines_from-printed [] b h))

get_last?-printed : (b : Bytes) {c : ℕ} → All (λ c. 32 ≤ c) b → get_last? b ≡ some c → 32 ≤ c
get_last?-printed [] h e = cc
get_last?-printed (x ∷ []) (le, _) e = ground arith
get_last?-printed (x ∷ y ∷ b) (_, h) e = get_last?-printed (y ∷ b) h e

pub drop_cr-printed : (b : Bytes) → All (λ c. 32 ≤ c) b → drop_cr b ≡ b
unfolding drop_cr
drop_cr-printed b h = elim (Option-cases (get_last? b)) [
  | inl e ↦ rw (e, drop_cr) refl
  | inr (c, e) ↦ rw (e, drop_cr) (ground (arith, get_last?-printed b h e))
]

module _ (p : Primitives) (key : Bytes) where
  -- Reading does not depend on the checkpoint, apart from its instance.
  read_line_other :
      (saved other : Head) (t u : Reading) (m : Bool) (line : Bytes)
      → other.instance_id ≡ saved.instance_id
      → read_line p key saved t line ≡ ok u
      → read_line p key other (record t { matched = m }) line
        ≡ ok (record u { matched = m || is_saved other u.head.sequence u.head.hash })
  unfolding read_line take_record
  read_line_other saved other t u m line same h = ground arith

  pub read_lines_other :
      (saved other : Head) (t u : Reading) (m : Bool) (ls : List Bytes)
      → other.instance_id ≡ saved.instance_id
      → read_lines p key saved t ls ≡ ok u
      → (m' : Bool) × (read_lines p key other (record t { matched = m }) ls
          ≡ ok (record u { matched = m' }))
  unfolding read_lines
  read_lines_other saved other t u m [] same h = (m, ground arith)
  read_lines_other saved other t u m (l ∷ ls) same h =
      let (short, h1) = >>-eq-ok (ltb (length l) line_limit) _ _ h in
      let (v, first, rest) = bind-value (read_line p key saved t (drop_cr l)) _ h1 in
      let (m', e) =
        read_lines_other saved other v u (m || is_saved other v.head.sequence v.head.hash) ls same
          rest in
      (m', rw (short, read_line_other saved other t v m (drop_cr l) same first) e)

  pub read_lines-append :
      (saved : Head) (t : Reading) (ls ms : List Bytes)
      → read_lines p key saved t (ls ++ ms)
        ≡ (read_lines p key saved t ls >>= λ u. read_lines p key saved u ms)
  unfolding read_lines
  read_lines-append saved t [] ms = refl
  read_lines-append saved t (l ∷ ls) ms = elim (Bool-cases (ltb (length l) line_limit)) [
    | inr long ↦ rw long refl
    | inl short ↦ elim (Result-cases (read_line p key saved t (drop_cr l))) [
      | inl (u, e) ↦ rw (short, e) (read_lines-append saved u ls ms)
      | inr (x, e) ↦ rw (short, e) refl
    ]
  ]

  -- Once the checkpoint's record is found, it stays found.
  pub read_line-matched :
      (saved : Head) (t u : Reading) (line : Bytes)
      → t.matched ≡ true
      → read_line p key saved t line ≡ ok u
      → u.matched ≡ true
  unfolding read_line take_record
  read_line-matched saved t u line m h = ground arith

-- At the checkpoint's record the loop has found it.
abbrev pub Finds : Head → Reading → Type 0
Finds saved t = is_saved saved t.head.sequence t.head.hash ≡ true → t.matched ≡ true

module _ (p : Primitives) (key : Bytes) (saved : Head) where
  read_line-Finds :
      (t : Reading) (line : Bytes) → Ensures (Finds saved) (read_line p key saved t line)
  unfolding read_line take_record
  read_line-Finds t line =
      Ensures-bind (open_line p key saved.instance_id t.head line) _
        λ r _. holds λ e. ||-true t.matched e

  read_lines-Finds :
      (t : Reading) (ls : List Bytes)
      → Finds saved t
      → Ensures (Finds saved) (read_lines p key saved t ls)
  unfolding read_lines
  read_lines-Finds t [] f = holds f
  read_lines-Finds t (l ∷ ls) f = Ensures-guard (ltb (length l) line_limit) _ _ λ _.
      Ensures-bind (read_line p key saved t (drop_cr l)) _
        λ u e. read_lines-Finds u ls (Ensures-eq_ok (read_line-Finds t (drop_cr l)) e)

  start-Finds : Finds saved (start saved)
  start-Finds e =
      ground (
        arith,
        eq_of_eqb_bytes [] saved.hash,
        eqb_bytes_refl [],
        eq_of_eqb_ℤ (pos 0) saved.sequence,
      )

  -- A loop that ends at the checkpoint has found it.
  pub read_lines-matched :
      (ls : List Bytes) (u : Reading)
      → read_lines p key saved (start saved) ls ≡ ok u
      → is_saved saved u.head.sequence u.head.hash ≡ true
      → u.matched ≡ true
  read_lines-matched ls u e = Ensures-eq_ok (read_lines-Finds (start saved) ls start-Finds) e
