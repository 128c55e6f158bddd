-- ===== src/Journal/Examples/Toy.antt =====
-- Primitives for the examples, with the documented behaviour. A line begins with `n` bytes that say nothing.
use sierx.Prelude.{
  ℕ, zero, suc, ◌+◌, ◌%◌, ◌≤◌, ◌≡◌, refl, true, Option, none, some, List, [], ◌∷◌, ◌++◌, Bytes,
  codes, eqb_bytes, eqb_bytes_refl, length, length-append, All, All-append, replicate, append_assoc,
  arith, if◌then◌else◌,
}
use sierx.Prelude.Int.{ℤ, pos, negsuc}
use sierx.Journal.{Action, Head, Record, Envelope, Primitives}
use sierx.Journal.Laws.{action_texts, Documented, IsInt64, IsText}
use sierx.Journal.Examples.Codec.{
  put_bytes, get_bytes, get-put_bytes, put_int, get_int, get-put_int, put_action, get_action,
  get-put_action, shifted,
}

unfoldable pub put_head : Head → Bytes
unfolding put_bytes put_int
put_head h =
    put_bytes h.instance_id ++ (put_int h.sequence ++ (put_bytes h.hash ++ (put_bytes h.mac ++ [])))

get_head : Bytes → Option Head
unfolding get_bytes get_int
get_head s = elim (get_bytes s) [
  | none ↦ none
  | some (i, s1) ↦ elim (get_int s1) [
    | none ↦ none
    | some (n, s2) ↦ elim (get_bytes s2) [
      | none ↦ none
      | some (h, s3) ↦ elim (get_bytes s3) [
        | none ↦ none
        | some (m, s4) ↦ some (record { instance_id = i; sequence = n; hash = h; mac = m })
      ]
    ]
  ]
]

unfoldable pub put_record : Record → Bytes
unfolding put_bytes put_int put_action
put_record r =
    put_bytes r.instance_id ++ (put_int r.sequence ++ (put_bytes r.previous ++ put_action r.action))

get_record : Bytes → Option Record
unfolding get_bytes get_int get_action
get_record s = elim (get_bytes s) [
  | none ↦ none
  | some (i, s1) ↦ elim (get_int s1) [
    | none ↦ none
    | some (n, s2) ↦ elim (get_bytes s2) [
      | none ↦ none
      | some (q, s3) ↦ elim (get_action s3) [
        | none ↦ none
        | some a ↦
            some (record { instance_id = i; sequence = n; previous = q; action = a; hash = [] })
      ]
    ]
  ]
]

-- `n` bytes before a line.
unfoldable pub pad : ℕ → Bytes → Bytes
pad zero s = s
pad (suc n) s = 32 ∷ pad n s

pub unpad : ℕ → Bytes → Bytes
unpad zero s = s
unpad (suc n) [] = []
unpad (suc n) (x ∷ s) = unpad n s

unpad-pad : (n : ℕ) (s : Bytes) → unpad n (pad n s) ≡ s
unfolding pad unpad
unpad-pad zero s = refl
unpad-pad (suc n) s = unpad-pad n s

pub length-pad : (n : ℕ) (s : Bytes) → length (pad n s) ≡ n + length s
unfolding pad
length-pad zero s = omega arith
length-pad (suc n) s = omega (arith, length-pad n s)

unfoldable pub put_envelope : Envelope → Bytes
unfolding put_bytes
put_envelope e = put_bytes e.nonce ++ (put_bytes e.ciphertext ++ [])

get_envelope : Bytes → Option Envelope
unfolding get_bytes
get_envelope s = elim (get_bytes s) [
  | none ↦ none
  | some (n, s1) ↦ elim (get_bytes s1) [
    | none ↦ none
    | some (b, s2) ↦ some (record { nonce = n; ciphertext = b })
  ]
]

open_sealed : Bytes → Bytes → Option Bytes
unfolding get_bytes
open_sealed extra s = elim (get_bytes s) [
  | none ↦ none
  | some (x, plain) ↦ if eqb_bytes x extra then some plain else none
]

unfoldable pub toy : ℕ → Primitives
unfolding put_head get_head put_record get_record put_envelope get_envelope open_sealed
toy n = record {
  encode_record = λ r. some (put_record r);
  decode_record = get_record;
  encode_envelope = λ e. pad n (put_envelope e);
  decode_envelope = λ s. get_envelope (unpad n s);
  encode_head = put_head;
  decode_head = get_head;
  nonce_size = 12;
  seal = λ key nonce plain extra. put_bytes extra ++ plain;
  unseal = λ key nonce b extra. open_sealed extra b;
  sha256 = λ b. replicate 32 (length b % 256);
  hmac = λ k b. replicate 32 (length b % 256);
  verification_path = λ s. s ++ codes ".verification";
}

get-put_record : (r : Record) → get_record (put_record r) ≡ some (record r { hash = [] })
unfolding get_record put_record
get-put_record r =
    rw
      (
        get-put_bytes r.instance_id _,
        get-put_int r.sequence _,
        get-put_bytes r.previous _,
        get-put_action r.action,
        get_record,
      )
      refl

get-put_head : (h : Head) (t : Bytes) → get_head (put_head h ++ t) ≡ some h
unfolding get_head put_head
get-put_head h t =
    rw
      (
        append_assoc (put_bytes h.instance_id)
            (put_int h.sequence ++ (put_bytes h.hash ++ (put_bytes h.mac ++ []))) t,
        append_assoc (put_int h.sequence) (put_bytes h.hash ++ (put_bytes h.mac ++ [])) t,
        append_assoc (put_bytes h.hash) (put_bytes h.mac ++ []) t,
        append_assoc (put_bytes h.mac) [] t,
      )
      (rw
        (
          get-put_bytes h.instance_id _,
          get-put_int h.sequence _,
          get-put_bytes h.hash _,
          get-put_bytes h.mac _,
          get_head,
        )
        refl)

get-put_envelope : (e : Envelope) → get_envelope (put_envelope e) ≡ some e
unfolding get_envelope put_envelope
get-put_envelope e = rw (get-put_bytes e.nonce _, get-put_bytes e.ciphertext [], get_envelope) refl

shifted-printed : (s : Bytes) → All (λ c. 32 ≤ c) (shifted s)
shifted-printed [] = tt
shifted-printed (x ∷ s) = (omega arith, shifted-printed s)

pad-printed : (n : ℕ) (s : Bytes) → All (λ c. 32 ≤ c) s → All (λ c. 32 ≤ c) (pad n s)
unfolding pad
pad-printed zero s h = h
pad-printed (suc n) s h = (omega arith, pad-printed n s h)

put_bytes-printed : (s : Bytes) → All (λ c. 32 ≤ c) (put_bytes s)
unfolding put_bytes
put_bytes-printed s = (omega arith, shifted-printed s)

length-shifted : (s : Bytes) → length (shifted s) ≡ length s
length-shifted [] = refl
length-shifted (x ∷ s) = omega (arith, length-shifted s)

pub length-put_bytes : (s : Bytes) → length (put_bytes s) ≡ suc (length s)
unfolding put_bytes
length-put_bytes s = omega (arith, length-shifted s)

length-put_int : (z : ℤ) → length (put_int z) ≡ 2
unfolding put_int
length-put_int (pos n) = refl
length-put_int (negsuc n) = refl

length-put_head :
    (h : Head) → length (put_head h) ≡ 5 + length h.instance_id + length h.hash + length h.mac
unfolding put_head
length-put_head h = omega (
  arith,
  length-append (put_bytes h.instance_id)
      (put_int h.sequence ++ (put_bytes h.hash ++ (put_bytes h.mac ++ []))),
  length-append (put_int h.sequence) (put_bytes h.hash ++ (put_bytes h.mac ++ [])),
  length-append (put_bytes h.hash) (put_bytes h.mac ++ []),
  length-append (put_bytes h.mac) [],
  length-put_bytes h.instance_id,
  length-put_bytes h.hash,
  length-put_bytes h.mac,
  length-put_int h.sequence,
)

open-sealed : (plain extra : Bytes) → open_sealed extra (put_bytes extra ++ plain) ≡ some plain
unfolding open_sealed
open-sealed plain extra =
    rw (get-put_bytes extra plain, open_sealed) (rw (eqb_bytes_refl extra) refl)

length-replicate : (n : ℕ) (x : ℕ) → length (replicate n x) ≡ n
length-replicate zero x = refl
length-replicate (suc n) x = omega (arith, length-replicate n x)

put_envelope-printed : (e : Envelope) → All (λ c. 32 ≤ c) (put_envelope e)
unfolding put_envelope
put_envelope-printed e =
    All-append _ (put_bytes e.nonce) _ (put_bytes-printed e.nonce)
      (All-append _ (put_bytes e.ciphertext) [] (put_bytes-printed e.ciphertext) tt)

pub toy-Documented : (n : ℕ) → Documented (toy n)
unfolding toy
toy-Documented n = record {
  valid = λ s. true;
  valid_hex = λ b. refl;
  record_kept = λ r t. (put_record r, refl, get-put_record r);
  envelope_kept = λ e. rw (unpad-pad n (put_envelope e)) (get-put_envelope e);
  envelope_printed = λ e. pad-printed n (put_envelope e) (put_envelope-printed e);
  head_kept = λ h _ _ _ _. get-put_head h (10 ∷ []);
  head_short = λ h i1 i2 i3 _. omega (arith, length-put_head h);
  seal_kept = λ key nonce plain extra _. open-sealed plain extra;
  length-sha256 = λ b. length-replicate 32 (length b % 256);
  length-hmac = λ k b. length-replicate 32 (length b % 256);
}

-- Every string counts as UTF-8.
pub toy-valid : (n : ℕ) (s : Bytes) → (toy-Documented n).valid s ≡ true
unfolding toy-Documented
toy-valid n s = refl

All-toy : (n : ℕ) (xs : List Bytes) → All (λ s. (toy-Documented n).valid s ≡ true) xs
All-toy n [] = tt
All-toy n (x ∷ xs) = (toy-valid n x, All-toy n xs)

pub toy-IsText : (n : ℕ) (a : Action) → IsInt64 a.event_seq → IsText (toy-Documented n).valid a
toy-IsText n a h = (All-toy n (action_texts a), h)
