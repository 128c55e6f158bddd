-- ===== src/Paging/Examples.antt =====
-- Cursors at concrete inputs: the stand-in for JSON writes fields with their lengths, and base64 changes nothing.
use sierx.Prelude.{
  ℕ, true, zero, suc, ◌+◌, ◌≤◌, ◌<◌, ◌≡◌, ◌≢◌, refl, Option, none, some, List, [], ◌∷◌, ◌++◌, Bytes,
  codes, length, replicate, arith,
}
use sierx.Prelude.Int.{ℤ, pos, negsuc}
use sierx.Prelude.Results.{ok, err, Ensures}
use sierx.Journal.Examples.Codec.{put_list, get_list, get-put_list, put_int, get_int, get-put_int}
use sierx.Paging.{
  Cursor, TokenCode, encode_cursor, decode_cursor, page_limit, bad_limit, no_offset, one_each,
}
use sierx.Paging.Tokens.{
  IsUtf8, IsTokenCode, IsGenuine, decode-encode_cursor, decode_cursor-IsGenuine,
}

marshal_cursor : Cursor Bytes → Bytes
marshal_cursor c =
    put_int c.version ++ (put_list (c.after ∷ c.upper ∷ c.scope ∷ c.at ∷ c.sort) ++ [])

cursor_of : ℤ → List Bytes → Option (Cursor Bytes)
cursor_of v (a ∷ u ∷ sc ∷ t ∷ xs) =
    some (record { version = v; after = a; sort = xs; upper = u; scope = sc; at = t })
cursor_of v _ = none

unmarshal_cursor : Bytes → Option (Cursor Bytes)
unfolding cursor_of
unmarshal_cursor s = elim (get_int s) [
  | none ↦ none
  | some (v, s1) ↦ elim (get_list s1) [ none ↦ none | some (xs, s2) ↦ cursor_of v xs ]
]

unmarshal-marshal_cursor : (c : Cursor Bytes) → unmarshal_cursor (marshal_cursor c) ≡ some c
unfolding unmarshal_cursor marshal_cursor
unmarshal-marshal_cursor c =
    rw
      (
        get-put_int c.version _,
        get-put_list (c.after ∷ c.upper ∷ c.scope ∷ c.at ∷ c.sort) [],
        unmarshal_cursor,
      )
      refl

put_int_some : (v : ℤ) (s : Bytes) → 0 < length (put_int v ++ s)
unfolding put_int
put_int_some (pos n) s = omega arith
put_int_some (negsuc n) s = omega arith

tokens : TokenCode Bytes
unfolding marshal_cursor unmarshal_cursor
tokens = record {
  marshal = λ c. some (marshal_cursor c);
  decode = unmarshal_cursor;
  to_base64 = λ b. b;
  of_base64 = λ b. some b;
  mac = λ key raw. replicate 32 (length key + length raw);
}

read_back :
    (c : Cursor Bytes) {raw : Bytes} → marshal_cursor c ≡ raw → unmarshal_cursor raw ≡ some c
read_back c e = rw (← e) (unmarshal-marshal_cursor c)

some_bytes : (c : Cursor Bytes) {raw : Bytes} → marshal_cursor c ≡ raw → 0 < length raw
unfolding marshal_cursor
some_bytes c e = rw (← e) (put_int_some c.version _)

tokens-IsTokenCode : IsTokenCode tokens
unfolding tokens
tokens-IsTokenCode = record {
  read_sort = λ xs. xs;
  valid_value = λ v. true;
  decode-marshal = λ c u e. read_back c cc;
  marshalled = λ c e. some_bytes c cc;
  of-to_base64 = λ b. refl;
  mac_size = λ key raw. refl;
}

abbrev page_two : Cursor Bytes
page_two = record {
  version = pos 0;
  after = codes "id-9";
  sort = codes "a" ∷ [];
  upper = codes "id-80";
  scope = codes "items";
  at = codes "now";
}

token : Bytes
unfolding marshal_cursor tokens encode_cursor
token =
    marshal_cursor (record page_two { version = pos 1 })
    ++ replicate 32 (3 + length (marshal_cursor (record page_two { version = pos 1 })))

token_short : length token ≤ 8192
unfolding token put_int put_list
token_short = omega arith

page_two-IsUtf8 : IsUtf8 (λ (v : Bytes). true) page_two
unfolding sierx.Sxq.Utf8.valid_utf8
page_two-IsUtf8 = record {
  after = refl;
  upper = refl;
  scope = refl;
  at_text = refl;
  sort = (refl, tt);
}

decode-encode_cursor_example :
    decode_cursor tokens token (codes "key") (codes "items")
    ≡ ok (record page_two { version = pos 1 })
unfolding tokens token encode_cursor tokens-IsTokenCode
decode-encode_cursor_example =
    decode-encode_cursor tokens tokens-IsTokenCode page_two (codes "key") token refl token_short
      (λ e. cc) (λ e. cc) page_two-IsUtf8

decode_cursor-IsGenuine_example :
    Ensures
      (IsGenuine tokens token (codes "key") (codes "items"))
      (decode_cursor tokens token (codes "key") (codes "items"))
decode_cursor-IsGenuine_example = decode_cursor-IsGenuine tokens token (codes "key") (codes "items")

limits :
    (page_limit ((codes "limit", codes "+200" ∷ []) ∷ []) ≡ ok (pos 200))
    × (page_limit ((codes "limit", codes "201" ∷ []) ∷ []) ≡ err bad_limit)
    × (page_limit ((codes "limit", codes "-1" ∷ []) ∷ []) ≡ err bad_limit)
    × (page_limit ((codes "limit", codes "1" ∷ codes "2" ∷ []) ∷ []) ≡ err one_each)
    × (page_limit ((codes "offset", codes "3" ∷ []) ∷ []) ≡ err no_offset)
    × (page_limit ((codes "limit", codes "99999999999999999999" ∷ []) ∷ []) ≡ err bad_limit)
    × (page_limit [] ≡ ok (pos 50))
unfolding page_limit sierx.Prelude.eqb_bytes
limits = (refl, refl, refl, refl, refl, refl, refl)
