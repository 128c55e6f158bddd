-- ===== src/Journal/Chain.antt =====
-- The records of a journal that load of internal/lifecycle/journal.go returns.
use sierx.Prelude.{
  ◌==◌, &&-eq-true, ||-eq-true, ◌≤◌, ap, sym, ◌∙◌, ℕ, suc, ◌+◌, ◌≡◌, refl, ◌⊎◌, inl, inr, Bool,
  true, false, List, [], ◌∷◌, ◌++◌, Bytes, length, length-append, eq_of_eqb_bytes, arith, ltb, some,
}
use sierx.Prelude.Int.{ℤ, pos, ◌+ℤ◌, eqb_ℤ}
use sierx.Prelude.Results.{
  ok, Ensures, holds, Ensures-bind, Ensures-or_fail, Ensures-guard, Ensures-eq_ok,
}
use sierx.Journal.{
  chain_data, Head, Record, Journal, Primitives, Disk, line_limit, private_file, key_file,
}
use sierx.Journal.Load.{
  open_line, Reading, lines_from, drop_cr, chains, is_saved, take_record, read_line, read_lines,
  start, is_whole, is_authentic, is_trusted, load,
}

-- Records that follow a record with this number and hash.
abbrev pub Links : Bytes → ℕ → Bytes → List Record → Type 0
Links instance_id n previous [] = Unit
Links instance_id n previous (r ∷ rs) =
    (r.instance_id ≡ instance_id)
    × (r.action.instance_id ≡ instance_id)
    × (r.sequence ≡ pos (suc n))
    × (r.previous ≡ previous)
    × Links instance_id (suc n) r.hash rs

abbrev pub last_hash : Bytes → List Record → Bytes
last_hash previous [] = previous
last_hash previous (r ∷ rs) = last_hash r.hash rs

abbrev pub Reaches : ℤ → Bytes → List Record → Type 0
Reaches sequence hash [] = ⊥
Reaches sequence hash (r ∷ rs) =
    ((r.sequence ≡ sequence) × (r.hash ≡ hash)) ⊎ Reaches sequence hash rs

pub record IsChained (instance_id : Bytes) (head : Head) (records : List Record) : Type 0 where
  pub links : Links instance_id 0 [] records
  pub counted : head.sequence ≡ pos (length records)
  pub ended : head.hash ≡ last_hash [] records
  pub owned : head.instance_id ≡ instance_id

pub eq_of_eqb_ℤ : (a b : ℤ) → eqb_ℤ a b ≡ true → a ≡ b
eq_of_eqb_ℤ a b h = ground arith

Links-append :
    (i : Bytes) (n : ℕ) (previous : Bytes) (rs : List Record) (r : Record)
    → Links i n previous rs
    → r.instance_id ≡ i
    → r.action.instance_id ≡ i
    → r.sequence ≡ pos (suc (n + length rs))
    → r.previous ≡ last_hash previous rs
    → Links i n previous (rs ++ r ∷ [])
Links-append i n previous [] r l e1 e2 e3 e4 = ground arith
Links-append i n previous (x ∷ rs) r (a, b, c, d, l) e1 e2 e3 e4 =
    (a, b, c, d, Links-append i (suc n) x.hash rs r l e1 e2 (ground arith) e4)

last_hash-append : (h : Bytes) (rs : List Record) (r : Record) → last_hash h (rs ++ r ∷ []) ≡ r.hash
last_hash-append h [] r = refl
last_hash-append h (x ∷ rs) r = last_hash-append x.hash rs r

Reaches-append :
    (q : ℤ) (h : Bytes) (rs : List Record) (r : Record)
    → Reaches q h rs ⊎ ((r.sequence ≡ q) × (r.hash ≡ h))
    → Reaches q h (rs ++ r ∷ [])
Reaches-append q h [] r (inl x) = elim x [ ]
Reaches-append q h [] r (inr e) = inl e
Reaches-append q h (x ∷ rs) r (inl (inl e)) = inl e
Reaches-append q h (x ∷ rs) r (inl (inr e)) = inr (Reaches-append q h rs r (inl e))
Reaches-append q h (x ∷ rs) r (inr e) = inr (Reaches-append q h rs r (inr e))

-- A chain has the numbers 1 to its length.
pub Reaches-le :
    (i : Bytes) (n m : ℕ) (previous hash : Bytes) (rs : List Record)
    → Links i n previous rs
    → Reaches (pos m) hash rs
    → m ≤ n + length rs
Reaches-le i n m previous hash [] l x = elim x [ ]
Reaches-le i n m previous hash (r ∷ rs) (_, _, e, _, l) (inl (e', _)) = ground arith
Reaches-le i n m previous hash (r ∷ rs) (_, _, e, _, l) (inr x) =
    omega (arith, Reaches-le i (suc n) m r.hash hash rs l x)

open_line-chains :
    (p : Primitives) (key instance_id : Bytes) (head : Head) (line : Bytes)
    → Ensures (λ r. chains instance_id head r ≡ true) (open_line p key instance_id head line)
unfolding open_line
open_line-chains p key instance_id head line = Ensures-or_fail (p.decode_envelope line) _ _ λ e _.
    Ensures-guard (length e.nonce == p.nonce_size) _ _ λ _.
      Ensures-or_fail (p.unseal key e.nonce e.ciphertext (chain_data head.instance_id head.hash)) _
        _
        λ plain _.
          Ensures-or_fail (p.decode_record plain) _ _
            λ r _. Ensures-guard (chains instance_id head r) _ _ holds

module _ (saved : Head) where
  -- The state of the loop.
  pub record IsRead (s : Reading) : Type 0 where
    pub chained : IsChained saved.instance_id s.head s.records
    pub found :
        s.matched ≡ true
        → ((saved.sequence ≡ pos 0) × (saved.hash ≡ []))
          ⊎ Reaches saved.sequence saved.hash s.records

  chains_parts :
      (head : Head) (r : Record)
      → chains saved.instance_id head r ≡ true
      → (r.instance_id ≡ saved.instance_id)
        × (r.sequence ≡ head.sequence +ℤ pos 1)
        × (r.previous ≡ head.hash)
        × (r.action.instance_id ≡ saved.instance_id)
  chains_parts head r h = ground (
    arith,
    eq_of_eqb_bytes r.instance_id saved.instance_id,
    eq_of_eqb_ℤ r.sequence (head.sequence +ℤ pos 1),
    eq_of_eqb_bytes r.previous head.hash,
    eq_of_eqb_bytes r.action.instance_id saved.instance_id,
  )

  -- The number behind that of a head.
  next_number :
      (s : Reading) (r : Record)
      → IsRead s
      → r.sequence ≡ s.head.sequence +ℤ pos 1
      → r.sequence ≡ pos (suc (0 + length s.records))
  next_number s r k e = rw (e, k.chained.counted) (ground arith)

  is_saved_parts :
      (q : ℤ) (h : Bytes) → is_saved saved q h ≡ true → (q ≡ saved.sequence) × (h ≡ saved.hash)
  is_saved_parts q h e =
      let (e1, e2) = &&-eq-true _ _ e in (eq_of_eqb_ℤ _ _ e1, eq_of_eqb_bytes _ _ e2)

  take_record-IsRead :
      (s : Reading) (r : Record) (hash : Bytes)
      → IsRead s
      → chains saved.instance_id s.head r ≡ true
      → IsRead (take_record saved s r hash)
  unfolding take_record
  take_record-IsRead s r hash k h =
      let (e1, e2, e3, e4) = chains_parts s.head r h in
      let taken : Record = record r { hash = hash } in
      let number : r.sequence ≡ pos (suc (0 + length s.records)) = next_number s r k e2 in
      record {
        chained = record {
          links =
              Links-append _ 0 [] s.records taken k.chained.links e1 e4 number
                (e3 ∙ k.chained.ended);
          counted = number ∙ ap pos (omega (arith, length-append s.records (taken ∷ [])));
          ended = sym (last_hash-append [] s.records taken);
          owned = k.chained.owned;
        };
        found = λ m. elim (||-eq-true s.matched _ m) [
          | inl old ↦ elim (k.found old) [
            | inl e ↦ inl e
            | inr x ↦ inr (Reaches-append _ _ s.records taken (inl x))
          ]
          | inr new ↦ inr (Reaches-append _ _ s.records taken (inr (is_saved_parts _ _ new)))
        ];
      }

  read_line-IsRead :
      (p : Primitives) (key : Bytes) (s : Reading) (line : Bytes)
      → IsRead s
      → Ensures IsRead (read_line p key saved s line)
  unfolding read_line
  read_line-IsRead p key s line k =
      Ensures-bind (open_line p key saved.instance_id s.head line) _ λ r e. holds (
        take_record-IsRead s r _ k
          (Ensures-eq_ok (open_line-chains p key saved.instance_id s.head line) e))

  pub read_lines-IsRead :
      (p : Primitives) (key : Bytes) (s : Reading) (lines : List Bytes)
      → IsRead s
      → Ensures IsRead (read_lines p key saved s lines)
  unfolding read_lines
  read_lines-IsRead p key s [] k = holds k
  read_lines-IsRead p key s (line ∷ lines) k = Ensures-guard (ltb (length line) line_limit) _ _ λ _.
      Ensures-bind (read_line p key saved s (drop_cr line)) _ λ t e.
        read_lines-IsRead p key t lines
          (Ensures-eq_ok (read_line-IsRead p key s (drop_cr line) k) e)

  start-IsRead : IsRead (start saved)
  start-IsRead = record {
    chained = record { links = tt; counted = refl; ended = refl; owned = refl };
    found = λ m.
        inl (ground (arith, eq_of_eqb_ℤ saved.sequence (pos 0), eq_of_eqb_bytes saved.hash []));
  }

-- What the checkpoint that was read says of the journal.
pub record Trusts (p : Primitives) (d : Disk) (checkpoint : Bytes) (allow_tail : Bool) (j : Journal)
    : Type 0 where
  pub saved : Head
  pub stored : Bytes
  pub read : private_file (d checkpoint) ≡ ok stored
  pub decoded : p.decode_head stored ≡ some saved
  pub authentic : is_authentic p j.key saved ≡ true
  pub chained : IsChained saved.instance_id j.head j.records
  pub reached :
      ((saved.sequence ≡ pos 0) × (saved.hash ≡ [])) ⊎ Reaches saved.sequence saved.hash j.records
  pub exact : allow_tail ≡ false → (j.head.sequence ≡ saved.sequence) × (j.head.hash ≡ saved.hash)

-- If a journal is loaded or recovered, then the checkpoint is authentic under the key, the records are numbered from 1,
-- each names the hash of the one before and the instance of the checkpoint, the head is the last one's number and
-- hash, and the checkpoint's record is among them, so that no record up to it is missing; when no tail is allowed the
-- checkpoint is the head.
pub load-Trusts :
    (p : Primitives) (d : Disk) (path key_path checkpoint : Bytes) (allow_tail : Bool)
    → Ensures (Trusts p d checkpoint allow_tail) (load p d path key_path checkpoint allow_tail)
unfolding load
load-Trusts p d path key_path checkpoint allow_tail =
    Ensures-bind (key_file (d key_path)) _ λ key _.
      Ensures-bind (private_file (d checkpoint)) _ λ hb e1.
        Ensures-or_fail (p.decode_head hb) _ _ λ saved e2.
          Ensures-guard (is_authentic p key saved) _ _ λ authentic.
            Ensures-bind (private_file (d path)) _ λ content _.
              Ensures-bind (read_lines p key saved (start saved) (lines_from [] content)) _ λ s e3.
                Ensures-guard (is_whole content) _ _ λ _.
                  Ensures-guard (is_trusted allow_tail saved s) _ _ λ trusted.
                    let k : IsRead saved s =
                      Ensures-eq_ok
                        (read_lines-IsRead saved p key (start saved) (lines_from [] content)
                          (start-IsRead saved))
                        e3 in
                    holds (record {
                      saved = saved;
                      stored = hb;
                      read = e1;
                      decoded = e2;
                      authentic = authentic;
                      chained = k.chained;
                      reached = k.found ((&&-eq-true _ _ trusted).0);
                      exact = λ none. ground (
                        arith,
                        eq_of_eqb_ℤ s.head.sequence saved.sequence,
                        eq_of_eqb_bytes s.head.hash saved.hash,
                      );
                    })
