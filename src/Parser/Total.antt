-- ===== src/Parser/Total.antt =====
-- The parser ends on every list of tokens that has an end-of-file token: it reads no token behind
-- that one, and the fuel of parse is enough.
pub mod Expressions
pub mod Clauses
pub mod Statements
use my_database_engine.Common.{
  ℕ, zero, suc, ◌+◌, ◌≤◌, ◌<◌, ◌≡◌, ◌⊎◌, inl, inr, refl, Bool, true, false, List, [], ◌∷◌, Text,
  arith, length, if◌then◌else◌, Bool-cases,
}
use my_database_engine.Lexer.{TokenType, Token, end_of_file}
use my_database_engine.Parser.{
  Parsed, parsed, rejects, undefined, out_of_fuel, Parser, and_then, same_type, is_end, ordinal,
  advance, match_type, expect, take_token, peek, check,
}

abbrev pub HasEnd : List Token → Type 0
HasEnd [] = ⊥
HasEnd (t ∷ ts) = (is_end t ≡ true) ⊎ HasEnd ts

-- The parser has thrown, or it has left fewer tokens than `n`, with an end-of-file token.
abbrev pub Within {ℓ} : {A : Type ℓ} → ℕ → Parsed A → Type 0
Within n (parsed a ts) = HasEnd ts × (length ts < n)
Within n (rejects e) = Unit
Within n undefined = ⊥
Within n out_of_fuel = ⊥

module _ {ℓ κ} {A : Type ℓ} {B : Type κ} where
  pub Within-and_then :
      (n m : ℕ) (r : Parsed A) (f : A → Parser B)
      → Within n r
      → ((a : A) (ts : List Token) → HasEnd ts → length ts < n → Within m (f a ts))
      → Within m (and_then r f)
  Within-and_then n m (parsed a ts) f h k = k a ts h.0 h.1
  Within-and_then n m (rejects e) f h k = tt
  Within-and_then n m undefined f h k = absurd h
  Within-and_then n m out_of_fuel f h k = absurd h

pub Within-le {ℓ} : {A : Type ℓ} (n m : ℕ) (r : Parsed A) → n ≤ m → Within n r → Within m r
Within-le n m (parsed a ts) le h = (h.0, omega (arith, h.1))
Within-le n m (rejects e) le h = tt
Within-le n m undefined le h = h
Within-le n m out_of_fuel le h = h

-- A token that is not the last one is passed.
pub advance-HasEnd :
    (t : Token) (ts : List Token)
    → HasEnd (t ∷ ts)
    → is_end t ≡ false
    → (advance (t ∷ ts) ≡ ts) × HasEnd ts
unfolding advance
advance-HasEnd t ts (inl e) h = absurd (cc (e, h))
advance-HasEnd t ts (inr k) h = (rw h refl, k)

pub take_token-Within :
    (t : Token) (ts : List Token)
    → HasEnd (t ∷ ts)
    → is_end t ≡ false
    → Within (suc (length ts)) (take_token (t ∷ ts))
unfolding take_token
take_token-Within t ts h k =
    let passed = advance-HasEnd t ts h k in rw passed.0 (passed.1, omega arith)

pub match_type-Within :
    (type : TokenType) (ts : List Token)
    → same_type end_of_file type ≡ false
    → HasEnd ts
    → Within (suc (length ts)) (match_type type ts)
unfolding match_type
match_type-Within type [] ne h = h
match_type-Within type (t ∷ ts) ne h = elim (Bool-cases (same_type t.type type)) [
  | inl e ↦
      let passed = advance-HasEnd t ts h (ground arith) in
      rw (match_type, e, passed.0) (passed.1, omega arith)
  | inr e ↦ rw (match_type, e) (h, omega arith)
]

pub expect-Within :
    (type : TokenType) (msg : Text) (ts : List Token)
    → same_type end_of_file type ≡ false
    → HasEnd ts
    → Within (length ts) (expect type msg ts)
unfolding expect
expect-Within type msg [] ne h = absurd h
expect-Within type msg (t ∷ ts) ne h = elim (Bool-cases (same_type t.type type)) [
  | inl e ↦
      let passed = advance-HasEnd t ts h (ground arith) in
      rw (expect, e, passed.0) (passed.1, omega arith)
  | inr e ↦ rw (expect, e) tt
]

pub Within-if {ℓ} :
    {A : Type ℓ} (n : ℕ) (b : Bool) (p q : Parser A) (ts : List Token)
    → Within n (p ts)
    → Within n (q ts)
    → Within n ((if b then p else q) ts)
Within-if n true p q ts h k = h
Within-if n false p q ts h k = k

pub Within-branch {ℓ} :
    {A : Type ℓ} (n : ℕ) (b : Bool) (p q : Parsed A)
    → Within n p
    → Within n q
    → Within n (if b then p else q)
Within-branch n true p q h k = h
Within-branch n false p q h k = k
