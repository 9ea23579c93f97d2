-- ===== src/Cdup/Expr/Tokens/Lossless.antt =====
-- The tokens of a text are the text without its blanks.
use csc512_distributed_syste.Prelude.{
  ℕ, zero, suc, ◌≤◌, ◌≡◌, refl, ap, sym, Bool, true, false, ◌||◌, List, [], ◌∷◌, ◌++◌, length,
  length-append, ◌==◌, if◌then◌else◌, arith, Bool-cases, inl, inr, nat_eq, member,
}
use csc512_distributed_syste.Prelude.Text.{Text, text_eq}
use csc512_distributed_syste.Cdup.Slots.{is_alpha, is_digit, is_word}
use csc512_distributed_syste.Cdup.Expr.Tokens.{
  TokenKind, eof, str, char, num, name, Token, token, is_blank_code, quoted, span, is_number_code,
  starts_fraction, with_kind, after, operator_token, next_token, two_char_ops, tokenize_loop,
  tokenize,
}

-- The text is the tokens' texts one after the other, with blanks before, between and after them, and
-- the tokens end in the one that marks the end. No other token is empty.
pub data Spaced : List Token → Text → Type 0 where
  done : Spaced (token eof [] ∷ []) []
  blank :
      {c : ℕ} {s : Text} {ts : List Token}
      → is_blank_code c ≡ true
      → Spaced ts s
      → Spaced ts (c ∷ s)
  word :
      {c : ℕ} {s rest : Text} {ts : List Token} (t : Token)
      → t.text ++ rest ≡ c ∷ s
      → length rest ≤ length s
      → Spaced ts rest
      → Spaced (t ∷ ts) (c ∷ s)

quoted-append : (q : ℕ) (s : Text) → (quoted q s).0 ++ (quoted q s).1 ≡ s
unfolding quoted
quoted-append q [] = refl
quoted-append q (c ∷ []) = refl
quoted-append q (c ∷ d ∷ s) = ground (arith, quoted-append q s, quoted-append q (d ∷ s))

span-append : (p : ℕ → Bool) (s : Text) → (span p s).0 ++ (span p s).1 ≡ s
unfolding span
span-append p [] = refl
span-append p (c ∷ s) = ground (arith, span-append p s)

-- What a token and the rest of the text satisfy: together they are the text, and the rest is shorter.
record IsCut (c : ℕ) (s : Text) (cut : Token × Text) : Type 0 where
  whole : cut.0.text ++ cut.1 ≡ c ∷ s
  shorter : length cut.1 ≤ length s

length_cut : (w rest s : Text) → w ++ rest ≡ s → length rest ≤ length s
length_cut w rest s h = rw (sym h) (omega (arith, length-append {0} w rest))

after-IsCut : (k : TokenKind) (c q : ℕ) (s : Text) → IsCut c s (with_kind k (after c (quoted q s)))
after-IsCut k c q s = record {
  whole = ap (λ w. c ∷ w) (quoted-append q s);
  shorter = length_cut (quoted q s).0 (quoted q s).1 s (quoted-append q s);
}

span-IsCut :
    (k : TokenKind) (p : ℕ → Bool) (c : ℕ) (s : Text)
    → p c ≡ true
    → IsCut c s (with_kind k (span p (c ∷ s)))
unfolding span
span-IsCut k p c s h = rw h (record {
  whole = ap (λ w. c ∷ w) (span-append p s);
  shorter = length_cut (span p s).0 (span p s).1 s (span-append p s);
})

operator_token-IsCut : (c : ℕ) (s : Text) → IsCut c s (operator_token c s)
unfolding operator_token
operator_token-IsCut c [] = record { whole = refl; shorter = omega arith }
operator_token-IsCut c (d ∷ s) = elim (Bool-cases (member (c ∷ d ∷ []) two_char_ops)) [
  | inl h ↦ rw h (record { whole = refl; shorter = omega arith })
  | inr h ↦ rw h (record { whole = refl; shorter = omega arith })
]

number_start :
    (c : ℕ) (s : Text) → is_digit c || starts_fraction c s ≡ true → is_number_code c ≡ true
unfolding is_number_code starts_fraction member
number_start c [] h = ground arith
number_start c (d ∷ s) h = ground arith

word_start : (c : ℕ) → is_alpha c ≡ true → is_word c ≡ true
unfolding is_word
word_start c h = ground arith

if-IsCut :
    (c : ℕ) (s : Text) (b : Bool) (x y : Token × Text)
    → (b ≡ true → IsCut c s x)
    → (b ≡ false → IsCut c s y)
    → IsCut c s (if b then x else y)
if-IsCut c s true x y h k = h refl
if-IsCut c s false x y h k = k refl

next_token-IsCut : (c : ℕ) (s : Text) → IsCut c s (next_token c s)
unfolding next_token
next_token-IsCut c s =
    if-IsCut c s (c == b'"') _ _ (λ h. after-IsCut str c c s)
      λ h.
        if-IsCut c s (c == b'\'') _ _ (λ h. after-IsCut char c c s)
          λ h.
            if-IsCut c s (is_digit c || starts_fraction c s) _ _
              (λ h. span-IsCut num is_number_code c s (number_start c s h))
              λ h.
                if-IsCut c s (is_alpha c) _ _ (λ h. span-IsCut name is_word c s (word_start c h))
                  λ h. operator_token-IsCut c s

tokenize_loop-Spaced : (fuel : ℕ) (s : Text) → length s ≤ fuel → Spaced (tokenize_loop fuel s) s
unfolding tokenize_loop
tokenize_loop-Spaced fuel [] h = done
tokenize_loop-Spaced zero (c ∷ s) h = absurd (omega arith)
tokenize_loop-Spaced (suc fuel) (c ∷ s) h = elim (Bool-cases (is_blank_code c)) [
  | inl b ↦ rw b (blank b (tokenize_loop-Spaced fuel s (omega arith)))
  | inr b ↦
      let cut = next_token-IsCut c s in
      rw b (
        word (next_token c s).0 cut.whole cut.shorter
          (tokenize_loop-Spaced fuel (next_token c s).1 (omega (arith, cut.shorter))))
]

-- The tokens of any text are the text cut into pieces, in order: nothing but blanks is left out, no
-- token is empty but the one that marks the end, and the scan reaches the end.
pub tokenize-Spaced : (src : Text) → Spaced (tokenize src) src
unfolding tokenize
tokenize-Spaced src = tokenize_loop-Spaced (length src) src (omega arith)
