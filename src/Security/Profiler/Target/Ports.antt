-- ===== src/Security/Profiler/Target/Ports.antt =====
-- The ports that `_detect_exposed_ports` of security_toolkit/src/core/profiler.py reads.
use csc512_distributed_syste.Prelude.{
  ℕ, zero, suc, ◌+◌, ◌/◌, ◌%◌, ◌<◌, ◌≡◌, refl, ap, sym, ◌∙◌, Bool, true, false, not, Option, none,
  some, List, [], ◌∷◌, ◌++◌, map, all, append_assoc, append-nil, ltb, leb, nat_eq, arith,
  Bool-cases, inl, inr,
}
use csc512_distributed_syste.Prelude.Sort.{sorted}
use csc512_distributed_syste.Prelude.Text.{Text, is_space, decimal, decimal_digits}
use csc512_distributed_syste.Security.Profiler.Target.{
  World, close_word, split_from, is_digit, digits_from, leading_number, token_ports,
  detect_exposed_ports, profile_target, ports_of,
}

digits_from-decimal :
    (fuel n : ℕ) (rest : Text)
    → n < fuel
    → digits_from 0 (decimal_digits fuel n ++ rest) ≡ digits_from n rest
unfolding decimal_digits digits_from is_digit
digits_from-decimal zero n rest h = absurd (omega (arith, h))
digits_from-decimal (suc fuel) n rest h = elim (Bool-cases (ltb n 10)) [
  | inl e ↦
      let digit : is_digit (48 + n) ≡ true = unfold is_digit in ground (arith, e) in
      rw (e, digit) (ap (λ k. digits_from k rest) (omega arith))
  | inr e ↦
      let digit : is_digit (48 + n % 10) ≡ true = unfold is_digit in ground (arith) in
      rw (e, append_assoc)
        (digits_from-decimal fuel (n / 10) ((48 + n % 10) ∷ rest) (ground (arith, h, e))
          ∙ rw digit (ap (λ k. digits_from k rest) (omega arith)))
]

-- A number begins with a digit, and has no blank.
digit_first :
    (fuel n : ℕ)
    → n < fuel
    → (c : ℕ) × (s : Text) × (decimal_digits fuel n ≡ c ∷ s) × (is_digit c ≡ true)
unfolding decimal_digits is_digit
digit_first zero n h = absurd (omega (arith, h))
digit_first (suc fuel) n h = elim (Bool-cases (ltb n 10)) [
  | inl e ↦ (48 + n, [], rw e refl, ground (arith, e))
  | inr e ↦
      let (c, s, p, d) = digit_first fuel (n / 10) (ground (arith, h, e)) in
      (c, s ++ (48 + n % 10) ∷ [], rw (e, p) refl, d)
]

abbrev no_space : Text → Bool
no_space = all (λ c. not (is_space c))

no_space-append : (s t : Text) → no_space s ≡ true → no_space t ≡ true → no_space (s ++ t) ≡ true
unfolding all
no_space-append [] t h k = k
no_space-append (c ∷ s) t h k = ground (arith, h, no_space-append s t, k)

no_space-decimal : (fuel n : ℕ) → no_space (decimal_digits fuel n) ≡ true
unfolding decimal_digits all is_space
no_space-decimal zero n = refl
no_space-decimal (suc fuel) n = elim (Bool-cases (ltb n 10)) [
  | inl e ↦ rw e (ground (arith, e))
  | inr e ↦ rw e (
      no_space-append (decimal_digits fuel (n / 10)) _ (no_space-decimal fuel (n / 10))
        (ground arith))
]

split_from-cons :
    (word : Text) (c : ℕ) (s : Text)
    → is_space c ≡ false
    → split_from word (c ∷ s) ≡ split_from (word ++ c ∷ []) s
unfolding split_from
split_from-cons word c s e = rw e refl

split_from-word :
    (word s rest : Text)
    → no_space s ≡ true
    → split_from word (s ++ b' ' ∷ rest) ≡ close_word (word ++ s) (split_from [] rest)
unfolding split_from all is_space
split_from-word word [] rest h = ap (λ w. close_word w (split_from [] rest)) (sym (append-nil word))
split_from-word word (c ∷ s) rest h = elim (Bool-cases (is_space c)) [
  | inl e ↦ absurd (ground (arith, e, h))
  | inr e ↦
      split_from-cons word c (s ++ b' ' ∷ rest) e
      ∙ split_from-word (word ++ c ∷ []) s rest (ground (arith, h))
      ∙ ap (λ w. close_word w (split_from [] rest)) (append_assoc word (c ∷ []) s)
]

-- What the template of `docker inspect` prints for exposed ports: `80/tcp 53/udp `, and a line feed.
abbrev pub printed : List (ℕ × Text) → Text
printed [] = 10 ∷ []
printed ((n, protocol) ∷ ports) = (decimal n ++ b'/' ∷ protocol) ++ b' ' ∷ printed ports

abbrev token_of : ℕ × Text → Text
token_of p = decimal p.0 ++ b'/' ∷ p.1

leading_number-cons :
    (c : ℕ) (s : Text) → is_digit c ≡ true → leading_number (c ∷ s) ≡ some (digits_from 0 (c ∷ s))
unfolding leading_number
leading_number-cons c s d = rw d refl

digits_from-token_of : (p : ℕ × Text) → digits_from 0 (token_of p) ≡ p.0
unfolding decimal digits_from is_digit
digits_from-token_of p = digits_from-decimal (suc p.0) p.0 (b'/' ∷ p.1) (omega arith)

leading_number-digit :
    (t : Text)
    → (c : ℕ) × (s : Text) × (t ≡ c ∷ s) × (is_digit c ≡ true)
    → leading_number t ≡ some (digits_from 0 t)
leading_number-digit t (c, s, e, d) =
    ap leading_number e ∙ leading_number-cons c s d ∙ ap (λ u. some (digits_from 0 u)) (sym e)

digit_first-token_of :
    (p : ℕ × Text) → (c : ℕ) × (s : Text) × (token_of p ≡ c ∷ s) × (is_digit c ≡ true)
unfolding decimal
digit_first-token_of p =
    let (c, s, e, d) = digit_first (suc p.0) p.0 (omega arith) in
    (c, s ++ b'/' ∷ p.1, ap (λ t. t ++ b'/' ∷ p.1) e, d)

leading_number-token_of : (p : ℕ × Text) → leading_number (token_of p) ≡ some p.0
leading_number-token_of p =
    leading_number-digit (token_of p) (digit_first-token_of p) ∙ ap some (digits_from-token_of p)

close_word-token_of :
    (p : ℕ × Text) (words : List Text) → close_word (token_of p) words ≡ token_of p ∷ words
unfolding close_word decimal
close_word-token_of p words =
    let (c, s, e, d) = digit_first (suc p.0) p.0 (omega arith) in rw e refl

no_space-token_of : (p : ℕ × Text) → no_space p.1 ≡ true → no_space (token_of p) ≡ true
unfolding decimal all is_space
no_space-token_of p h =
    no_space-append (decimal_digits (suc p.0) p.0) (b'/' ∷ p.1) (no_space-decimal (suc p.0) p.0)
      (ground (arith, h))

split_from-printed :
    (ports : List (ℕ × Text))
    → all (λ p. no_space p.1) ports ≡ true
    → split_from [] (printed ports) ≡ map token_of ports
unfolding all
split_from-printed [] h = unfold split_from close_word is_space in refl
split_from-printed (p ∷ ports) h =
    split_from-word [] (token_of p) (printed ports) (no_space-token_of p (ground (arith, h)))
    ∙ close_word-token_of p (split_from [] (printed ports))
    ∙ ap (λ ws. token_of p ∷ ws) (split_from-printed ports (ground (arith, h)))

token_ports-token_of :
    (ports : List (ℕ × Text)) → token_ports (map token_of ports) ≡ map (λ p. p.0) ports
unfolding token_ports
token_ports-token_of [] = refl
token_ports-token_of (p ∷ ports) =
    ap
      (λ o. elim o [
        | none ↦ token_ports (map token_of ports)
        | some n ↦ n ∷ token_ports (map token_of ports)
      ])
      (leading_number-token_of p)
    ∙ ap (λ ns. p.0 ∷ ns) (token_ports-token_of ports)

-- Where `docker inspect` prints the ports that an image exposes, each with a slash and a protocol without
-- blanks, the profile of the image lists exactly their numbers, in ascending order.
pub ports_of-profile_target :
    (w : World) (image : Text) (url : Option Text) (ports : List (ℕ × Text))
    → w.inspect image ≡ some (printed ports)
    → all (λ p. no_space p.1) ports ≡ true
    → ports_of (profile_target w none (some image) none url) ≡ sorted leb (map (λ p. p.0) ports)
unfolding profile_target detect_exposed_ports
ports_of-profile_target w image url ports e h =
    ap (λ o. elim o [ none ↦ [] | some output ↦ sorted leb (token_ports (split_from [] output)) ]) e
    ∙ ap (λ ws. sorted leb (token_ports ws)) (split_from-printed ports h)
    ∙ ap (sorted leb) (token_ports-token_of ports)
