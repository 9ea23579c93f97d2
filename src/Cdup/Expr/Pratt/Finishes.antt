-- ===== src/Cdup/Expr/Pratt/Finishes.antt =====
-- The parser of cdup/src/expr.py ends, and takes tokens as it goes.
use csc512_distributed_syste.Prelude.{
  ℕ, zero, suc, ◌+◌, ◌-◌, ◌*◌, ◌≤◌, ◌<◌, ◌≡◌, refl, Bool, true, false, ◌||◌, Option, none, some,
  List, [], ◌∷◌, ◌++◌, length, ◌==◌, nat_eq, if◌then◌else◌, arith, Bool-cases, inl, inr,
}
use csc512_distributed_syste.Prelude.Dict.{get, get_or}
use csc512_distributed_syste.Prelude.Text.{Text, codes, text_eq}
use csc512_distributed_syste.Cdup.Ir.{Node, Nodes}
use csc512_distributed_syste.Cdup.Expr.Tokens.{
  TokenKind, num, str, char, name, op, eof, Token, token,
}
use csc512_distributed_syste.Cdup.Expr.Parser.{
  Result, ok, failed, out_of_fuel, ◌>>=◌, lbp, binop, unop, expect, cast_parts, sizeof_texts,
  sizeof_opaque, number_node, is_float_text, nud,
}
use csc512_distributed_syste.Cdup.Expr.Pratt.{
  field_access, call, more_arguments, stops, led, parse, parse_loop, parse_arguments, enough,
}

-- The run has an outcome, and if it succeeds, fewer than `k` tokens are left.
pub data Within {ℓ} {A : Type ℓ} (k : ℕ) : Result A → Type ℓ where
  fine : {a : A} {ts : List Token} → length ts < k → Within k (ok a ts)
  fails : Within k failed

pub bind-Within {ℓ κ} :
    {A : Type ℓ} {B : Type κ} (k : ℕ) (j : ℕ) (m : Result A) (g : A → List Token → Result B)
    → Within k m
    → ((a : A) (ts : List Token) → length ts < k → Within j (g a ts))
    → Within j (m >>= g)
bind-Within k j (ok a ts) g (fine h) next = next a ts h
bind-Within k j failed g fails next = fails
bind-Within k j out_of_fuel g h next = elim h [ ]

Within-weaken {ℓ} : {A : Type ℓ} (k j : ℕ) (m : Result A) → k ≤ j → Within k m → Within j m
Within-weaken k j (ok a ts) h (fine i) = fine (omega (arith, h, i))
Within-weaken k j failed h i = fails
Within-weaken k j out_of_fuel h i = elim i [ ]

if-Within {ℓ} :
    {A : Type ℓ} (k : ℕ) (b : Bool) (x y : Result A)
    → Within k x
    → Within k y
    → Within k (if b then x else y)
if-Within k true x y h i = h
if-Within k false x y h i = i

option-Within {ℓ κ} :
    {A : Type ℓ} {B : Type κ} (k : ℕ) (o : Option B) (x : Result A) (g : B → Result A)
    → Within k x
    → ((b : B) → o ≡ some b → Within k (g b))
    → Within k (elim o [ none ↦ x | some b ↦ g b ])
option-Within k none x g h i = h
option-Within k (some b) x g h i = i b refl

expect-Within : (v : Text) (ts : List Token) → Within (length ts) (expect v ts)
unfolding expect
expect-Within v [] = fails
expect-Within v (t ∷ ts) = if-Within _ (t.text == v) _ _ (fine (omega arith)) fails

cast_parts-shorter :
    (parts : List Text) (ts : List Token) (found : Text × List Token)
    → cast_parts parts ts ≡ some found
    → length found.1 ≤ length ts
unfolding cast_parts
cast_parts-shorter parts [] found h = cc
cast_parts-shorter parts (t ∷ ts) found h =
    ground (arith, cast_parts-shorter (parts ++ t.text ∷ []) ts found)

sizeof_texts-shorter : (depth : ℕ) (ts : List Token) → length (sizeof_texts depth ts).1 ≤ length ts
unfolding sizeof_texts
sizeof_texts-shorter depth [] = omega arith
sizeof_texts-shorter depth (t ∷ ts) = ground (
  arith,
  sizeof_texts-shorter (suc depth) ts,
  sizeof_texts-shorter depth ts,
  sizeof_texts-shorter (depth - 1) ts,
)

-- What the parser keeps of the shorter lists that it reads on its way.
abbrev Reads {ℓ} : {A : Type ℓ} → ℕ → (List Token → Result A) → Type ℓ
Reads n p = (ts : List Token) → length ts ≤ n → Within (length ts) (p ts)

module _ (is_float : Text → Bool) where
  number_node-Within :
      (s : Text) (ts : List Token) → Within (suc (length ts)) (number_node is_float s ts)
  unfolding number_node
  number_node-Within s ts =
      if-Within _ (is_float_text s) _ _ (if-Within _ (is_float s) _ _ (fine (omega arith)) fails)
        (fine (omega arith))

  nud-Within-token :
      (n : ℕ) (p : ℕ → List Token → Result Node)
      → ((bp : ℕ) → Reads n (p bp))
      → (k : TokenKind) (x : Text) (ts : List Token) → length ts ≤ n
      → Within (suc (length ts)) (nud is_float p (token k x ∷ ts))
  unfolding nud sizeof_opaque
  nud-Within-token n p ih num x ts h = number_node-Within x ts
  nud-Within-token n p ih str x ts h = fine (omega arith)
  nud-Within-token n p ih char x ts h = fine (omega arith)
  nud-Within-token n p ih name x [] h =
      if-Within _ (x == codes "sizeof") _ _ fails (fine (omega arith))
  nud-Within-token n p ih name x (u ∷ us) h =
      if-Within _ (x == codes "sizeof") _ _
        (if-Within _ (u.text == codes "(") _ _ (fine (omega (arith, sizeof_texts-shorter 1 us)))
          (bind-Within _ _ _ _ (ih 100 (u ∷ us) h) λ a rest r. fine (omega arith)))
        (fine (omega arith))
  nud-Within-token n p ih op x ts h =
      if-Within _ (x == codes "(") _ _
        (option-Within _ (cast_parts [] ts) _ _
          (bind-Within _ _ _ _ (ih 0 ts h) λ a rest r.
            bind-Within _ _ _ _ (expect-Within (codes ")") rest) λ u after q. fine (omega arith))
          λ found e.
            let shorter = cast_parts-shorter [] ts found e in
            bind-Within _ _ _ _ (ih 99 found.1 (omega (arith, shorter)))
              λ a rest r. fine (omega (arith, shorter)))
        (option-Within _ (get x unop) _ _ fails
          λ o e. bind-Within _ _ _ _ (ih 99 ts h) λ a rest r. fine (omega arith))
  nud-Within-token n p ih eof x ts h = fails

  nud-Within :
      (n : ℕ) (p : ℕ → List Token → Result Node)
      → ((bp : ℕ) → Reads n (p bp))
      → Reads (suc n) (nud is_float p)
  unfolding nud
  nud-Within n p ih [] h = fails
  nud-Within n p ih (t ∷ ts) h = nud-Within-token n p ih t.kind t.text ts (omega arith)

field_access-Within :
    (left : Node) (k : TokenKind) (x : Text) (ts : List Token)
    → Within (suc (length ts)) (field_access left (token k x ∷ ts))
unfolding field_access
field_access-Within left name x ts = fine (omega arith)
field_access-Within left num x ts = fails
field_access-Within left str x ts = fails
field_access-Within left char x ts = fails
field_access-Within left op x ts = fails
field_access-Within left eof x ts = fails

field_access-Reads :
    (left : Node) (ts : List Token) → Within (suc (length ts)) (field_access left ts)
unfolding field_access
field_access-Reads left [] = fails
field_access-Reads left (t ∷ ts) =
    Within-weaken _ _ _ (omega arith) (field_access-Within left t.kind t.text ts)

call-Within :
    (n : ℕ) (q : List Token → Result Nodes) (left : Node)
    → Reads n q
    → (ts : List Token) → length ts ≤ n
    → Within (suc (length ts)) (call q left ts)
unfolding call
call-Within n q left jh [] h = fails
call-Within n q left jh (t ∷ ts) h =
    bind-Within (suc (suc (length ts))) _ _ _
      (if-Within _ (t.text == codes ")") _ _ (fine (omega arith))
        (Within-weaken _ _ _ (omega arith) (jh (t ∷ ts) h)))
      λ args rest r.
        bind-Within _ _ _ _ (expect-Within (codes ")") rest) λ v after s. fine (omega arith)

more_arguments-Within :
    (n : ℕ) (q : List Token → Result Nodes) (arg : Node) (ts : List Token) (k : ℕ)
    → length ts < k
    → ((us : List Token) → length us < length ts → Within (length us) (q us))
    → Within k (more_arguments q arg ts)
unfolding more_arguments
more_arguments-Within n q arg [] k h jh = fails
more_arguments-Within n q arg (t ∷ ts) k h jh = elim (Bool-cases (t.text == codes ",")) [
  | inl e ↦
      rw (more_arguments, e)
        (bind-Within _ _ _ _ (jh ts (omega arith)) λ args rest r. fine (omega arith))
  | inr e ↦ rw (more_arguments, e) (fine h)
]

led-Within :
    (n : ℕ) (p : ℕ → List Token → Result Node) (q : List Token → Result Nodes) (left : Node)
    → ((bp : ℕ) → Reads n (p bp))
    → Reads n q
    → Reads (suc n) (led p q left)
unfolding led
led-Within n p q left ih jh [] g = fails
led-Within n p q left ih jh (t ∷ ts) g =
    let h : length ts ≤ n = omega arith in
    option-Within _ (get t.text binop) _ _
      (if-Within _ (t.text == codes "[") _ _
        (bind-Within _ _ _ _ (ih 0 ts h) λ a rest r.
          bind-Within _ _ _ _ (expect-Within (codes "]") rest) λ u after s. fine (omega arith))
        (if-Within _ (t.text == codes "." || t.text == codes "->") _ _ (field_access-Reads left ts)
          (if-Within _ (t.text == codes "(") _ _ (call-Within n q left jh ts h) (
            if-Within _ (t.text == codes "++") _ _ (fine (omega arith))
              (if-Within _ (t.text == codes "--") _ _ (fine (omega arith)) fails)))))
      λ o e. bind-Within _ _ _ _ (ih (get_or t.text 0 lbp) ts h) λ a rest r. fine (omega arith)

module _ (is_float : Text → Bool) where
  mutual
    unfolding parse

    parse-Reads :
        (f n : ℕ) → 3 * n + 2 ≤ f → (min_bp : ℕ) → Reads n (λ us. parse is_float f min_bp us)
    parse-Reads zero n h min_bp ts g = absurd (omega arith)
    parse-Reads (suc f) n h min_bp [] g = fails
    parse-Reads (suc f) zero h min_bp (t ∷ ts) g = absurd (omega arith)
    parse-Reads (suc f) (suc n) h min_bp (t ∷ ts) g =
        bind-Within _ _ _ _
          (nud-Within is_float n (λ bp us. parse is_float f bp us)
            (λ bp. parse-Reads f n (omega arith) bp) (t ∷ ts) g)
          λ left rest r.
            Within-weaken _ _ _ (omega arith)
              (parse_loop-Within f n (omega arith) min_bp left rest (omega arith))

    parse_loop-Within :
        (f n : ℕ)
        → 3 * n + 1 ≤ f
        → (min_bp : ℕ) (left : Node) (ts : List Token) → length ts ≤ n
        → Within (suc (length ts)) (parse_loop is_float f min_bp left ts)
    parse_loop-Within zero n h min_bp left ts g = absurd (omega arith)
    parse_loop-Within (suc f) n h min_bp left [] g = fails
    parse_loop-Within (suc f) zero h min_bp left (t ∷ ts) g = absurd (omega arith)
    parse_loop-Within (suc f) (suc n) h min_bp left (t ∷ ts) g =
        elim (Bool-cases (stops min_bp t)) [
          | inl e ↦ rw (parse_loop, e) (fine (omega arith))
          | inr e ↦
              rw (parse_loop, e)
                (bind-Within _ _ _ _
                  (led-Within n (λ bp us. parse is_float f bp us)
                    (λ us. parse_arguments is_float f us) left
                    (λ bp. parse-Reads f n (omega arith) bp)
                    (parse_arguments-Reads f n (omega arith)) (t ∷ ts) g)
                  λ more rest r.
                    Within-weaken _ _ _ (omega arith)
                      (parse_loop-Within f n (omega arith) min_bp more rest (omega arith)))
        ]

    parse_arguments-Reads :
        (f n : ℕ) → 3 * n + 3 ≤ f → Reads n (λ us. parse_arguments is_float f us)
    parse_arguments-Reads zero n h ts g = absurd (omega arith)
    parse_arguments-Reads (suc f) n h ts g =
        bind-Within _ _ _ _ (parse-Reads f n (omega arith) 0 ts g) λ arg rest r.
          more_arguments-Within n (λ us. parse_arguments is_float f us) arg rest (length ts) r
            λ us k. parse_arguments-Reads f (n - 1) (omega arith) us (omega arith)

-- With fuel of three times the number of tokens and two more, the parser returns a tree or raises an
-- error, and a tree takes one token at least.
pub parse-Within :
    (is_float : Text → Bool) (min_bp : ℕ) (ts : List Token)
    → Within (length ts) (parse is_float (enough ts) min_bp ts)
unfolding enough
parse-Within is_float min_bp ts =
    parse-Reads is_float (enough ts) (length ts) (omega arith) min_bp ts (omega arith)
