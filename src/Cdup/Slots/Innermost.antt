-- ===== src/Cdup/Slots/Innermost.antt =====
-- A name resolves to the slot of the innermost scope that has it, and to slots of the index only.
use mathlib.Core.List.{reverse-append}
use csc512_distributed_syste.Prelude.{
  ℕ, ◌≡◌, refl, ap, sym, ◌∙◌, subst, if◌then◌else◌, Bool, true, false, not, Option, none, some,
  List, [], ◌∷◌, ◌++◌, map-append, member, all, arith, ◌==◌, inl, inr, Bool-cases, nat_eq,
  nat_beq→eq,
}
use csc512_distributed_syste.Prelude.Text.{Text, codes, text_eq, split_at, join_by, add_to_first}
use csc512_distributed_syste.Cdup.Ir.{Node, Nodes, name, slot, const, op, nil, cons, Extra}
use csc512_distributed_syste.Cdup.Slots.{
  prefixes, scopes, within, resolve_in, NameForm, static_index, dynamic_index, plain, name_form,
  resolve_form, resolve_slot, dotted_slot, resolve_expr, resolve_args,
}

-- The text has no dot.
abbrev pub is_dot_free : Text → Bool
is_dot_free = all (λ c. not (c == b'.'))

split_at-ne-nil : (s : Text) → (w : Text) × (ws : List Text) × (split_at b'.' s ≡ w ∷ ws)
unfolding split_at
split_at-ne-nil [] = ([], [], refl)
split_at-ne-nil (c ∷ s) =
    let (w, ws, e) = split_at-ne-nil s in
    elim (Bool-cases (c == b'.')) [
      | inl h ↦ ([], split_at b'.' s, rw h)
      | inr h ↦ (c ∷ w, ws, rw (h, e))
    ]

split_at_dot_free : (s : Text) → is_dot_free s ≡ true → split_at b'.' s ≡ s ∷ []
unfolding split_at all
split_at_dot_free [] h = refl
split_at_dot_free (c ∷ s) h = elim (Bool-cases (c == b'.')) [
  | inl e ↦ absurd (ground arith)
  | inr e ↦ rw (e, split_at_dot_free s (ground arith))
]

add_to_first-append :
    (c : ℕ) (s w : Text) (t : Text) (ws : List Text)
    → split_at b'.' s ≡ t ∷ ws
    → add_to_first c (split_at b'.' s ++ w ∷ []) ≡ add_to_first c (split_at b'.' s) ++ w ∷ []
unfolding add_to_first
add_to_first-append c s w t ws e = rw e

split_at-within :
    (s w : Text) → is_dot_free w ≡ true → split_at b'.' (within s w) ≡ split_at b'.' s ++ w ∷ []
unfolding split_at
split_at-within [] w h = rw (split_at_dot_free w h)
split_at-within (c ∷ s) w h =
    let (t, ws, e) = split_at-ne-nil s in
    elim (Bool-cases (c == b'.')) [
      | inl d ↦ rw (d, split_at-within s w h)
      | inr d ↦ rw (d, split_at-within s w h) (add_to_first-append c s w t ws e)
    ]

join_by-add_to_first :
    (c : ℕ) (w : Text) (ws : List Text)
    → join_by b'.' (add_to_first c (w ∷ ws)) ≡ c ∷ join_by b'.' (w ∷ ws)
unfolding join_by add_to_first
join_by-add_to_first c w [] = refl
join_by-add_to_first c w (v ∷ ws) = refl

join_by-empty :
    (v : Text) (ws : List Text) → join_by b'.' ([] ∷ v ∷ ws) ≡ b'.' ∷ join_by b'.' (v ∷ ws)
unfolding join_by
join_by-empty v ws = refl

-- `".".join(s.split("."))` is `s`.
pub join_by-split_at : (s : Text) → join_by b'.' (split_at b'.' s) ≡ s
unfolding split_at
join_by-split_at [] = unfold join_by in refl
join_by-split_at (c ∷ s) =
    let (t, ws, e) = split_at-ne-nil s in
    let joined : join_by b'.' (t ∷ ws) ≡ s = rw e at (join_by-split_at s) in
    elim (Bool-cases (c == b'.')) [
      | inl d ↦
          rw (d, e)
            (join_by-empty t ws
              ∙ ap (λ u. b'.' ∷ u) joined
              ∙ ap (λ k. k ∷ s) (sym (nat_beq→eq c b'.' d)))
      | inr d ↦ rw (d, e) (join_by-add_to_first c t ws ∙ ap (λ u. c ∷ u) joined)
    ]

prefixes-snoc :
    (ws : List Text) (w : Text) → prefixes (ws ++ w ∷ []) ≡ prefixes ws ++ (ws ++ w ∷ []) ∷ []
unfolding prefixes
prefixes-snoc [] w = refl
prefixes-snoc (v ∷ ws) w = rw (prefixes-snoc ws w, map-append)

-- The innermost candidate is the scope itself; the others are the candidates of its parent.
scopes-within :
    (path w : Text) → is_dot_free w ≡ true → scopes (within path w) ≡ within path w ∷ scopes path
unfolding scopes
scopes-within path w h =
    rw (split_at-within path w h, prefixes-snoc (split_at b'.' path) w, map-append, reverse-append)
      (ap (λ u. u ∷ scopes path)
        (ap (join_by b'.') (sym (split_at-within path w h)) ∙ join_by-split_at (within path w)))

-- A scope path: a name, or a name within a scope.
data IsPath : Text → Type 0 where
  root : {s : Text} → is_dot_free s ≡ true → IsPath s
  nested : (p w : Text) → IsPath p → is_dot_free w ≡ true → IsPath (within p w)

IsPath-dot : {s : Text} → IsPath s → IsPath (b'.' ∷ s)
unfolding all
IsPath-dot (root h) = nested [] _ (root refl) h
IsPath-dot (nested p w s h) = nested (b'.' ∷ p) w (IsPath-dot s) h

IsPath-cons : {s : Text} (c : ℕ) → c == b'.' ≡ false → IsPath s → IsPath (c ∷ s)
unfolding all
IsPath-cons c d (root h) = root (rw d h)
IsPath-cons c d (nested p w s h) = nested (c ∷ p) w (IsPath-cons c d s) h

IsPath-any : (s : Text) → IsPath s
unfolding all
IsPath-any [] = root refl
IsPath-any (c ∷ s) = elim (Bool-cases (c == b'.')) [
  | inl d ↦ subst (λ k. IsPath (k ∷ s)) (sym (nat_beq→eq c b'.' d)) (IsPath-dot (IsPath-any s))
  | inr d ↦ IsPath-cons c d (IsPath-any s)
]

scopes_root : (s : Text) → is_dot_free s ≡ true → scopes s ≡ s ∷ []
unfolding scopes prefixes join_by
scopes_root s h = rw (split_at_dot_free s h) refl

-- What a name stands for, seen from a scope: the slot of the scope itself, and else what it stands for
-- seen from the scope around it, and nothing if there is none around it.
pub data Resolves (n : Text) (slot_index : List Text) : Text → Option Text → Type 0 where
  here :
      {scope : Text}
      → member (within scope n) slot_index ≡ true
      → Resolves n slot_index scope (some (within scope n))
  nowhere :
      {scope : Text}
      → is_dot_free scope ≡ true
      → member (within scope n) slot_index ≡ false
      → Resolves n slot_index scope none
  outside :
      (around w : Text) {found : Option Text}
      → is_dot_free w ≡ true
      → member (within (within around w) n) slot_index ≡ false
      → Resolves n slot_index around found
      → Resolves n slot_index (within around w) found

resolve_in-first :
    (n : Text) (slot_index : List Text) (scope : Text) (rest : List Text) (b : Bool)
    → member (within scope n) slot_index ≡ b
    → resolve_in n slot_index (scope ∷ rest)
      ≡ (if b then some (within scope n) else resolve_in n slot_index rest)
unfolding resolve_in
resolve_in-first n slot_index scope rest b h = rw h refl

resolve_in-Resolves :
    {scope : Text} (n : Text) (slot_index : List Text)
    → IsPath scope
    → Resolves n slot_index scope (resolve_in n slot_index (scopes scope))
resolve_in-Resolves {scope} n slot_index (root h) =
    rw (scopes_root scope h) (elim (Bool-cases (member (within scope n) slot_index)) [
      | inl m ↦ rw (resolve_in-first n slot_index scope [] true m) (here m)
      | inr m ↦
          rw (resolve_in-first n slot_index scope [] false m) (unfold resolve_in in nowhere h m)
    ])
resolve_in-Resolves n slot_index (nested p w s h) =
    rw (scopes-within p w h) (elim (Bool-cases (member (within (within p w) n) slot_index)) [
      | inl m ↦ rw (resolve_in-first n slot_index (within p w) (scopes p) true m) (here m)
      | inr m ↦
          rw (resolve_in-first n slot_index (within p w) (scopes p) false m)
            (outside p w h m (resolve_in-Resolves n slot_index s))
    ])

-- What a name of each form stands for: `u[0]` is the slot of the element if there is one, and else the
-- array as `u[i]` is; all other names stand for themselves.
pub data ResolvesName (n : Text) (slot_index : List Text) (scope : Text)
    : NameForm → Option Text → Type 0 where
  as_named :
      {found : Option Text}
      → Resolves n slot_index scope found
      → ResolvesName n slot_index scope plain found
  as_array :
      {base : Text} {found : Option Text}
      → Resolves base slot_index scope found
      → ResolvesName n slot_index scope (dynamic_index base) found
  as_element :
      {base index found : Text}
      → Resolves (base ++ b'.' ∷ index) slot_index scope (some found)
      → ResolvesName n slot_index scope (static_index base index) (some found)
  as_whole :
      {base index : Text} {found : Option Text}
      → Resolves (base ++ b'.' ∷ index) slot_index scope none
      → Resolves base slot_index scope found
      → ResolvesName n slot_index scope (static_index base index) found

element_or_whole :
    (n base index scope : Text) (slot_index : List Text) (o p : Option Text)
    → Resolves (base ++ b'.' ∷ index) slot_index scope o
    → Resolves base slot_index scope p
    → ResolvesName n slot_index scope
        (static_index base index)
        (elim o [ some found ↦ some found | none ↦ p ])
element_or_whole n base index scope slot_index none p h k = as_whole h k
element_or_whole n base index scope slot_index (some found) p h k = as_element h

resolve_form-ResolvesName :
    (f : NameForm) (n scope : Text) (slot_index : List Text)
    → ResolvesName n slot_index scope f (resolve_form f n (scopes scope) slot_index)
unfolding resolve_form
resolve_form-ResolvesName (static_index base index) n scope slot_index =
    element_or_whole n base index scope slot_index _ _
      (resolve_in-Resolves (base ++ b'.' ∷ index) slot_index (IsPath-any scope))
      (resolve_in-Resolves base slot_index (IsPath-any scope))
resolve_form-ResolvesName (dynamic_index base) n scope slot_index =
    as_array (resolve_in-Resolves base slot_index (IsPath-any scope))
resolve_form-ResolvesName plain n scope slot_index =
    as_named (resolve_in-Resolves n slot_index (IsPath-any scope))

-- A name of any form, seen from any scope, resolves to what it stands for there: the slot of the scope
-- or of the nearest scope around it that has the slot, and none only if no scope has it; an element
-- of an array that has no slot of its own resolves as the array does.
pub resolve_slot-ResolvesName :
    (n scope : Text) (slot_index : List Text)
    → ResolvesName n slot_index scope (name_form n) (resolve_slot n scope slot_index)
unfolding resolve_slot
resolve_slot-ResolvesName n scope slot_index =
    resolve_form-ResolvesName (name_form n) n scope slot_index

-- The slot, if there is one, is in the index.
abbrev pub IsIn : List Text → Option Text → Type 0
IsIn slot_index none = Unit
IsIn slot_index (some found) = member found slot_index ≡ true

resolve_in-IsIn :
    (n : Text) (slot_index candidates : List Text)
    → IsIn slot_index (resolve_in n slot_index candidates)
unfolding resolve_in
resolve_in-IsIn n slot_index [] = tt
resolve_in-IsIn n slot_index (scope ∷ rest) =
    elim (Bool-cases (member (within scope n) slot_index)) [
      | inl t ↦ rw t t
      | inr t ↦ rw t (resolve_in-IsIn n slot_index rest)
    ]

static_index-IsIn :
    (slot_index : List Text) (o p : Option Text)
    → IsIn slot_index o
    → IsIn slot_index p
    → IsIn slot_index (elim o [ some found ↦ some found | none ↦ p ])
static_index-IsIn slot_index none p h k = k
static_index-IsIn slot_index (some found) p h k = h

resolve_form-IsIn :
    (f : NameForm) (n : Text) (candidates slot_index : List Text)
    → IsIn slot_index (resolve_form f n candidates slot_index)
unfolding resolve_form
resolve_form-IsIn (static_index base index) n candidates slot_index =
    static_index-IsIn slot_index (resolve_in (base ++ b'.' ∷ index) slot_index candidates)
      (resolve_in base slot_index candidates)
      (resolve_in-IsIn (base ++ b'.' ∷ index) slot_index candidates)
      (resolve_in-IsIn base slot_index candidates)
resolve_form-IsIn (dynamic_index base) n candidates slot_index =
    resolve_in-IsIn base slot_index candidates
resolve_form-IsIn plain n candidates slot_index = resolve_in-IsIn n slot_index candidates

-- A name of any form resolves to a slot of the index, or to none.
pub resolve_slot-IsIn :
    (n scope_path : Text) (slot_index : List Text)
    → IsIn slot_index (resolve_slot n scope_path slot_index)
unfolding resolve_slot
resolve_slot-IsIn n scope_path slot_index =
    resolve_form-IsIn (name_form n) n (scopes scope_path) slot_index

-- The slots that a tree refers to are in the index.
abbrev mutual
  pub SlotsIn : List Text → Node → Type 0
  SlotsIn slot_index (name n) = Unit
  SlotsIn slot_index (slot s) = member s slot_index ≡ true
  SlotsIn slot_index (const v) = Unit
  SlotsIn slot_index (op o extra args) = ArgsIn slot_index args

  pub ArgsIn : List Text → Nodes → Type 0
  ArgsIn slot_index nil = Unit
  ArgsIn slot_index (cons n rest) = SlotsIn slot_index n × ArgsIn slot_index rest

SlotsIn-elim :
    (slot_index : List Text) (o : Option Text) (other : Node)
    → IsIn slot_index o
    → SlotsIn slot_index other
    → SlotsIn slot_index (elim o [ none ↦ other | some found ↦ slot found ])
SlotsIn-elim slot_index none other h k = k
SlotsIn-elim slot_index (some found) other h k = h

dotted_slot-IsIn :
    (o : Text) (extra : Extra) (args : Nodes) (scope_path : Text) (slot_index : List Text)
    → IsIn slot_index (dotted_slot o extra args scope_path slot_index)
unfolding dotted_slot
dotted_slot-IsIn o extra nil scope_path slot_index = tt
dotted_slot-IsIn o extra (cons (name object) rest) scope_path slot_index =
    elim (Bool-cases (o == codes "field")) [
      | inl h ↦ rw h (resolve_slot-IsIn _ scope_path slot_index)
      | inr h ↦ rw h tt
    ]
dotted_slot-IsIn o extra (cons _ rest) scope_path slot_index = tt

mutual
  unfolding resolve_expr

  resolve_expr-in :
      (slot_index : List Text) (scope_path : Text) (n : Node)
      → SlotsIn slot_index n
      → SlotsIn slot_index (resolve_expr n scope_path slot_index)
  resolve_expr-in slot_index scope_path (name n) h =
      SlotsIn-elim slot_index (resolve_slot n scope_path slot_index) (name n)
        (resolve_slot-IsIn n scope_path slot_index) tt
  resolve_expr-in slot_index scope_path (slot s) h = h
  resolve_expr-in slot_index scope_path (const v) h = tt
  resolve_expr-in slot_index scope_path (op o extra args) h =
      SlotsIn-elim slot_index (dotted_slot o extra args scope_path slot_index)
        (op o extra (resolve_args args scope_path slot_index))
        (dotted_slot-IsIn o extra args scope_path slot_index)
        (resolve_args-in slot_index scope_path args h)

  resolve_args-in :
      (slot_index : List Text) (scope_path : Text) (args : Nodes)
      → ArgsIn slot_index args
      → ArgsIn slot_index (resolve_args args scope_path slot_index)
  resolve_args-in slot_index scope_path nil h = tt
  resolve_args-in slot_index scope_path (cons n rest) h =
      (resolve_expr-in slot_index scope_path n h.0, resolve_args-in slot_index scope_path rest h.1)

-- Resolving a tree whose slots are in the index, such as one that the parser built, which has names
-- only, gives a tree whose slots are in the index.
pub resolve_expr-SlotsIn :
    (slot_index : List Text) (scope_path : Text) (n : Node)
    → SlotsIn slot_index n
    → SlotsIn slot_index (resolve_expr n scope_path slot_index)
resolve_expr-SlotsIn = resolve_expr-in
