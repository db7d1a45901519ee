-- ===== src/Tui/Unshadowed.antt =====
-- crates/mandala-tui/src/keymap.rs: no binding hides another.
use mandala.Base.{
  ℕ, zero, suc, ◌≡◌, refl, ap, ◌∙◌, inl, inr, Bool, true, false, not, ◌&&◌, some, List, [], ◌∷◌,
  all, any, get_elem?, arith, Bool-cases, &&_true,
}
use mandala.Tui.Keys.{
  Context, KeyPattern, KeyEvent, code_eq, modifiers_eq, matches, Binding, context_eq,
}
use mandala.Tui.Keymap.{bindings, applies, find_action, resolve_key}

abbrev key_eq : KeyPattern → KeyPattern → Bool
key_eq k l = code_eq k.code l.code && modifiers_eq k.modifiers l.modifiers

abbrev overlap : List KeyPattern → List KeyPattern → Bool
overlap ks ls = any (λ k. any (key_eq k) ls) ks

abbrev is_clear : Binding → Binding → Bool
is_clear b c = not (context_eq b.context c.context && overlap b.keys c.keys)

abbrev distinct : List Binding → Bool
distinct [] = true
distinct (b ∷ bs) = all (is_clear b) bs && distinct bs

matches-eq :
    (e : KeyEvent) (k l : KeyPattern) → matches e k ≡ true → matches e l ≡ true → key_eq k l ≡ true
unfolding matches
matches-eq e k l h i = ground (arith, h, i)

any-matches-eq :
    (e : KeyEvent) (k : KeyPattern) (ls : List KeyPattern)
    → matches e k ≡ true
    → any (matches e) ls ≡ true
    → any (key_eq k) ls ≡ true
any-matches-eq e k (l ∷ ls) h i = elim (Bool-cases (matches e l)) [
  | inl m ↦ ground (arith, matches-eq e k l h m)
  | inr m ↦ ground (arith, any-matches-eq e k ls h (ground (arith, m, i)))
]
any-matches-eq e k [] h i = absurd (cc i)

matches-overlap :
    (e : KeyEvent) (ks ls : List KeyPattern)
    → any (matches e) ks ≡ true
    → any (matches e) ls ≡ true
    → overlap ks ls ≡ true
matches-overlap e [] ls h i = absurd (cc h)
matches-overlap e (k ∷ ks) ls h i = elim (Bool-cases (matches e k)) [
  | inl m ↦ ground (arith, any-matches-eq e k ls m i)
  | inr m ↦ ground (arith, matches-overlap e ks ls (ground (arith, m, h)) i)
]

applies-clash :
    (context : Context) (e : KeyEvent) (b c : Binding)
    → applies context e b ≡ true
    → applies context e c ≡ true
    → is_clear b c ≡ false
applies-clash context e b c h i =
    ground (arith, h, i, matches-overlap e b.keys c.keys (ground (arith, h)) (ground (arith, i)))

all-get {ℓ} :
    {A : Type ℓ} (p : A → Bool) (xs : List A) (i : ℕ) (x : A)
    → all p xs ≡ true
    → get_elem? xs i ≡ some x
    → p x ≡ true
all-get p [] i x h e = absurd (cc e)
all-get p (y ∷ ys) zero x h e = ap p (cc e) ∙ (&&_true (p y) (all p ys) h).0
all-get p (y ∷ ys) (suc i) x h e = all-get p ys i x (&&_true (p y) (all p ys) h).1 e

find_action-only :
    (context : Context) (e : KeyEvent) (bs : List Binding) (i : ℕ) (b : Binding)
    → distinct bs ≡ true
    → get_elem? bs i ≡ some b
    → applies context e b ≡ true
    → find_action context e bs ≡ some b.action
unfolding find_action
find_action-only context e [] i b d g h = absurd (cc g)
find_action-only context e (c ∷ bs) zero b d g h =
    let same : c ≡ b = cc g in
    let a : applies context e c ≡ true = ap (applies context e) same ∙ h in
    rw a (ap (λ (x : Binding). some x.action) same)
find_action-only context e (c ∷ bs) (suc i) b d g h =
    let both = &&_true (all (is_clear c) bs) (distinct bs) d in
    elim (Bool-cases (applies context e c)) [
      | inl a ↦ absurd (cc (applies-clash context e c b a h, all-get (is_clear c) bs i b both.0 g))
      | inr a ↦ rw a (find_action-only context e bs i b both.1 g h)
    ]

bindings-distinct : distinct bindings ≡ true
unfolding bindings
bindings-distinct = refl

-- A key that any binding of a context is for is resolved to the action of that binding, wherever
-- in the table it stands: no binding is hidden by one before it.
pub resolve_key-only :
    (i : ℕ) (b : Binding) (e : KeyEvent)
    → get_elem? bindings i ≡ some b
    → any (matches e) b.keys ≡ true
    → resolve_key b.context e ≡ some b.action
resolve_key-only i b e g h =
    find_action-only b.context e bindings i b bindings-distinct g (ground (arith, h))
