-- ===== src/Base/Result.antt =====
-- `Result<T, E>`, with `do` blocks for the `?` operator.
use mathlib.Core.Path.{◌≡◌, refl}

pub data Result {ℓ κ} (A : Type ℓ) (E : Type κ) : Type (ℓ ⊔ κ) where
  ok : A → Result A E
  err : E → Result A E

infixl 5 ◌>>=◌ ◌>>◌
abbrev pub ◌>>=◌ {ℓ κ μ} :
    {A : Type ℓ} {B : Type κ} {E : Type μ} → Result A E → (A → Result B E) → Result B E
err failure >>= next = err failure
ok found >>= next = next found

-- `?` on a result whose value is not used.
abbrev pub ◌>>◌ {ℓ κ} : {B : Type ℓ} {E : Type κ} → Result (Unit {0}) E → Result B E → Result B E
check >> rest = check >>= λ _. rest

-- A chain that succeeds: its first action did, and so did the rest on what that found.
pub >>=-eq-ok {ℓ κ μ} :
    {A : Type ℓ} {B : Type κ} {E : Type μ} (run : Result A E) (next : A → Result B E) {last : B}
    → (run >>= next) ≡ ok last
    → (found : A) × (run ≡ ok found) × (next found ≡ ok last)
>>=-eq-ok (err failure) next h = cc
>>=-eq-ok (ok found) next h = (found, refl, h)

pub ok-injective {ℓ κ} :
    {A : Type ℓ} {E : Type κ} {a b : A} → ◌≡◌ {A = Result A E} (ok a) (ok b) → a ≡ b
ok-injective h = cc
