-- ===== src/Deploy/Triple.antt =====
-- Deploy/Stream.antt: what holds after an action that may return early.
use mandala.Base.Result.{Result, ok, err}
use mandala.Deploy.Stream.{HostStream, Stop, Task, ◌>>=◌, ◌>>◌}

module _ {ℓ} {A : Type ℓ} where
  -- By how an action ended: `Q` of what it found, or `E` of its early return.
  abbrev pub After :
      (A → HostStream → Type 0) → (Stop → HostStream → Type 0) → Result A Stop × HostStream → Type 0
  After Q E (ok a, s) = Q a s
  After Q E (err early, s) = E early s

  -- From a state with `P`.
  abbrev pub Holds :
      (HostStream → Type 0)
      → Task A
      → (A → HostStream → Type 0)
      → (Stop → HostStream → Type 0)
      → Type 0
  Holds P m Q E = (s : HostStream) → P s → After Q E (m s)

module _ (E : Stop → HostStream → Type 0) where
  pub >>=-Holds {ℓ κ} :
      {A : Type ℓ} {B : Type κ} {P : HostStream → Type 0} (Q : A → HostStream → Type 0)
      (R : B → HostStream → Type 0) (m : Task A) (f : A → Task B)
      → Holds P m Q E
      → ((a : A) → Holds (Q a) (f a) R E)
      → Holds P (m >>= f) R E
  >>=-Holds {A = A} Q R m f first rest s p = go (m s) (first s p)
    where
      go :
          (ended : Result A Stop × HostStream)
          → After Q E ended
          → After R E (elim ended.0 [ ok a ↦ f a ended.1 | err early ↦ (err early, ended.1) ])
      go (ok a, s') q = rest a s' q
      go (err early, s') e = e

  pub >>-Holds {ℓ κ} :
      {A : Type ℓ} {B : Type κ} {P : HostStream → Type 0} (Q : HostStream → Type 0)
      (R : B → HostStream → Type 0) (m : Task A) (k : Task B)
      → Holds P m (λ _ s. Q s) E
      → Holds Q k R E
      → Holds P (m >> k) R E
  >>-Holds Q R m k first rest = >>=-Holds (λ _. Q) R m (λ _. k) first (λ _. rest)
