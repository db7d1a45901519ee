-- ===== src/Deploy/Told.antt =====
-- A result of a host and the reader of its stream, and what all results of a map satisfy.
use mandala.Base.{
  ◌≡◌, ◌⊎◌, ◌↔◌, Bool, true, false, ◌||◌, Option, none, some, [], ◌∷◌, any, is_some, arith,
}
use mandala.Base.Order.{list_ord}
use mandala.Base.Map.{Map, get, insert, values}
use mandala.Base.Int.{ℤ, pos}
use mandala.Base.Text.{Text}
use mandala.Runner.Host.{HostRun, HostState, confirmed, reboot_pending, failed, is_terminal}
use mandala.Deploy.Settle.{HostDeployResult, is_failed, is_rolled_back}
use mandala.Deploy.Settled.{is_unsuccessful}
use mandala.Deploy.Agreed.{Agrees, IsReported, rc_of}

-- The reader of a stream finds a deployment that ended well.
abbrev pub IsDeployed : HostRun → Type 0
IsDeployed h = ((h.state ≡ confirmed) ⊎ (h.state ≡ reboot_pending)) × (h.rc ≡ some (pos 0))

pub any-insert :
    {A : Type 0} (p : A → Bool) (m : Map Text A) (k : Text) (v : A)
    → any p (values m) ≡ false
    → p v ≡ false
    → any p (values (insert m k v)) ≡ false
unfolding insert
any-insert p [] k v none_of h = ground arith
any-insert p ((j, w) ∷ m) k v none_of h = ground (arith, any-insert p m k v)

pub any-get :
    {A : Type 0} (p : A → Bool) (m : Map Text A) (k : Text) (v : A)
    → any p (values m) ≡ false
    → get m k ≡ some v
    → p v ≡ false
unfolding get
any-get p [] k v none_of e = cc
any-get p ((j, w) ∷ m) k v none_of e = ground (arith, any-get p m k v)

-- A result and what the reader of its stream finds say the same.
pub IsDeployed-iff :
    (host : Text) (r : HostDeployResult) (h : HostRun)
    → Agrees r h
    → IsReported host r
    → (is_unsuccessful r ≡ false) ↔ IsDeployed h
IsDeployed-iff host r h agrees reported =
    go r.state h.state r.error h.rc agrees reported.1 reported.2
  where
    go :
        (state read : HostState) (error : Option Text) (rc : Option ℤ)
        → ((read ≡ state) × (rc ≡ some (rc_of error))) ⊎ ((state ≡ failed) × (rc ≡ none))
        → is_terminal state ≡ true
        → is_some error ≡ (is_failed state || is_rolled_back state)
        → ((is_failed state || is_rolled_back state) ≡ false)
          ↔ (((read ≡ confirmed) ⊎ (read ≡ reboot_pending)) × (rc ≡ some (pos 0)))
    go state read error rc agrees terminal reported = ground arith
