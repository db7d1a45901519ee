-- ===== src/Registry/Kept.antt =====
-- What pruning keeps.
use mandala.Base.{
  ℕ, zero, suc, ◌+◌, ◌-◌, ◌≡◌, refl, Bool, not, Option, List, [], ◌∷◌, keep, take, arith,
}
use mandala.Base.Int.{ℤ}
use mandala.Base.Text.{Text}
use mandala.Registry.Prune.{RunInfo, is_active, is_expired, prune_policy}

module _ (pid_alive : Option ℤ → Bool) (age_days : Text → Option ℤ) where
  abbrev active : RunInfo → Bool
  active = is_active pid_alive age_days

  keep-active :
      (limit days survivors : ℕ) (infos : List RunInfo)
      → keep active (prune_policy pid_alive age_days limit days survivors infos) ≡ keep active infos
  unfolding prune_policy
  keep-active limit days s [] = refl
  keep-active limit days s (info ∷ infos) =
      ground (arith, keep-active limit days s infos, keep-active limit days (s + 1) infos)

  keep-inactive :
      (limit days survivors room : ℕ) (infos : List RunInfo)
      → room ≡ limit - survivors
      → keep (λ r. not (active r)) (prune_policy pid_alive age_days limit days survivors infos)
        ≡ keep
            (λ r. not (is_expired pid_alive age_days days r))
            (take room (keep (λ r. not (active r)) infos))
  unfolding prune_policy
  keep-inactive limit days s zero [] h = refl
  keep-inactive limit days s (suc room) [] h = refl
  keep-inactive limit days s zero (info ∷ infos) h = ground (
    arith,
    h,
    keep-inactive limit days s zero infos h,
    keep-inactive limit days (s + 1) zero infos,
  )
  keep-inactive limit days s (suc room) (info ∷ infos) h = ground (
    arith,
    h,
    keep-inactive limit days s (suc room) infos h,
    keep-inactive limit days (s + 1) room infos,
  )

  -- Pruning keeps every active run, and of the others those that are among the `limit` most recent
  -- ones and have not expired, all in their order.
  pub prune_policy-keeps :
      (limit days : ℕ) (infos : List RunInfo)
      → (keep active (prune_policy pid_alive age_days limit days 0 infos) ≡ keep active infos)
        × (keep (λ r. not (active r)) (prune_policy pid_alive age_days limit days 0 infos)
            ≡ keep
                (λ r. not (is_expired pid_alive age_days days r))
                (take limit (keep (λ r. not (active r)) infos)))
  prune_policy-keeps limit days infos =
      (keep-active limit days 0 infos, keep-inactive limit days 0 limit infos (ground arith))
