-- ===== src/Deploy/Settled.antt =====
-- What the outcome of a fan-out says of its hosts.
use mandala.Base.{
  ℕ, ◌+◌, ◌≤◌, ◌≡◌, ◌↔◌, ap, refl, Bool, true, false, not, ◌||◌, Option, none, some, List, [], ◌∷◌,
  if◌then◌else◌, ltb, leb, keep, any, length, arith,
}
use mandala.Base.Order.{list_ord, beq_iff}
use mandala.Base.Map.{Map, get, insert, keys, values, get-insert, contains-keys}
use mandala.Base.Set.{contains}
use mandala.Base.Int.{ℤ, pos, negsuc, int_eq, low_byte}
use mandala.Base.Text.{Text}
use mandala.Runner.Host.{HostState, is_terminal}
use mandala.Deploy.Settle.{
  HostDeployResult, summarize, settle_fan_out, build_failed, is_failed, is_rolled_back, count,
  collect, exit_byte,
}

ltb-length-keep :
    (p : HostDeployResult → Bool) (rs : List HostDeployResult)
    → ltb 0 (length (keep p rs)) ≡ any p rs
ltb-length-keep p [] = ground arith
ltb-length-keep p (r ∷ rs) = ground (arith, ltb-length-keep p rs)

any_or :
    (p q : HostDeployResult → Bool) (rs : List HostDeployResult)
    → any (λ r. p r || q r) rs ≡ (any p rs || any q rs)
any_or p q [] = ground arith
any_or p q (r ∷ rs) = ground (arith, any_or p q rs)

abbrev pub is_unsuccessful : HostDeployResult → Bool
is_unsuccessful r = is_failed r.state || is_rolled_back r.state

-- The code of a fan-out is 1 if the build failed, or some host failed or rolled back, and 0
-- otherwise.
pub settle_fan_out_rc :
    (build_rc : Option ℤ) (results : Map Text HostDeployResult)
    → (settle_fan_out build_rc results).rc
      ≡ (if build_failed build_rc || any is_unsuccessful (values results) then 1 else 0)
unfolding settle_fan_out summarize
settle_fan_out_rc build_rc results =
    rw
      (
        ltb-length-keep (λ r. is_failed r.state) (values results),
        ltb-length-keep (λ r. is_rolled_back r.state) (values results),
        any_or (λ r. is_failed r.state) (λ r. is_rolled_back r.state) (values results),
      )
      (ground arith)

abbrev is_open : HostState → Bool
is_open state = not (is_terminal state)

-- The total of a summary is the sum of its four counts and of the results whose state is not
-- terminal.
summarize-total :
    (results : Map Text HostDeployResult)
    → (summarize results).total
      ≡ ((((summarize results).confirmed_count + (summarize results).reboot_pending_count)
            + (summarize results).failed_count)
          + (summarize results).rolled_back_count)
        + count is_open results
unfolding summarize
summarize-total [] = ground arith
summarize-total ((host, r) ∷ results) = ground (arith, summarize-total results)

-- No two tasks that ended are for one host.
abbrev IsDistinct : List (Text × HostDeployResult) → Type 0
IsDistinct [] = Unit
IsDistinct ((host, r) ∷ joined) = (contains (keys joined) host ≡ false) × IsDistinct joined

abbrev found_or : Option HostDeployResult → Option HostDeployResult → Option HostDeployResult
found_or (some r) before = some r
found_or none before = before

-- With one task for each host, the result of a host is what its task ended with, in whatever order
-- the tasks end, and the hosts without a task keep the result that they had.
get-collect :
    (joined : List (Text × HostDeployResult)) (results : Map Text HostDeployResult) (host : Text)
    → IsDistinct joined
    → get (collect joined results) host ≡ found_or (get joined host) (get results host)
unfolding get
get-collect [] results host d = refl
get-collect ((h, r) ∷ joined) results host d = ground (
  arith,
  get-collect joined (insert results h r) host d.1,
  get-insert results h host r,
  contains-keys joined h,
  beq_iff host h,
)

low_byte_le : (code : ℤ) → low_byte code ≤ 255
low_byte_le (pos n) = ground arith
low_byte_le (negsuc n) = ground arith

int_eq_iff : (a b : ℤ) → (int_eq a b ≡ true) ↔ (a ≡ b)
int_eq_iff a b = ground arith

abbrev byte_of : Bool → ℕ → ℕ
byte_of is_zero low = if is_zero then 0 else if leb 1 low then low else 1

byte_of_zero : (b : Bool) (n : ℕ) → n ≤ 255 → ((byte_of b n ≡ 0) ↔ (b ≡ true)) × (byte_of b n ≤ 255)
byte_of_zero b n h = ground arith

-- The exit byte of a child is 0 exactly if the child exited with 0, and fits a byte.
exit_byte_zero :
    (code : Option ℤ) → ((exit_byte code ≡ 0) ↔ (code ≡ some (pos 0))) × (exit_byte code ≤ 255)
unfolding exit_byte
exit_byte_zero none = ground arith
exit_byte_zero (some code) =
    let (zero_iff, small) = byte_of_zero (int_eq code (pos 0)) (low_byte code) (low_byte_le code) in
    let same_iff = int_eq_iff code (pos 0) in
    ((λ e. ap some (same_iff.0 (zero_iff.0 e)), λ e. zero_iff.1 (same_iff.1 (cc e))), small)
