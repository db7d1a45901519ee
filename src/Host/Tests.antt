-- ===== src/Host/Tests.antt =====
-- Runs of a connection.
use mandala.Base.{◌≡◌, refl, ◌⊎◌, ◌%◌, ◌^◌, true, false, List, [], ◌∷◌}
use mandala.Base.Order.{list_ord}
use mandala.Base.Result.{err}
use mandala.Base.Text.{Text, text}
use mandala.Host.Conn.{
  hello, call, frame, new_conn, Step, rotate, read, read_end, write, write_end, settle,
  unauthorized, run,
}
use mandala.Host.Served.{greets, run-unauthorized}
use mandala.Host.Balance.{owed}
use mandala.Host.Drained.{run-drains}

abbrev token : Text
token = text "secret"

abbrev greeting : Step
greeting = read (frame (hello 1 (text "secret") (text "agent") (text "/fleet")))

abbrev deploy : Step
deploy = read (frame (call 7 (text "deploy") []))

-- The token is rotated before the greeting arrives.
abbrev late : List Step
late = rotate (text "fresh") ∷ greeting ∷ deploy ∷ write ∷ []

late_refused : greets token late ≡ false
late_refused = refl

run-unauthorized_example :
    ((run late (new_conn token (text "/fleet") 42)).started ≡ [])
    × (((run late (new_conn token (text "/fleet") 42)).sent ≡ [])
        ⊎ ((run late (new_conn token (text "/fleet") 42)).sent ≡ unauthorized (text "/fleet") ∷ []))
run-unauthorized_example = run-unauthorized token (text "/fleet") 42 late late_refused

-- Two calls, of which one settles after the writer has ended.
abbrev served : List Step
served =
    greeting
    ∷ deploy
    ∷ deploy
    ∷ settle 0 (err (text "refused"))
    ∷ write_end
    ∷ settle 0 (err (text "refused"))
    ∷ read_end
    ∷ []

run-drains_example :
    ((run served (new_conn token (text "/fleet") 42)).unsettled
      ≡ owed (run served (new_conn token (text "/fleet") 42)) % 2 ^ 64)
    × (((run served (new_conn token (text "/fleet") 42)).writer_open ≡ true)
        ⊎ ((run served (new_conn token (text "/fleet") 42)).queue ≡ []))
run-drains_example = run-drains token (text "/fleet") 42 served
