-- ===== src/Deploy/Ending.antt =====
-- The pipeline of one host: its records that leave it where it stands, and its end.
use mandala.Base.{
  ◌≡◌, inl, inr, ◌∙◌, ap, refl, Bool, true, false, Option, some, List, [], ◌∷◌, ◌++◌, is_some,
}
use mandala.Base.Text.{Text, text}
use mandala.Runner.Host.{HostState, failed, is_terminal}
use mandala.Deploy.Stream.{
  Call, HostStream, Disk, emit, event_at, line_fields, settle_host, failed_host, note_line,
  sink_all, sink_emit, call_fork, write_at, is_build,
}
use mandala.Deploy.Observed.{read_back, written_by-IsRunning, line-KeepsRunning}
use mandala.Deploy.Agreed.{
  Earned, Ended, IsAt, CanEnd, ended_badly, settle_host-Agrees, settle_host-IsReported,
  settle_host-either, running-CanEnd,
}

module _ (host : Text) (disk : Disk) (dry : Bool) where
  pub note_line-IsAt :
      (message : Text) (calls : List Call) (s : HostStream)
      → IsAt host calls s
      → IsAt host calls (note_line host disk message s)
  unfolding emit
  note_line-IsAt message calls s at = (
    written_by-IsRunning host (write_at host disk s.attempts)
        (event_at host disk s.attempts (text "line") (line_fields message)) s.written
        (line-KeepsRunning host disk s.attempts message) at.0,
    at.1,
  )

  sink_all-IsAt :
      (messages : List Text) (calls : List Call) (s : HostStream)
      → IsAt host calls s
      → IsAt host calls (sink_all host disk messages s)
  unfolding sink_all emit
  sink_all-IsAt [] calls s at = at
  sink_all-IsAt (message ∷ messages) calls s at =
      sink_all-IsAt messages calls (sink_emit host disk message s)
        (note_line-IsAt message calls s at)

  pub call_fork-IsAt :
      (call : Call) (messages : List Text) (calls : List Call) (s : HostStream)
      → IsAt host calls s
      → IsAt host (calls ++ (call ∷ [])) (call_fork host disk call messages s)
  call_fork-IsAt call messages calls s at =
      let written = sink_all-IsAt messages calls s at in
      (written.0, ap (λ cs. cs ++ (call ∷ [])) written.1)

  -- An end that is written from where the host stands.
  pub settle_host-Ended :
      (state : HostState) (error : Option Text) (calls : List Call) (s : HostStream)
      → (is_build host ≡ false → CanEnd state error (read_back host s.written))
      → s.calls ≡ calls
      → is_terminal state ≡ true
      → is_some error ≡ ended_badly state
      → Earned dry state calls
      → Earned dry failed calls
      → let (r, s') = settle_host host disk state error s in Ended host dry r s'
  settle_host-Ended state error calls s can at terminal reported earned failing =
      let (r, s') = settle_host host disk state error s in
      let ended = settle_host-IsReported host disk state error s terminal reported in
      let kept = ended.1 ∙ at in
      (
        λ named. settle_host-Agrees host disk state error s named (can named),
        ended.0,
        elim (settle_host-either host disk state error s) [
          | inl e ↦ rw (e, kept) earned
          | inr e ↦ rw (e, kept) failing
        ],
      )

  pub failed_host-Ended :
      (error : Text) (calls : List Call) (s : HostStream)
      → Earned dry failed calls
      → IsAt host calls s
      → let (r, s') = failed_host host disk error s in Ended host dry r s'
  unfolding failed_host
  failed_host-Ended error calls s failing at =
      let noted = note_line-IsAt error calls s at in
      settle_host-Ended failed (some error) calls (note_line host disk error s)
        (λ named.
          running-CanEnd (read_back host (note_line host disk error s).written) error noted.0)
        noted.1 refl refl failing failing
