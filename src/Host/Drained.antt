-- ===== src/Host/Drained.antt =====
-- crates/mandala-context/src/host.rs: the counter that a shutdown waits for.
use mandala.Base.{
  ℕ, suc, ◌+◌, ◌%◌, ◌^◌, ◌≡◌, refl, ap, ◌∙◌, ◌⊎◌, inl, inr, Bool, true, false, ◌&&◌, Option, none,
  some, List, [], ◌∷◌, ◌++◌, if◌then◌else◌, ltb, get_elem?, length, length-append, arith,
}
use mandala.Base.Order.{list_ord, beq}
use mandala.Base.Result.{Result, ok, err}
use mandala.Base.Text.{Text}
use mandala.Base.Json.{Value}
use mandala.Host.Conn.{
  Frame, hello, welcome, error, call, call_result, subscribe, subscribed, ping, pong, heartbeat,
  event, Line, blank, frame, bad, CallTask, Phase, awaiting, ended, serving, Conn, new_conn, Step,
  rotate, read, read_end, tick, write, write_end, settle, activity, dec, send, unauthorized, reject,
  greet, serve, read_line, remove_at, settled, is_result, result_frame, take_frame, settle_frames,
  send_times, is_serving, step, run,
}
use mandala.Host.Balance.{
  results, owed, IsBalanced, results-append, inc_lem, dec_lem, length-remove_at, settle_frame_lem,
  settle_frames_lem, send-IsBalanced, send_times-IsBalanced, phased,
}

reject-IsBalanced : (c : Conn) → IsBalanced c → IsBalanced (reject c)
reject-IsBalanced c h =
    send-IsBalanced (unauthorized c.flake) (record c { phase = ended }) refl (phased ended c h)

greet-IsBalanced : (line : Line) (c : Conn) → IsBalanced c → IsBalanced (greet line c)
unfolding greet
greet-IsBalanced (frame (hello v token client flake)) c h = go (beq c.token token)
  where
    go :
        (b : Bool)
        → IsBalanced (
            if b
            then send (welcome 1 c.flake c.pid) (record c { phase = serving client })
            else reject c)
    go true =
        send-IsBalanced (welcome 1 c.flake c.pid) (record c { phase = serving client }) refl
          (phased (serving client) c h)
    go false = reject-IsBalanced c h
greet-IsBalanced blank c h = reject-IsBalanced c h
greet-IsBalanced (bad e) c h = reject-IsBalanced c h
greet-IsBalanced (frame (welcome v f pid)) c h = reject-IsBalanced c h
greet-IsBalanced (frame (error m f)) c h = reject-IsBalanced c h
greet-IsBalanced (frame (call id tool args)) c h = reject-IsBalanced c h
greet-IsBalanced (frame (call_result id d r m)) c h = reject-IsBalanced c h
greet-IsBalanced (frame subscribe) c h = reject-IsBalanced c h
greet-IsBalanced (frame subscribed) c h = reject-IsBalanced c h
greet-IsBalanced (frame ping) c h = reject-IsBalanced c h
greet-IsBalanced (frame pong) c h = reject-IsBalanced c h
greet-IsBalanced (frame heartbeat) c h = reject-IsBalanced c h
greet-IsBalanced (frame (event v)) c h = reject-IsBalanced c h

unexpected-IsBalanced : (m : Text) (c : Conn) → IsBalanced c → IsBalanced (send (error m none) c)
unexpected-IsBalanced m c h = send-IsBalanced (error m none) c refl h

serve-IsBalanced :
    (client : Text) (line : Line) (c : Conn) → IsBalanced c → IsBalanced (serve client line c)
unfolding serve
serve-IsBalanced client blank c h = h
serve-IsBalanced client (bad e) c h = unexpected-IsBalanced _ c h
serve-IsBalanced client (frame (call id tool args)) c h =
    let task : CallTask = record { origin = client; id = id; tool = tool; args = args } in
    record {
      counted =
          inc_lem c.unsettled (owed c) h.counted
          ∙ ap (λ n. n % 18446744073709551616) (omega (arith, length-append c.pending (task ∷ [])));
      closed = h.closed;
    }
serve-IsBalanced client (frame subscribe) c h =
    send-IsBalanced subscribed (record c { subscriptions = c.subscriptions + 1 }) refl
      (record { counted = h.counted; closed = h.closed })
serve-IsBalanced client (frame ping) c h = send-IsBalanced pong c refl h
serve-IsBalanced client (frame (hello v token other_client flake)) c h = unexpected-IsBalanced _ c h
serve-IsBalanced client (frame (welcome v f pid)) c h = unexpected-IsBalanced _ c h
serve-IsBalanced client (frame (error m f)) c h = unexpected-IsBalanced _ c h
serve-IsBalanced client (frame (call_result id d r m)) c h = unexpected-IsBalanced _ c h
serve-IsBalanced client (frame subscribed) c h = unexpected-IsBalanced _ c h
serve-IsBalanced client (frame pong) c h = unexpected-IsBalanced _ c h
serve-IsBalanced client (frame heartbeat) c h = unexpected-IsBalanced _ c h
serve-IsBalanced client (frame (event v)) c h = unexpected-IsBalanced _ c h

result_frame-results :
    (id : ℕ) (outcome : Result Value Text) → results (result_frame id outcome ∷ []) ≡ 1
result_frame-results id (ok v) = refl
result_frame-results id (err e) = refl

-- A settled call is owed as a result that is queued, or no more.
settled-IsBalanced :
    (i : ℕ) (found : Option CallTask) (outcome : Result Value Text) (c : Conn)
    → get_elem? c.pending i ≡ found
    → IsBalanced c
    → IsBalanced (settled i found outcome c)
settled-IsBalanced i none outcome c e h = h
settled-IsBalanced i (some task) outcome c e h = go c.writer_open refl
  where
    f : Frame
    f = result_frame task.id outcome

    rest : Conn
    rest = record c { pending = remove_at i c.pending; in_flight = dec c.in_flight }

    fewer : length c.pending ≡ suc (length rest.pending)
    fewer = length-remove_at i c.pending task e

    queued : Conn
    queued = record rest { queue = c.queue ++ (f ∷ []); sent = c.sent ++ (f ∷ []) }

    go :
        (b : Bool)
        → c.writer_open ≡ b
        → IsBalanced (
            if b then (if b then queued else rest) else record rest { unsettled = dec c.unsettled })
    go true o = record {
      counted =
          omega (
            arith,
            h.counted,
            fewer,
            results-append c.queue f,
            result_frame-results task.id outcome,
          );
      closed = inl o;
    }
    go false o = record {
      counted =
          dec_lem c.unsettled (owed rest)
            (h.counted ∙ ap (λ n. n % 18446744073709551616) (omega (arith, fewer)));
      closed = h.closed;
    }

write-IsBalanced :
    (c : Conn) → IsBalanced c → IsBalanced (if c.writer_open then take_frame c.queue c else c)
write-IsBalanced c h = go c.writer_open c.queue refl refl
  where
    go :
        (b : Bool) (fs : List Frame)
        → c.writer_open ≡ b
        → c.queue ≡ fs
        → IsBalanced (if b then take_frame fs c else c)
    go false fs o q = h
    go true [] o q = h
    go true (f ∷ fs) o q = record {
      counted = settle_frame_lem f c.unsettled (length c.pending + results fs) (
          h.counted
          ∙ ap (λ n. n % 18446744073709551616)
              (ap (λ l. length c.pending + results l) q ∙ one (is_result f) fs));
      closed = inl o;
    }
      where
        one :
            (b : Bool) (fs : List Frame)
            → length c.pending + (if b then suc (results fs) else results fs)
              ≡ length c.pending + results fs + (if b then 1 else 0)
        one true fs = omega arith
        one false fs = omega arith

write_end-IsBalanced : (c : Conn) → IsBalanced c → IsBalanced (step write_end c)
unfolding step
write_end-IsBalanced c h = go c.writer_open
  where
    emptied : Conn
    emptied = record c {
      queue = [];
      writer_open = false;
      unsettled = settle_frames c.queue c.unsettled;
    }

    go : (b : Bool) → IsBalanced (if b then emptied else c)
    go true = record {
      counted =
          settle_frames_lem c.queue c.unsettled (length c.pending) h.counted
          ∙ ap (λ n. n % 18446744073709551616) (omega arith);
      closed = inr refl;
    }
    go false = h

step-IsBalanced : (s : Step) (c : Conn) → IsBalanced c → IsBalanced (step s c)
unfolding step
step-IsBalanced (rotate token) c h = record { counted = h.counted; closed = h.closed }
step-IsBalanced (read line) c h = go c.phase
  where
    go : (p : Phase) → IsBalanced (read_line p line c)
    go awaiting = greet-IsBalanced line c h
    go (serving client) = serve-IsBalanced client line c h
    go ended = h
step-IsBalanced read_end c h = phased ended c h
step-IsBalanced (settle i outcome) c h =
    settled-IsBalanced i (get_elem? c.pending i) outcome c refl h
step-IsBalanced tick c h = go (is_serving c.phase && ltb 0 c.in_flight)
  where
    go : (b : Bool) → IsBalanced (if b then send heartbeat c else c)
    go true = send-IsBalanced heartbeat c refl h
    go false = h
step-IsBalanced (activity v) c h = go (is_serving c.phase)
  where
    go : (b : Bool) → IsBalanced (if b then send_times c.subscriptions (event v) c else c)
    go true = send_times-IsBalanced c.subscriptions (event v) c refl h
    go false = h
step-IsBalanced write c h = write-IsBalanced c h
step-IsBalanced write_end c h = write_end-IsBalanced c h

run-IsBalanced : (ss : List Step) (c : Conn) → IsBalanced c → IsBalanced (run ss c)
unfolding run
run-IsBalanced [] c h = h
run-IsBalanced (s ∷ ss) c h = run-IsBalanced ss (step s c) (step-IsBalanced s c h)

-- In whatever order the tasks of a connection run, the counter that a shutdown waits for is the
-- number of the calls that have no outcome and of the results that were not written, as a `usize`;
-- once the writer has ended it is the number of those calls.
pub run-drains :
    (token flake : Text) (pid : ℕ) (ss : List Step)
    → ((run ss (new_conn token flake pid)).unsettled
        ≡ owed (run ss (new_conn token flake pid)) % 2 ^ 64)
      × (((run ss (new_conn token flake pid)).writer_open ≡ true)
          ⊎ ((run ss (new_conn token flake pid)).queue ≡ []))
run-drains token flake pid ss =
    let h =
      run-IsBalanced ss (new_conn token flake pid) (record { counted = refl; closed = inl refl }) in
    (h.counted, h.closed)
