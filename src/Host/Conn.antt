-- ===== src/Host/Conn.antt =====
-- crates/mandala-context/src/protocol.rs and host.rs: `serve_conn` as the steps of its tasks, which
-- may come in any order. How long a send waits for room in the channel is not modelled.
use mandala.Base.{
  ℕ, zero, suc, ◌+◌, ◌%◌, ◌^◌, Bool, true, false, ◌&&◌, Option, none, some, List, [], ◌∷◌, ◌++◌,
  if◌then◌else◌, ltb, get_elem?,
}
use mandala.Base.Order.{list_ord, beq}
use mandala.Base.Map.{Map}
use mandala.Base.Result.{Result, ok, err}
use mandala.Base.Text.{Text, text}
use mandala.Base.Json.{Value}

pub data Frame : Type 0 where
  hello : (v : ℕ) (token client flake : Text) → Frame
  welcome : (v : ℕ) (flake : Text) (pid : ℕ) → Frame
  error : (message : Text) (flake : Option Text) → Frame
  call : (id : ℕ) (tool : Text) (args : Map Text Value) → Frame
  call_result : (id : ℕ) (done : Bool) (result : Option Value) (message : Option Text) → Frame
  subscribe subscribed ping pong heartbeat : Frame
  event : Value → Frame

-- A line as `Frame::from_line` reads it; `blank` has nothing but white space.
pub data Line : Type 0 where
  blank : Line
  frame : Frame → Line
  bad : (message : Text) → Line

pub record CallTask : Type 0 where
  pub origin : Text
  pub id : ℕ
  pub tool : Text
  pub args : Map Text Value

pub data Phase : Type 0 where
  awaiting ended : Phase
  serving : (client : Text) → Phase

-- A connection beside what it shares. `queue` is the channel to the writer; `sent` is all that
-- was put on it, and `started` are all calls that were dispatched.
pub record Conn : Type 0 where
  pub token : Text
  pub flake : Text
  pub pid : ℕ
  pub phase : Phase
  pub queue : List Frame
  pub writer_open : Bool
  pub pending : List CallTask
  pub subscriptions : ℕ
  pub in_flight : ℕ
  pub unsettled : ℕ
  pub sent : List Frame
  pub started : List CallTask

abbrev pub new_conn : (token flake : Text) (pid : ℕ) → Conn
new_conn token flake pid = record {
  token = token;
  flake = flake;
  pid = pid;
  phase = awaiting;
  queue = [];
  writer_open = true;
  pending = [];
  subscriptions = 0;
  in_flight = 0;
  unsettled = 0;
  sent = [];
  started = [];
}

-- The step of a task: the token is rotated, the reader has a line or ends (a peer that is silent
-- for too long ends it as well), a call of those pending comes to its outcome, the heartbeat is
-- due, the activity has an event, and the writer takes a frame or ends.
pub data Step : Type 0 where
  rotate : (token : Text) → Step
  read : Line → Step
  read_end tick write write_end : Step
  settle : (index : ℕ) → Result Value Text → Step
  activity : Value → Step

abbrev pub inc : ℕ → ℕ
inc n = (n + 1) % 2 ^ 64

-- `fetch_sub(1)`.
abbrev pub dec : ℕ → ℕ
dec n = (n + 18446744073709551615) % 2 ^ 64

abbrev pub send : Frame → Conn → Conn
send f c =
    if c.writer_open then record c { queue = c.queue ++ (f ∷ []); sent = c.sent ++ (f ∷ []) } else c

abbrev pub unauthorized : (flake : Text) → Frame
unauthorized flake = error (text "unauthorized") (some flake)

abbrev pub reject : Conn → Conn
reject c = send (unauthorized c.flake) (record c { phase = ended })

-- The first line.
unfoldable pub greet : Line → Conn → Conn
greet (frame (hello v token client flake)) c =
    if beq c.token token
    then send (welcome 1 c.flake c.pid) (record c { phase = serving client })
    else reject c
greet line c = reject c

-- A later line.
unfoldable pub serve : (client : Text) → Line → Conn → Conn
serve client blank c = c
serve client (frame (call id tool args)) c =
    let task : CallTask = record { origin = client; id = id; tool = tool; args = args } in
    record c {
      unsettled = inc c.unsettled;
      in_flight = inc c.in_flight;
      pending = c.pending ++ (task ∷ []);
      started = c.started ++ (task ∷ []);
    }
serve client (frame subscribe) c =
    send subscribed (record c { subscriptions = c.subscriptions + 1 })
serve client (frame ping) c = send pong c
serve client (frame other) c = send (error (text "unexpected frame") none) c
serve client (bad e) c = send (error (text "bad frame: " ++ e) none) c

abbrev pub read_line : Phase → Line → Conn → Conn
read_line awaiting line c = greet line c
read_line (serving client) line c = serve client line c
read_line ended line c = c

abbrev pub remove_at : ℕ → List CallTask → List CallTask
remove_at i [] = []
remove_at zero (t ∷ ts) = ts
remove_at (suc i) (t ∷ ts) = t ∷ remove_at i ts

abbrev pub result_frame : ℕ → Result Value Text → Frame
result_frame id (ok value) = call_result id true (some value) none
result_frame id (err e) = call_result id false none (some e)

-- A call task has its outcome.
abbrev pub settled : ℕ → Option CallTask → Result Value Text → Conn → Conn
settled i none outcome c = c
settled i (some task) outcome c =
    let rest = record c { pending = remove_at i c.pending; in_flight = dec c.in_flight } in
    if c.writer_open
    then send (result_frame task.id outcome) rest
    else record rest { unsettled = dec c.unsettled }

abbrev pub is_result : Frame → Bool
is_result (call_result id done result message) = true
is_result f = false

abbrev pub settle_frame : Frame → ℕ → ℕ
settle_frame f n = if is_result f then dec n else n

-- The drain of what is still queued when the writer ends.
abbrev pub settle_frames : List Frame → ℕ → ℕ
settle_frames [] n = n
settle_frames (f ∷ fs) n = settle_frames fs (settle_frame f n)

abbrev pub take_frame : List Frame → Conn → Conn
take_frame [] c = c
take_frame (f ∷ fs) c = record c { queue = fs; unsettled = settle_frame f c.unsettled }

abbrev pub is_serving : Phase → Bool
is_serving (serving client) = true
is_serving phase = false

abbrev pub send_times : ℕ → Frame → Conn → Conn
send_times zero f c = c
send_times (suc n) f c = send_times n f (send f c)

unfoldable pub step : Step → Conn → Conn
unfolding greet serve
step (rotate token) c = record c { token = token }
step (read line) c = read_line c.phase line c
step read_end c = record c { phase = ended }
step (settle i outcome) c = settled i (get_elem? c.pending i) outcome c
step tick c = if is_serving c.phase && ltb 0 c.in_flight then send heartbeat c else c
step (activity v) c = if is_serving c.phase then send_times c.subscriptions (event v) c else c
step write c = if c.writer_open then take_frame c.queue c else c
step write_end c =
    if c.writer_open
    then record c { queue = []; writer_open = false; unsettled = settle_frames c.queue c.unsettled }
    else c

unfoldable pub run : List Step → Conn → Conn
run [] c = c
run (s ∷ ss) c = run ss (step s c)
