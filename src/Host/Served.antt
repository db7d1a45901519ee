-- ===== src/Host/Served.antt =====
-- crates/mandala-context/src/host.rs: what a connection gives before it is authenticated.
use mandala.Base.{
  ℕ, ◌≡◌, refl, ap, ◌∙◌, ◌⊎◌, inl, inr, Bool, true, false, ◌&&◌, List, [], ◌∷◌, ◌++◌, if◌then◌else◌,
  ltb, get_elem?,
}
use mandala.Base.Order.{list_ord, beq}
use mandala.Base.Result.{Result}
use mandala.Base.Text.{Text}
use mandala.Base.Json.{Value}
use mandala.Host.Conn.{
  Frame, hello, welcome, error, call, call_result, subscribe, subscribed, ping, pong, heartbeat,
  event, Line, blank, frame, bad, CallTask, Phase, awaiting, ended, serving, Conn, new_conn, Step,
  rotate, read, read_end, tick, write, write_end, settle, activity, send, unauthorized, reject,
  greet, read_line, settled, take_frame, settle_frames, send_times, is_serving, step, run,
}

abbrev is_hello : (token : Text) → Line → Bool
is_hello token (frame (hello v presented client flake)) = beq token presented
is_hello token line = false

-- The first line that is read is a hello with the token that is then in force.
abbrev pub greets : (token : Text) → List Step → Bool
greets token [] = false
greets token (rotate fresh ∷ ss) = greets fresh ss
greets token (read line ∷ ss) = is_hello token line
greets token (read_end ∷ ss) = false
greets token (s ∷ ss) = greets token ss

-- Nothing was dispatched, and nothing is going to be.
record IsSilent (c : Conn) : Type 0 where
  none_pending : c.pending ≡ []
  none_started : c.started ≡ []

record IsShut (flake : Text) (c : Conn) : Type 0 where
  over : c.phase ≡ ended
  silent : IsSilent c
  told : (c.sent ≡ []) ⊎ (c.sent ≡ unauthorized flake ∷ [])

record IsFresh (token flake : Text) (c : Conn) : Type 0 where
  waits : c.phase ≡ awaiting
  in_force : c.token ≡ token
  named : c.flake ≡ flake
  silent : IsSilent c
  untold : c.sent ≡ []

-- Two connections that differ in nothing that these predicates read.
abbrev view : Conn → Phase × Text × Text × List CallTask × List CallTask × List Frame
view c = (c.phase, c.token, c.flake, c.pending, c.started, c.sent)

IsFresh-of :
    (token flake : Text) (c d : Conn)
    → view c ≡ view d
    → IsFresh token flake d
    → IsFresh token flake c
IsFresh-of token flake c d e h = record {
  waits = cc (e, h.waits);
  in_force = cc (e, h.in_force);
  named = cc (e, h.named);
  silent = record {
    none_pending = cc (e, h.silent.none_pending);
    none_started = cc (e, h.silent.none_started);
  };
  untold = cc (e, h.untold);
}

-- A step that is no line, no end and no rotation, of a connection that is not served and has no
-- call, changes none of it.
settled-view :
    (i : ℕ) (outcome : Result Value Text) (c : Conn)
    → c.pending ≡ []
    → view (settled i (get_elem? c.pending i) outcome c) ≡ view c
settled-view i outcome c e = go c.pending e
  where
    go : (ts : List CallTask) → ts ≡ [] → view (settled i (get_elem? ts i) outcome c) ≡ view c
    go [] e = refl
    go (t ∷ ts) e = absurd (cc e)

write-view : (c : Conn) → view (if c.writer_open then take_frame c.queue c else c) ≡ view c
write-view c = go c.writer_open c.queue
  where
    go : (b : Bool) (fs : List Frame) → view (if b then take_frame fs c else c) ≡ view c
    go true [] = refl
    go true (f ∷ fs) = refl
    go false fs = refl

write_end-view : (c : Conn) → view (step write_end c) ≡ view c
unfolding step
write_end-view c = go c.writer_open
  where
    closed : Conn
    closed = record c {
      queue = [];
      writer_open = false;
      unsettled = settle_frames c.queue c.unsettled;
    }

    go : (b : Bool) → view (if b then closed else c) ≡ view c
    go true = refl
    go false = refl

unserved :
    (p : Phase) (b : Bool) (x c : Conn)
    → is_serving p ≡ false
    → view (if is_serving p && b then x else c) ≡ view c
unserved awaiting b x c h = refl
unserved ended b x c h = refl
unserved (serving client) b x c h = absurd (cc h)

unserved_event :
    (p : Phase) (x c : Conn) → is_serving p ≡ false → view (if is_serving p then x else c) ≡ view c
unserved_event awaiting x c h = refl
unserved_event ended x c h = refl
unserved_event (serving client) x c h = absurd (cc h)

IsShut-of : (flake : Text) (c d : Conn) → view c ≡ view d → IsShut flake d → IsShut flake c
IsShut-of flake c d e h = record {
  over = cc (e, h.over);
  silent = record {
    none_pending = cc (e, h.silent.none_pending);
    none_started = cc (e, h.silent.none_started);
  };
  told = same h.told;
}
  where
    kept : c.sent ≡ d.sent
    kept = cc e

    same :
        (d.sent ≡ []) ⊎ (d.sent ≡ unauthorized flake ∷ [])
        → (c.sent ≡ []) ⊎ (c.sent ≡ unauthorized flake ∷ [])
    same (inl g) = inl (kept ∙ g)
    same (inr g) = inr (kept ∙ g)

not_serving : (p q : Phase) → p ≡ q → is_serving q ≡ false → is_serving p ≡ false
not_serving p q e h = ap is_serving e ∙ h

step-IsShut : (flake : Text) (s : Step) (c : Conn) → IsShut flake c → IsShut flake (step s c)
unfolding step
step-IsShut flake (rotate token) c h = record {
  over = h.over;
  silent = record { none_pending = h.silent.none_pending; none_started = h.silent.none_started };
  told = h.told;
}
step-IsShut flake (read line) c h = go c.phase refl
  where
    go : (p : Phase) → c.phase ≡ p → IsShut flake (read_line p line c)
    go ended e = h
    go awaiting e = absurd (cc (e, h.over))
    go (serving client) e = absurd (cc (e, h.over))
step-IsShut flake read_end c h = record {
  over = refl;
  silent = record { none_pending = h.silent.none_pending; none_started = h.silent.none_started };
  told = h.told;
}
step-IsShut flake (settle i outcome) c h =
    IsShut-of flake (settled i (get_elem? c.pending i) outcome c) c
      (settled-view i outcome c h.silent.none_pending) h
step-IsShut flake tick c h =
    IsShut-of flake (step tick c) c
      (unserved c.phase (ltb 0 c.in_flight) (send heartbeat c) c
        (not_serving c.phase ended h.over refl))
      h
step-IsShut flake (activity v) c h =
    IsShut-of flake (step (activity v) c) c
      (unserved_event c.phase (send_times c.subscriptions (event v) c) c
        (not_serving c.phase ended h.over refl))
      h
step-IsShut flake write c h = IsShut-of flake (step write c) c (write-view c) h
step-IsShut flake write_end c h = IsShut-of flake (step write_end c) c (write_end-view c) h

run-IsShut : (flake : Text) (ss : List Step) (c : Conn) → IsShut flake c → IsShut flake (run ss c)
unfolding run
run-IsShut flake [] c h = h
run-IsShut flake (s ∷ ss) c h = run-IsShut flake ss (step s c) (step-IsShut flake s c h)

reject-IsShut : (token flake : Text) (c : Conn) → IsFresh token flake c → IsShut flake (reject c)
reject-IsShut token flake c h = go c.writer_open
  where
    over_with : Conn
    over_with = record c { phase = ended }

    sending : Bool → Conn
    sending b =
        if b
        then record over_with {
          queue = c.queue ++ (unauthorized c.flake ∷ []);
          sent = c.sent ++ (unauthorized c.flake ∷ []);
        }
        else over_with

    go : (b : Bool) → IsShut flake (sending b)
    go true = record {
      over = refl;
      silent = record {
        none_pending = h.silent.none_pending;
        none_started = h.silent.none_started;
      };
      told = inr (
          ap (λ l. l ++ (unauthorized c.flake ∷ [])) h.untold
          ∙ ap (λ f. unauthorized f ∷ []) h.named);
    }
    go false = record {
      over = refl;
      silent = record {
        none_pending = h.silent.none_pending;
        none_started = h.silent.none_started;
      };
      told = inl h.untold;
    }

greet-IsShut :
    (token flake : Text) (line : Line) (c : Conn)
    → IsFresh token flake c
    → is_hello token line ≡ false
    → IsShut flake (greet line c)
unfolding greet
greet-IsShut token flake (frame (hello v presented client where_to)) c h n =
    ap_shut (beq c.token presented) (ap (λ t. beq t presented) h.in_force ∙ n)
  where
    ap_shut :
        (b : Bool)
        → b ≡ false
        → IsShut flake (
            if b
            then send (welcome 1 c.flake c.pid) (record c { phase = serving client })
            else reject c)
    ap_shut false e = reject-IsShut token flake c h
    ap_shut true e = absurd (cc e)
greet-IsShut token flake blank c h n = reject-IsShut token flake c h
greet-IsShut token flake (bad e) c h n = reject-IsShut token flake c h
greet-IsShut token flake (frame (welcome v f pid)) c h n = reject-IsShut token flake c h
greet-IsShut token flake (frame (error m f)) c h n = reject-IsShut token flake c h
greet-IsShut token flake (frame (call id tool args)) c h n = reject-IsShut token flake c h
greet-IsShut token flake (frame (call_result id d r m)) c h n = reject-IsShut token flake c h
greet-IsShut token flake (frame subscribe) c h n = reject-IsShut token flake c h
greet-IsShut token flake (frame subscribed) c h n = reject-IsShut token flake c h
greet-IsShut token flake (frame ping) c h n = reject-IsShut token flake c h
greet-IsShut token flake (frame pong) c h n = reject-IsShut token flake c h
greet-IsShut token flake (frame heartbeat) c h n = reject-IsShut token flake c h
greet-IsShut token flake (frame (event v)) c h n = reject-IsShut token flake c h

unserved_run :
    (flake : Text) (c : Conn)
    → IsShut flake c
    → (c.started ≡ []) × ((c.sent ≡ []) ⊎ (c.sent ≡ unauthorized flake ∷ []))
unserved_run flake c h = (h.silent.none_started, h.told)

ungreeted :
    (token flake : Text) (ss : List Step) (c : Conn)
    → IsFresh token flake c
    → greets token ss ≡ false
    → ((run ss c).started ≡ [])
      × (((run ss c).sent ≡ []) ⊎ ((run ss c).sent ≡ unauthorized flake ∷ []))
unfolding run step
ungreeted token flake [] c h n = (h.silent.none_started, inl h.untold)
ungreeted token flake (rotate fresh ∷ ss) c h n =
    ungreeted fresh flake ss (record c { token = fresh })
      (record {
        waits = h.waits;
        in_force = refl;
        named = h.named;
        silent = record {
          none_pending = h.silent.none_pending;
          none_started = h.silent.none_started;
        };
        untold = h.untold;
      })
      n
ungreeted token flake (read line ∷ ss) c h n =
    unserved_run flake (run ss (read_line c.phase line c))
      (run-IsShut flake ss (read_line c.phase line c) (first c.phase h.waits))
  where
    first : (p : Phase) → p ≡ awaiting → IsShut flake (read_line p line c)
    first awaiting e = greet-IsShut token flake line c h n
    first ended e = absurd (cc e)
    first (serving client) e = absurd (cc e)
ungreeted token flake (read_end ∷ ss) c h n =
    unserved_run flake (run ss (record c { phase = ended })) (
      run-IsShut flake ss (record c { phase = ended })
        (record {
          over = refl;
          silent = record {
            none_pending = h.silent.none_pending;
            none_started = h.silent.none_started;
          };
          told = inl h.untold;
        }))
ungreeted token flake (settle i outcome ∷ ss) c h n =
    let next = settled i (get_elem? c.pending i) outcome c in
    ungreeted token flake ss next
      (IsFresh-of token flake next c (settled-view i outcome c h.silent.none_pending) h) n
ungreeted token flake (tick ∷ ss) c h n =
    ungreeted token flake ss (step tick c)
      (IsFresh-of token flake (step tick c) c
        (unserved c.phase (ltb 0 c.in_flight) (send heartbeat c) c
          (not_serving c.phase awaiting h.waits refl))
        h)
      n
ungreeted token flake (activity v ∷ ss) c h n =
    ungreeted token flake ss (step (activity v) c)
      (IsFresh-of token flake (step (activity v) c) c
        (unserved_event c.phase (send_times c.subscriptions (event v) c) c
          (not_serving c.phase awaiting h.waits refl))
        h)
      n
ungreeted token flake (write ∷ ss) c h n =
    ungreeted token flake ss (step write c)
      (IsFresh-of token flake (step write c) c (write-view c) h) n
ungreeted token flake (write_end ∷ ss) c h n =
    ungreeted token flake ss (step write_end c)
      (IsFresh-of token flake (step write_end c) c (write_end-view c) h) n

-- In whatever order the tasks of a connection run, it dispatches no call and sends nothing but one
-- refusal, unless the first line that it reads is a hello with the token that is then in force.
pub run-unauthorized :
    (token flake : Text) (pid : ℕ) (ss : List Step)
    → greets token ss ≡ false
    → ((run ss (new_conn token flake pid)).started ≡ [])
      × (((run ss (new_conn token flake pid)).sent ≡ [])
          ⊎ ((run ss (new_conn token flake pid)).sent ≡ unauthorized flake ∷ []))
run-unauthorized token flake pid ss n =
    ungreeted token flake ss (new_conn token flake pid)
      (record {
        waits = refl;
        in_force = refl;
        named = refl;
        silent = record { none_pending = refl; none_started = refl };
        untold = refl;
      })
      n
