-- ===== src/Host/Balance.antt =====
-- crates/mandala-context/src/host.rs: what the counter of unsettled calls counts.
use mandala.Base.{
  ℕ, zero, suc, ◌+◌, ◌%◌, ◌^◌, ◌≡◌, refl, ap, ◌∙◌, ◌⊎◌, inl, Bool, true, false, some, List, [], ◌∷◌,
  ◌++◌, if◌then◌else◌, get_elem?, length, arith,
}
use mandala.Base.Order.{list_ord}
use mandala.Host.Conn.{
  Frame, CallTask, Phase, Conn, inc, dec, send, remove_at, is_result, settle_frame, settle_frames,
  send_times,
}

abbrev pub results : List Frame → ℕ
results [] = 0
results (f ∷ fs) = let rest = results fs in if is_result f then suc rest else rest

-- The calls that run, and the results that wait for the writer.
abbrev pub owed : Conn → ℕ
owed c = length c.pending + results c.queue

pub record IsBalanced (c : Conn) : Type 0 where
  pub counted : c.unsettled ≡ owed c % 2 ^ 64
  pub closed : (c.writer_open ≡ true) ⊎ (c.queue ≡ [])

pub results-append :
    (fs : List Frame) (f : Frame) → results (fs ++ (f ∷ [])) ≡ results fs + results (f ∷ [])
results-append [] f = omega arith
results-append (g ∷ fs) f = go (is_result g) (results-append fs f)
  where
    go :
        (b : Bool)
        → results (fs ++ (f ∷ [])) ≡ results fs + results (f ∷ [])
        → (if b then suc (results (fs ++ (f ∷ []))) else results (fs ++ (f ∷ [])))
          ≡ (if b then suc (results fs) else results fs) + results (f ∷ [])
    go true h = omega (arith, h)
    go false h = h

pub inc_lem : (u m : ℕ) → u ≡ m % 2 ^ 64 → inc u ≡ suc m % 2 ^ 64
inc_lem u m h = omega (arith, h)

pub dec_lem : (u m : ℕ) → u ≡ suc m % 2 ^ 64 → dec u ≡ m % 2 ^ 64
dec_lem u m h = omega (arith, h)

pub length-remove_at :
    (i : ℕ) (ts : List CallTask) (t : CallTask)
    → get_elem? ts i ≡ some t
    → length ts ≡ suc (length (remove_at i ts))
length-remove_at i [] t h = absurd (cc h)
length-remove_at zero (s ∷ ts) t h = refl
length-remove_at (suc i) (s ∷ ts) t h = ap suc (length-remove_at i ts t h)

pub settle_frame_lem :
    (f : Frame) (u m : ℕ) → u ≡ (m + results (f ∷ [])) % 2 ^ 64 → settle_frame f u ≡ m % 2 ^ 64
settle_frame_lem f u m h = go (is_result f) h
  where
    go :
        (b : Bool) → u ≡ (m + (if b then 1 else 0)) % 2 ^ 64 → (if b then dec u else u) ≡ m % 2 ^ 64
    go true h = omega (arith, h)
    go false h = omega (arith, h)

pub settle_frames_lem :
    (fs : List Frame) (u m : ℕ) → u ≡ (m + results fs) % 2 ^ 64 → settle_frames fs u ≡ m % 2 ^ 64
settle_frames_lem [] u m h = omega (arith, h)
settle_frames_lem (f ∷ fs) u m h = settle_frames_lem fs (settle_frame f u) m (
    settle_frame_lem f u (m + results fs)
      (h ∙ ap (λ n. n % 18446744073709551616) (one (is_result f))))
  where
    one :
        (b : Bool)
        → m + (if b then suc (results fs) else results fs) ≡ m + results fs + (if b then 1 else 0)
    one true = omega arith
    one false = omega arith

-- A frame that is no result leaves the balance.
pub send-IsBalanced :
    (f : Frame) (c : Conn) → results (f ∷ []) ≡ 0 → IsBalanced c → IsBalanced (send f c)
send-IsBalanced f c z h = go c.writer_open refl
  where
    grown : Conn
    grown = record c { queue = c.queue ++ (f ∷ []); sent = c.sent ++ (f ∷ []) }

    go : (b : Bool) → c.writer_open ≡ b → IsBalanced (if b then grown else c)
    go true e = record {
      counted = omega (arith, h.counted, results-append c.queue f, z);
      closed = inl e;
    }
    go false e = h

pub send_times-IsBalanced :
    (n : ℕ) (f : Frame) (c : Conn)
    → results (f ∷ []) ≡ 0
    → IsBalanced c
    → IsBalanced (send_times n f c)
send_times-IsBalanced zero f c z h = h
send_times-IsBalanced (suc n) f c z h =
    send_times-IsBalanced n f (send f c) z (send-IsBalanced f c z h)

-- What the balance does not read.
pub phased : (p : Phase) (c : Conn) → IsBalanced c → IsBalanced (record c { phase = p })
phased p c h = record { counted = h.counted; closed = h.closed }
