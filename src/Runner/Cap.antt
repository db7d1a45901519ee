-- ===== src/Runner/Cap.antt =====
-- The size cap of a build log.
use mandala.Base.{
  ℕ, ◌+◌, ◌-◌, ◌≤◌, ◌≡◌, ◌∙◌, refl, Bool, true, false, not, ◌&&◌, ◌||◌, Option, none, some, List,
  if◌then◌else◌, leb, ltb, is_some, length, length-append, arith,
}
use mandala.Base.Order.{list_ord, beq}
use mandala.Base.Map.{Map}
use mandala.Base.Text.{Text, text}
use mandala.Base.Json.{Value, Number}
use mandala.Forest.Message.{NixMessage}
use mandala.Runner.BuildLog.{BuildLogFilter}
use mandala.Runner.Writer.{
  EventFile, EventWriter, build_log_max_bytes, terminal_reserve, append, write_notice, write_capped,
  limit_of, ask_filter, filtered, write_record, emit_at,
}

-- The file keeps to the cap, and the count of its bytes is right.
pub record IsCapped (found : ℕ) (file : EventFile) : Type 0 where
  pub is_build : is_some file.build_filter ≡ true
  pub within : file.bytes ≤ build_log_max_bytes
  pub counted : file.bytes ≡ found + length file.appended

-- The room that is kept for the records that end a run.
abbrev pub IsReserved : EventFile → Type 0
IsReserved file =
    file.bytes + (if file.truncated then 0 else 1024) ≤ build_log_max_bytes - terminal_reserve

append-counted :
    (found : ℕ) (bytes : List ℕ) (file : EventFile)
    → file.bytes ≡ found + length file.appended
    → (append bytes file).bytes ≡ found + length (append bytes file).appended
append-counted found bytes file h = rw (length-append file.appended bytes) (ground (arith, h))

append-IsCapped :
    (found : ℕ) (bytes : List ℕ) (file : EventFile)
    → IsCapped found file
    → file.bytes + length bytes ≤ build_log_max_bytes
    → IsCapped found (append bytes file)
append-IsCapped found bytes file c h = record {
  is_build = c.is_build;
  within = h;
  counted = append-counted found bytes file c.counted;
}

truncated-IsCapped :
    (found : ℕ) (file : EventFile)
    → IsCapped found file
    → IsCapped found (record file { truncated = true })
truncated-IsCapped found file c = record {
  is_build = c.is_build;
  within = c.within;
  counted = c.counted;
}

either_IsCapped :
    (found : ℕ) (b : Bool) (x y : EventFile)
    → (b ≡ true → IsCapped found x)
    → (b ≡ false → IsCapped found y)
    → IsCapped found (if b then x else y)
either_IsCapped found true x y f g = f refl
either_IsCapped found false x y f g = g refl

write_notice-IsCapped :
    (found : ℕ) (notice : List ℕ) (file : EventFile)
    → IsCapped found file
    → IsCapped found (write_notice notice file)
write_notice-IsCapped found notice file c =
    let stopped = truncated-IsCapped found file c in
    either_IsCapped found file.truncated file _ (λ e. c)
      λ e.
        either_IsCapped found (leb (file.bytes + length notice) build_log_max_bytes) _ _
          (λ r.
            append-IsCapped found notice (record file { truncated = true }) stopped
              (ground (arith, r)))
          (λ r. stopped)

write_capped-IsCapped :
    (found : ℕ) (terminal : Bool) (bytes notice : List ℕ) (file : EventFile)
    → IsCapped found file
    → IsCapped found (write_capped terminal bytes notice file)
write_capped-IsCapped found terminal bytes notice file c =
    either_IsCapped found
      (not terminal && file.truncated || ltb (limit_of terminal - 1024) (file.bytes + length bytes))
      _ _ (λ e. write_notice-IsCapped found notice file c)
      (λ e. append-IsCapped found bytes file c (room terminal file.truncated e))
  where
    room :
        (t cut : Bool)
        → (not t && cut || ltb (limit_of t - 1024) (file.bytes + length bytes)) ≡ false
        → file.bytes + length bytes ≤ build_log_max_bytes
    room t cut h = ground (arith, h)

pub write_capped-IsReserved :
    (bytes notice : List ℕ) (file : EventFile)
    → length notice ≤ 1024
    → IsReserved file
    → IsReserved (write_capped false bytes notice file)
write_capped-IsReserved bytes notice file n r = ground (arith, n, r)

pub write_terminal :
    (bytes notice : List ℕ) (file : EventFile)
    → length bytes ≤ terminal_reserve - 1024
    → IsReserved file
    → write_capped true bytes notice file ≡ append bytes file
write_terminal bytes notice file n r = ground (arith, n, r)

pub if_select {ℓ} :
    {A : Type ℓ} (P : A → Type 0) (b : Bool) (x y : A) → P x → P y → P (if b then x else y)
if_select P true x y p q = p
if_select P false x y p q = q

module _ (from_str : Text → Option NixMessage) (to_vec : List (Text × Value) → List ℕ) where
  pub is_some-ask_filter :
      (event : Text) (fields : Map Text Value) (o : Option BuildLogFilter)
      → is_some (ask_filter from_str to_vec event fields o).0 ≡ is_some o
  is_some-ask_filter event fields none = refl
  is_some-ask_filter event fields (some filter) =
      if_select (λ (k : Option BuildLogFilter × Bool). is_some k.0 ≡ true)
        (beq event (text "nixlog")) _ _ refl refl

  -- A build log that is within 16 MiB is within 16 MiB after any record, and the writer's count of
  -- its bytes stays right.
  pub emit_at-IsCapped :
      (found : ℕ) (w : EventWriter) (event : Text) (fields : Map Text Value) (ts : Number)
      → IsCapped found w.file
      → IsCapped found (emit_at from_str to_vec w event fields ts).file
  unfolding emit_at
  emit_at-IsCapped found w event fields ts c =
      let file = filtered from_str to_vec event fields w.file in
      let asked : IsCapped found file = record {
        is_build = is_some-ask_filter event fields w.file.build_filter ∙ c.is_build;
        within = c.within;
        counted = c.counted;
      } in
      if_select (IsCapped found) (ask_filter from_str to_vec event fields w.file.build_filter).1 _
        file (rw (asked.is_build, write_record) (write_capped-IsCapped found _ _ _ file asked))
        asked
