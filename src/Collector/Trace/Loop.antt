-- ===== src/Collector/Trace/Loop.antt =====
-- processEvents against the list of the samples that it reads.
use ebpf_probe.Prelude.{
  ◌≡◌, refl, Bool, true, false, List, [], ◌∷◌, Outcome, ok, panic, Bytes, take, map, any, length,
  ltb, Bool-cases, inl, inr, codes, if◌then◌else◌, arith,
}
use ebpf_probe.Output.Multi.{Writer}
use ebpf_probe.Collector.Trace.{
  Event, TlsEvent, Http2FrameEvent, LogEvent, empty_event, log_event, tls_output, http2_output,
  log_output, sample, closed, failed, Turn, process_events, process_tls, process_http2, process_log,
}

-- The samples read before the loop ends: a failed read is passed over, and a closed ring buffer or
-- the end of the context stops the loop.
abbrev pub samples : {E : Type 0} → List (Turn E) → List E
samples [] = []
samples ((true, read) ∷ turns) = []
samples ((false, sample ev) ∷ turns) = ev ∷ samples turns
samples ((false, closed) ∷ turns) = []
samples ((false, failed) ∷ turns) = samples turns

-- One call of WriteEvent for each event, whatever the calls answer.
abbrev pub write_each : {Args S : Type 0} → Writer Event Args S → List Event → S → S
write_each w [] s = s
write_each w (ev ∷ events) s = write_each w events (w.write_event ev s).0

module _ {E Args S : Type 0} where
  -- A conversion that gives `out`, and panics on what `bad` says.
  process_events-samples :
      (convert : E → Outcome ⊥ Event) (bad : E → Bool) (out : E → Event)
      (same : (ev : E) → convert ev ≡ (if bad ev then panic else ok (out ev)))
      (w : Writer Event Args S) (turns : List (Turn E)) (s : S)
      → process_events convert w false turns s
        ≡ (if any bad (samples turns) then panic else ok (write_each w (map out (samples turns)) s))
  unfolding process_events
  process_events-samples convert bad out same w [] s = refl
  process_events-samples convert bad out same w ((true, read) ∷ turns) s = refl
  process_events-samples convert bad out same w ((false, closed) ∷ turns) s = refl
  process_events-samples convert bad out same w ((false, failed) ∷ turns) s =
      process_events-samples convert bad out same w turns s
  process_events-samples convert bad out same w ((false, sample ev) ∷ turns) s =
      elim (Bool-cases (bad ev)) [
        | inl h ↦ rw (same ev, h) refl
        | inr h ↦
            rw (same ev, h)
              (process_events-samples convert bad out same w turns (w.write_event (out ev) s).0)
      ]

abbrev pub tls_event : Bytes → Event
tls_event probe_id = record empty_event {
  probe_id = probe_id;
  category = codes "security";
  event_type = codes "tls";
  protocol = codes "tls";
}

abbrev pub is_long : LogEvent → Bool
is_long ev = ltb (length ev.payload) ev.data_len

abbrev pub http2_event : Bytes → Event
http2_event probe_id = record empty_event {
  probe_id = probe_id;
  category = codes "protocol";
  event_type = codes "http2";
  protocol = codes "http2";
}

any_never : {A : Type 0} (xs : List A) → any (λ x. false) xs ≡ false
any_never [] = refl
any_never (x ∷ xs) = any_never xs

log_output-take :
    (probe_id : Bytes) (ev : LogEvent)
    → log_output probe_id ev
      ≡ (if is_long ev then panic else ok (log_event probe_id (take ev.data_len ev.payload)))
unfolding log_output
log_output-take probe_id ev = ground arith

module _ {Args S : Type 0} (w : Writer Event Args S) (probe_id : Bytes) where
  -- The log collector makes the whole probe panic when a sample announces more data than its array
  -- holds, and otherwise calls WriteEvent once for each sample read before the loop ends, in their
  -- order, with the announced bytes as the details, whatever the calls answer.
  pub process_events-log :
      (turns : List (Turn LogEvent)) (s : S)
      → process_log probe_id w false turns s ≡ (
          if any is_long (samples turns)
          then panic
          else ok (
              write_each w
                (map (λ ev. log_event probe_id (take ev.data_len ev.payload)) (samples turns))
                s))
  unfolding process_log
  process_events-log =
      process_events-samples (log_output probe_id) is_long
        (λ ev. log_event probe_id (take ev.data_len ev.payload)) (log_output-take probe_id) w

  process_events-constant :
      {E : Type 0} (convert : E → Outcome ⊥ Event) (out : Event)
      → ((ev : E) → convert ev ≡ ok out)
      → (turns : List (Turn E)) (s : S)
      → process_events convert w false turns s
        ≡ ok (write_each w (map (λ ev. out) (samples turns)) s)
  process_events-constant convert out same turns s =
      rw
        (
          process_events-samples convert (λ ev. false) (λ ev. out) same w turns s,
          any_never (samples turns),
        )
        refl

  -- The TLS and the HTTP/2 collectors never panic in the loop. Each calls WriteEvent once for each
  -- sample read before the loop ends, and every event that it writes is the same: nothing of a
  -- sample goes into it.
  pub process_events_alike :
      (tls_turns : List (Turn TlsEvent)) (http2_turns : List (Turn Http2FrameEvent)) (s : S)
      → (process_tls probe_id w false tls_turns s
          ≡ ok (write_each w (map (λ ev. tls_event probe_id) (samples tls_turns)) s))
        × (process_http2 probe_id w false http2_turns s
            ≡ ok (write_each w (map (λ ev. http2_event probe_id) (samples http2_turns)) s))
  unfolding process_tls process_http2 tls_output http2_output
  process_events_alike tls_turns http2_turns s = (
    process_events-constant (tls_output probe_id) (tls_event probe_id) (λ ev. refl) tls_turns s,
    process_events-constant (http2_output probe_id) (http2_event probe_id) (λ ev. refl) http2_turns
        s,
  )
