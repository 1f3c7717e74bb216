-- ===== src/Collector/PingTrace/Path.antt =====
-- The trace against the list of the rounds that are made.
use ebpf_probe.Prelude.{
  ℕ, zero, suc, ◌+◌, ◌-◌, ◌≤◌, ◌≡◌, refl, ap, sym, ◌∙◌, append_assoc, append-nil, true, some, List,
  [], ◌∷◌, ◌++◌, length, if◌then◌else◌, inl, inr, Bool-cases, arith,
}
use ebpf_probe.Collector.PingTrace.{
  Answer, not_sent, silent, replied, PingHop, Trace, silent_hop, reply_hop, trace_step, is_last,
  trace_loop, rtt_stats, result_of, empty_trace, trace_path, PingTraceResult,
}

-- The times to live that are tried, each with its answer: up to the first one that ends the trace.
unfoldable pub rounds : ℕ → ℕ → (ℕ → Answer) → List (ℕ × Answer)
unfolding is_last
rounds zero ttl answers = []
rounds (suc left) ttl answers =
    let later = rounds left (ttl + 1) answers in
    if is_last (answers ttl) then (ttl, answers ttl) ∷ [] else (ttl, answers ttl) ∷ later

-- A hop for every request that was sent.
abbrev pub hops_of : List (ℕ × Answer) → List PingHop
hops_of [] = []
hops_of ((ttl, not_sent) ∷ l) = hops_of l
hops_of ((ttl, silent) ∷ l) = silent_hop ttl ∷ hops_of l
hops_of ((ttl, replied peer rtt reply) ∷ l) = reply_hop ttl peer rtt ∷ hops_of l

-- A round-trip time for every packet that came back.
abbrev pub rtts_of : List (ℕ × Answer) → List ℕ
rtts_of [] = []
rtts_of ((ttl, not_sent) ∷ l) = rtts_of l
rtts_of ((ttl, silent) ∷ l) = rtts_of l
rtts_of ((ttl, replied peer rtt reply) ∷ l) = rtt ∷ rtts_of l

abbrev extend : List (ℕ × Answer) → Trace → Trace
extend l t = record {
  hops = t.hops ++ hops_of l;
  rtts = t.rtts ++ rtts_of l;
  sent = t.sent + length (hops_of l);
  received = t.received + length (rtts_of l);
}

Trace-ext :
    (t u : Trace)
    → t.hops ≡ u.hops
    → t.rtts ≡ u.rtts
    → t.sent ≡ u.sent
    → t.received ≡ u.received
    → t ≡ u
Trace-ext t u h r s v = λ i. record { hops = h i; rtts = r i; sent = s i; received = v i }

extend-step :
    (ttl : ℕ) (a : Answer) (l : List (ℕ × Answer)) (t : Trace)
    → extend l (trace_step ttl a t) ≡ extend ((ttl, a) ∷ l) t
unfolding trace_step
extend-step ttl not_sent l t = refl
extend-step ttl silent l t =
    Trace-ext (extend l (trace_step ttl silent t)) (extend ((ttl, silent) ∷ l) t)
      (append_assoc t.hops (silent_hop ttl ∷ []) (hops_of l)) refl (omega arith) refl
extend-step ttl (replied peer rtt reply) l t =
    Trace-ext (extend l (trace_step ttl (replied peer rtt reply) t))
      (extend ((ttl, replied peer rtt reply) ∷ l) t)
      (append_assoc t.hops (reply_hop ttl peer rtt ∷ []) (hops_of l))
      (append_assoc t.rtts (rtt ∷ []) (rtts_of l)) (omega arith) (omega arith)

extend-nil : (t : Trace) → extend [] t ≡ t
extend-nil t =
    Trace-ext (extend [] t) t (append-nil t.hops) (append-nil t.rtts) (omega arith) (omega arith)

trace_loop-rounds :
    (left ttl : ℕ) (answers : ℕ → Answer) (t : Trace)
    → trace_loop left ttl answers t ≡ extend (rounds left ttl answers) t
unfolding trace_loop rounds
trace_loop-rounds zero ttl answers t = sym (extend-nil t)
trace_loop-rounds (suc left) ttl answers t =
    let a = answers ttl in
    let next = trace_step ttl a t in
    elim (Bool-cases (is_last (answers ttl))) [
      | inl h ↦ rw h (sym (extend-nil next) ∙ extend-step ttl a [] t)
      | inr h ↦ rw h (
          trace_loop-rounds left (ttl + 1) answers next
          ∙ extend-step ttl a (rounds left (ttl + 1) answers) t)
    ]

length-rtts_of : (l : List (ℕ × Answer)) → length (rtts_of l) ≤ length (hops_of l)
length-rtts_of [] = omega arith
length-rtts_of ((ttl, not_sent) ∷ l) = length-rtts_of l
length-rtts_of ((ttl, silent) ∷ l) = let ih = length-rtts_of l in omega arith
length-rtts_of ((ttl, replied peer rtt reply) ∷ l) = let ih = length-rtts_of l in omega arith

abbrev pub trace_of : List (ℕ × Answer) → Trace
trace_of l = record {
  hops = hops_of l;
  rtts = rtts_of l;
  sent = length (hops_of l);
  received = length (rtts_of l);
}

extend-empty : (l : List (ℕ × Answer)) → extend l empty_trace ≡ trace_of l
extend-empty l = Trace-ext (extend l empty_trace) (trace_of l) refl refl (omega arith) (omega arith)

-- The result of the rounds made.
unfoldable pub path_of : (l : List (ℕ × Answer)) → PingTraceResult
path_of l =
    let stats = rtt_stats (rtts_of l) in
    record {
      hops = hops_of l;
      avg_rtt = stats.0;
      min_rtt = stats.1.0;
      max_rtt = stats.1.1;
      lost = length (hops_of l) - length (rtts_of l);
      sent = length (hops_of l);
    }

result_of-trace_of : (l : List (ℕ × Answer)) → result_of (trace_of l) ≡ path_of l
unfolding result_of path_of
result_of-trace_of l = refl

-- With a socket, the path found is that of the rounds made, of which the last one tried is the
-- first, if any of the 30, whose answer ends the trace: a hop for each request sent, in order; the
-- statistics of the times that came back; and as lost, the requests without an answer, which are at
-- most those sent.
pub trace_path-rounds :
    (answers : ℕ → Answer)
    → let l = rounds 30 1 answers in
      (trace_path true answers ≡ some (path_of l)) × (length (rtts_of l) ≤ length (hops_of l))
unfolding trace_path
trace_path-rounds answers =
    let l = rounds 30 1 answers in
    (
      ap some (
          ap result_of (trace_loop-rounds 30 1 answers empty_trace ∙ extend-empty l)
          ∙ result_of-trace_of l),
      length-rtts_of l,
    )
