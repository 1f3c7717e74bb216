-- ===== src/Collector/PingTrace.antt =====
-- pingtrace.go: tracing a path with echo requests of growing time to live, and the statistics of
-- the answers. What comes back for each time to live is an argument. A duration is in nanoseconds,
-- and a measured one is not negative.
pub mod Path
pub mod Stats
mod Tests
use ebpf_probe.Prelude.{
  ℕ, zero, suc, ◌+◌, ◌-◌, ◌/◌, ◌%◌, ◌^◌, Bool, true, false, Option, none, some, List, [], ◌∷◌, ◌++◌,
  Bytes, length, ltb, if◌then◌else◌, signed,
}
use ebpf_probe.Prelude.Decimal.{ℤ, pos, negsuc}

-- What the ICMP reply is: one that does not parse, the two types that the code knows, or another.
pub data Reply : Type 0 where
  unreadable : Reply
  echo_reply : Reply
  time_exceeded : Reply
  other_type : Reply

-- The request could not be sent, nothing came back in time, or a packet from `peer` did.
pub data Answer : Type 0 where
  not_sent : Answer
  silent : Answer
  replied : (peer : Bytes) (rtt : ℕ) (reply : Reply) → Answer

pub record PingHop : Type 0 where
  pub ttl : ℕ
  pub ip : Bytes
  pub rtt : ℕ
  pub timeout : Bool

-- The variables of tracePath.
pub record Trace : Type 0 where
  pub hops : List PingHop
  pub rtts : List ℕ
  pub sent : ℕ
  pub received : ℕ

abbrev pub silent_hop : ℕ → PingHop
silent_hop ttl = record { ttl = ttl; ip = []; rtt = 0; timeout = true }

abbrev pub reply_hop : ℕ → Bytes → ℕ → PingHop
reply_hop ttl peer rtt = record { ttl = ttl; ip = peer; rtt = rtt; timeout = false }

-- One round of the loop, up to the parsing of the reply.
unfoldable pub trace_step : ℕ → Answer → Trace → Trace
trace_step ttl not_sent t = t
trace_step ttl silent t = record t { sent = t.sent + 1; hops = t.hops ++ silent_hop ttl ∷ [] }
trace_step ttl (replied peer rtt reply) t = record t {
  sent = t.sent + 1;
  received = t.received + 1;
  rtts = t.rtts ++ rtt ∷ [];
  hops = t.hops ++ reply_hop ttl peer rtt ∷ [];
}

-- Whether the round ends in `break`.
unfoldable pub is_last : Answer → Bool
is_last not_sent = false
is_last silent = false
is_last (replied peer rtt unreadable) = false
is_last (replied peer rtt echo_reply) = true
is_last (replied peer rtt time_exceeded) = false
is_last (replied peer rtt other_type) = true

-- The loop, with the number of rounds left.
unfoldable pub trace_loop : ℕ → ℕ → (ℕ → Answer) → Trace → Trace
unfolding trace_step is_last
trace_loop zero ttl answers t = t
trace_loop (suc left) ttl answers t =
    let next = trace_step ttl (answers ttl) t in
    let later = trace_loop left (ttl + 1) answers next in
    if is_last (answers ttl) then next else later

-- The accumulators of the statistics: `total` is an int64, here as its 64 bits.
pub record RttStats : Type 0 where
  pub total : ℕ
  pub min_rtt : ℕ
  pub max_rtt : ℕ

unfoldable pub stats_loop : List ℕ → RttStats → RttStats
stats_loop [] s = s
stats_loop (rtt ∷ rtts) s = stats_loop rtts (record {
  total = (s.total + rtt) % 2 ^ 64;
  min_rtt = if ltb rtt s.min_rtt then rtt else s.min_rtt;
  max_rtt = if ltb s.max_rtt rtt then rtt else s.max_rtt;
})

abbrev pub minus : ℕ → ℤ
minus zero = pos zero
minus (suc n) = negsuc n

-- Go's division of an int64, which cuts off towards zero.
unfoldable pub quotient : ℤ → ℕ → ℤ
quotient (pos n) k = pos (n / k)
quotient (negsuc n) k = minus (suc n / k)

-- The packet loss, a floating-point percentage, is kept as the numbers it is computed from: how
-- many requests were lost, and how many were sent.
pub record PingTraceResult : Type 0 where
  pub hops : List PingHop
  pub avg_rtt : ℤ
  pub min_rtt : ℕ
  pub max_rtt : ℕ
  pub lost : ℕ
  pub sent : ℕ

unfoldable pub rtt_stats : List ℕ → ℤ × (ℕ × ℕ)
unfolding stats_loop quotient signed
rtt_stats [] = (pos 0, (0, 0))
rtt_stats (first ∷ rtts) =
    let s = stats_loop (first ∷ rtts) (record { total = 0; min_rtt = first; max_rtt = first }) in
    (quotient (signed (2 ^ 63) s.total) (length (first ∷ rtts)), (s.min_rtt, s.max_rtt))

unfoldable pub result_of : Trace → PingTraceResult
unfolding rtt_stats
result_of t =
    let stats = rtt_stats t.rtts in
    record {
      hops = t.hops;
      avg_rtt = stats.0;
      min_rtt = stats.1.0;
      max_rtt = stats.1.1;
      lost = t.sent - t.received;
      sent = t.sent;
    }

abbrev pub empty_trace : Trace
empty_trace = record { hops = []; rtts = []; sent = 0; received = 0 }

-- None when no socket can be opened. At most 30 rounds, from the time to live 1 on.
unfoldable pub trace_path : Bool → (ℕ → Answer) → Option PingTraceResult
trace_path listens answers =
    if listens then some (result_of (trace_loop 30 1 answers empty_trace)) else none
