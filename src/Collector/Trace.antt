-- ===== src/Collector/Trace.antt =====
-- tls_trace.go, http2_trace.go and log_collect.go: the collectors that read a ring buffer. What the
-- ring buffer gives, the loader of the BPF programs, and what stands under /proc and in the library
-- directories are arguments. An error is the answer false; logging is left out.
pub mod Loop
pub mod Written
pub mod Stored
pub mod Life
mod Tests
use ebpf_probe.Prelude.{
  ℕ, Bool, true, false, not, ◌&&◌, ◌||◌, Option, none, some, List, [], ◌∷◌, ◌++◌, ◌>>=◌, Outcome,
  ok, panic, Bytes, codes, slice, contains, any, length, if◌then◌else◌,
}
use ebpf_probe.Kernel.{Capabilities}
use ebpf_probe.Output.Multi.{Writer}

-- output.Event, without the time, which extractTimestamp leaves empty, and the latency, which is a
-- floating point number and stays zero.
pub record Event : Type 0 where
  pub probe_id : Bytes
  pub category : Bytes
  pub event_type : Bytes
  pub src_ip : Bytes
  pub dst_ip : Bytes
  pub src_port : ℕ
  pub dst_port : ℕ
  pub protocol : Bytes
  pub bytes : ℕ
  pub packets : ℕ
  pub service : Bytes
  pub details : Bytes
  pub tags : Bytes
  pub tenant_id : Bytes
  pub cluster_id : Bytes
  pub pod_name : Bytes
  pub namespace : Bytes
  pub node_name : Bytes

abbrev pub empty_event : Event
empty_event = record {
  probe_id = [];
  category = [];
  event_type = [];
  src_ip = [];
  dst_ip = [];
  src_port = 0;
  dst_port = 0;
  protocol = [];
  bytes = 0;
  packets = 0;
  service = [];
  details = [];
  tags = [];
  tenant_id = [];
  cluster_id = [];
  pod_name = [];
  namespace = [];
  node_name = [];
}

pub record TlsEvent : Type 0 where
  pub timestamp_ns : ℕ
  pub type : ℕ
  pub pid : ℕ
  pub ppid : ℕ
  pub src_ip : ℕ
  pub dst_ip : ℕ
  pub src_port : ℕ
  pub dst_port : ℕ
  pub ssl_version : ℕ
  pub event_type : ℕ
  pub data_len : ℕ
  pub latency_ns : ℕ
  pub comm : Bytes
  pub sni : Bytes
  pub payload : Bytes

pub record Http2FrameEvent : Type 0 where
  pub timestamp_ns : ℕ
  pub type : ℕ
  pub pid : ℕ
  pub ppid : ℕ
  pub src_ip : ℕ
  pub dst_ip : ℕ
  pub src_port : ℕ
  pub dst_port : ℕ
  pub frame_type : ℕ
  pub flags : ℕ
  pub stream_id : ℕ
  pub payload_len : ℕ
  pub comm : Bytes
  pub payload : Bytes

-- `payload` has the 4096 bytes of the array Data.
pub record LogEvent : Type 0 where
  pub timestamp_ns : ℕ
  pub type : ℕ
  pub pid : ℕ
  pub ppid : ℕ
  pub fd : ℕ
  pub data_len : ℕ
  pub comm : Bytes
  pub payload : Bytes

unfoldable pub tls_output : Bytes → TlsEvent → Outcome ⊥ Event
tls_output probe_id event = ok (record empty_event {
  probe_id = probe_id;
  category = codes "security";
  event_type = codes "tls";
  protocol = codes "tls";
})

unfoldable pub http2_output : Bytes → Http2FrameEvent → Outcome ⊥ Event
http2_output probe_id event = ok (record empty_event {
  probe_id = probe_id;
  category = codes "protocol";
  event_type = codes "http2";
  protocol = codes "http2";
})

abbrev pub log_event : Bytes → Bytes → Event
log_event probe_id details = record empty_event {
  probe_id = probe_id;
  category = codes "logging";
  event_type = codes "log";
  details = details;
}

-- `string(event.Data[:event.DataLen])`
unfoldable pub log_output : Bytes → LogEvent → Outcome ⊥ Event
log_output probe_id event =
    slice event.payload 0 event.data_len >>= λ details. ok (log_event probe_id details)

-- What a read of the ring buffer gives.
pub data Read (E : Type 0) : Type 0 where
  sample : E → Read E
  closed : Read E
  failed : Read E

-- A turn of the loop: whether the context is done, and the read.
abbrev pub Turn : Type 0 → Type 0
Turn E = Bool × Read E

-- processEvents, as far as the turns go; `stopped` says that the stop channel is closed.
unfoldable pub process_events :
    {E Args S : Type 0}
    → (E → Outcome ⊥ Event)
    → Writer Event Args S
    → Bool
    → List (Turn E)
    → S
    → Outcome ⊥ S
process_events convert w stopped [] s = ok s
process_events convert w true (turn ∷ turns) s = ok s
process_events convert w false ((true, read) ∷ turns) s = ok s
process_events convert w false ((false, closed) ∷ turns) s = ok s
process_events convert w false ((false, failed) ∷ turns) s = process_events convert w false turns s
process_events convert w false ((false, sample ev) ∷ turns) s =
    convert ev >>= λ out. process_events convert w false turns (w.write_event out s).0

unfoldable pub process_tls :
    {Args S : Type 0} → Bytes → Writer Event Args S → Bool → List (Turn TlsEvent) → S → Outcome ⊥ S
unfolding process_events tls_output
process_tls probe_id w stopped turns s = process_events (tls_output probe_id) w stopped turns s

unfoldable pub process_http2 :
    {Args S : Type 0}
    → Bytes
    → Writer Event Args S
    → Bool
    → List (Turn Http2FrameEvent)
    → S
    → Outcome ⊥ S
unfolding process_events http2_output
process_http2 probe_id w stopped turns s = process_events (http2_output probe_id) w stopped turns s

unfoldable pub process_log :
    {Args S : Type 0} → Bytes → Writer Event Args S → Bool → List (Turn LogEvent) → S → Outcome ⊥ S
unfolding process_events log_output
process_log probe_id w stopped turns s = process_events (log_output probe_id) w stopped turns s
