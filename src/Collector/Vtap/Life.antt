-- ===== src/Collector/Vtap/Life.antt =====
-- vtap.go: the configuration with its defaults, the statistics, the handling of a packet, and the
-- life cycle. What the libraries answer when the tap starts (the writer's directory, the
-- forwarder's connection, the interface or the socket) is an argument; the goroutines are left out.
use ebpf_probe.Prelude.{
  ℕ, ◌+◌, ◌*◌, ◌%◌, ◌^◌, ◌≡◌, ◌∙◌, Bool, true, false, not, ◌&&◌, ◌||◌, Option, none, some, [], ◌∷◌,
  Outcome, ok, panic, Bytes, ◌==◌, bytes_eq, codes, if◌then◌else◌, arith,
}
use ebpf_probe.Collector.Vtap.Pcap.{PcapWriter, close_file, write}

pub data VTapMode : Type 0 where
  capture : VTapMode
  receiver : VTapMode

-- The fields that the code reads.
pub record VTapConfig : Type 0 where
  pub mode : Bytes
  pub snap_len : ℕ
  pub buf_size : ℕ
  pub port : ℕ
  pub out_interface : Bytes
  pub write_enabled : Bool
  pub write_units : Bytes
  pub write_expires : Bytes
  pub write_path : Bytes
  pub target_ip : Bytes

pub record VTapStats : Type 0 where
  pub received : ℕ
  pub dropped : ℕ
  pub forwarded : ℕ
  pub written : ℕ

-- `stop_closed` is whether the stop channel is closed.
pub record VTap : Type 0 where
  pub config : VTapConfig
  pub mode : VTapMode
  pub writer : Option PcapWriter
  pub has_forwarder : Bool
  pub running : Bool
  pub stop_closed : Bool
  pub stats : VTapStats

unfoldable pub new_vtap : VTapConfig → VTap
unfolding bytes_eq
new_vtap cfg = record {
  config = cfg;
  mode = if bytes_eq cfg.mode (codes "receiver") then receiver else capture;
  writer = none;
  has_forwarder = false;
  running = false;
  stop_closed = false;
  stats = record { received = 0; dropped = 0; forwarded = 0; written = 0 };
}

abbrev number_or : ℕ → ℕ → ℕ
number_or n other = if n == 0 then other else n

abbrev text_or : Bytes → Bytes → Bytes
text_or [] other = other
text_or (c ∷ s) other = c ∷ s

unfoldable pub with_defaults : VTapConfig → VTapConfig
with_defaults c = record c {
  port = number_or c.port 9800;
  snap_len = number_or c.snap_len 65535;
  buf_size = number_or c.buf_size (10 * 1024 * 1024);
  write_units = text_or c.write_units (codes "1m");
  write_expires = text_or c.write_expires (codes "72h");
  write_path = text_or c.write_path (codes "/data/pcap");
}

unfoldable pub init : VTap → VTap
unfolding with_defaults
init v = record v { config = with_defaults v.config }

-- What the libraries answer: a writer or not, a connection or not, a source of packets or not.
pub record Environment : Type 0 where
  pub new_writer : Option PcapWriter
  pub dials : Bool
  pub listens : Bool

abbrev writer_or : Option PcapWriter → Option PcapWriter → Option PcapWriter
writer_or none old = old
writer_or (some w) old = some w

-- A forwarder is made in capture mode, when there is a target.
abbrev wants_forwarder : VTapMode → Bytes → Bool
wants_forwarder capture [] = false
wants_forwarder capture (c ∷ target) = true
wants_forwarder receiver target = false

unfoldable pub prepare : Environment → VTap → VTap
prepare env v = record v {
  writer = if v.config.write_enabled then writer_or env.new_writer v.writer else v.writer;
  has_forwarder = (wants_forwarder v.mode v.config.target_ip && env.dials) || v.has_forwarder;
}

-- The tap after it, and whether it started.
unfoldable pub start : Environment → VTap → VTap × Bool
unfolding prepare
start env v =
    if v.running
    then (v, true)
    else if env.listens
    then (record (prepare env v) { running = true }, true)
    else (prepare env v, false)

abbrev close_writer : Option PcapWriter → Option PcapWriter
close_writer none = none
close_writer (some w) = some (record w { current = close_file w.current })

-- The tap that Stop leaves: the channel and the file are closed.
unfoldable pub stopped : VTap → VTap
unfolding close_file
stopped v = record v { writer = close_writer v.writer; running = false; stop_closed = true }

-- Closing a closed channel panics. The channels of the writer and of the forwarder, which it closes
-- after its own, are left out.
unfoldable pub stop : VTap → Outcome ⊥ VTap
unfolding stopped
stop v = if not v.running then ok v else if v.stop_closed then panic else ok (stopped v)

unfoldable pub count_written : Bool → VTapStats → VTapStats
count_written fine s = if fine then record s { written = (s.written + 1) % 2 ^ 64 } else s

unfoldable pub write_step : Option Bytes → ℕ → Bytes → VTap → Option PcapWriter → VTap
unfolding count_written
write_step created now packet v none = v
write_step created now packet v (some w) =
    let r = write created now packet w in
    record v { writer = some r.0; stats = count_written r.1 v.stats }

unfoldable pub forward_step : VTap → VTap
unfolding bytes_eq
forward_step v =
    let out = v.config.out_interface in
    if not (bytes_eq out []) && not (bytes_eq out (codes "none"))
    then record v { stats = record v.stats { forwarded = (v.stats.forwarded + 1) % 2 ^ 64 } }
    else v

-- The packet is parsed at the end, which changes nothing.
unfoldable pub handle_packet : Option Bytes → ℕ → Bytes → VTap → VTap
unfolding write_step forward_step
handle_packet created now packet v = forward_step (write_step created now packet v v.writer)

start-running : (env : Environment) (v : VTap) → env.listens ≡ true → (start env v).0.running ≡ true
unfolding start
start-running env v h = ground arith

start-stop_closed : (env : Environment) (v : VTap) → (start env v).0.stop_closed ≡ v.stop_closed
unfolding start
start-stop_closed env v = ground arith

stop-stopped : (v : VTap) → v.running ≡ true → v.stop_closed ≡ false → stop v ≡ ok (stopped v)
unfolding stop
stop-stopped v r c = simp (r, c)

stop-panic : (v : VTap) → v.running ≡ true → v.stop_closed ≡ true → stop v ≡ panic
unfolding stop
stop-panic v r c = simp (r, c)

-- A tap whose stop channel is open, and that is started, stopped and started again, in environments
-- in which it can run: the first stop succeeds, and the second one crashes, closing the channel
-- again.
pub second_stop_panics :
    (v : VTap) (first second : Environment)
    → v.stop_closed ≡ false
    → first.listens ≡ true
    → second.listens ≡ true
    → (stop (start first v).0 ≡ ok (stopped (start first v).0))
      × (stop (start second (stopped (start first v).0)).0 ≡ panic)
unfolding stopped
second_stop_panics v first second fresh a b =
    let once = stopped (start first v).0 in
    (
      stop-stopped (start first v).0 (start-running first v a) (start-stop_closed first v ∙ fresh),
      stop-panic (start second once).0 (start-running second once b)
          (start-stop_closed second once),
    )
