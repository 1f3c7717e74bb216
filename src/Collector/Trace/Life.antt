-- ===== src/Collector/Trace/Life.antt =====
-- Init, Start and Stop of the three collectors, and what TLS libraries there are.
use ebpf_probe.Prelude.{
  ◌≡◌, refl, Bool, true, false, not, ◌&&◌, ◌||◌, some, List, [], ◌∷◌, Outcome, ok, panic, Bytes,
  bytes_eq, codes, any, if◌then◌else◌, arith,
}
use ebpf_probe.Kernel.{Capabilities, System, detect_capabilities}
use ebpf_probe.Kernel.Hooks.{is_listed, offers, detect_capabilities-hooks}
use ebpf_probe.Output.Multi.{Writer}
use ebpf_probe.Collector.Trace.{Event, Turn, process_events}

-- What the calls of the library answer in Init.
pub record Loader : Type 0 where
  pub memlock_removed : Bool
  pub objects_loaded : Bool
  pub reader_made : Bool

-- The fields that the methods change; the three collectors have the same ones. `libraries` is the
-- TLS collector's map.
pub record TraceCollector : Type 0 where
  pub has_collection : Bool
  pub has_reader : Bool
  pub running : Bool
  pub stop_closed : Bool
  pub libraries : List Bytes

abbrev pub new_collector : TraceCollector
new_collector = record {
  has_collection = false;
  has_reader = false;
  running = false;
  stop_closed = false;
  libraries = [];
}

-- The part of Init that the three have in common.
unfoldable pub load : Loader → TraceCollector → TraceCollector × Bool
load env c =
    if not env.memlock_removed
    then (c, false)
    else if not env.objects_loaded
    then (c, false)
    else if not env.reader_made
    then (record c { has_collection = true }, false)
    else (record c { has_collection = true; has_reader = true }, true)

unfoldable pub init_http2 : Capabilities → Loader → TraceCollector → TraceCollector × Bool
unfolding load
init_http2 cap env c = if not cap.has_bpf_kprobe then (c, false) else load env c

unfoldable pub init_log : Capabilities → Loader → TraceCollector → TraceCollector × Bool
unfolding load
init_log cap env c = if not cap.has_bpf_tracepoint then (c, false) else load env c

abbrev pub library : (Bytes → Bool) → Bytes → List Bytes → List Bytes → List Bytes
library exists name paths libraries =
    if any exists paths && not (any (λ l. bytes_eq l name) libraries)
    then name ∷ libraries
    else libraries

-- A map is the list of its keys, each of which stands for its own type.
unfoldable pub detect_tls_libraries : (Bytes → Bool) → List Bytes → List Bytes
unfolding bytes_eq
detect_tls_libraries exists libraries =
    library exists (codes "gnutls")
      (codes "/usr/lib/x86_64-linux-gnu/libgnutls.so"
        ∷ codes "/usr/lib/libgnutls.so"
        ∷ codes "/usr/lib64/libgnutls.so"
        ∷ [])
      (library exists (codes "boringssl")
        (codes "/usr/lib/x86_64-linux-gnu/libboringssl.so" ∷ codes "/usr/lib/libboringssl.so" ∷ [])
        (library exists (codes "openssl")
          (codes "/usr/lib/x86_64-linux-gnu/libssl.so"
            ∷ codes "/usr/lib/libssl.so"
            ∷ codes "/usr/lib64/libssl.so"
            ∷ codes "/usr/local/lib/libssl.so"
            ∷ [])
          libraries))

unfoldable pub init_tls :
    (Bytes → Bool) → Capabilities → Loader → TraceCollector → TraceCollector × Bool
unfolding load detect_tls_libraries
init_tls exists cap env c =
    if not cap.has_bpf_kprobe && not cap.has_bpf_tracepoint
    then (c, false)
    else load env (record c { libraries = detect_tls_libraries exists c.libraries })

-- `attached` is what attachProbes answers: false when /proc cannot be read.
unfoldable pub start : Bool → TraceCollector → TraceCollector × Bool
start attached c =
    if c.running
    then (c, true)
    else if not attached
    then (c, false)
    else (record c { running = true }, true)

-- The log collector attaches nothing, and what the HTTP/2 collector calls never fails.
unfoldable pub start_log : TraceCollector → TraceCollector × Bool
unfolding start
start_log c = start true c

unfoldable pub start_http2 : TraceCollector → TraceCollector × Bool
unfolding start
start_http2 c = start true c

-- Closing a closed channel panics.
unfoldable pub stop : TraceCollector → Outcome ⊥ TraceCollector
stop c =
    if not c.running
    then ok c
    else if c.stop_closed
    then panic
    else ok (record c { running = false; stop_closed = true })

stop_leaves :
    (c d : TraceCollector)
    → c.running ≡ true
    → stop c ≡ ok d
    → (d.running ≡ false) × (d.stop_closed ≡ true)
unfolding stop
stop_leaves c d on h = ground arith

start_again :
    (c : TraceCollector) → c.running ≡ false → start true c ≡ (record c { running = true }, true)
unfolding start
start_again c off = rw off refl

stop_panics : (c : TraceCollector) → c.running ≡ true → c.stop_closed ≡ true → stop c ≡ panic
unfolding stop
stop_panics c on closed = rw (on, closed) refl

process_events-stopped :
    {E Args S : Type 0} (convert : E → Outcome ⊥ Event) (w : Writer Event Args S)
    (turns : List (Turn E)) (s : S)
    → process_events convert w true turns s ≡ ok s
unfolding process_events
process_events-stopped convert w [] s = refl
process_events-stopped convert w (turn ∷ turns) s = refl

-- A collector that was stopped answers a new Start with success and is running, but its loop ends
-- before it reads anything, and a second Stop makes the probe panic.
pub restart_dead :
    {E Args S : Type 0} (c stopped : TraceCollector) (convert : E → Outcome ⊥ Event)
    (w : Writer Event Args S) (turns : List (Turn E)) (s : S)
    → c.running ≡ true
    → stop c ≡ ok stopped
    → ((start true stopped).1 ≡ true)
      × (((start true stopped).0.running ≡ true)
          × ((process_events convert w (start true stopped).0.stop_closed turns s ≡ ok s)
              × (stop (start true stopped).0 ≡ panic)))
unfolding stop start
restart_dead c stopped convert w turns s on h =
    let left = stop_leaves c stopped on h in
    rw (start_again stopped left.0) (
      refl,
      (
        refl,
        (
          rw (left.1) (process_events-stopped convert w turns s),
          stop_panics (record stopped { running = true }) refl (left.1),
        ),
      ),
    )

offers_kprobe : (cap : Capabilities) → offers cap (codes "kprobe") ≡ cap.has_bpf_kprobe
unfolding offers bytes_eq
offers_kprobe cap = ground arith

offers_tracepoint : (cap : Capabilities) → offers cap (codes "tracepoint") ≡ cap.has_bpf_tracepoint
unfolding offers bytes_eq
offers_tracepoint cap = ground arith

-- The library lets the limit go, loads the objects and makes the reader.
abbrev pub loads : Loader → Bool
loads env = env.memlock_removed && (env.objects_loaded && env.reader_made)

load-loads : (env : Loader) (c : TraceCollector) → (load env c).1 ≡ loads env
unfolding load
load-loads env c = ground arith

init_guarded :
    (b : Bool) (c d : TraceCollector) (env : Loader)
    → (if not b then (c, false) else load env d).1 ≡ b && loads env
init_guarded true c d env = load-loads env d
init_guarded false c d env = refl

init_either :
    (a b : Bool) (c d : TraceCollector) (env : Loader)
    → (if not a && not b then (c, false) else load env d).1 ≡ (a || b) && loads env
init_either true b c d env = load-loads env d
init_either false b c d env = init_guarded b c d env

-- Init succeeds exactly when the library does its part and the list of hooks that the detection of
-- the capabilities gave has kprobe for the HTTP/2 collector, tracepoint for the log collector, and
-- one of the two for the TLS collector.
pub init-hooks :
    (sys : System) (cap : Capabilities) (exists : Bytes → Bool) (env : Loader) (c : TraceCollector)
    → detect_capabilities sys ≡ some cap
    → ((init_http2 cap env c).1 ≡ is_listed (codes "kprobe") cap.available_hooks && loads env)
      × (((init_log cap env c).1 ≡ is_listed (codes "tracepoint") cap.available_hooks && loads env)
          × ((init_tls exists cap env c).1
              ≡ (is_listed (codes "kprobe") cap.available_hooks
                  || is_listed (codes "tracepoint") cap.available_hooks)
                && loads env))
unfolding init_http2 init_log init_tls
init-hooks sys cap exists env c h =
    rw
      (
        detect_capabilities-hooks sys cap (codes "kprobe") h,
        detect_capabilities-hooks sys cap (codes "tracepoint") h,
        offers_kprobe cap,
        offers_tracepoint cap,
      )
      (
        init_guarded cap.has_bpf_kprobe c c env,
        (
          init_guarded cap.has_bpf_tracepoint c c env,
          init_either cap.has_bpf_kprobe cap.has_bpf_tracepoint c
              (record c { libraries = detect_tls_libraries exists c.libraries }) env,
        ),
      )
