-- ===== src/Collector/Vtap/Forwarder.antt =====
-- vtap.go: Forwarder. What was written to the connection, whose errors the code ignores, is a list.
pub mod Order
use ebpf_probe.Prelude.{ℕ, ◌+◌, List, [], ◌∷◌, ◌++◌, Bytes, length, leb, if◌then◌else◌}

pub record Forwarder : Type 0 where
  pub buf : List Bytes
  pub written : List Bytes

-- The loop over the batch, with one write to the connection for each packet.
unfoldable pub write_batch : List Bytes → List Bytes → List Bytes
write_batch [] written = written
write_batch (packet ∷ batch) written = write_batch batch (written ++ packet ∷ [])

unfoldable pub flush : Forwarder → Forwarder
unfolding write_batch
flush f = record { buf = []; written = write_batch f.buf f.written }

unfoldable pub send : Bytes → Forwarder → Forwarder
unfolding flush
send packet f =
    let next = record f { buf = f.buf ++ packet ∷ [] } in
    if leb 100 (length next.buf) then flush next else next
