-- ===== src/Collector/Vtap/Forwarder/Order.antt =====
-- The forwarder loses nothing and keeps the order, and its buffer stays small.
use ebpf_probe.Prelude.{
  ◌≤◌, ◌≡◌, ap, sym, ◌∙◌, append_assoc, append-nil, Option, none, some, List, [], ◌∷◌, ◌++◌, Bytes,
  length, leb, inl, inr, Bool-cases, arith,
}
use ebpf_probe.Collector.Vtap.Forwarder.{Forwarder, write_batch, flush, send}

write_batch-append : (batch written : List Bytes) → write_batch batch written ≡ written ++ batch
unfolding write_batch
write_batch-append [] written = sym (append-nil written)
write_batch-append (p ∷ batch) written =
    write_batch-append batch (written ++ p ∷ []) ∙ append_assoc written (p ∷ []) batch

-- A call: Send of a packet, or Flush by the ticker.
pub run : List (Option Bytes) → Forwarder → Forwarder
run [] f = f
run (none ∷ calls) f = run calls (flush f)
run (some packet ∷ calls) f = run calls (send packet f)

abbrev pub packets : List (Option Bytes) → List Bytes
packets [] = []
packets (none ∷ calls) = packets calls
packets (some packet ∷ calls) = packet ∷ packets calls

-- What was written, and then what waits.
abbrev pub queue : Forwarder → List Bytes
queue f = f.written ++ f.buf

queue-flush : (f : Forwarder) → queue (flush f) ≡ queue f
unfolding flush
queue-flush f = append-nil (write_batch f.buf f.written) ∙ write_batch-append f.buf f.written

queue-send : (packet : Bytes) (f : Forwarder) → queue (send packet f) ≡ queue f ++ packet ∷ []
unfolding send
queue-send packet f =
    let next : Forwarder = record f { buf = f.buf ++ packet ∷ [] } in
    elim (Bool-cases (leb 100 (length (f.buf ++ packet ∷ [])))) [
      | inl full ↦ rw full (queue-flush next ∙ sym (append_assoc f.written f.buf (packet ∷ [])))
      | inr room ↦ rw room (sym (append_assoc f.written f.buf (packet ∷ [])))
    ]

length-send : (packet : Bytes) (f : Forwarder) → length (send packet f).buf ≤ 99
unfolding send
length-send packet f = ground arith

length-run :
    (calls : List (Option Bytes)) (f : Forwarder)
    → length f.buf ≤ 99
    → length (run calls f).buf ≤ 99
unfolding run flush
length-run [] f h = h
length-run (none ∷ calls) f h = length-run calls (flush f) (omega arith)
length-run (some packet ∷ calls) f h = length-run calls (send packet f) (length-send packet f)

queue-run :
    (calls : List (Option Bytes)) (f : Forwarder) → queue (run calls f) ≡ queue f ++ packets calls
unfolding run
queue-run [] f = sym (append-nil (queue f))
queue-run (none ∷ calls) f =
    queue-run calls (flush f) ∙ ap (λ l. l ++ packets calls) (queue-flush f)
queue-run (some packet ∷ calls) f =
    queue-run calls (send packet f)
    ∙ (ap (λ l. l ++ packets calls) (queue-send packet f)
        ∙ append_assoc (queue f) (packet ∷ []) (packets calls))

-- For sends and flushes one after the other, what was written to the connection and then what
-- waits in the buffer is what stood there before and the packets sent since, in order; and from a
-- buffer below 100 packets on, the buffer stays below 100 packets.
pub forwarder_keeps :
    (calls : List (Option Bytes)) (f : Forwarder)
    → length f.buf ≤ 99
    → (queue (run calls f) ≡ queue f ++ packets calls) × (length (run calls f).buf ≤ 99)
forwarder_keeps calls f h = (queue-run calls f, length-run calls f h)
