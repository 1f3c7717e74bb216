-- ===== src/Output/Edge.antt =====
-- internal/output/edge.go: the client that sends batches of events to the edge server, as one
-- goroutine drives it. How a round of json.Marshal and http.Client.Post goes is an argument
-- (`Attempt`), and what a call does beyond its state is its result (`Report`).
pub mod Backoff
pub mod Delivery
pub mod Concurrent
pub mod Shutdown
mod Tests
use ebpf_probe.Prelude.{
  ℕ, zero, suc, ◌+◌, ◌-◌, ◌*◌, ◌%◌, ◌^◌, Bool, true, false, List, [], ◌∷◌, ◌++◌, length, ltb, leb,
  ◌==◌, if◌then◌else◌, signed,
}
use ebpf_probe.Prelude.Decimal.{ℤ, pos, negsuc}

-- The marshalling fails, the post fails, or the server answers with a status.
pub data Attempt : Type 0 where
  marshal_error : Attempt
  post_error : Attempt
  status : ℕ → Attempt

-- The fields that decide what happens to events; the address, the probe's id, the HTTP client, the
-- ticker and the stop channel are only handed to the libraries.
pub record EdgeClient {ℓ} (E : Type ℓ) : Type ℓ where
  pub batch : List E
  pub batch_size : ℕ
  pub retry_count : ℕ

-- What happened to the events that a call took: nothing was sent; they were delivered; they were
-- given up with the marshalling error; they went back behind the batch after a sleep of so many
-- nanoseconds; they were dropped.
pub data Report {ℓ} (E : Type ℓ) : Type ℓ where
  idle : Report E
  delivered : List E → Report E
  marshal_lost : List E → Report E
  requeued : ℕ → List E → Report E
  dropped : List E → Report E

abbrev pub max_retries : ℕ
max_retries = 100

abbrev pub second_ns : ℕ
second_ns = 1000000000

-- `time.Second * time.Duration(1<<uint(retryCount-1))`, a product of int64 values.
unfoldable pub doubled : ℕ → ℤ
unfolding signed
doubled n = signed (2 ^ 63) ((2 ^ (n - 1) % 2 ^ 64) * second_ns % 2 ^ 64)

-- `time.Sleep` returns at once on a duration of 0 or less.
unfoldable pub sleep_of : ℤ → ℕ
sleep_of (pos d) = if ltb (60 * second_ns) d then 60 * second_ns else d
sleep_of (negsuc d) = 0

-- The time slept before the events go back, at a retry count of `n`.
unfoldable pub backoff : ℕ → ℕ
unfolding doubled sleep_of
backoff n = sleep_of (doubled n)

module _ {ℓ} {E : Type ℓ} where
  unfoldable pub new_edge_client : EdgeClient E
  new_edge_client = record { batch = []; batch_size = 2000; retry_count = 0 }

  unfoldable pub retry : List E → EdgeClient E → EdgeClient E × Report E
  retry events c =
      if ltb max_retries (c.retry_count + 1)
      then (record c { retry_count = 0 }, dropped events)
      else (
        record c { batch = c.batch ++ events; retry_count = c.retry_count + 1 },
        requeued (backoff (c.retry_count + 1)) events,
      )

  -- The attempt on the events taken out of the batch, which is empty by then.
  unfoldable pub send : Attempt → List E → EdgeClient E → EdgeClient E × Report E
  send marshal_error events c = (c, marshal_lost events)
  send post_error events c = retry events c
  send (status code) events c =
      if code == 200 then (record c { retry_count = 0 }, delivered events) else retry events c

  unfoldable pub flush_batch : Attempt → List E → EdgeClient E → EdgeClient E × Report E
  flush_batch a [] c = (c, idle)
  flush_batch a (e ∷ events) c = send a (e ∷ events) (record c { batch = [] })

  unfoldable pub flush : Attempt → EdgeClient E → EdgeClient E × Report E
  flush a c = flush_batch a c.batch c

  unfoldable pub write_event : Attempt → E → EdgeClient E → EdgeClient E × Report E
  write_event a e c =
      let batch = c.batch ++ e ∷ [] in
      let next = record c { batch = batch } in
      if leb c.batch_size (length batch) then flush a next else (next, idle)

  unfoldable pub write_batch : Attempt → List E → EdgeClient E → EdgeClient E × Report E
  write_batch a events c = flush a (record c { batch = c.batch ++ events })
