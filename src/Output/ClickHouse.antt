-- ===== src/Output/ClickHouse.antt =====
-- clickhouse.go: the writer that inserts events into a database in batches, as one goroutine drives
-- it. What the database does is an argument: for each flush a DbAnswer, and for each row that is
-- inserted on its own whether it is accepted. Opening the connection, creating the tables and the
-- loop that calls Flush are left out.
pub mod Rows
pub mod Stored
mod Tests
use ebpf_probe.Prelude.{
  ℕ, ◌+◌, ◌≤◌, ◌&&◌, Bool, true, false, List, [], ◌∷◌, ◌++◌, length, leb, if◌then◌else◌,
}
use ebpf_probe.Output.Multi.{Writer}

-- What the database answers to a flush: Begin fails, Prepare fails, or the statement runs, accepts
-- some events, and the commit succeeds or fails.
pub data DbAnswer (E : Type 0) : Type 0 where
  begin_error : DbAnswer E
  prepare_error : DbAnswer E
  runs : (accepts : E → Bool) (commits : Bool) → DbAnswer E

-- What a flush did with the events that it took.
pub data FlushReport (E : Type 0) : Type 0 where
  idle : FlushReport E
  refused : List E → FlushReport E
  executed : (events inserted : List E) (committed : Bool) → FlushReport E

pub record ClickHouseWriter (E : Type 0) : Type 0 where
  pub batch : List E
  pub batch_size : ℕ

-- The writer with its database: the answer to its n-th flush, whether its n-th other statement is
-- accepted, how many there were, and what the flushes did; whether the stop channel is closed, and
-- whether the program has ended with a panic.
pub record Connected (E : Type 0) : Type 0 where
  pub writer : ClickHouseWriter E
  pub answers : ℕ → DbAnswer E
  pub accepts : ℕ → Bool
  pub closes : Bool
  pub stop_closed : Bool
  pub crashed : Bool
  pub flushes : ℕ
  pub statements : ℕ
  pub reports : List (FlushReport E)

module _ {E : Type 0} where
  unfoldable pub new_click_house_writer : ClickHouseWriter E
  new_click_house_writer = record { batch = []; batch_size = 2000 }

  -- The loop over the events, which skips those that are not accepted.
  unfoldable pub insert_each : (E → Bool) → List E → List E
  insert_each accepts [] = []
  insert_each accepts (e ∷ events) =
      let rest = insert_each accepts events in if accepts e then e ∷ rest else rest

  unfoldable pub execute : DbAnswer E → List E → FlushReport E
  unfolding insert_each
  execute begin_error events = refused events
  execute prepare_error events = refused events
  execute (runs accepts commits) events = executed events (insert_each accepts events) commits

  -- The error that Flush returns; true is none.
  abbrev pub is_fine : FlushReport E → Bool
  is_fine idle = true
  is_fine (refused events) = false
  is_fine (executed events inserted committed) = committed

  unfoldable pub flush_events : List E → Connected E → Connected E × Bool
  unfolding execute
  flush_events [] s = (s, true)
  flush_events (e ∷ events) s =
      let report = execute (s.answers s.flushes) (e ∷ events) in
      (
        record s {
          writer = record s.writer { batch = [] };
          flushes = s.flushes + 1;
          reports = s.reports ++ report ∷ [];
        },
        is_fine report,
      )

  unfoldable pub flush : Connected E → Connected E × Bool
  unfolding flush_events
  flush s = flush_events s.writer.batch s

  unfoldable pub with_events : List E → Connected E → Connected E
  with_events events s = record s { writer = record s.writer { batch = s.writer.batch ++ events } }

  -- The result of the flush is not looked at.
  unfoldable pub write_event : E → Connected E → Connected E × Bool
  unfolding with_events flush
  write_event e s =
      let next = with_events (e ∷ []) s in
      if leb next.writer.batch_size (length next.writer.batch)
      then ((flush next).0, true)
      else (next, true)

  unfoldable pub write_batch : List E → Connected E → Connected E × Bool
  unfolding with_events flush
  write_batch events s = ((flush (with_events events s)).0, true)

  -- The four methods that insert one row.
  unfoldable pub insert_row : Connected E → Connected E × Bool
  insert_row s = (record s { statements = s.statements + 1 }, s.accepts s.statements)

  -- Close, given whether the stop channel is closed: closing it again panics.
  abbrev pub close_with : Bool → Connected E → Connected E × Bool
  close_with true s = (record s { crashed = true }, s.closes)
  close_with false s = (record ((flush s).0) { stop_closed = true }, s.closes)

  unfoldable pub close : Connected E → Connected E × Bool
  unfolding flush
  close s = close_with s.stop_closed s

-- ClickHouseWriter as a writer.
unfoldable pub click_house_writer : {E Args : Type 0} → Writer E Args (Connected E)
unfolding write_event write_batch insert_row close flush
click_house_writer = record {
  write_event = write_event;
  write_batch = write_batch;
  write_metrics = λ a s. insert_row s;
  write_process_event = λ a s. insert_row s;
  write_file_event = λ a s. insert_row s;
  write_syscall_event = λ a s. insert_row s;
  close = close;
  flush = λ s. (flush s).0;
}
