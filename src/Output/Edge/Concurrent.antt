-- ===== src/Output/Edge/Concurrent.antt =====
-- The edge client as several goroutines use it: the collectors that write and the ticker's loop. A
-- call holds the lock only while it takes or extends the batch, so that batches are under way in
-- between. The counter of retries changes without the lock: reading it, writing it, and testing it
-- are steps of their own, between which other calls run.
pub mod Conservation
use ebpf_probe.Prelude.{ℕ, ◌+◌, ◌≤◌, ◌<◌, ◌≢◌, List, [], ◌∷◌, ◌++◌}
use ebpf_probe.Output.Edge.{max_retries}

-- Where a call of Flush stands, with the events that it holds: it sends them; it has sent them and
-- will reset the counter; it has read the counter, which it will write one higher; it has written it;
-- it has found it too high; or it waits for the end of its sleep.
pub data Flight (E : Type 0) : Type 0 where
  sending : List E → Flight E
  resetting : Flight E
  counting : ℕ → List E → Flight E
  counted : List E → Flight E
  dropping : List E → Flight E
  sleeping : List E → Flight E

abbrev pub events_of : {E : Type 0} → Flight E → List E
events_of (sending events) = events
events_of resetting = []
events_of (counting n events) = events
events_of (counted events) = events
events_of (dropping events) = events
events_of (sleeping events) = events

abbrev pub all_events : {E : Type 0} → List (Flight E) → List E
all_events [] = []
all_events (f ∷ flights) = events_of f ++ all_events flights

-- One of the calls under way, and the others.
pub data Pick (E : Type 0) : List (Flight E) → Flight E → List (Flight E) → Type 0 where
  first : (f : Flight E) (flights : List (Flight E)) → Pick E (f ∷ flights) f flights
  later :
      (g f : Flight E) (flights rest : List (Flight E))
      → Pick E flights f rest
      → Pick E (g ∷ flights) f (g ∷ rest)

-- `given` are the events written so far, and `left` those that have been delivered or given up.
pub record Shared (E : Type 0) : Type 0 where
  pub batch : List E
  pub flights : List (Flight E)
  pub retry_count : ℕ
  pub given : List E
  pub left : List E

pub data Step (E : Type 0) : Shared E → Shared E → Type 0 where
  write :
      (s : Shared E) (events : List E)
      → Step E s (record s { batch = s.batch ++ events; given = s.given ++ events })
  take :
      (s : Shared E)
      → s.batch ≢ []
      → Step E s (record s { batch = []; flights = s.flights ++ sending s.batch ∷ [] })
  deliver :
      (s : Shared E) (events : List E) (rest : List (Flight E))
      → Pick E s.flights (sending events) rest
      → Step E s (record s { flights = rest ++ resetting ∷ []; left = s.left ++ events })
  reset :
      (s : Shared E) (rest : List (Flight E))
      → Pick E s.flights resetting rest
      → Step E s (record s { flights = rest; retry_count = 0 })
  lose :
      (s : Shared E) (events : List E) (rest : List (Flight E))
      → Pick E s.flights (sending events) rest
      → Step E s (record s { flights = rest; left = s.left ++ events })
  load :
      (s : Shared E) (events : List E) (rest : List (Flight E))
      → Pick E s.flights (sending events) rest
      → Step E s (record s { flights = rest ++ counting s.retry_count events ∷ [] })
  store :
      (s : Shared E) (n : ℕ) (events : List E) (rest : List (Flight E))
      → Pick E s.flights (counting n events) rest
      → Step E s (record s { flights = rest ++ counted events ∷ []; retry_count = n + 1 })
  give_up :
      (s : Shared E) (events : List E) (rest : List (Flight E))
      → Pick E s.flights (counted events) rest
      → max_retries < s.retry_count
      → Step E s (record s { flights = rest ++ dropping events ∷ [] })
  drop_events :
      (s : Shared E) (events : List E) (rest : List (Flight E))
      → Pick E s.flights (dropping events) rest
      → Step E s (record s { flights = rest; left = s.left ++ events; retry_count = 0 })
  sleep :
      (s : Shared E) (events : List E) (rest : List (Flight E))
      → Pick E s.flights (counted events) rest
      → s.retry_count ≤ max_retries
      → Step E s (record s { flights = rest ++ sleeping events ∷ [] })
  requeue :
      (s : Shared E) (events : List E) (rest : List (Flight E))
      → Pick E s.flights (sleeping events) rest
      → Step E s (record s { flights = rest; batch = s.batch ++ events })

pub data Reach (E : Type 0) (s : Shared E) : Shared E → Type 0 where
  here : Reach E s s
  next : {t u : Shared E} → Reach E s t → Step E t u → Reach E s u
