-- ===== src/Output/Edge/Tests.antt =====
-- The edge client on small runs, with numbers for events.
use ebpf_probe.Prelude.{ℕ, ◌≡◌, ◌≢◌, ok, panic, refl, List, [], ◌∷◌, ◌++◌, arith, signed}
use mathlib.Core.List.Perm
use ebpf_probe.Output.Edge.Concurrent.{
  Shared, sending, sleeping, Reach, here, next, write, take, load, store, sleep, deliver, reset,
  first, later,
}
use ebpf_probe.Output.Edge.Concurrent.Conservation.{fresh, IsSafe, Reach-IsSafe}
use ebpf_probe.Output.Edge.{
  Report, Attempt, marshal_error, post_error, status, EdgeClient, idle, delivered, requeued,
  second_ns, doubled, sleep_of, backoff, retry, send, flush_batch, flush, write_event, write_batch,
}
use ebpf_probe.Output.Edge.Shutdown.{
  Opened, opened, start, close, closed_after, close_empties, close_strands,
}
use ebpf_probe.Output.Edge.Delivery.{
  Call, write_one, write_many, tick, gone, call, run, all_gone, all_given, run_conserves,
}

abbrev some_calls : List (Call ℕ × Attempt)
some_calls =
    (write_one 7, status 200)
    ∷ (write_many (8 ∷ 9 ∷ []), post_error)
    ∷ (write_one 10, marshal_error)
    ∷ (tick, status 200)
    ∷ []

abbrev small : EdgeClient ℕ
small = record { batch = []; batch_size = 9; retry_count = 0 }

-- A failed batch is sent again with what came after it.
some_calls_reports :
    (run some_calls small).1
    ≡ idle ∷ requeued second_ns (7 ∷ 8 ∷ 9 ∷ []) ∷ idle ∷ delivered (7 ∷ 8 ∷ 9 ∷ 10 ∷ []) ∷ []
unfolding run call write_event write_batch flush flush_batch send retry backoff doubled sleep_of
    signed
some_calls_reports = refl

-- The 35th sleep, of 2^34 seconds, is negative as an int64.
thirty_fifth : backoff 35 ≡ 0
unfolding backoff doubled sleep_of signed
thirty_fifth = refl

run_conserves_example :
    all_gone (run some_calls small).1 ++ (run some_calls small).0.batch
    ≡ small.batch ++ all_given some_calls
run_conserves_example = run_conserves some_calls small

-- Three events under way in two calls, one of which sleeps.
abbrev under_way : Shared ℕ
under_way = record {
  batch = 4 ∷ [];
  flights = sleeping (1 ∷ []) ∷ sending (2 ∷ 3 ∷ []) ∷ [];
  retry_count = 1;
  given = 1 ∷ 2 ∷ 3 ∷ 4 ∷ [];
  left = [];
}

abbrev afterwards : Shared ℕ
afterwards = record under_way {
  flights = sleeping (1 ∷ []) ∷ [];
  left = 2 ∷ 3 ∷ [];
  retry_count = 0;
}

under_way_steps : Reach ℕ fresh afterwards
under_way_steps =
    next
      (next
        (next
          (next
            (next
              (next
                (next
                  (next (next (next here (write fresh (1 ∷ []))) (take _ (cc)))
                    (load _ (1 ∷ []) [] (first _ _)))
                  (store _ 0 (1 ∷ []) [] (first _ _)))
                (sleep _ (1 ∷ []) [] (first _ _) (omega arith)))
              (write _ (2 ∷ 3 ∷ [])))
            (take _ (cc)))
          (write _ (4 ∷ [])))
        (deliver _ (2 ∷ 3 ∷ []) (sleeping (1 ∷ []) ∷ []) (later _ _ _ _ (first _ _))))
      (reset _ (sleeping (1 ∷ []) ∷ []) (later _ _ _ _ (first _ _)))

Reach-IsSafe_example : IsSafe afterwards
Reach-IsSafe_example = Reach-IsSafe (Perm.refl []) under_way_steps

close_empties_example :
    (close (status 200) (start (opened (run some_calls small).0))
      ≡ ok (closed_after small some_calls))
    × (((closed_after small some_calls).0.client.batch ≡ [])
        × (all_gone (run some_calls small).1 ++ gone (closed_after small some_calls).1
            ≡ small.batch ++ all_given some_calls))
close_empties_example = close_empties small some_calls

abbrev left_over : EdgeClient ℕ
left_over = record { batch = 7 ∷ []; batch_size = 9; retry_count = 0 }

not_empty : (e : ℕ) (es : List ℕ) → ◌≢◌ {A = List ℕ} (e ∷ es) []
not_empty e es h = cc

close_strands_example :
    (stranded : Opened ℕ × Report ℕ) × ((close post_error (start (opened left_over)) ≡ ok stranded)
      × ((stranded.0.client.batch ≡ left_over.batch) × (close post_error stranded.0 ≡ panic)))
close_strands_example = close_strands left_over (not_empty 7 []) (ground arith)
