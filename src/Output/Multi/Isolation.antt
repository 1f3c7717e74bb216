-- ===== src/Output/Multi/Isolation.antt =====
-- The writers behind a MultiWriter do not affect each other.
mod Tests
use mathlib.Core.Path.{ap₂}
use ebpf_probe.Prelude.{◌≡◌, refl, ap, sym, ◌∙◌, Bool, true, false, List, [], ◌∷◌, map}
use ebpf_probe.Output.Multi.{Writer, for_each, flush_each, multi_writer}

-- A call of the interface.
pub data Call (Event Args : Type 0) : Type 0 where
  write_event : Event → Call Event Args
  write_batch : List Event → Call Event Args
  write_metrics : Args → Call Event Args
  write_process_event : Args → Call Event Args
  write_file_event : Args → Call Event Args
  write_syscall_event : Args → Call Event Args
  close : Call Event Args
  flush : Call Event Args

module _ {Event Args S : Type 0} where
  unfoldable pub perform : Writer Event Args S → Call Event Args → S → S × Bool
  perform w (write_event ev) s = w.write_event ev s
  perform w (write_batch events) s = w.write_batch events s
  perform w (write_metrics a) s = w.write_metrics a s
  perform w (write_process_event a) s = w.write_process_event a s
  perform w (write_file_event a) s = w.write_file_event a s
  perform w (write_syscall_event a) s = w.write_syscall_event a s
  perform w close s = w.close s
  perform w flush s = (w.flush s, true)

  -- The state after the calls, and the answer to each.
  unfoldable pub run_calls : Writer Event Args S → List (Call Event Args) → S → S × List Bool
  unfolding perform
  run_calls w [] s = (s, [])
  run_calls w (call ∷ calls) s =
      let now = perform w call s in
      let later = run_calls w calls now.0 in (later.0, now.1 ∷ later.1)

module _ {Event Args S : Type 0} (w : Writer Event Args S) where
  -- One writer of them on its own.
  abbrev pub alone : List (Call Event Args) → S → S
  alone calls s = (run_calls w calls s).0

  for_each-map : (f : S → S × Bool) (l : List S) → for_each f l ≡ map (λ s. (f s).0) l
  unfolding for_each
  for_each-map f [] = refl
  for_each-map f (s ∷ l) = ap (λ r. (f s).0 ∷ r) (for_each-map f l)

  flush_each-map : (f : S → S) (l : List S) → flush_each f l ≡ map f l
  unfolding flush_each
  flush_each-map f [] = refl
  flush_each-map f (s ∷ l) = ap (λ r. f s ∷ r) (flush_each-map f l)

  map-once : (g : S → S) (f : S → S) (l : List S) → map g (map f l) ≡ map (λ s. g (f s)) l
  map-once g f [] = refl
  map-once g f (s ∷ l) = ap (λ r. g (f s) ∷ r) (map-once g f l)

  map_same : (l : List S) → map (λ s. s) l ≡ l
  map_same [] = refl
  map_same (s ∷ l) = ap (λ r. s ∷ r) (map_same l)

  perform-multi_writer :
      (call : Call Event Args) (l : List S)
      → perform (multi_writer w) call l ≡ (map (λ s. (perform w call s).0) l, true)
  unfolding perform multi_writer
  perform-multi_writer (write_event ev) l = ap (λ r. (r, true)) (for_each-map (w.write_event ev) l)
  perform-multi_writer (write_batch events) l =
      ap (λ r. (r, true)) (for_each-map (w.write_batch events) l)
  perform-multi_writer (write_metrics a) l =
      ap (λ r. (r, true)) (for_each-map (w.write_metrics a) l)
  perform-multi_writer (write_process_event a) l =
      ap (λ r. (r, true)) (for_each-map (w.write_process_event a) l)
  perform-multi_writer (write_file_event a) l =
      ap (λ r. (r, true)) (for_each-map (w.write_file_event a) l)
  perform-multi_writer (write_syscall_event a) l =
      ap (λ r. (r, true)) (for_each-map (w.write_syscall_event a) l)
  perform-multi_writer close l = ap (λ r. (r, true)) (for_each-map w.close l)
  perform-multi_writer flush l = ap (λ r. (r, true)) (flush_each-map w.flush l)

  -- For any implementation of a writer, any writers behind a MultiWriter and any calls: each writer
  -- ends up as if it had received all the calls on its own, whatever errors it or the others
  -- report, and the answer to every call is success.
  pub run_calls-multi_writer :
      (calls : List (Call Event Args)) (l : List S)
      → run_calls (multi_writer w) calls l ≡ (map (alone calls) l, map (λ call. true) calls)
  unfolding run_calls
  run_calls-multi_writer [] l = ap (λ r. (r, [])) (sym (map_same l))
  run_calls-multi_writer (call ∷ calls) l =
      let once : List S = map (λ s. (perform w call s).0) l in
      ap
        (λ now. (
          (run_calls (multi_writer w) calls now.0).0,
          now.1 ∷ (run_calls (multi_writer w) calls now.0).1,
        ))
        (perform-multi_writer call l)
      ∙ (ap (λ later. (later.0, true ∷ later.1)) (run_calls-multi_writer calls once)
          ∙ ap (λ r. (r, true ∷ map (λ c. true) calls))
              (map-once (alone calls) (λ s. (perform w call s).0) l))
