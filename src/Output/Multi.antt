-- ===== src/Output/Multi.antt =====
-- output.go and multi.go: the interface of a writer, and the writer that hands every call on to
-- several. An error is the answer false; how errors are logged is left out. The arguments of the
-- metrics and of the process, file and system call events are of any type.
pub mod Isolation
use ebpf_probe.Prelude.{Bool, true, false, List, [], ◌∷◌}

pub record Writer (Event Args S : Type 0) : Type 0 where
  pub write_event : Event → S → S × Bool
  pub write_batch : List Event → S → S × Bool
  pub write_metrics : Args → S → S × Bool
  pub write_process_event : Args → S → S × Bool
  pub write_file_event : Args → S → S × Bool
  pub write_syscall_event : Args → S → S × Bool
  pub close : S → S × Bool
  pub flush : S → S

module _ {S : Type 0} where
  -- The loop over the writers, which goes on after an error.
  unfoldable pub for_each : (S → S × Bool) → List S → List S
  for_each call [] = []
  for_each call (w ∷ writers) = (call w).0 ∷ for_each call writers

  unfoldable pub flush_each : (S → S) → List S → List S
  flush_each flush [] = []
  flush_each flush (w ∷ writers) = flush w ∷ flush_each flush writers

-- MultiWriter is a writer whose state is the list of its writers'.
unfoldable pub multi_writer :
    {Event Args S : Type 0} → Writer Event Args S → Writer Event Args (List S)
unfolding for_each flush_each
multi_writer w = record {
  write_event = λ ev writers. (for_each (w.write_event ev) writers, true);
  write_batch = λ events writers. (for_each (w.write_batch events) writers, true);
  write_metrics = λ a writers. (for_each (w.write_metrics a) writers, true);
  write_process_event = λ a writers. (for_each (w.write_process_event a) writers, true);
  write_file_event = λ a writers. (for_each (w.write_file_event a) writers, true);
  write_syscall_event = λ a writers. (for_each (w.write_syscall_event a) writers, true);
  close = λ writers. (for_each w.close writers, true);
  flush = λ writers. flush_each w.flush writers;
}
