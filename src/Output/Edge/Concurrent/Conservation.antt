-- ===== src/Output/Edge/Concurrent/Conservation.antt =====
-- What every interleaving keeps.
use mathlib.Core.List.{Perm, perm_append_comm}
use mathlib.Core.List.Perm
use ebpf_probe.Prelude.{◌≡◌, refl, ap, sym, ◌∙◌, List, [], ◌∷◌, ◌++◌, append_assoc, append-nil}
use ebpf_probe.Output.Edge.Concurrent.{
  Flight, sending, resetting, counting, counted, dropping, sleeping, events_of, all_events, Pick,
  first, later, Shared, Step, write, take, deliver, reset, lose, load, store, give_up, drop_events,
  sleep, requeue, Reach, here, next,
}

module _ {E : Type 0} where
  perm_of_eq : {l m : List E} → l ≡ m → Perm l m
  perm_of_eq {l} e = rw (← e) (Perm.refl l)

  -- A part in the middle moves to the front.
  perm_front : (a b c : List E) → Perm (a ++ (b ++ c)) (b ++ (a ++ c))
  perm_front a b c =
      Perm.trans (perm_of_eq (sym (append_assoc a b c)))
        (Perm.trans (Perm.append_right c (perm_append_comm a b)) (perm_of_eq (append_assoc b a c)))

  all_events-append :
      (l : List (Flight E)) (f : Flight E) → all_events (l ++ f ∷ []) ≡ all_events l ++ events_of f
  all_events-append [] f = append-nil (events_of f)
  all_events-append (g ∷ l) f =
      ap (λ r. events_of g ++ r) (all_events-append l f)
      ∙ sym (append_assoc (events_of g) (all_events l) (events_of f))

  -- A call that ends gives up the events that it holds, and the others keep theirs.
  Pick-perm :
      {l rest : List (Flight E)} {f : Flight E}
      → Pick E l f rest
      → Perm (all_events l) (events_of f ++ all_events rest)
  Pick-perm (first f l) = Perm.refl (events_of f ++ all_events l)
  Pick-perm (later g f l rest p) =
      Perm.trans (Perm.append_left (events_of g) (Pick-perm p))
        (perm_front (events_of g) (events_of f) (all_events rest))

  -- All the events that are somewhere.
  abbrev pub everywhere : Shared E → List E
  everywhere s = s.left ++ (all_events s.flights ++ s.batch)

  abbrev pub IsSafe : Shared E → Type 0
  IsSafe s = Perm (everywhere s) s.given

  -- Events that leave.
  leave_perm :
      (left events rest batch : List E) {all : List E}
      → Perm all (events ++ rest)
      → Perm ((left ++ events) ++ (rest ++ batch)) (left ++ (all ++ batch))
  leave_perm left events rest batch p =
      Perm.trans (perm_of_eq (append_assoc left events (rest ++ batch))) (
        Perm.append_left left (
          Perm.trans (perm_of_eq (sym (append_assoc events rest batch)))
            (Perm.append_right batch (Perm.symm p))))

  -- Events that go back.
  back_perm :
      (left events rest batch : List E) {all : List E}
      → Perm all (events ++ rest)
      → Perm (left ++ (rest ++ (batch ++ events))) (left ++ (all ++ batch))
  back_perm left events rest batch p = Perm.append_left left (
      Perm.trans (perm_of_eq (sym (append_assoc rest batch events))) (
        Perm.trans (perm_append_comm (rest ++ batch) events) (
          Perm.trans (perm_of_eq (sym (append_assoc events rest batch)))
            (Perm.append_right batch (Perm.symm p)))))

  -- A call goes on with the events that it holds.
  move_perm :
      (left batch : List E) (f g : Flight E) (rest : List (Flight E)) {all : List E}
      → events_of f ≡ events_of g
      → Perm all (events_of f ++ all_events rest)
      → Perm (left ++ (all_events (rest ++ g ∷ []) ++ batch)) (left ++ (all ++ batch))
  move_perm left batch f g rest same p = Perm.append_left left (
      Perm.append_right batch (
        Perm.trans (perm_of_eq (all_events-append rest g)) (
          Perm.trans (perm_append_comm (all_events rest) (events_of g))
            (Perm.trans (perm_of_eq (ap (λ l. l ++ all_events rest) (sym same))) (Perm.symm p)))))

  -- A call that has sent its events has none left.
  sent_perm : (rest : List (Flight E)) → all_events (rest ++ resetting ∷ []) ≡ all_events rest
  sent_perm rest = all_events-append rest resetting ∙ append-nil (all_events rest)

  write_perm :
      (left flying batch events given : List E)
      → Perm (left ++ (flying ++ batch)) given
      → Perm (left ++ (flying ++ (batch ++ events))) (given ++ events)
  write_perm left flying batch events given p =
      Perm.trans
        (perm_of_eq (
          ap (λ l. left ++ l) (sym (append_assoc flying batch events))
          ∙ sym (append_assoc left (flying ++ batch) events)))
        (Perm.append_right events p)

  take_eq :
      (left batch : List E) (flights : List (Flight E))
      → left ++ (all_events (flights ++ sending batch ∷ []) ++ [])
        ≡ left ++ (all_events flights ++ batch)
  take_eq left batch flights =
      ap (λ l. left ++ l)
        (append-nil (all_events (flights ++ sending batch ∷ []))
          ∙ all_events-append flights (sending batch))

  Step-IsSafe : {s t : Shared E} → Step E s t → IsSafe s → IsSafe t
  Step-IsSafe (write s events) h = write_perm s.left (all_events s.flights) s.batch events s.given h
  Step-IsSafe (take s full) h = Perm.trans (perm_of_eq (take_eq s.left s.batch s.flights)) h
  Step-IsSafe (deliver s events rest p) h =
      Perm.trans (perm_of_eq (ap (λ l. (s.left ++ events) ++ (l ++ s.batch)) (sent_perm rest)))
        (Perm.trans (leave_perm s.left events (all_events rest) s.batch (Pick-perm p)) h)
  Step-IsSafe (reset s rest p) h =
      Perm.trans (Perm.append_left s.left (Perm.append_right s.batch (Perm.symm (Pick-perm p)))) h
  Step-IsSafe (lose s events rest p) h =
      Perm.trans (leave_perm s.left events (all_events rest) s.batch (Pick-perm p)) h
  Step-IsSafe (load s events rest p) h =
      Perm.trans
        (move_perm s.left s.batch (sending events) (counting s.retry_count events) rest refl
          (Pick-perm p))
        h
  Step-IsSafe (store s n events rest p) h =
      Perm.trans
        (move_perm s.left s.batch (counting n events) (counted events) rest refl (Pick-perm p)) h
  Step-IsSafe (give_up s events rest p over) h =
      Perm.trans
        (move_perm s.left s.batch (counted events) (dropping events) rest refl (Pick-perm p)) h
  Step-IsSafe (drop_events s events rest p) h =
      Perm.trans (leave_perm s.left events (all_events rest) s.batch (Pick-perm p)) h
  Step-IsSafe (sleep s events rest p few) h =
      Perm.trans
        (move_perm s.left s.batch (counted events) (sleeping events) rest refl (Pick-perm p)) h
  Step-IsSafe (requeue s events rest p) h =
      Perm.trans (back_perm s.left events (all_events rest) s.batch (Pick-perm p)) h

  -- However the calls of several goroutines interleave, from a state on in which this holds: the
  -- events that were delivered or given up, those under way and those in the batch are together the
  -- events given, each as often.
  pub Reach-IsSafe : {s t : Shared E} → IsSafe s → Reach E s t → IsSafe t
  Reach-IsSafe h here = h
  Reach-IsSafe h (next r st) = Step-IsSafe st (Reach-IsSafe h r)

  abbrev pub fresh : Shared E
  fresh = record { batch = []; flights = []; retry_count = 0; given = []; left = [] }
