-- ===== src/Store/Log.antt =====
-- The store after a run of events, with contexts that are not done.
use ajax_bridge.Prelude.{
  ℕ, suc, ◌+◌, ◌-◌, ◌%◌, ◌^◌, ◌<◌, none, List, [], ◌∷◌, ◌++◌, length, drop, append_assoc,
  append-nil, ◌≡◌, refl, sym, ap, ◌∙◌, arith,
}
use ajax_bridge.Time.{Time}
use ajax_bridge.Event.{Normalized}
use ajax_bridge.Store.{
  EventRecord, Store, new_store, event_record, append_event, pos, negsuc, effective_limit,
  list_events, count,
}

-- The events of a run, each with the time it is stored at.
abbrev pub Run : Type 0
Run = List (Time × Normalized)

unfoldable pub append_all : Store → Run → Store
append_all s [] = s
append_all s ((now, e) ∷ es) = append_all (append_event none now s e).1 es

-- The records of a run, with the numbers from the first on.
unfoldable pub numbered : ℕ → Run → List EventRecord
numbered first [] = []
numbered first ((now, e) ∷ es) = event_record first now e ∷ numbered (first + 1) es

length-numbered : (first : ℕ) (es : Run) → length (numbered first es) ≡ length es
unfolding numbered
length-numbered first [] = refl
length-numbered first (x ∷ es) = ap suc (length-numbered (first + 1) es)

append_all-events :
    (s : Store) (es : Run)
    → s.next_id + length es < 2 ^ 64
    → (append_all s es).events ≡ s.events ++ numbered (s.next_id + 1) es
unfolding append_all numbered append_event
append_all-events s [] h = sym (append-nil s.events)
append_all-events s ((now, e) ∷ es) h =
    let id_lem : (s.next_id + 1) % 2 ^ 64 ≡ s.next_id + 1 = ground arith in
    let ih = append_all-events (append_event none now s e).1 es (rw id_lem (ground arith)) in
    ih ∙ rw id_lem (append_assoc s.events _ _)

-- After a run of fewer than 2^64 events from an empty store, the store holds the events of the run, numbered
-- from 1 on in the order in which they were stored; a positive limit lists the last ones of that number, and
-- any other limit lists all.
pub list-append_all :
    (es : Run) (n : ℕ)
    → length es < 2 ^ 64
    → (list_events (append_all new_store es) (pos (suc n))
        ≡ drop (length es - suc n) (numbered 1 es))
      × (list_events (append_all new_store es) (pos 0) ≡ numbered 1 es)
      × (list_events (append_all new_store es) (negsuc n) ≡ numbered 1 es)
      × (count (append_all new_store es) ≡ length es)
unfolding list_events effective_limit count
list-append_all es n h =
    let held : (append_all new_store es).events ≡ numbered 1 es =
      append_all-events new_store es (omega (arith, h)) in
    let all_held : length es - length es ≡ 0 = omega arith in
    rw (held, length-numbered 1 es, all_held)
      (ap (λ k. drop k (numbered 1 es)) (ground arith), refl, refl, refl)
