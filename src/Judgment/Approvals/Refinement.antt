-- ===== src/Judgment/Approvals/Refinement.antt =====
-- The approval queue over a log against the one in memory.
use mathlib.Core.Option
use text.Mathlib.TextEquality.{eq_iff}
use proto_v2_engine.Base.{
  ◌==◌, if◌then◌else◌, get-put, String, Option, ◌≡◌, refl, true, none, some, List, [], ◌∷◌, ◌++◌,
  Dict, get, All, arith, truthy,
}
use proto_v2_engine.Judgment.Approvals.{
  ApprovalQueueItem, Event, snapshot, status_event, event_id_of, reduce_event, reduce, patch,
  file_backed, in_memory, write, write_all,
}

reduce-append :
    (st : Dict ApprovalQueueItem) (log : List Event) (e : Event)
    → reduce st (log ++ e ∷ []) ≡ reduce_event (reduce st log) e
unfolding reduce
reduce-append st [] e = refl
reduce-append st (x ∷ log) e = reduce-append (reduce_event st x) log e

-- One write to each keeps the reduced log equal to the dictionary.
write-reduce :
    (log : List Event) (e : Event)
    → truthy (event_id_of e) ≡ true
    → reduce [] (write file_backed e log) ≡ write in_memory e (reduce [] log)
unfolding reduce_event
write-reduce log (snapshot item) h = rw reduce-append (rw h)
write-reduce log (status_event id status) h = rw reduce-append (rw h)

-- The log reduces to the dictionary after any writes of events with an id.
pub reduce-write_all :
    (log : List Event) (es : List Event)
    → All (λ e. truthy (event_id_of e) ≡ true) es
    → reduce [] (write_all file_backed es log) ≡ write_all in_memory es (reduce [] log)
unfolding write_all
reduce-write_all log [] h = refl
reduce-write_all log (e ∷ es) h =
    rw (← write-reduce log e h.0) (reduce-write_all (write file_backed e log) es h.1)

-- After any writes of approvals with an id, both queues answer both queries alike.
pub file_refines_memory :
    (es : List Event) (id : String)
    → All (λ e. truthy (event_id_of e) ≡ true) es
    → (file_backed.get_latest_by_approval_id (write_all file_backed es []) id
        ≡ in_memory.get_latest_by_approval_id (write_all in_memory es []) id)
      × (file_backed.get_latest_for_dpa (write_all file_backed es []) id
          ≡ in_memory.get_latest_for_dpa (write_all in_memory es []) id)
unfolding reduce
file_refines_memory es id h = (rw (reduce-write_all [] es h), rw (reduce-write_all [] es h))

get-patch :
    (st : Dict ApprovalQueueItem) (o : Option ApprovalQueueItem) (id status j : String)
    → get st id ≡ o
    → get (patch o id status st) j ≡ (
        if id == j
        then Option.map (λ (item : ApprovalQueueItem). record item { status = status }) o
        else get st j)
get-patch st none id status j h = ground (arith, eq_iff id j)
get-patch st (some item) id status j h = get-put st id j (record item { status = status })

-- After a status write the log's view of an approval is the old one with the new status, if it is the
-- approval that was written and it was enqueued; else the old one.
latest-set_status :
    (log : List Event) (id status j : String)
    → truthy id ≡ true
    → file_backed.get_latest_by_approval_id (file_backed.set_status id status log) j ≡ (
        if id == j
        then Option.map
            (λ (item : ApprovalQueueItem). record item { status = status })
            (file_backed.get_latest_by_approval_id log id)
        else file_backed.get_latest_by_approval_id log j)
latest-set_status log id status j h =
    rw (write-reduce log (status_event id status) h)
      (get-patch (reduce [] log) (get (reduce [] log) id) id status j refl)
