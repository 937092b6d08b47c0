-- ===== src/Engine/QueueAdapter.antt =====
-- The engine behind core/judgment/adapters/judgment_from_queue.py.
use proto_v2_engine.Base.{ℕ, String, ◌≡◌, ◌≢◌, Option, some, Result, ok, arith}
use proto_v2_engine.Execution.Exceptions.{Exception}
use proto_v2_engine.Execution.Floats.{Floats}
use proto_v2_engine.Execution.Envelope.{EnvelopeArgument}
use proto_v2_engine.Execution.Executor.{DpaApplyPort}
use proto_v2_engine.Judgment.Approvals.{ApprovalQueue}
use proto_v2_engine.Engine.Transition.{JudgmentApproval, constitutional_transition}
use proto_v2_engine.Engine.Run.{transition_no_bypass}
use proto_v2_engine.Engine.Ports.{queue_judgment}

queue_judgment-ne-ok :
    {Q : Type 0} (queue : ApprovalQueue Q) (q : Q) (now : ℕ) (dpa_id : String)
    (a : JudgmentApproval)
    → queue_judgment queue q now dpa_id ≢ ok a
unfolding queue_judgment
queue_judgment-ne-ok queue q now dpa_id a h = ground arith

-- With this adapter as its judgment port the transition never returns an output of the engine,
-- whatever the queue holds: the approval is built without its option, which raises.
transition-queue_adapter_fails :
    {F S D P Out Q : Type 0} (f : Floats F) (run_engine : P → Result Exception Out)
    (queue : ApprovalQueue Q) (q : Q) (port : Option (DpaApplyPort S D))
    (envelope : Option (EnvelopeArgument F)) (amendment_class dpa_id : String) (prelude : P)
    (now : ℕ) (s s' : S) (out : Out)
    → constitutional_transition f run_engine
        (some (queue_judgment queue q now))
        port
        envelope
        amendment_class
        dpa_id
        prelude
        now
        s
      ≢ (ok out, s')
transition-queue_adapter_fails f run_engine queue q port envelope amendment_class dpa_id prelude now
      s s' out ran =
    let g =
      transition_no_bypass f run_engine (some (queue_judgment queue q now)) port envelope
        amendment_class dpa_id prelude now s s' out ran in
    let same : queue_judgment queue q now ≡ g.judge = cc g.judged in
    queue_judgment-ne-ok queue q now dpa_id g.approval (rw (← same) at g.approved)
