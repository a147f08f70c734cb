-- ===== src/Daemon/Wait/Reporting.antt =====
-- `Wait::collect` of crates/daemon/src/wait.rs: a wait whose client goes away.
use lazydap.Prelude.{◌≡◌, Bool, none, some, List, ap, ◌∙◌}
use lazydap.Core.Session.{timeout}
use lazydap.Daemon.Wait.{Wait, Received, run, abandoned}
use lazydap.Daemon.Wait.Context.{World}
use lazydap.Daemon.Wait.Collect.{entered, Aftermath, collect, conclude}

-- A wait that adopted no ending and whose client goes away answers a timeout, with what it had
-- gathered, and changes nothing of the session.
pub collect_abandoned :
    (all_threads : Bool) (after : Aftermath) (w : Wait) (received : List Received) (at : World)
    → w.preempted ≡ none
    → (run at.1.id all_threads w received).0 ≡ abandoned
    → collect all_threads after w received at
      ≡ some (record (run at.1.id all_threads w received).1.blob { state = timeout }, at)
unfolding collect conclude
collect_abandoned all_threads after w received at fresh_wait left =
    let looped = run at.1.id all_threads w received in
    ap (λ pre. conclude all_threads after (entered pre w looped).0 (entered pre w looped).1 at)
      fresh_wait
    ∙ ap (λ verdict. conclude all_threads after verdict looped.1 at) left
