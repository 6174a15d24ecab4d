-- ===== src/Tests/Remote.antt =====
-- ipc/jobs.go and ipc/pubsub.go on small inputs.
use cliamp.Base.{
  ℕ, ◌+◌, ◌≡◌, refl, Bool, true, false, none, some, List, [], ◌∷◌, ◌++◌, map, length, arith,
}
use cliamp.Base.Results.{Result}
use Prim.Native.String.{String}
use cliamp.Ipc.Jobs.{
  queued, running, Job, Stored, JobStore, new_job, create, prune_expired, find_job, is_terminal,
}
use cliamp.Ipc.Jobs.Methods.{cancel_all, succeeds}
use cliamp.Ipc.Jobs.Invariant.{IsValid}
use cliamp.Ipc.Jobs.Admission.{Admission, create-Admission}
use cliamp.Ipc.Jobs.Histories as JobHistories
use cliamp.Ipc.Jobs.Histories.{World, Call, creates, starts, settles, new_world, run-new-IsValid}
use cliamp.Ipc.Jobs.Transitions.{Progress, step-Progress}
use cliamp.Ipc.Jobs.Shutdown.{cancel_all-is_terminal}
use cliamp.Ipc.Broker.{
  Event, Subscriber, Broker, BrokerError, new_broker, publish, returns, blocked, retain_event,
}
use cliamp.Ipc.Broker.Subscribing.{subscribe, topic_set}
use cliamp.Ipc.Broker.Serving.{served, disconnected, publish-served}
use cliamp.Ipc.Broker.Blocking.{subscribe-publish_blocked}
use cliamp.Ipc.Broker.Histories.{
  publish_call, subscribe_call, close_call, run, run-new_broker, IsOpenHanded,
}
use cliamp.Ipc.Broker.Histories as BrokerHistories

abbrev accepts : String → Bool
accepts text = true

-- Two places; one job runs, the other waits.
abbrev two_jobs : List (Call ℕ)
two_jobs =
    creates (some 7) 70 "radio.play" 100 100
    ∷ creates (some 8) 80 "lyrics" 101 101
    ∷ starts 7 102 103
    ∷ []

abbrev busy : World ℕ
busy = JobHistories.run accepts two_jobs (new_world (some 2) none)

run-new-IsValid_example : IsValid busy.store
run-new-IsValid_example = run-new-IsValid accepts (some 2) none two_jobs

create-Admission_example :
    Admission
      (prune_expired 105 busy.store)
      (record { ctx = 90; job = new_job 9 "seek" 104 })
      (create (some 9) 90 "seek" 104 105 busy.store)
    × IsValid (create (some 9) 90 "seek" 104 105 busy.store).0
create-Admission_example =
    create-Admission 9 90 "seek" 104 105 busy.store (run-new-IsValid accepts (some 2) none two_jobs)
      refl

abbrev running_job : Stored ℕ
running_job = record {
  ctx = 70;
  job = record (new_job 7 "radio.play" 100) { state = running; started_at = some 103 };
}

is_running : find_job 7 busy.store.jobs ≡ some running_job
unfolding cliamp.Ipc.Jobs.Histories.run find_job JobHistories.step cliamp.Ipc.Jobs.Methods.start
    create cliamp.Ipc.Jobs.new_job_store
is_running = refl

step-Progress_example :
    Progress running_job
      (find_job 7 (JobHistories.step accepts (settles 7 (succeeds "{}") 104 105) busy).store.jobs)
step-Progress_example =
    step-Progress accepts (settles 7 (succeeds "{}") 104 105) busy 7 running_job
      (run-new-IsValid accepts (some 2) none two_jobs) (λ e. absurd (ground (arith, e))) is_running

cancel_all-is_terminal_example :
    ((i : ℕ) (k : Stored ℕ)
      → find_job i (cancel_all (λ n. (n, n)) busy.store).jobs ≡ some k
      → is_terminal k.job.state ≡ true)
    × IsValid (cancel_all (λ n. (n, n)) busy.store)
cancel_all-is_terminal_example =
    cancel_all-is_terminal (λ n. (n, n)) busy.store (run-new-IsValid accepts (some 2) none two_jobs)

abbrev accepts_bytes : List ℕ → Bool
accepts_bytes payload = true

abbrev at_once : ℕ → ℕ
at_once n = n

-- A subscriber with two free places, and one with a single one.
abbrev fast : Subscriber
fast = record { id = 1; topics = "a" ∷ []; events = []; capacity = 2 }

abbrev slow : Subscriber
slow = record { id = 2; topics = "a" ∷ []; events = []; capacity = 1 }

abbrev two_subscribers : Broker
two_subscribers = record new_broker { next_sub = 2; subscribers = fast ∷ slow ∷ [] }

abbrev first_event : Event
first_event = record { event = "a"; sequence = 1; time = 1; retained = false; payload = [] }

publish-served_example :
    publish accepts_bytes at_once "a" [] true two_subscribers
    ≡ returns (
      record two_subscribers {
        next_event = 1 + length (disconnected at_once first_event 1 (fast ∷ slow ∷ []));
        retained = retain_event "a" first_event [];
        subscribers = served first_event (fast ∷ slow ∷ []);
        ended = [] ++ disconnected at_once first_event 1 (fast ∷ slow ∷ []);
      },
      none,
    )
unfolding cliamp.Ipc.Broker.valid_topic cliamp.Ipc.Broker.find_retained
publish-served_example =
    publish-served accepts_bytes at_once "a" [] true two_subscribers refl (omega arith) refl refl
      refl (omega arith, (omega arith, tt)) (omega arith)

abbrev calls : List BrokerHistories.Call
calls = subscribe_call ("a" ∷ "b" ∷ []) ∷ publish_call at_once "a" [] true ∷ close_call ∷ []

run-new_broker_example :
    (b : Broker) × (run accepts_bytes calls new_broker ≡ returns b) × IsOpenHanded b
run-new_broker_example = run-new_broker accepts_bytes calls (omega arith, (tt, (tt, tt)))

abbrev other_topics : List String
other_topics =
    "t1" ∷ "t2" ∷ "t3" ∷ "t4" ∷ "t5" ∷ "t6" ∷ "t7" ∷ "t8" ∷ "t9" ∷ "t10" ∷ "t11" ∷ "t12" ∷ "t13"
    ∷ "t14" ∷ "t15" ∷ "t16" ∷ "t17" ∷ "t18" ∷ "t19" ∷ "t20" ∷ "t21" ∷ "t22" ∷ "t23" ∷ "t24" ∷ "t25"
    ∷ "t26" ∷ "t27" ∷ "t28" ∷ "t29" ∷ "t30" ∷ "t31" ∷ []

abbrev event_of : String → String × Event
event_of topic =
    (topic, record { event = topic; sequence = 1; time = 1; retained = false; payload = [] })

abbrev all_kept : Broker
all_kept = record new_broker { retained = map event_of ("t0" ∷ other_topics) }

subscribe-publish_blocked_example :
    (r : Broker × Result BrokerError ℕ) × (subscribe ("t0" ∷ other_topics) all_kept ≡ returns r)
    × (publish accepts_bytes at_once "t0" [] false r.0 ≡ blocked)
unfolding cliamp.Ipc.Broker.valid_topic cliamp.Ipc.Broker.find_retained
    cliamp.Ipc.Broker.Subscribing.topic_set
subscribe-publish_blocked_example =
    subscribe-publish_blocked accepts_bytes at_once "t0" other_topics ("t0" ∷ other_topics) all_kept
      "t0" [] false (omega arith) refl refl refl refl refl refl refl (omega arith) refl
