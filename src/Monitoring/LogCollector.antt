-- ===== src/Monitoring/LogCollector.antt =====
-- backend/aws/log_collector.py: the recent logs of an instance.
use aiops_aws.Prelude.{ℕ, ◌+◌, ◌-◌, ◌*◌, ◌/◌, String, Option, none, some, List, [], ◌∷◌}
use aiops_aws.Security.{minutes}
use aiops_aws.Ec2.{Reply, returned, failed}
use aiops_aws.CloudWatch.Results.{or_empty}
use aiops_aws.Monitoring.{LogEvent, RawEvent, Services, World, current_time}

-- a `LogEvent` where the event has a timestamp and a message, and a `KeyError` where it has not
abbrev event_of : String → String → Option ℕ → Option String → Option LogEvent
event_of instance_id group none message = none
event_of instance_id group (some t) none = none
event_of instance_id group (some t) (some m) = some (record {
  instance_id = instance_id;
  timestamp = t * 1000;
  log_group = group;
  log_stream = instance_id;
  message = m;
})

abbrev join_event : Option LogEvent → Option (List LogEvent) → Option (List LogEvent)
join_event none rest = none
join_event (some e) none = none
join_event (some e) (some logs) = some (e ∷ logs)

-- the loop over the events, which the first `KeyError` ends
abbrev pub log_events : String → String → List RawEvent → Option (List LogEvent)
log_events instance_id group [] = some []
log_events instance_id group (e ∷ es) =
    join_event (event_of instance_id group e.event_timestamp e.event_message)
      (log_events instance_id group es)

-- Every exception is logged, and there are no logs then.
abbrev pub logs_of : String → String → Reply (Option (List RawEvent)) → List LogEvent
logs_of instance_id group (failed e) = []
logs_of instance_id group (returned response) =
    or_empty (log_events instance_id group (or_empty response))

module _ {V : Type 0} (services : Services V) where
  -- The stream has the instance's name; the start is in milliseconds.
  unfoldable pub fetch_logs : String → String → ℕ → World → List LogEvent × World
  fetch_logs instance_id log_group_name span w =
      let (now, w') = current_time services w in
      let c = w'.collector in
      (
        logs_of instance_id log_group_name (
            services.get_log_events c.step log_group_name instance_id
              ((now - minutes span) / 1000)),
        record w' { collector = record c { step = c.step + 1 } },
      )
