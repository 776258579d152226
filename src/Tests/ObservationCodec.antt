-- ===== src/Tests/ObservationCodec.antt =====
-- A format for observations for the tests: the fields one after the other.
use Prim.Native.String.{String, []}
use aiops_aws.Prelude.{ℕ, zero, suc, ◌≡◌, refl, ap, Option, none, some, List}
use aiops_aws.Monitoring.{Metrics, Observation}
use aiops_aws.Tests.Codec.{
  Parsed, mapped, after, put_nat, get_nat, get_nat-put_nat, put_text, get_text, get_text-put_text,
}

abbrev put_metrics : Metrics ℕ → String → String
put_metrics m s = put_text m.instance_id (
    put_nat m.timestamp (
      put_nat m.cpu (
        put_nat m.memory (
          put_nat m.gpu_utilization (
            put_nat m.gpu_memory_utilization (
              put_nat m.gpu_encoder_session_count (
                put_nat m.network_in (
                  put_nat m.network_out (
                    put_nat m.network_packets_in (
                      put_nat m.network_packets_out (
                        put_nat m.disk_read_ops (
                          put_nat m.disk_write_ops (
                            put_nat m.disk_read_bytes (
                              put_nat m.disk_write_bytes (
                                put_nat m.volume_read_bytes (
                                  put_nat m.volume_write_bytes (
                                    put_nat m.volume_read_ops
                                      (put_nat m.volume_write_ops (s)))))))))))))))))))

abbrev get_metrics : String → Parsed (Metrics ℕ)
get_metrics s = after (get_text s) λ instance_id s. after (get_nat s) λ timestamp s.
    after (get_nat s) λ cpu s. after (get_nat s) λ memory s. after (get_nat s) λ gpu_utilization s.
      after (get_nat s) λ gpu_memory_utilization s. after (get_nat s) λ gpu_encoder_session_count s.
        after (get_nat s) λ network_in s. after (get_nat s) λ network_out s.
          after (get_nat s) λ network_packets_in s. after (get_nat s) λ network_packets_out s.
            after (get_nat s) λ disk_read_ops s. after (get_nat s) λ disk_write_ops s.
              after (get_nat s) λ disk_read_bytes s. after (get_nat s) λ disk_write_bytes s.
                after (get_nat s) λ volume_read_bytes s. after (get_nat s) λ volume_write_bytes s.
                  after (get_nat s) λ volume_read_ops s. after (get_nat s) λ volume_write_ops s.
                    some (
                      record {
                        instance_id = instance_id;
                        timestamp = timestamp;
                        cpu = cpu;
                        memory = memory;
                        gpu_utilization = gpu_utilization;
                        gpu_memory_utilization = gpu_memory_utilization;
                        gpu_encoder_session_count = gpu_encoder_session_count;
                        network_in = network_in;
                        network_out = network_out;
                        network_packets_in = network_packets_in;
                        network_packets_out = network_packets_out;
                        disk_read_ops = disk_read_ops;
                        disk_write_ops = disk_write_ops;
                        disk_read_bytes = disk_read_bytes;
                        disk_write_bytes = disk_write_bytes;
                        volume_read_bytes = volume_read_bytes;
                        volume_write_bytes = volume_write_bytes;
                        volume_read_ops = volume_read_ops;
                        volume_write_ops = volume_write_ops;
                      },
                      s,
                    )

get_metrics-put_metrics : (m : Metrics ℕ) (s : String) → get_metrics (put_metrics m s) ≡ some (m, s)
get_metrics-put_metrics m s =
    rw
      (
        get_text-put_text m.instance_id,
        get_nat-put_nat m.timestamp,
        get_nat-put_nat m.cpu,
        get_nat-put_nat m.memory,
        get_nat-put_nat m.gpu_utilization,
        get_nat-put_nat m.gpu_memory_utilization,
        get_nat-put_nat m.gpu_encoder_session_count,
        get_nat-put_nat m.network_in,
        get_nat-put_nat m.network_out,
        get_nat-put_nat m.network_packets_in,
        get_nat-put_nat m.network_packets_out,
        get_nat-put_nat m.disk_read_ops,
        get_nat-put_nat m.disk_write_ops,
        get_nat-put_nat m.disk_read_bytes,
        get_nat-put_nat m.disk_write_bytes,
        get_nat-put_nat m.volume_read_bytes,
        get_nat-put_nat m.volume_write_bytes,
        get_nat-put_nat m.volume_read_ops,
        get_nat-put_nat m.volume_write_ops,
      )
      refl

-- a list of texts, from its length on
abbrev put_texts : List String → String → String
put_texts List.[] s = s
put_texts (List.◌∷◌ t l) s = put_text t (put_texts l s)

abbrev count : List String → ℕ
count List.[] = 0
count (List.◌∷◌ t l) = suc (count l)

abbrev get_texts : ℕ → String → Parsed (List String)
get_texts zero s = some (List.[], s)
get_texts (suc n) s = after (get_text s) λ t s. mapped (λ l. List.◌∷◌ t l) (get_texts n s)

get_texts-put_texts :
    (l : List String) (s : String) → get_texts (count l) (put_texts l s) ≡ some (l, s)
get_texts-put_texts List.[] s = refl
get_texts-put_texts (List.◌∷◌ t l) s =
    rw (get_text-put_text t (put_texts l s))
      (ap (mapped (λ l. List.◌∷◌ t l)) (get_texts-put_texts l s))

abbrev pub encode_observation : Observation ℕ → String
encode_observation o = put_text o.instance_id (
    put_nat o.timestamp (
      put_metrics o.metrics (
        put_nat o.raw_log_count (
          put_nat o.log_summary.error_count (
            put_nat o.log_summary.warning_count
              (put_nat (count o.log_summary.keywords) (put_texts o.log_summary.keywords [])))))))

abbrev get_observation : String → Parsed (Observation ℕ)
get_observation s = after (get_text s) λ instance_id s. after (get_nat s) λ timestamp s.
    after (get_metrics s) λ metrics s. after (get_nat s) λ raw_log_count s.
      after (get_nat s) λ errors s. after (get_nat s) λ warnings s. after (get_nat s) λ n s.
        after (get_texts n s) λ keywords s. some (
          record {
            instance_id = instance_id;
            timestamp = timestamp;
            metrics = metrics;
            raw_log_count = raw_log_count;
            log_summary = record {
              error_count = errors;
              warning_count = warnings;
              keywords = keywords;
            };
          },
          s,
        )

abbrev value_of : Parsed (Observation ℕ) → Option (Observation ℕ)
value_of none = none
value_of (some (o, rest)) = some o

abbrev pub decode_observation : String → Option (Observation ℕ)
decode_observation s = value_of (get_observation s)

pub decode_observation-encode_observation :
    (o : Observation ℕ) → decode_observation (encode_observation o) ≡ some o
decode_observation-encode_observation o =
    let keywords = o.log_summary.keywords in
    rw
      (
        get_text-put_text o.instance_id,
        get_nat-put_nat o.timestamp,
        get_metrics-put_metrics o.metrics,
        get_nat-put_nat o.raw_log_count,
        get_nat-put_nat o.log_summary.error_count,
        get_nat-put_nat o.log_summary.warning_count,
        get_nat-put_nat (count keywords),
        get_texts-put_texts keywords [],
      )
      refl
