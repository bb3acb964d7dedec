-- ===== src/Config/Schema/Exact/RemoteTool.antt =====
-- What `validate_remote_tool` accepts.
use remote_tool.Prelude.{
  ℕ, ◌*◌, ◌<◌, ◌≡◌, refl, ◌↔◌, some, ap, ◌∙◌, [], ◌∷◌, Bytes, codes, length, bytes_eq, bytes_eq_iff,
}
use remote_tool.Config.Json.Value.{JsonValue, string, find}
use remote_tool.Config.Schema.Checks.{ok, root_must_be_an_object, must_be_loopback}
use remote_tool.Config.Schema.RemoteTool.{
  agent_listener, mapping_listener, heartbeat, limits, validate_remote_tool,
}
use remote_tool.Config.Schema.Accepts.{
  Accepts, Accepts-bind, Accepts-then, Accepts-ok, Accepts-ensure, Accepts-map,
  Accepts-keys_checked, Finds-required, HasKeys,
}
use remote_tool.Config.Schema.Fields.{
  NumberIn, Finds-object_at, Finds-string_at, Finds-nonempty_at, Finds-number_in, Finds-number_from,
}
use remote_tool.Config.Schema.Exact.Shared.{
  IsVersion1, Accepts-version_checked, IsLogging, Accepts-validate_logging_block,
}

-- A member of the root that is an object with the listed keys.
abbrev pub Member : JsonValue → Bytes → (JsonValue → Type 0) → Type 0
Member root name P = (v : JsonValue) × (find root name ≡ some v) × P v

pub record IsAgentListener (v : JsonValue) : Type 0 where
  pub bind_host : Bytes
  pub port : ℕ
  pub keys : HasKeys (codes "bind_host" ∷ codes "port" ∷ []) v
  pub bind_host_read : find v (codes "bind_host") ≡ some (string bind_host)
  pub bind_host_nonempty : 0 < length bind_host
  pub port_read : NumberIn 1 65535 v (codes "port") port

pub record IsMappingListener (v : JsonValue) : Type 0 where
  pub keys : HasKeys (codes "bind_host" ∷ []) v
  pub bind_host_read : find v (codes "bind_host") ≡ some (string (codes "127.0.0.1"))

-- The timeout is at least twice the interval.
pub record IsHeartbeat (v : JsonValue) : Type 0 where
  pub interval_ms : ℕ
  pub timeout_ms : ℕ
  pub keys : HasKeys (codes "interval_ms" ∷ codes "timeout_ms" ∷ []) v
  pub interval_read : NumberIn 1000 60000 v (codes "interval_ms") interval_ms
  pub timeout_read : NumberIn (2 * interval_ms) 180000 v (codes "timeout_ms") timeout_ms

-- An agent may have as many sessions as a mapping, and the tunnel's queue holds a session's.
pub record IsLimits (v : JsonValue) : Type 0 where
  pub per_mapping : ℕ
  pub per_agent : ℕ
  pub session_queue : ℕ
  pub tunnel_queue : ℕ
  pub keys :
      HasKeys
        (codes "max_sessions_per_mapping"
          ∷ codes "max_sessions_per_agent"
          ∷ codes "max_session_queue_bytes"
          ∷ codes "max_tunnel_queue_bytes"
          ∷ [])
        v
  pub per_mapping_read : NumberIn 1 1024 v (codes "max_sessions_per_mapping") per_mapping
  pub per_agent_read : NumberIn per_mapping 4096 v (codes "max_sessions_per_agent") per_agent
  pub session_queue_read : NumberIn 65536 4194304 v (codes "max_session_queue_bytes") session_queue
  pub tunnel_queue_read :
      NumberIn session_queue 67108864 v (codes "max_tunnel_queue_bytes") tunnel_queue

pub record IsRemoteToolConfig (root : JsonValue) : Type 0 where
  pub keys :
      HasKeys
        (codes "schema_version"
          ∷ codes "agent_listener"
          ∷ codes "mapping_listener"
          ∷ codes "heartbeat"
          ∷ codes "limits"
          ∷ codes "logging"
          ∷ [])
        root
  pub version : IsVersion1 root
  pub agent_listener_read : Member root (codes "agent_listener") IsAgentListener
  pub mapping_listener_read : Member root (codes "mapping_listener") IsMappingListener
  pub heartbeat_read : Member root (codes "heartbeat") IsHeartbeat
  pub limits_read : Member root (codes "limits") IsLimits
  pub logging_read : Member root (codes "logging") IsLogging

module _ (root : JsonValue) where
  Accepts-agent_listener :
      Accepts (agent_listener root) (Member root (codes "agent_listener") IsAgentListener)
  unfolding agent_listener
  Accepts-agent_listener =
      Accepts-map
        (Accepts-bind
          (Finds-object_at root (codes "agent_listener") (codes "agent_listener")
            (codes "bind_host" ∷ codes "port" ∷ []))
          λ v.
            Accepts-bind
              (Finds-nonempty_at v (codes "bind_host") (codes "agent_listener.bind_host"))
              λ host.
                Accepts-bind
                  (Finds-number_in v (codes "port") (codes "agent_listener.port") 1 65535)
                  λ port. Accepts-ok)
        (λ (v, (there, keys), (host, (read, nonempty), (port, h, _))). (
          v,
          there,
          record {
            bind_host = host;
            port = port;
            keys = keys;
            bind_host_read = read;
            bind_host_nonempty = nonempty;
            port_read = h;
          },
        ))
        (λ (v, there, r). (
          v,
          (there, r.keys),
          (r.bind_host, (r.bind_host_read, r.bind_host_nonempty), (r.port, r.port_read, tt)),
        ))

  Accepts-mapping_listener :
      Accepts (mapping_listener root) (Member root (codes "mapping_listener") IsMappingListener)
  unfolding mapping_listener
  Accepts-mapping_listener =
      Accepts-map
        (Accepts-bind
          (Finds-object_at root (codes "mapping_listener") (codes "mapping_listener")
            (codes "bind_host" ∷ []))
          λ v.
            Accepts-bind
              (Finds-string_at v (codes "bind_host") (codes "mapping_listener.bind_host"))
              λ host.
                Accepts-ensure (bytes_eq host (codes "127.0.0.1"))
                  (codes "mapping_listener.bind_host") must_be_loopback)
        (λ (v, (there, keys), (host, read, loopback)). (
          v,
          there,
          record {
            keys = keys;
            bind_host_read =
                read ∙ ap some (ap string ((bytes_eq_iff host (codes "127.0.0.1")).0 loopback));
          },
        ))
        (λ (v, there, r). (
          v,
          (there, r.keys),
          (
            codes "127.0.0.1",
            r.bind_host_read,
            (bytes_eq_iff (codes "127.0.0.1") (codes "127.0.0.1")).1 refl,
          ),
        ))

  Accepts-heartbeat : Accepts (heartbeat root) (Member root (codes "heartbeat") IsHeartbeat)
  unfolding heartbeat
  Accepts-heartbeat =
      Accepts-map
        (Accepts-bind
          (Finds-object_at root (codes "heartbeat") (codes "heartbeat")
            (codes "interval_ms" ∷ codes "timeout_ms" ∷ []))
          λ v.
            Accepts-bind
              (Finds-number_in v (codes "interval_ms") (codes "heartbeat.interval_ms") 1000 60000)
              λ interval.
                Accepts-bind
                  (Finds-number_from v (codes "timeout_ms") (codes "heartbeat.timeout_ms")
                    (2 * interval) 180000)
                  λ timeout. Accepts-ok)
        (λ (v, (there, keys), (interval, h, (timeout, k, _))). (
          v,
          there,
          record {
            interval_ms = interval;
            timeout_ms = timeout;
            keys = keys;
            interval_read = h;
            timeout_read = k;
          },
        ))
        (λ (v, there, r). (
          v,
          (there, r.keys),
          (r.interval_ms, r.interval_read, (r.timeout_ms, r.timeout_read, tt)),
        ))

  Accepts-limits : Accepts (limits root) (Member root (codes "limits") IsLimits)
  unfolding limits
  Accepts-limits =
      Accepts-map
        (Accepts-bind (Finds-object_at root (codes "limits") (codes "limits") _) λ v.
          Accepts-bind
            (Finds-number_in v (codes "max_sessions_per_mapping")
              (codes "limits.max_sessions_per_mapping") 1 1024)
            λ per_mapping.
              Accepts-bind
                (Finds-number_from v (codes "max_sessions_per_agent")
                  (codes "limits.max_sessions_per_agent") per_mapping 4096)
                λ per_agent.
                  Accepts-bind
                    (Finds-number_in v (codes "max_session_queue_bytes")
                      (codes "limits.max_session_queue_bytes") 65536 4194304)
                    λ session_q.
                      Accepts-bind
                        (Finds-number_from v (codes "max_tunnel_queue_bytes")
                          (codes "limits.max_tunnel_queue_bytes") session_q 67108864)
                        λ tunnel_q. Accepts-ok)
        (λ (v, (there, keys), (m, hm, (a, ha, (s, hs, (t, ht, _))))). (
          v,
          there,
          record {
            per_mapping = m;
            per_agent = a;
            session_queue = s;
            tunnel_queue = t;
            keys = keys;
            per_mapping_read = hm;
            per_agent_read = ha;
            session_queue_read = hs;
            tunnel_queue_read = ht;
          },
        ))
        (λ (v, there, r). (
          v,
          (there, r.keys),
          (
            r.per_mapping,
            r.per_mapping_read,
            (
              r.per_agent,
              r.per_agent_read,
              (r.session_queue, r.session_queue_read, (r.tunnel_queue, r.tunnel_queue_read, tt)),
            ),
          ),
        ))

  -- The file remote_tool.json is accepted exactly where it is an object with the six known members and
  -- no other, of version 1: a listener for agents with a host and a port from 1 to 65535, one for
  -- mappings that is bound to 127.0.0.1, a heartbeat with an interval from 1 s to 60 s and a timeout
  -- from twice that to 180 s, limits in their ranges with no more sessions for a mapping than for an
  -- agent and no longer queue for a session than for the tunnel, and the logging block.
  pub validate_remote_tool_iff : (validate_remote_tool root ≡ ok tt) ↔ IsRemoteToolConfig root
  unfolding validate_remote_tool
  validate_remote_tool_iff =
      Accepts-map
        (Accepts-then (Accepts-keys_checked root _ [] root_must_be_an_object) (
          Accepts-then (Accepts-version_checked root) (
            Accepts-then Accepts-agent_listener (
              Accepts-then Accepts-mapping_listener (
                Accepts-then Accepts-heartbeat (
                  Accepts-then Accepts-limits (
                    Accepts-bind (Finds-required root (codes "logging") (codes "logging"))
                      λ v. Accepts-validate_logging_block v (codes "logging"))))))))
        (λ (keys, (version, (al, (ml, (hb, (lm, lg)))))). record {
          keys = keys;
          version = version;
          agent_listener_read = al;
          mapping_listener_read = ml;
          heartbeat_read = hb;
          limits_read = lm;
          logging_read = lg;
        })
        (λ r. (
          r.keys,
          (
            r.version,
            (
              r.agent_listener_read,
              (r.mapping_listener_read, (r.heartbeat_read, (r.limits_read, r.logging_read))),
            ),
          ),
        ))
