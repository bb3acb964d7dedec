-- ===== src/Config/Schema/Exact/Agent.antt =====
-- What `validate_agent` accepts.
use remote_tool.Prelude.{
  ℕ, ◌≤◌, ◌<◌, ◌≡◌, ◌⊎◌, ◌↔◌, inl, inr, refl, Bool, true, some, List, [], ◌∷◌, Bytes, codes, length,
  All, arith,
}
use remote_tool.Config.Json.Value.{JsonValue, JsonArray, bool, string, array, find}
use remote_tool.Config.Schema.Checks.{ok, root_must_be_an_object, invalid_pairing_code}
use remote_tool.Config.Schema.Agent.{
  all_digits, is_valid_pairing_code, server, device, target_policy, validate_agent,
}
use remote_tool.Config.Schema.Accepts.{
  Accepts, Accepts-bind, Accepts-then, Accepts-ok, Accepts-ensure, Accepts-map,
  Accepts-keys_checked, Finds-required, HasKeys,
}
use remote_tool.Config.Schema.Fields.{
  NumberIn, Finds-object_at, Finds-string_at, Finds-bool_at, Finds-array_at, Finds-nonempty_at,
  Finds-number_in,
}
use remote_tool.Config.Schema.Exact.Shared.{
  IsVersion1, Accepts-version_checked, IsLogging, Accepts-validate_logging_block,
}
use remote_tool.Config.Schema.Exact.Names.{
  Distinct, Each, unseen_ports, IsDeviceId, Finds-device_id_at,
}
use remote_tool.Config.Schema.Exact.RemoteTool.{Member}
use remote_tool.Config.Schema.Exact.Policy.{
  IsCidrText, IsPort, Accepts-allowed_cidrs, Accepts-allowed_ports,
}

abbrev pub IsDigit : ℕ → Type 0
IsDigit c = (b'0' ≤ c) × (c ≤ b'9')

-- Nothing, or eight digits.
abbrev pub IsPairingCode : Bytes → Type 0
IsPairingCode s = (s ≡ []) ⊎ ((length s ≡ 8) × All IsDigit s)

all_digits_iff : (s : Bytes) → (all_digits s ≡ true) ↔ All IsDigit s
unfolding all_digits
all_digits_iff [] = (λ h. tt, λ h. refl)
all_digits_iff (c ∷ cs) =
    let (there, back) = all_digits_iff cs in
    (
      λ h. ((ground arith, ground arith), there (ground arith)),
      λ h. let k = back h.1 in ground (arith, k),
    )

is_valid_pairing_code_iff : (s : Bytes) → (is_valid_pairing_code s ≡ true) ↔ IsPairingCode s
unfolding is_valid_pairing_code
is_valid_pairing_code_iff [] = (λ h. inl refl, λ h. refl)
is_valid_pairing_code_iff (c ∷ cs) =
    let (there, back) = all_digits_iff (c ∷ cs) in
    (λ h. inr (ground arith, there (ground arith)), λ h. ground (arith, back))

pub record IsServer (v : JsonValue) : Type 0 where
  pub host : Bytes
  pub port : ℕ
  pub keys : HasKeys (codes "host" ∷ codes "port" ∷ []) v
  pub host_read : find v (codes "host") ≡ some (string host)
  pub host_nonempty : 0 < length host
  pub port_read : NumberIn 1 65535 v (codes "port") port

pub record IsAgentDevice (v : JsonValue) : Type 0 where
  pub id : Bytes
  pub pairing_code : Bytes
  pub key : Bytes
  pub keys : HasKeys (codes "id" ∷ codes "pairing_code" ∷ codes "device_key_dpapi" ∷ []) v
  pub id_read : find v (codes "id") ≡ some (string id)
  pub id_valid : IsDeviceId id
  pub pairing_code_read : find v (codes "pairing_code") ≡ some (string pairing_code)
  pub pairing_code_valid : IsPairingCode pairing_code
  pub key_read : find v (codes "device_key_dpapi") ≡ some (string key)

pub record IsTargetPolicy (v : JsonValue) : Type 0 where
  pub cidr_items : JsonArray
  pub cidrs : List Bytes
  pub port_items : JsonArray
  pub ports : List ℕ
  pub ipv6 : Bool
  pub keys : HasKeys (codes "allowed_cidrs" ∷ codes "allowed_ports" ∷ codes "allow_ipv6" ∷ []) v
  pub cidrs_read : find v (codes "allowed_cidrs") ≡ some (array cidr_items)
  pub cidrs_valid : Each IsCidrText cidr_items cidrs
  pub ports_read : find v (codes "allowed_ports") ≡ some (array port_items)
  pub ports_valid : Each IsPort port_items ports
  pub ports_distinct : Distinct ports
  pub ipv6_read : find v (codes "allow_ipv6") ≡ some (bool ipv6)

pub record IsAgentConfig (root : JsonValue) : Type 0 where
  pub keys :
      HasKeys
        (codes "schema_version"
          ∷ codes "server"
          ∷ codes "device"
          ∷ codes "target_policy"
          ∷ codes "logging"
          ∷ [])
        root
  pub version : IsVersion1 root
  pub server_read : Member root (codes "server") IsServer
  pub device_read : Member root (codes "device") IsAgentDevice
  pub policy_read : Member root (codes "target_policy") IsTargetPolicy
  pub logging_read : Member root (codes "logging") IsLogging

module _ (root : JsonValue) where
  Accepts-server : Accepts (server root) (Member root (codes "server") IsServer)
  unfolding server
  Accepts-server =
      Accepts-map
        (Accepts-bind (Finds-object_at root (codes "server") (codes "server") _) λ v.
          Accepts-bind (Finds-nonempty_at v (codes "host") (codes "server.host")) λ host.
            Accepts-bind (Finds-number_in v (codes "port") (codes "server.port") 1 65535)
              λ port. Accepts-ok)
        (λ (v, (there, keys), (host, (read, nonempty), (port, h, _))). (
          v,
          there,
          record {
            host = host;
            port = port;
            keys = keys;
            host_read = read;
            host_nonempty = nonempty;
            port_read = h;
          },
        ))
        (λ (v, there, r).
          (v, (there, r.keys), (r.host, (r.host_read, r.host_nonempty), (r.port, r.port_read, tt))))

  Accepts-device : Accepts (device root) (Member root (codes "device") IsAgentDevice)
  unfolding device
  Accepts-device =
      Accepts-map
        (Accepts-bind (Finds-object_at root (codes "device") (codes "device") _) λ v.
          Accepts-bind (Finds-device_id_at v (codes "id") (codes "device.id")) λ id.
            Accepts-bind (Finds-string_at v (codes "pairing_code") (codes "device.pairing_code"))
              λ code.
                Accepts-then
                  (Accepts-ensure (is_valid_pairing_code code) (codes "device.pairing_code")
                    invalid_pairing_code)
                  (Accepts-bind
                    (Finds-string_at v (codes "device_key_dpapi") (codes "device.device_key_dpapi"))
                    λ key. Accepts-ok))
        (λ (v, (there, keys), (id, (id_h, valid), (code, code_h, (good, (key, key_h, _))))). (
          v,
          there,
          record {
            id = id;
            pairing_code = code;
            key = key;
            keys = keys;
            id_read = id_h;
            id_valid = valid;
            pairing_code_read = code_h;
            pairing_code_valid = (is_valid_pairing_code_iff code).0 good;
            key_read = key_h;
          },
        ))
        (λ (v, there, r). (
          v,
          (there, r.keys),
          (
            r.id,
            (r.id_read, r.id_valid),
            (
              r.pairing_code,
              r.pairing_code_read,
              (
                (is_valid_pairing_code_iff r.pairing_code).1 r.pairing_code_valid,
                (r.key, r.key_read, tt),
              ),
            ),
          ),
        ))

  Accepts-target_policy :
      Accepts (target_policy root) (Member root (codes "target_policy") IsTargetPolicy)
  unfolding target_policy
  Accepts-target_policy =
      Accepts-map
        (Accepts-bind (Finds-object_at root (codes "target_policy") (codes "target_policy") _) λ v.
          Accepts-bind
            (Finds-array_at v (codes "allowed_cidrs") (codes "target_policy.allowed_cidrs"))
            λ cidrs. Accepts-then (Accepts-allowed_cidrs 0 cidrs) (
              Accepts-bind
                (Finds-array_at v (codes "allowed_ports") (codes "target_policy.allowed_ports"))
                λ ports. Accepts-then (Accepts-allowed_ports [] 0 ports) (
                  Accepts-bind
                    (Finds-bool_at v (codes "allow_ipv6") (codes "target_policy.allow_ipv6"))
                    λ v6. Accepts-ok)))
        (λ (
          v,
          (there, keys),
          (c, c_h, ((l, each), (p, p_h, ((ps, valid, distinct, _), (b, b_h, _))))),
        ).
          (
            v,
            there,
            record {
              cidr_items = c;
              cidrs = l;
              port_items = p;
              ports = ps;
              ipv6 = b;
              keys = keys;
              cidrs_read = c_h;
              cidrs_valid = each;
              ports_read = p_h;
              ports_valid = valid;
              ports_distinct = distinct;
              ipv6_read = b_h;
            },
          ))
        (λ (v, there, r). (
          v,
          (there, r.keys),
          (
            r.cidr_items,
            r.cidrs_read,
            (
              (r.cidrs, r.cidrs_valid),
              (
                r.port_items,
                r.ports_read,
                (
                  (r.ports, r.ports_valid, r.ports_distinct, unseen_ports r.ports),
                  (r.ipv6, r.ipv6_read, tt),
                ),
              ),
            ),
          ),
        ))

  -- The file agent.json is accepted exactly where it is an object with the five known members and no
  -- other, of version 1: a server with a host and a port, a device with an id, a pairing code that is
  -- empty or eight digits, and a key, a target policy with texts that are not empty for ranges, with
  -- ports from 1 to 65535 none of which is there twice, and with a switch for IPv6, and the logging
  -- block.
  pub validate_agent_iff : (validate_agent root ≡ ok tt) ↔ IsAgentConfig root
  unfolding validate_agent
  validate_agent_iff =
      Accepts-map
        (Accepts-then (Accepts-keys_checked root _ [] root_must_be_an_object) (
          Accepts-then (Accepts-version_checked root) (
            Accepts-then Accepts-server (
              Accepts-then Accepts-device (
                Accepts-then Accepts-target_policy (
                  Accepts-bind (Finds-required root (codes "logging") (codes "logging"))
                    λ v. Accepts-validate_logging_block v (codes "logging")))))))
        (λ (keys, (version, (sv, (dv, (tp, lg))))). record {
          keys = keys;
          version = version;
          server_read = sv;
          device_read = dv;
          policy_read = tp;
          logging_read = lg;
        })
        (λ r.
          (r.keys, (r.version, (r.server_read, (r.device_read, (r.policy_read, r.logging_read))))))
