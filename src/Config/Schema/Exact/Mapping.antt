-- ===== src/Config/Schema/Exact/Mapping.antt =====
-- What the checks of one mapping in config_schema.cpp accept.
use remote_tool.Prelude.{
  ℕ, ◌<◌, ◌≡◌, refl, Bool, false, not, some, List, [], ◌∷◌, Bytes, codes, length, contains, subst,
}
use remote_tool.Config.Json.Value.{JsonValue, bool, string, find}
use remote_tool.Config.Schema.Checks.{elem_path, must_be_an_object, duplicate}
use remote_tool.Config.Schema.Mappings.{contains_port, validate_mapping}
use remote_tool.Config.Schema.Accepts.{
  Finds, Finds-bind, Finds-then, Finds-ok, Finds-map, Accepts-ensure, Accepts-keys_checked, HasKeys,
}
use remote_tool.Config.Schema.Fields.{NumberIn, Finds-bool_at, Finds-nonempty_at, Finds-number_in}
use remote_tool.Config.Schema.Exact.Names.{is_new, IsName, Finds-name_at}

abbrev mapping_keys : List Bytes
mapping_keys =
    codes "id"
    ∷ codes "device_id"
    ∷ codes "name"
    ∷ codes "local_port"
    ∷ codes "target_host"
    ∷ codes "target_port"
    ∷ codes "enabled"
    ∷ codes "connect_timeout_ms"
    ∷ []

-- A mapping with an id and a local port: a device, a name, a target, a switch, and a timeout.
pub record IsMapping (v : JsonValue) (entry : Bytes × ℕ) : Type 0 where
  pub device_id : Bytes
  pub name : Bytes
  pub target_host : Bytes
  pub target_port : ℕ
  pub enabled : Bool
  pub connect_timeout : ℕ
  pub keys : HasKeys mapping_keys v
  pub id_read : find v (codes "id") ≡ some (string entry.0)
  pub id_valid : IsName 64 entry.0
  pub device_id_read : find v (codes "device_id") ≡ some (string device_id)
  pub device_id_nonempty : 0 < length device_id
  pub name_read : find v (codes "name") ≡ some (string name)
  pub name_valid : IsName 64 name
  pub local_port_read : NumberIn 1 65535 v (codes "local_port") entry.1
  pub target_host_read : find v (codes "target_host") ≡ some (string target_host)
  pub target_host_nonempty : 0 < length target_host
  pub target_port_read : NumberIn 1 65535 v (codes "target_port") target_port
  pub enabled_read : find v (codes "enabled") ≡ some (bool enabled)
  pub connect_timeout_read : NumberIn 1000 30000 v (codes "connect_timeout_ms") connect_timeout

-- A valid mapping, neither whose id nor whose port was seen.
abbrev pub IsNewMapping : List Bytes → List ℕ → JsonValue → Bytes × ℕ → Type 0
IsNewMapping ids ports v entry =
    IsMapping v entry × (contains entry.0 ids ≡ false) × (contains_port entry.1 ports ≡ false)

pub Finds-validate_mapping :
    (ids : List Bytes) (ports : List ℕ) (i : ℕ) (v : JsonValue)
    → Finds (validate_mapping ids ports i v) (IsNewMapping ids ports v)
unfolding validate_mapping
Finds-validate_mapping ids ports i v =
    let at = λ (name : Bytes). elem_path (codes "mappings") i name in
    Finds-map
      (Finds-then (Accepts-keys_checked v mapping_keys (at []) must_be_an_object) (
        Finds-bind (Finds-name_at v (codes "id") (at (codes "id")) 64) λ id.
          Finds-then (Accepts-ensure (not (contains id ids)) (at (codes "id")) duplicate) (
            Finds-bind (Finds-nonempty_at v (codes "device_id") (at (codes "device_id"))) λ device.
              Finds-bind (Finds-name_at v (codes "name") (at (codes "name")) 64) λ name.
                Finds-bind
                  (Finds-number_in v (codes "local_port") (at (codes "local_port")) 1 65535)
                  λ port.
                    Finds-then
                      (Accepts-ensure (not (contains_port port ports)) (at (codes "local_port"))
                        duplicate)
                      (Finds-bind
                        (Finds-nonempty_at v (codes "target_host") (at (codes "target_host")))
                        λ host.
                          Finds-bind
                            (Finds-number_in v (codes "target_port") (at (codes "target_port")) 1
                              65535)
                            λ target_port.
                              Finds-bind (Finds-bool_at v (codes "enabled") (at (codes "enabled")))
                                λ enabled.
                                  Finds-bind
                                    (Finds-number_in v (codes "connect_timeout_ms")
                                      (at (codes "connect_timeout_ms")) 1000 30000)
                                    λ timeout. Finds-ok (id, port)))))
      (λ y
          (
            keys,
            (
              id,
              (id_read, valid),
              (
                fresh,
                (
                  device,
                  (device_read, device_nonempty),
                  (
                    name,
                    (name_read, name_valid),
                    (
                      port,
                      port_read,
                      (
                        fresh_port,
                        (
                          host,
                          (host_read, host_nonempty),
                          (
                            target,
                            target_read,
                            (enabled, enabled_read, (timeout, timeout_read, e)),
                          ),
                        ),
                      ),
                    ),
                  ),
                ),
              ),
            ),
          ).
        subst (IsNewMapping ids ports v) e (
          record {
            device_id = device;
            name = name;
            target_host = host;
            target_port = target;
            enabled = enabled;
            connect_timeout = timeout;
            keys = keys;
            id_read = id_read;
            id_valid = valid;
            device_id_read = device_read;
            device_id_nonempty = device_nonempty;
            name_read = name_read;
            name_valid = name_valid;
            local_port_read = port_read;
            target_host_read = host_read;
            target_host_nonempty = host_nonempty;
            target_port_read = target_read;
            enabled_read = enabled_read;
            connect_timeout_read = timeout_read;
          },
          (is_new (contains id ids)).0 fresh,
          (is_new (contains_port port ports)).0 fresh_port,
        ))
      (λ entry (r, fresh, fresh_port). (
        r.keys,
        (
          entry.0,
          (r.id_read, r.id_valid),
          (
            (is_new (contains entry.0 ids)).1 fresh,
            (
              r.device_id,
              (r.device_id_read, r.device_id_nonempty),
              (
                r.name,
                (r.name_read, r.name_valid),
                (
                  entry.1,
                  r.local_port_read,
                  (
                    (is_new (contains_port entry.1 ports)).1 fresh_port,
                    (
                      r.target_host,
                      (r.target_host_read, r.target_host_nonempty),
                      (
                        r.target_port,
                        r.target_port_read,
                        (
                          r.enabled,
                          r.enabled_read,
                          (r.connect_timeout, r.connect_timeout_read, refl),
                        ),
                      ),
                    ),
                  ),
                ),
              ),
            ),
          ),
        ),
      ))
