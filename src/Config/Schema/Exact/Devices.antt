-- ===== src/Config/Schema/Exact/Devices.antt =====
-- What `validate_devices` accepts.
use remote_tool.Prelude.{
  ℕ, ◌+◌, ◌≡◌, ◌↔◌, refl, Bool, false, not, some, List, [], ◌∷◌, Bytes, codes, All, contains, subst,
}
use remote_tool.Config.Json.Value.{JsonValue, JsonArray, nil, cons, bool, string, array, find}
use remote_tool.Config.Schema.Checks.{
  ok, elem_path, root_must_be_an_object, must_be_an_object, duplicate, must_not_be_negative,
}
use remote_tool.Config.Schema.Devices.{validate_device, validate_device_list, validate_devices}
use remote_tool.Config.Schema.Accepts.{
  Finds, Finds-bind, Finds-then, Finds-ok, Finds-map, Accepts, Accepts-bind, Accepts-then,
  Accepts-ensure, Accepts-map, Accepts-keys_checked, HasKeys,
}
use remote_tool.Config.Schema.Fields.{
  NumberFrom, Finds-string_at, Finds-bool_at, Finds-array_at, Finds-number_above,
}
use remote_tool.Config.Schema.Exact.Shared.{IsVersion1, Accepts-version_checked}
use remote_tool.Config.Schema.Exact.Names.{
  Distinct, is_new, Each, All-imp, unseen, unseen_cons, IsDeviceId, IsName, Finds-device_id_at,
  Finds-name_at, not-contains-cons,
}

abbrev device_keys : List Bytes
device_keys =
    codes "id"
    ∷ codes "display_name"
    ∷ codes "enabled"
    ∷ codes "device_key_dpapi"
    ∷ codes "created_unix_ms"
    ∷ codes "updated_unix_ms"
    ∷ []

-- A device with an id: a name, a switch, a key that may be empty, and two times.
pub record IsDevice (v : JsonValue) (id : Bytes) : Type 0 where
  pub display_name : Bytes
  pub enabled : Bool
  pub key : Bytes
  pub created : ℕ
  pub updated : ℕ
  pub keys : HasKeys device_keys v
  pub id_read : find v (codes "id") ≡ some (string id)
  pub id_valid : IsDeviceId id
  pub display_name_read : find v (codes "display_name") ≡ some (string display_name)
  pub display_name_valid : IsName 128 display_name
  pub enabled_read : find v (codes "enabled") ≡ some (bool enabled)
  pub key_read : find v (codes "device_key_dpapi") ≡ some (string key)
  pub created_read : NumberFrom 0 v (codes "created_unix_ms") created
  pub updated_read : NumberFrom 0 v (codes "updated_unix_ms") updated

Finds-validate_device :
    (seen : List Bytes) (i : ℕ) (v : JsonValue)
    → Finds (validate_device seen i v) (λ id. IsDevice v id × (contains id seen ≡ false))
unfolding validate_device
Finds-validate_device seen i v =
    let at = λ (name : Bytes). elem_path (codes "devices") i name in
    Finds-map
      (Finds-then (Accepts-keys_checked v device_keys (at []) must_be_an_object) (
        Finds-bind (Finds-device_id_at v (codes "id") (at (codes "id"))) λ id.
          Finds-then (Accepts-ensure (not (contains id seen)) (at (codes "id")) duplicate) (
            Finds-bind (Finds-name_at v (codes "display_name") (at (codes "display_name")) 128)
              λ name.
                Finds-bind (Finds-bool_at v (codes "enabled") (at (codes "enabled"))) λ enabled.
                  Finds-bind
                    (Finds-string_at v (codes "device_key_dpapi") (at (codes "device_key_dpapi")))
                    λ key.
                      Finds-bind
                        (Finds-number_above v (codes "created_unix_ms")
                          (at (codes "created_unix_ms")) 0 must_not_be_negative)
                        λ created.
                          Finds-bind
                            (Finds-number_above v (codes "updated_unix_ms")
                              (at (codes "updated_unix_ms")) 0 must_not_be_negative)
                            λ updated. Finds-ok id)))
      (λ y
          (
            keys,
            (
              id,
              (id_read, valid),
              (
                fresh,
                (
                  name,
                  (name_read, name_valid),
                  (enabled, enabled_read, (key, key_read, (c, c_read, (u, u_read, e)))),
                ),
              ),
            ),
          ).
        subst (λ z. IsDevice v z × (contains z seen ≡ false)) e
          (
            record {
              display_name = name;
              enabled = enabled;
              key = key;
              created = c;
              updated = u;
              keys = keys;
              id_read = id_read;
              id_valid = valid;
              display_name_read = name_read;
              display_name_valid = name_valid;
              enabled_read = enabled_read;
              key_read = key_read;
              created_read = c_read;
              updated_read = u_read;
            },
            (is_new (contains id seen)).0 fresh,
          ))
      (λ id (r, fresh). (
        r.keys,
        (
          id,
          (r.id_read, r.id_valid),
          (
            (is_new (contains id seen)).1 fresh,
            (
              r.display_name,
              (r.display_name_read, r.display_name_valid),
              (
                r.enabled,
                r.enabled_read,
                (r.key, r.key_read, (r.created, r.created_read, (r.updated, r.updated_read, refl))),
              ),
            ),
          ),
        ),
      ))

pub record IsDevicesConfig (root : JsonValue) : Type 0 where
  pub devices : JsonArray
  pub ids : List Bytes
  pub keys : HasKeys (codes "schema_version" ∷ codes "devices" ∷ []) root
  pub version : IsVersion1 root
  pub devices_read : find root (codes "devices") ≡ some (array devices)
  pub devices_valid : Each IsDevice devices ids
  pub ids_distinct : Distinct ids

-- A list for a longer array is split at its first item.
devices_split :
    (seen : List Bytes) (x : JsonValue) (xs : JsonArray)
    → ((ids : List Bytes) × Each IsDevice (cons x xs) ids
        × Distinct ids
        × All (λ y. contains y seen ≡ false) ids)
    → (id : Bytes) × (IsDevice x id × (contains id seen ≡ false))
      × ((ids : List Bytes) × Each IsDevice xs ids
          × Distinct ids
          × All (λ y. contains y (id ∷ seen) ≡ false) ids)
devices_split seen x xs ([], each, distinct, new) = absurd each
devices_split seen x xs (id ∷ ids, each, distinct, new) =
    (id, (each.0, new.0), (ids, each.1, distinct.1, unseen_cons id seen ids distinct.0 new.1))

Accepts-validate_device_list :
    (seen : List Bytes) (i : ℕ) (xs : JsonArray)
    → Accepts (validate_device_list seen i xs) (
        (ids : List Bytes) × Each IsDevice xs ids
        × Distinct ids
        × All (λ y. contains y seen ≡ false) ids)
unfolding validate_device_list
Accepts-validate_device_list seen i nil = (λ h. ([], tt, tt, tt), λ h. refl)
Accepts-validate_device_list seen i (cons x xs) =
    Accepts-map
      (Accepts-bind (Finds-validate_device seen i x)
        λ id. Accepts-validate_device_list (id ∷ seen) (i + 1) xs)
      (λ (id, (here, fresh), (ids, each, distinct, new)). (
        id ∷ ids,
        (here, each),
        (All-imp ids (λ y h. ((not-contains-cons id y seen).0 h).0) new, distinct),
        (fresh, All-imp ids (λ y h. ((not-contains-cons id y seen).0 h).1) new),
      ))
      (devices_split seen x xs)

-- The file devices.json is accepted exactly where it is an object of version 1 with an array of devices
-- and nothing else, each of them with the six known members and no other: an id of 1 to 64 letters,
-- digits, hyphens, underscores and dots, a name of 1 to 128 characters, a switch, a key, and two times
-- from 0 on; and where no id is there twice.
pub validate_devices_iff :
    (root : JsonValue) → (validate_devices root ≡ ok tt) ↔ IsDevicesConfig root
unfolding validate_devices
validate_devices_iff root =
    Accepts-map
      (Accepts-then
        (Accepts-keys_checked root (codes "schema_version" ∷ codes "devices" ∷ []) []
          root_must_be_an_object)
        (Accepts-then (Accepts-version_checked root) (
          Accepts-bind (Finds-array_at root (codes "devices") (codes "devices"))
            λ a. Accepts-validate_device_list [] 0 a)))
      (λ (keys, (version, (a, h, (ids, each, distinct, _)))). record {
        devices = a;
        ids = ids;
        keys = keys;
        version = version;
        devices_read = h;
        devices_valid = each;
        ids_distinct = distinct;
      })
      (λ r. (
        r.keys,
        (
          r.version,
          (r.devices, r.devices_read, (r.ids, r.devices_valid, r.ids_distinct, unseen r.ids)),
        ),
      ))
