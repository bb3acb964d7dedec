-- ===== src/Config/Schema/Exact/Mappings.antt =====
-- What `validate_mappings` accepts.
use remote_tool.Prelude.{
  ℕ, ◌+◌, ◌≡◌, ◌↔◌, refl, false, some, List, [], ◌∷◌, Bytes, codes, All, contains,
}
use remote_tool.Config.Json.Value.{JsonValue, JsonArray, nil, cons, array, find}
use remote_tool.Config.Schema.Checks.{ok, root_must_be_an_object}
use remote_tool.Config.Schema.Mappings.{contains_port, validate_mapping_list, validate_mappings}
use remote_tool.Config.Schema.Accepts.{
  Accepts, Accepts-bind, Accepts-then, Accepts-map, Accepts-keys_checked, HasKeys,
}
use remote_tool.Config.Schema.Fields.{Finds-array_at}
use remote_tool.Config.Schema.Exact.Shared.{IsVersion1, Accepts-version_checked}
use remote_tool.Config.Schema.Exact.Names.{
  Distinct, Each, All-imp, unseen, unseen_cons, unseen_ports, unseen_ports_cons, not-contains-cons,
  not-contains_port-cons,
}
use remote_tool.Config.Schema.Exact.Mapping.{IsMapping, IsNewMapping, Finds-validate_mapping}

abbrev pub ids_of : List (Bytes × ℕ) → List Bytes
ids_of [] = []
ids_of (e ∷ es) = e.0 ∷ ids_of es

abbrev pub ports_of : List (Bytes × ℕ) → List ℕ
ports_of [] = []
ports_of (e ∷ es) = e.1 ∷ ports_of es

-- The mappings of an array, with ids and ports that are all different and were not seen.
record AreMappings (ids : List Bytes) (ports : List ℕ) (a : JsonArray) : Type 0 where
  entries : List (Bytes × ℕ)
  each : Each IsMapping a entries
  ids_distinct : Distinct (ids_of entries)
  ports_distinct : Distinct (ports_of entries)
  ids_new : All (λ y. contains y ids ≡ false) (ids_of entries)
  ports_new : All (λ q. contains_port q ports ≡ false) (ports_of entries)

mappings_split :
    (ids : List Bytes) (ports : List ℕ) (x : JsonValue) (xs : JsonArray)
    (entries : List (Bytes × ℕ))
    → Each IsMapping (cons x xs) entries
    → Distinct (ids_of entries)
    → Distinct (ports_of entries)
    → All (λ y. contains y ids ≡ false) (ids_of entries)
    → All (λ q. contains_port q ports ≡ false) (ports_of entries)
    → (e : Bytes × ℕ) × IsNewMapping ids ports x e × AreMappings (e.0 ∷ ids) (e.1 ∷ ports) xs
mappings_split ids ports x xs [] each d p n m = absurd each
mappings_split ids ports x xs (e ∷ es) each d p n m = (
  e,
  (each.0, n.0, m.0),
  record {
    entries = es;
    each = each.1;
    ids_distinct = d.1;
    ports_distinct = p.1;
    ids_new = unseen_cons e.0 ids (ids_of es) d.0 n.1;
    ports_new = unseen_ports_cons e.1 ports (ports_of es) p.0 m.1;
  },
)

Accepts-validate_mapping_list :
    (ids : List Bytes) (ports : List ℕ) (i : ℕ) (a : JsonArray)
    → Accepts (validate_mapping_list ids ports i a) (AreMappings ids ports a)
unfolding validate_mapping_list
Accepts-validate_mapping_list ids ports i nil = (
  λ h. record {
    entries = [];
    each = tt;
    ids_distinct = tt;
    ports_distinct = tt;
    ids_new = tt;
    ports_new = tt;
  },
  λ h. refl,
)
Accepts-validate_mapping_list ids ports i (cons x xs) =
    Accepts-map
      (Accepts-bind (Finds-validate_mapping ids ports i x)
        λ e. Accepts-validate_mapping_list (e.0 ∷ ids) (e.1 ∷ ports) (i + 1) xs)
      (λ (e, (here, fresh, fresh_port), r). record {
        entries = e ∷ r.entries;
        each = (here, r.each);
        ids_distinct = (
          All-imp (ids_of r.entries) (λ y h. ((not-contains-cons e.0 y ids).0 h).0) r.ids_new,
          r.ids_distinct,
        );
        ports_distinct = (
          All-imp (ports_of r.entries) (λ q h. ((not-contains_port-cons e.1 q ports).0 h).0)
              r.ports_new,
          r.ports_distinct,
        );
        ids_new = (
          fresh,
          All-imp (ids_of r.entries) (λ y h. ((not-contains-cons e.0 y ids).0 h).1) r.ids_new,
        );
        ports_new = (
          fresh_port,
          All-imp (ports_of r.entries) (λ q h. ((not-contains_port-cons e.1 q ports).0 h).1)
              r.ports_new,
        );
      })
      (λ r.
        mappings_split ids ports x xs r.entries r.each r.ids_distinct r.ports_distinct r.ids_new
          r.ports_new)

pub record IsMappingsConfig (root : JsonValue) : Type 0 where
  pub mappings : JsonArray
  pub entries : List (Bytes × ℕ)
  pub keys : HasKeys (codes "schema_version" ∷ codes "mappings" ∷ []) root
  pub version : IsVersion1 root
  pub mappings_read : find root (codes "mappings") ≡ some (array mappings)
  pub mappings_valid : Each IsMapping mappings entries
  pub ids_distinct : Distinct (ids_of entries)
  pub ports_distinct : Distinct (ports_of entries)

pub validate_mappings_iff :
    (root : JsonValue) → (validate_mappings root ≡ ok tt) ↔ IsMappingsConfig root
unfolding validate_mappings
validate_mappings_iff root =
    Accepts-map
      (Accepts-then
        (Accepts-keys_checked root (codes "schema_version" ∷ codes "mappings" ∷ []) []
          root_must_be_an_object)
        (Accepts-then (Accepts-version_checked root) (
          Accepts-bind (Finds-array_at root (codes "mappings") (codes "mappings"))
            λ a. Accepts-validate_mapping_list [] [] 0 a)))
      (λ (keys, (version, (a, h, r))). record {
        mappings = a;
        entries = r.entries;
        keys = keys;
        version = version;
        mappings_read = h;
        mappings_valid = r.each;
        ids_distinct = r.ids_distinct;
        ports_distinct = r.ports_distinct;
      })
      (λ r. (
        r.keys,
        (
          r.version,
          (
            r.mappings,
            r.mappings_read,
            record {
              entries = r.entries;
              each = r.mappings_valid;
              ids_distinct = r.ids_distinct;
              ports_distinct = r.ports_distinct;
              ids_new = unseen (ids_of r.entries);
              ports_new = unseen_ports (ports_of r.entries);
            },
          ),
        ),
      ))
