-- ===== src/Config/Schema/Exact/Shared.antt =====
-- The parts that the configuration files share: the version, and the logging block.
use remote_tool.Prelude.{
  ℕ, ◌≤◌, ◌≡◌, ◌⊎◌, ◌↔◌, ◌||◌, not, true, ℤ, pos, negsuc, below, above, some, ap, ◌∙◌, [], ◌∷◌,
  Bytes, codes, bytes_eq_iff, arith, refl,
}
use remote_tool.Config.Json.Value.{JsonValue, int, string, find}
use remote_tool.Config.Schema.Checks.{
  must_be_an_object, must_be_a_level, must_be_positive, must_be_1, dotted, is_level,
  version_checked, validate_logging_block,
}
use remote_tool.Config.Schema.Accepts.{
  Accepts, Accepts-bind, Accepts-then, Accepts-ok, Accepts-ensure, Accepts-map,
  Accepts-keys_checked, HasKeys,
}
use remote_tool.Config.Schema.Fields.{Finds-int_at, Finds-string_at, Finds-number_above}

abbrev pub IsVersion1 : JsonValue → Type 0
IsVersion1 root = find root (codes "schema_version") ≡ some (int (pos 1))

version_read :
    (i : ℤ) (root : JsonValue)
    → find root (codes "schema_version") ≡ some (int i)
    → not (below i 1 || above i 1) ≡ true
    → IsVersion1 root
version_read (pos n) root h t = let one : n ≡ 1 = ground arith in h ∙ ap some (ap int (ap pos one))
version_read (negsuc n) root h t = cc

pub Accepts-version_checked : (root : JsonValue) → Accepts (version_checked root) (IsVersion1 root)
unfolding version_checked
Accepts-version_checked root =
    Accepts-map
      (Accepts-bind (Finds-int_at root (codes "schema_version") (codes "schema_version"))
        λ i. Accepts-ensure (not (below i 1 || above i 1)) (codes "schema_version") must_be_1)
      (λ (i, h, t). version_read i root h t) (λ h. (pos 1, h, refl))

abbrev pub IsLevel : Bytes → Type 0
IsLevel s = (s ≡ codes "debug") ⊎ (s ≡ codes "info") ⊎ (s ≡ codes "warn") ⊎ (s ≡ codes "error")

is_level_iff : (s : Bytes) → (is_level s ≡ true) ↔ IsLevel s
unfolding is_level
is_level_iff s =
    let debug = bytes_eq_iff s (codes "debug") in
    let info = bytes_eq_iff s (codes "info") in
    let warn = bytes_eq_iff s (codes "warn") in
    let error = bytes_eq_iff s (codes "error") in (λ h. ground arith, λ h. ground arith)

-- A level, and two numbers of 1 at least.
pub record IsLogging (v : JsonValue) : Type 0 where
  pub level : Bytes
  pub max_file_bytes : ℕ
  pub retained_files : ℕ
  pub keys : HasKeys (codes "level" ∷ codes "max_file_bytes" ∷ codes "retained_files" ∷ []) v
  pub level_read : find v (codes "level") ≡ some (string level)
  pub level_known : IsLevel level
  pub max_file_bytes_read : find v (codes "max_file_bytes") ≡ some (int (pos max_file_bytes))
  pub max_file_bytes_positive : 1 ≤ max_file_bytes
  pub retained_files_read : find v (codes "retained_files") ≡ some (int (pos retained_files))
  pub retained_files_positive : 1 ≤ retained_files

pub Accepts-validate_logging_block :
    (v : JsonValue) (path : Bytes) → Accepts (validate_logging_block v path) (IsLogging v)
unfolding validate_logging_block
Accepts-validate_logging_block v path =
    Accepts-map
      (Accepts-then (Accepts-keys_checked v _ path must_be_an_object) (
        Accepts-bind (Finds-string_at v (codes "level") (dotted path (codes "level"))) λ level.
          Accepts-then
            (Accepts-ensure (is_level level) (dotted path (codes "level")) must_be_a_level)
            (Accepts-bind
              (Finds-number_above v (codes "max_file_bytes") (dotted path (codes "max_file_bytes"))
                1 must_be_positive)
              λ bytes.
                Accepts-bind
                  (Finds-number_above v (codes "retained_files")
                    (dotted path (codes "retained_files")) 1 must_be_positive)
                  λ files. Accepts-ok)))
      (λ (keys, (level, h, (known, (bytes, (read, positive), (files, (read', positive'), _))))).
        record {
          level = level;
          max_file_bytes = bytes;
          retained_files = files;
          keys = keys;
          level_read = h;
          level_known = (is_level_iff level).0 known;
          max_file_bytes_read = read;
          max_file_bytes_positive = positive;
          retained_files_read = read';
          retained_files_positive = positive';
        })
      (λ r. (
        r.keys,
        (
          r.level,
          r.level_read,
          (
            (is_level_iff r.level).1 r.level_known,
            (
              r.max_file_bytes,
              (r.max_file_bytes_read, r.max_file_bytes_positive),
              (r.retained_files, (r.retained_files_read, r.retained_files_positive), tt),
            ),
          ),
        ),
      ))
