-- ===== src/Config/Schema/Exact/Files.antt =====
-- The validation of a text as a configuration file, and its outcome.
use remote_tool.Prelude.{◌≡◌, ◌↔◌, ap, sym, subst, Bool, Bytes}
use remote_tool.Config.Json.Value.{JsonValue}
use remote_tool.Config.Json.Cursor.{Cursor, Parsed}
use remote_tool.Config.Json.Parser.{parse_json}
use remote_tool.Config.Schema.Checks.{ok}
use remote_tool.Config.Schema.Agent.{
  ConfigFileKind, validator, validate_config, validate_parsed, validate_config_text,
}
use remote_tool.Config.Schema.Accepts.{Accepts, Finds, Finds-then, Finds-ok}
use remote_tool.Config.Schema.Exact.RemoteTool.{IsRemoteToolConfig, validate_remote_tool_iff}
use remote_tool.Config.Schema.Exact.Devices.{IsDevicesConfig, validate_devices_iff}
use remote_tool.Config.Schema.Exact.Mappings.{IsMappingsConfig, validate_mappings_iff}
use remote_tool.Config.Schema.Exact.Agent.{IsAgentConfig, validate_agent_iff}

-- What a file of a kind is to be.
abbrev pub IsConfig : ConfigFileKind → JsonValue → Type 0
IsConfig ConfigFileKind.remote_tool_file v = IsRemoteToolConfig v
IsConfig ConfigFileKind.devices_file v = IsDevicesConfig v
IsConfig ConfigFileKind.mappings_file v = IsMappingsConfig v
IsConfig ConfigFileKind.agent_file v = IsAgentConfig v

Accepts-validator :
    (kind : ConfigFileKind) (v : JsonValue) → Accepts (validator kind v) (IsConfig kind v)
unfolding validator
Accepts-validator ConfigFileKind.remote_tool_file v = validate_remote_tool_iff v
Accepts-validator ConfigFileKind.devices_file v = validate_devices_iff v
Accepts-validator ConfigFileKind.mappings_file v = validate_mappings_iff v
Accepts-validator ConfigFileKind.agent_file v = validate_agent_iff v

Finds-validate_config :
    (kind : ConfigFileKind) (v : JsonValue)
    → Finds (validate_config kind v) (λ w. IsConfig kind v × (v ≡ w))
unfolding validate_config
Finds-validate_config kind v = Finds-then (Accepts-validator kind v) (Finds-ok v)

parsed_iff :
    (kind : ConfigFileKind) (p : Parsed JsonValue) (v : JsonValue)
    → (validate_parsed kind p ≡ ok v) ↔ ((c : Cursor) × (p ≡ Parsed.ok v c) × IsConfig kind v)
unfolding validate_parsed
parsed_iff kind (Parsed.ok w c) v = (
  λ h.
      let (valid, e) = (Finds-validate_config kind w).sound v h in
      (c, ap (λ x. Parsed.ok x c) e, subst (IsConfig kind) e valid),
  λ (d, e, valid).
      let same : w ≡ v = cc in
      (Finds-validate_config kind w).complete v (subst (IsConfig kind) (sym same) valid, same),
)
parsed_iff kind (Parsed.err e) v = (λ h. cc, λ (d, e, valid). cc)
parsed_iff kind Parsed.stuck v = (λ h. cc, λ (d, e, valid). cc)

-- A text is accepted as a file of some kind, with a value, exactly where the parser reads it as that
-- value and the value is what a file of the kind is to be.
pub validate_config_text_iff :
    (strtod_ok : Bytes → Bool) (kind : ConfigFileKind) (text : Bytes) (v : JsonValue)
    → (validate_config_text strtod_ok kind text ≡ ok v)
      ↔ ((c : Cursor) × (parse_json strtod_ok text ≡ Parsed.ok v c) × IsConfig kind v)
unfolding validate_config_text
validate_config_text_iff strtod_ok kind text v = parsed_iff kind (parse_json strtod_ok text) v
