-- ===== src/Api/ConditionType.antt =====
-- api/v1: the types of the conditions of a WorkloadClass.
use workload_class.Prelude.{Str, lit}

abbrev pub validated : Str
validated = lit "Validated"

abbrev pub placement_plugin_attached : Str
placement_plugin_attached = lit "PlacementPluginAttached"

abbrev pub in_fallback : Str
in_fallback = lit "InFallback"
