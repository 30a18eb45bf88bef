-- ===== src/Api/Reason.antt =====
-- api/v1: the reasons of the conditions.
use workload_class.Prelude.{Str, lit}

abbrev pub validation_passed : Str
validation_passed = lit "ValidationPassed"

abbrev pub validation_failed : Str
validation_failed = lit "ValidationFailed"

abbrev pub no_guardrails : Str
no_guardrails = lit "NoGuardrails"

abbrev pub selector_overlap : Str
selector_overlap = lit "SelectorOverlap"

abbrev pub plugin_pending : Str
plugin_pending = lit "PluginPending"

abbrev pub fallback_active : Str
fallback_active = lit "FallbackActive"

abbrev pub spot_target_met : Str
spot_target_met = lit "SpotTargetMet"

abbrev pub profile_resolved : Str
profile_resolved = lit "ProfileResolved"

abbrev pub plugin_resolution_failed : Str
plugin_resolution_failed = lit "PluginResolutionFailed"
