-- ===== src/Log/Domain.antt =====
-- crates/combctl/src/log.rs: the manifest behind a head, checked, and the domain that it gives.
use comb.Prelude.{not, ◌||◌}
use comb.Prelude.Str.{Str, eqs}
use comb.Core.Error.{Result, invalid_format, recovery_failed, refuse_if, ◌>>◌}
use comb.Core.Commit.{validate_header}
use comb.Store.Host.{Env}
use comb.Log.Model.{LogManifest, manifest_schema}

module _ {S E : Type 0} (env : Env S E) where
  -- The checks of a manifest against the name of its log.
  unfoldable pub check_manifest : Str → LogManifest env.chrono env.json.Value → Result (Unit {0})
  check_manifest name m = do
    refuse_if (not (eqs m.schema manifest_schema))
        (invalid_format "unsupported log manifest schema {}")
    validate_header env.hex m.header
    refuse_if (not (eqs m.header.resource name) || not (eqs m.log name))
        (recovery_failed "manifest resource {} log {} does not match {}")
