-- ===== src/Policy/Registry.antt =====
-- The detectors and their registry: packages/hds-brain/src/detectors/types.ts and index.ts.
use blue_tanuki.Base.{String, Option, none, some, ◌==◌, if◌then◌else◌, Result, ok, thrown}
use blue_tanuki.Base.Dict.{Dict, get, put}
use blue_tanuki.Base.Trim.{trim}
use blue_tanuki.Base.Json.{Json}
use blue_tanuki.Policy.Types.{DetectorContext, DetectorOutput}

-- A detector may throw a message.
pub record Detector (Num : Type 0) : Type 0 where
  pub name : String
  pub evaluate : Dict Json → DetectorContext → Result String (DetectorOutput Num)

abbrev pub DetectorRegistry : Type 0 → Type 0
DetectorRegistry Num = Dict (Detector Num)

unfoldable pub registry_get : {Num : Type 0} → DetectorRegistry Num → String → Option (Detector Num)
registry_get registry name = get registry (trim name)

unfoldable pub register :
    {Num : Type 0} → DetectorRegistry Num → Detector Num → Result String (DetectorRegistry Num)
register registry d =
    let name = trim d.name in
    if name == "" then thrown "Detector name is required" else elim (get registry name) [
      | some _ ↦ thrown "Detector already registered"
      | none ↦ ok (put registry name d)
    ]
