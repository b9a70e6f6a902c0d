-- ===== src/Drift/Types.antt =====
-- src/drift/types.ts.
use signalk_doctor_server.Common.{Bool, Option, List, String}

pub data DriftClassification : Type 0 where
  up_to_date patch minor major prerelease unknown : DriftClassification

pub record DriftLocation : Type 0 where
  pub installed : String
  pub classification : DriftClassification

pub record DriftPackage : Type 0 where
  pub name : String
  pub image : Option DriftLocation
  pub data_dir : Option DriftLocation
  pub latest : Option String
  pub etag : Option String
  pub last_fetched_at : Option String

pub data DriftFetchReason : Type 0 where
  unreachable runtime : DriftFetchReason

pub record DriftFetchError : Type 0 where
  pub reason : DriftFetchReason
  pub detail : String

pub record DriftReport : Type 0 where
  pub signalk_image_tag : Option String
  pub last_scanned_at : String
  pub last_successful_scan_at : Option String
  pub online : Bool
  pub last_fetch_error : Option DriftFetchError
  pub packages : List DriftPackage
