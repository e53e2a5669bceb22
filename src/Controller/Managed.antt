-- ===== src/Controller/Managed.antt =====
-- The results of an external client of crossplane-runtime, as far as the controllers fill them in.
use provider_growthbook.Base.{String, Bool, false, List, []}
use provider_growthbook.Growthbook.Text.{Bytes}

pub record ExternalObservation : Type 0 where
  pub resource_exists : Bool
  pub resource_up_to_date : Bool
  pub resource_late_initialized : Bool
  pub connection_details : List (String × Bytes)

-- `managed.ExternalObservation{ResourceExists: false}`, the zero value.
abbrev pub absent : ExternalObservation
absent = record {
  resource_exists = false;
  resource_up_to_date = false;
  resource_late_initialized = false;
  connection_details = [];
}

-- The details of an `ExternalCreation` and of an `ExternalUpdate`; an `ExternalDelete` is empty.
abbrev pub ConnectionDetails : Type 0
ConnectionDetails = List (String × Bytes)
