-- ===== src/Sponsorship/Service/Status.antt =====
-- `status` of dike-services/src/sponsorship/service.ts. Its limits are those of the fee policy.
use dike_monolith.Prelude.{
  Bool, not, ◌&&◌, Option, none, some, String, ◌==◌, string_eq, if◌then◌else◌,
}
use dike_monolith.Sponsorship.Fees.{FeePolicy}
use dike_monolith.Sponsorship.Service.{Options}

pub record Status : Type 0 where
  pub enabled : Bool
  pub available : Bool
  pub network : String
  pub sponsor_address : Option String
  pub limits : FeePolicy
  pub reason : Option String

unfoldable pub status : String → Options → Status
status network o =
    let configured = o.enabled && not (o.signer.public_key == "") in
    record {
      enabled = o.enabled;
      available = configured;
      network = network;
      sponsor_address = if configured then some o.signer.public_key else none;
      limits = o.fee_policy;
      reason =
          if configured
          then none
          else some (if o.enabled then "sponsor_not_configured" else "disabled");
    }
