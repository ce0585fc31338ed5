-- ===== src/Observability/Metrics.antt =====
-- dike-services/src/observability/metrics.ts.
use dike_monolith.Prelude.{ℕ, ◌+◌, ◌-◌, Option, none, some, List, [], String, string_eq, or_else}
use dike_monolith.Prelude.Int.{ℤ, pos, ◌+ℤ◌}
use dike_monolith.Prelude.Dict.{lookup, insert}

pub record ContractMetric : Type 0 where
  pub contract_id : String
  pub module_name : String
  pub last_indexed_ledger : ℕ
  pub latest_ledger : ℕ
  pub lag_ledgers : ℕ

pub record SponsorshipMetrics : Type 0 where
  pub requested : ℕ
  pub accepted : ℕ
  pub confirmed : ℕ
  pub failed : ℕ
  pub timed_out : ℕ
  pub rejected : ℕ
  pub declared_stroops : ℤ
  pub latency_ms : ℕ
  pub rejection_reasons : List (String × ℕ)

pub record MetricsStore : Type 0 where
  pub latest_ledger : ℕ
  pub rpc_failure_count : ℕ
  pub reconciliation_mismatch_count : ℕ
  pub persistent_reconciliation_mismatch_count : ℕ
  pub processing_failures : ℕ
  pub lag_alert_count : ℕ
  pub checkpoint_rewind_count : ℕ
  pub sponsorship : SponsorshipMetrics
  pub contract_metrics : List (String × ContractMetric)

-- The status of a sponsored transaction that has ended.
pub data Completion : Type 0 where
  confirmed failed timeout rejected : Completion

abbrev pub new_metrics : MetricsStore
new_metrics = record {
  latest_ledger = 0;
  rpc_failure_count = 0;
  reconciliation_mismatch_count = 0;
  persistent_reconciliation_mismatch_count = 0;
  processing_failures = 0;
  lag_alert_count = 0;
  checkpoint_rewind_count = 0;
  sponsorship = record {
    requested = 0;
    accepted = 0;
    confirmed = 0;
    failed = 0;
    timed_out = 0;
    rejected = 0;
    declared_stroops = pos 0;
    latency_ms = 0;
    rejection_reasons = [];
  };
  contract_metrics = [];
}

unfoldable pub set_latest_ledger : ℕ → MetricsStore → MetricsStore
set_latest_ledger n m = record m { latest_ledger = n }

unfoldable pub note_rpc_failure : MetricsStore → MetricsStore
note_rpc_failure m = record m { rpc_failure_count = m.rpc_failure_count + 1 }

unfoldable pub note_processing_failure : MetricsStore → MetricsStore
note_processing_failure m = record m { processing_failures = m.processing_failures + 1 }

unfoldable pub set_reconciliation_mismatch_count : ℕ → MetricsStore → MetricsStore
set_reconciliation_mismatch_count n m = record m { reconciliation_mismatch_count = n }

unfoldable pub set_persistent_reconciliation_mismatch_count : ℕ → MetricsStore → MetricsStore
set_persistent_reconciliation_mismatch_count n m = record m {
  persistent_reconciliation_mismatch_count = n;
}

unfoldable pub set_lag_alert_count : ℕ → MetricsStore → MetricsStore
set_lag_alert_count n m = record m { lag_alert_count = n }

unfoldable pub note_checkpoint_rewind : MetricsStore → MetricsStore
note_checkpoint_rewind m = record m { checkpoint_rewind_count = m.checkpoint_rewind_count + 1 }

unfoldable pub note_sponsorship_requested : MetricsStore → MetricsStore
note_sponsorship_requested m = record m {
  sponsorship = record (m.sponsorship) { requested = m.sponsorship.requested + 1 };
}

unfoldable pub note_sponsorship_accepted : ℤ → MetricsStore → MetricsStore
note_sponsorship_accepted declared m = record m {
  sponsorship = record (m.sponsorship) {
    accepted = m.sponsorship.accepted + 1;
    declared_stroops = m.sponsorship.declared_stroops +ℤ declared;
  };
}

count_status : Completion → SponsorshipMetrics → SponsorshipMetrics
count_status confirmed s = record s { confirmed = s.confirmed + 1 }
count_status failed s = record s { failed = s.failed + 1 }
count_status timeout s = record s { timed_out = s.timed_out + 1 }
count_status rejected s = record s { rejected = s.rejected + 1 }

count_reason : Option String → SponsorshipMetrics → SponsorshipMetrics
count_reason none s = s
count_reason (some r) s = record s {
  rejection_reasons = insert r (or_else (lookup r s.rejection_reasons) 0 + 1) s.rejection_reasons;
}

-- A latency below zero counts as none: it is given as a natural number, which stops there.
unfoldable pub note_sponsorship_completed :
    Completion → ℕ → Option String → MetricsStore → MetricsStore
unfolding count_status count_reason
note_sponsorship_completed status latency reason m = record m {
  sponsorship = count_reason reason (
      count_status status
        (record (m.sponsorship) { latency_ms = m.sponsorship.latency_ms + latency }));
}

unfoldable pub set_contract_lag : String → String → ℕ → ℕ → MetricsStore → MetricsStore
set_contract_lag id name last latest m = record m {
  contract_metrics =
      insert id
        (record {
          contract_id = id;
          module_name = name;
          last_indexed_ledger = last;
          latest_ledger = latest;
          lag_ledgers = latest - last;
        })
        m.contract_metrics;
}
