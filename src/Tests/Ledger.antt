-- ===== src/Tests/Ledger.antt =====
-- Witnesses for jobs.
use passbubble.Prelude.{none, some, [], ◌∷◌, ◌≡◌, refl, find_where, All, arith}
use passbubble.Store.{contains}
use passbubble.Jobs.{JobRow, UpdateJobRequest, update_job, own_job}
use passbubble.Jobs.Validity.{IsValid, update, handle, handle-IsValid, update_job_others}
use passbubble.Tests.Data.{world_at, owner, reader}

abbrev job : JobRow
job = record {
  id = 70;
  user_id = 1;
  kind = "import";
  format = "csv";
  status = "running";
  dup_strategy = "skip";
  total_items = 5;
  processed_items = 0;
  created_items = 0;
  updated_items = 0;
  skipped_items = 0;
  failed_items = 0;
  error_message = none;
  client_name = none;
  created_at = 100;
  updated_at = 100;
  finished_at = none;
}

abbrev finishing : UpdateJobRequest
finishing = record {
  status = "completed";
  processed_items = some 5;
  created_items = none;
  updated_items = none;
  skipped_items = none;
  failed_items = none;
  error_message = "";
}

job-IsValid : IsValid job
unfolding contains
job-IsValid = record { kind = refl; format = refl; strategy = refl; status = refl }

handle-IsValid_example :
    All IsValid (handle (world_at 200 900) owner (update 70 (some finishing)) (job ∷ []))
handle-IsValid_example =
    handle-IsValid (world_at 200 900) owner (update 70 (some finishing)) (job ∷ [])
      (job-IsValid, tt)

update_job_others_example :
    find_where
      (own_job 70 1)
      (update_job (world_at 200 900) reader 70 (some finishing) (job ∷ [])).0
    ≡ find_where (own_job 70 1) (job ∷ [])
update_job_others_example =
    update_job_others (world_at 200 900) reader 70 70 1 finishing (job ∷ []) (λ e. ground arith)
