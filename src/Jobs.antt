-- ===== src/Jobs.antt =====
-- The ledger of imports and exports, of backend/internal/api/handlers/jobs.go. The jobs are a table of
-- their own (backend/internal/db/migrations/000004_jobs.up.sql) that no other handler uses; that the
-- caller is a user, the foreign key of an insertion, is among the failures.
pub mod Validity
use passbubble.Prelude.{
  ℕ, String, Bool, true, false, not, ◌&&◌, ◌||◌, Option, none, some, List, [], ◌∷◌, ◌++◌, ◌==◌,
  str_eq, if◌then◌else◌, coalesce, update_where, find_where,
}
use passbubble.Store.{World, Claims, Response, error, reply, contains}

-- The counts are INTs; a negative one, which the requests do not rule out, is left out.
pub record JobRow : Type 0 where
  pub id : ℕ
  pub user_id : ℕ
  pub kind : String
  pub format : String
  pub status : String
  pub dup_strategy : String
  pub total_items : ℕ
  pub processed_items : ℕ
  pub created_items : ℕ
  pub updated_items : ℕ
  pub skipped_items : ℕ
  pub failed_items : ℕ
  pub error_message : Option String
  pub client_name : Option String
  pub created_at : ℕ
  pub updated_at : ℕ
  pub finished_at : Option ℕ

pub record CreateJobRequest : Type 0 where
  pub kind : String
  pub format : String
  pub dup_strategy : String
  pub total_items : ℕ
  pub client_name : String

pub record UpdateJobRequest : Type 0 where
  pub status : String
  pub processed_items : Option ℕ
  pub created_items : Option ℕ
  pub updated_items : Option ℕ
  pub skipped_items : Option ℕ
  pub failed_items : Option ℕ
  pub error_message : String

abbrev pub valid_job_types : List String
valid_job_types = "import" ∷ "export" ∷ []

abbrev pub valid_job_formats : List String
valid_job_formats =
    "csv-generic" ∷ "csv-chrome" ∷ "csv-lastpass" ∷ "csv-1password" ∷ "bitwarden" ∷ "keepass"
    ∷ "psono" ∷ "onepassword" ∷ "csv" ∷ []

abbrev pub valid_dup_strategies : List String
valid_dup_strategies = "skip" ∷ "overwrite" ∷ []

abbrev pub finished_statuses : List String
finished_statuses = "completed" ∷ "failed" ∷ "cancelled" ∷ []

abbrev pub valid_statuses : List String
valid_statuses = "running" ∷ finished_statuses

-- nullableString
abbrev pub nullable_string : String → Option String
nullable_string s = if str_eq s "" then none else some s

-- The duplicate strategy, "skip" where the request names none.
abbrev pub strategy_of : CreateJobRequest → String
strategy_of req = if str_eq req.dup_strategy "" then "skip" else req.dup_strategy

unfoldable pub new_job : World → Claims → CreateJobRequest → JobRow
new_job w caller req = record {
  id = w.uuid 0;
  user_id = caller.user_id;
  kind = req.kind;
  format = req.format;
  status = "running";
  dup_strategy = strategy_of req;
  total_items = req.total_items;
  processed_items = 0;
  created_items = 0;
  updated_items = 0;
  skipped_items = 0;
  failed_items = 0;
  error_message = none;
  client_name = nullable_string req.client_name;
  created_at = w.now;
  updated_at = w.now;
  finished_at = none;
}

-- The row that a handler reads back at its end, in call n.
unfoldable pub read_job : World → ℕ → ℕ → List JobRow → List JobRow × Response JobRow
read_job w n id jobs =
    if w.fails n
    then (jobs, error 500 "failed to read job")
    else elim (find_where (λ j. j.id == id) jobs) [
      | none ↦ (jobs, error 500 "failed to read job")
      | some j ↦ (jobs, reply 200 j)
    ]

-- CreateJob answers the row with 201.
abbrev pub as_created : List JobRow × Response JobRow → List JobRow × Response JobRow
as_created (jobs, error s msg) = (jobs, error s msg)
as_created (jobs, reply s j) = (jobs, reply 201 j)

-- CreateJob
unfoldable pub create_job :
    World → Claims → Option CreateJobRequest → List JobRow → List JobRow × Response JobRow
create_job w caller none jobs = (jobs, error 400 "invalid request body")
create_job w caller (some req) jobs =
    if not (contains req.kind valid_job_types)
    then (jobs, error 400 "invalid job type")
    else if not (contains req.format valid_job_formats)
    then (jobs, error 400 "invalid job format")
    else if not (contains (strategy_of req) valid_dup_strategies)
    then (jobs, error 400 "invalid dup_strategy")
    else if w.fails 0
    then (jobs, error 500 "failed to create job")
    else as_created (read_job w 1 (w.uuid 0) (jobs ++ new_job w caller req ∷ []))

-- GetJob
unfoldable pub get_job : World → Claims → ℕ → List JobRow → Response JobRow
get_job w caller id jobs =
    if w.fails 0
    then error 404 "job not found"
    else elim (find_where (λ j. j.id == id && j.user_id == caller.user_id) jobs) [
      | none ↦ error 404 "job not found"
      | some j ↦ reply 200 j
    ]

-- COALESCE(NULLIF($n,''), column)
abbrev pub text_or : String → String → String
text_or s old = if str_eq s "" then old else s

-- UPDATE jobs SET ...
unfoldable pub patch_job : World → UpdateJobRequest → JobRow → JobRow
patch_job w req j = record j {
  status = text_or req.status j.status;
  processed_items = coalesce req.processed_items j.processed_items;
  created_items = coalesce req.created_items j.created_items;
  updated_items = coalesce req.updated_items j.updated_items;
  skipped_items = coalesce req.skipped_items j.skipped_items;
  failed_items = coalesce req.failed_items j.failed_items;
  error_message = if str_eq req.error_message "" then j.error_message else some req.error_message;
  updated_at = w.now;
  finished_at = if contains req.status finished_statuses then some w.now else j.finished_at;
}

abbrev pub own_job : ℕ → ℕ → JobRow → Bool
own_job id user j = j.id == id && j.user_id == user

-- UpdateJob behind the check of the owner.
unfoldable pub update_own_job :
    World → Claims → ℕ → UpdateJobRequest → List JobRow → List JobRow × Response JobRow
update_own_job w caller id req jobs =
    if not (str_eq req.status "") && not (contains req.status valid_statuses)
    then (jobs, error 400 "invalid status")
    else if w.fails 1
    then (jobs, error 500 "failed to update job")
    else read_job w 2 id (update_where (own_job id caller.user_id) (patch_job w req) jobs)

-- UpdateJob
unfoldable pub update_job :
    World → Claims → ℕ → Option UpdateJobRequest → List JobRow → List JobRow × Response JobRow
update_job w caller id none jobs = (jobs, error 400 "invalid request body")
update_job w caller id (some req) jobs =
    if w.fails 0
    then (jobs, error 404 "job not found")
    else elim (find_where (λ j. j.id == id) jobs) [
      | none ↦ (jobs, error 404 "job not found")
      | some j ↦
          if not (j.user_id == caller.user_id)
          then (jobs, error 404 "job not found")
          else update_own_job w caller id req jobs
    ]
