-- ===== src/Jobs/Validity.antt =====
-- What holds of every job of backend/internal/api/handlers/jobs.go, and who changes it.
use passbubble.Prelude.{
  ℕ, Bool, true, false, not, ◌&&◌, Option, none, some, List, [], ◌∷◌, ◌++◌, ◌==◌, str_eq, ◌≡◌, ◌≢◌,
  refl, sym, subst, ap, ◌⊎◌, arith, ◌∙◌, update_where, find_where, find-update_disjoint, All,
  Option-cases, Bool-cases, inl, inr,
}
use passbubble.Store.{World, Claims, Response, error, reply, contains}
use passbubble.Jobs.{
  JobRow, CreateJobRequest, UpdateJobRequest, valid_job_types, valid_job_formats,
  valid_dup_strategies, valid_statuses, strategy_of, new_job, read_job, as_created, create_job,
  patch_job, own_job, update_own_job, update_job,
}

-- The words of a job are allowed ones.
pub record IsValid (j : JobRow) : Type 0 where
  pub kind : contains j.kind valid_job_types ≡ true
  pub format : contains j.format valid_job_formats ≡ true
  pub strategy : contains j.dup_strategy valid_dup_strategies ≡ true
  pub status : contains j.status valid_statuses ≡ true

read_job-keeps : (w : World) (n id : ℕ) (jobs : List JobRow) → (read_job w n id jobs).0 ≡ jobs
unfolding read_job
read_job-keeps w n id jobs = ground arith

as_created-keeps : (r : List JobRow × Response JobRow) → (as_created r).0 ≡ r.0
as_created-keeps (jobs, error s msg) = refl
as_created-keeps (jobs, reply s j) = refl

All-append_one :
    (jobs : List JobRow) (j : JobRow) → All IsValid jobs → IsValid j → All IsValid (jobs ++ j ∷ [])
All-append_one [] j h k = (k, tt)
All-append_one (x ∷ jobs) j h k = (h.0, All-append_one jobs j h.1 k)

-- The request passes the checks of CreateJob.
abbrev is_accepted : World → CreateJobRequest → Bool
is_accepted w req =
    contains req.kind valid_job_types
    && contains req.format valid_job_formats
    && contains (strategy_of req) valid_dup_strategies
    && not (w.fails 0)

created :
    (w : World) (caller : Claims) (req : CreateJobRequest) (jobs : List JobRow)
    → is_accepted w req ≡ true
    → (create_job w caller (some req) jobs).0 ≡ jobs ++ new_job w caller req ∷ []
unfolding create_job
created w caller req jobs h = ground (
  arith,
  h,
  as_created-keeps (read_job w 1 (w.uuid 0) (jobs ++ new_job w caller req ∷ [])),
  read_job-keeps w 1 (w.uuid 0) (jobs ++ new_job w caller req ∷ []),
)

not_created :
    (w : World) (caller : Claims) (req : CreateJobRequest) (jobs : List JobRow)
    → is_accepted w req ≡ false
    → (create_job w caller (some req) jobs).0 ≡ jobs
unfolding create_job
not_created w caller req jobs h = ground (arith, h)

new_job-IsValid :
    (w : World) (caller : Claims) (req : CreateJobRequest)
    → is_accepted w req ≡ true
    → IsValid (new_job w caller req)
unfolding new_job contains
new_job-IsValid w caller req h = record {
  kind = ground (arith, h);
  format = ground (arith, h);
  strategy = ground (arith, h);
  status = refl;
}

create_job-IsValid :
    (w : World) (caller : Claims) (req : Option CreateJobRequest) (jobs : List JobRow)
    → All IsValid jobs
    → All IsValid (create_job w caller req jobs).0
unfolding create_job
create_job-IsValid w caller none jobs h = h
create_job-IsValid w caller (some req) jobs h = elim (Bool-cases (is_accepted w req)) [
  | inl e ↦
      subst (All IsValid) (sym (created w caller req jobs e))
        (All-append_one jobs (new_job w caller req) h (new_job-IsValid w caller req e))
  | inr e ↦ subst (All IsValid) (sym (not_created w caller req jobs e)) h
]

patch_job-IsValid :
    (w : World) (req : UpdateJobRequest) (j : JobRow)
    → (not (str_eq req.status "") && not (contains req.status valid_statuses)) ≡ false
    → IsValid j
    → IsValid (patch_job w req j)
unfolding patch_job
patch_job-IsValid w req j ok h = record {
  kind = h.kind;
  format = h.format;
  strategy = h.strategy;
  status = ground (arith, ok, h.status);
}

patched-IsValid :
    (w : World) (id user : ℕ) (req : UpdateJobRequest) (jobs : List JobRow)
    → (not (str_eq req.status "") && not (contains req.status valid_statuses)) ≡ false
    → All IsValid jobs
    → All IsValid (update_where (own_job id user) (patch_job w req) jobs)
unfolding update_where
patched-IsValid w id user req [] ok h = tt
patched-IsValid w id user req (j ∷ jobs) ok h = elim (Bool-cases (own_job id user j)) [
  | inl e ↦ (rw e (patch_job-IsValid w req j ok h.0), patched-IsValid w id user req jobs ok h.1)
  | inr e ↦ (rw e h.0, patched-IsValid w id user req jobs ok h.1)
]

-- The jobs after UpdateJob: those of before, or with the caller's own job patched by an allowed request.
record Patched (w : World) (caller : Claims) (id : ℕ) (req : UpdateJobRequest)
    (before after : List JobRow) : Type 0 where
  allowed : (not (str_eq req.status "") && not (contains req.status valid_statuses)) ≡ false
  rows : after ≡ update_where (own_job id caller.user_id) (patch_job w req) before

update_job-rows :
    (w : World) (caller : Claims) (id : ℕ) (req : UpdateJobRequest) (jobs : List JobRow)
    → ((update_job w caller id (some req) jobs).0 ≡ jobs)
      ⊎ Patched w caller id req jobs (update_job w caller id (some req) jobs).0
unfolding update_job update_own_job
update_job-rows w caller id req jobs = elim (Option-cases (find_where (λ j. j.id == id) jobs)) [
  | inl e ↦ inl (ground arith)
  | inr (j, e) ↦
      elim (Bool-cases (
        not (w.fails 0)
        && (j.user_id == caller.user_id)
        && not (w.fails 1)
        && not (not (str_eq req.status "") && not (contains req.status valid_statuses)))) [
          | inl k ↦ inr (record {
            allowed = ground arith;
            rows = ground (
              arith,
              read_job-keeps w 2 id
                  (update_where (own_job id caller.user_id) (patch_job w req) jobs),
            );
          })
          | inr k ↦ inl (ground arith)
        ]
]

update_job-IsValid :
    (w : World) (caller : Claims) (id : ℕ) (req : Option UpdateJobRequest) (jobs : List JobRow)
    → All IsValid jobs
    → All IsValid (update_job w caller id req jobs).0
unfolding update_job
update_job-IsValid w caller id none jobs h = h
update_job-IsValid w caller id (some req) jobs h = elim (update_job-rows w caller id req jobs) [
  | inl e ↦ subst (All IsValid) (sym e) h
  | inr p ↦
      subst (All IsValid) (sym p.rows) (patched-IsValid w id caller.user_id req jobs p.allowed h)
]

-- A request to the ledger, and what it leaves of the jobs.
pub data JobRequest : Type 0 where
  create : Option CreateJobRequest → JobRequest
  update : ℕ → Option UpdateJobRequest → JobRequest

abbrev pub handle : World → Claims → JobRequest → List JobRow → List JobRow
handle w caller (create req) jobs = (create_job w caller req jobs).0
handle w caller (update id req) jobs = (update_job w caller id req jobs).0

-- Whatever is asked of the ledger of jobs, by whom and with whatever failures: where every job has a
-- type, a format, a strategy and a status among the allowed words, every job has them afterwards.
pub handle-IsValid :
    (w : World) (caller : Claims) (req : JobRequest) (jobs : List JobRow)
    → All IsValid jobs
    → All IsValid (handle w caller req jobs)
handle-IsValid w caller (create req) jobs h = create_job-IsValid w caller req jobs h
handle-IsValid w caller (update id req) jobs h = update_job-IsValid w caller id req jobs h

patch_job-own :
    (w : World) (req : UpdateJobRequest) (k user : ℕ) (j : JobRow)
    → own_job k user (patch_job w req j) ≡ own_job k user j
unfolding patch_job
patch_job-own w req k user j = refl

-- UpdateJob leaves every job of another user as it is, whatever is asked and whatever calls fail.
pub update_job_others :
    (w : World) (caller : Claims) (id k user : ℕ) (req : UpdateJobRequest) (jobs : List JobRow)
    → user ≢ caller.user_id
    → find_where (own_job k user) (update_job w caller id (some req) jobs).0
      ≡ find_where (own_job k user) jobs
update_job_others w caller id k user req jobs ne = elim (update_job-rows w caller id req jobs) [
  | inl e ↦ ap (find_where (own_job k user)) e
  | inr p ↦
      ap (find_where (own_job k user)) p.rows
      ∙ find-update_disjoint (own_job k user) (own_job id caller.user_id) (patch_job w req) jobs
          (patch_job-own w req k user) (λ j h. ground arith)
]
