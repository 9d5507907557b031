-- ===== src/Arbiter/Config.antt =====
-- arbiter/config.py: one entry of the job table, and reading the whole table.
-- The YAML reader is not modelled: a `RawJob` is one mapping of the list `jobs`, with the keys
-- that are missing as `none` and the numbers already read by `int`.
pub mod JobOrder
pub mod Loading
use local_ai_server.Prelude.{
  Bool, List, Option, String, [], false, if◌then◌else◌, ltb, none, number_Eq, some, text_Eq, true,
  ℕ, ◌&&◌, ◌+◌, ◌==◌, ◌||◌, ◌∷◌,
}
use local_ai_server.Prelude.Int.{lebℤ, pos, ℤ}
use local_ai_server.Prelude.Result.{Result, err, ok, ◌>>=◌, ◌>>◌}
use local_ai_server.Prelude.Texts.{codes, codes_leb}

pub data Kind : Type 0 where
  unmanaged : Kind
  container : Kind
  cooperative : Kind

pub record RawJob : Type 0 where
  pub name : Option String
  pub kind : Option String
  pub container : Option String
  pub priority : Option ℤ
  pub required_mb : Option ℤ
  pub stop_timeout : Option ℤ

pub record JobConfig : Type 0 where
  pub name : String
  pub kind : Kind
  pub container : String
  pub priority : ℤ
  pub required_mb : ℤ
  pub stop_timeout : ℤ

pub data ConfigError : Type 0 where
  missing_name : ConfigError
  bad_kind : String → ConfigError
  duplicate_names : ConfigError

abbrev pub or_default : {A : Type 0} → Option A → A → A
or_default none d = d
or_default (some a) d = a

-- `kind` against KINDS. The source's "none" is `unmanaged` here.
unfoldable pub parse_kind : String → Result ConfigError Kind
parse_kind k =
    if k == "none"
    then ok unmanaged
    else if k == "container"
    then ok container
    else if k == "cooperative"
    then ok cooperative
    else err (bad_kind k)

abbrev pub require_name : Option String → Result ConfigError String
require_name none = err missing_name
require_name (some n) = ok n

-- JobConfig.__init__
unfoldable pub make_job : RawJob → Result ConfigError JobConfig
unfolding parse_kind
make_job raw = do
  name ← require_name raw.name
  kind ← parse_kind (or_default raw.kind "none")
  ok (record {
    name = name;
    kind = kind;
    container = or_default raw.container name;
    priority = or_default raw.priority (pos 0);
    required_mb = or_default raw.required_mb (pos 0);
    stop_timeout = or_default raw.stop_timeout (pos 10);
  })

unfoldable pub make_jobs : List RawJob → Result ConfigError (List JobConfig)
unfolding make_job
make_jobs [] = ok []
make_jobs (raw ∷ rest) = do job ← make_job raw; jobs ← make_jobs rest; ok (job ∷ jobs)

-- The key (-priority, name): `comes_before a b` when a may stand ahead of b.
unfoldable pub comes_before : JobConfig → JobConfig → Bool
unfolding codes_leb
comes_before a b =
    if lebℤ a.priority b.priority
    then lebℤ b.priority a.priority && codes_leb (codes a.name) (codes b.name)
    else true

unfoldable pub place_job : JobConfig → List JobConfig → List JobConfig
unfolding comes_before
place_job j [] = j ∷ []
place_job j (x ∷ xs) = if comes_before j x then j ∷ x ∷ xs else x ∷ place_job j xs

-- jobs.sort(key=lambda j: (-j.priority, j.name))
unfoldable pub sort_jobs : List JobConfig → List JobConfig
unfolding place_job
sort_jobs [] = []
sort_jobs (j ∷ js) = place_job j (sort_jobs js)

-- names.count(n)
unfoldable pub count_name : String → List JobConfig → ℕ
count_name n [] = 0
count_name n (j ∷ js) = (if j.name == n then 1 else 0) + count_name n js

-- Is some name of the first list counted more than once in the second?
unfoldable pub has_duplicate : List JobConfig → List JobConfig → Bool
unfolding count_name
has_duplicate [] all = false
has_duplicate (j ∷ js) all = ltb 1 (count_name j.name all) || has_duplicate js all

-- The checks of `load_jobs` after the entries are read.
unfoldable pub checked_jobs : List JobConfig → Result ConfigError (List JobConfig)
unfolding has_duplicate sort_jobs
checked_jobs jobs = if has_duplicate jobs jobs then err duplicate_names else ok (sort_jobs jobs)

-- `none` is a missing file.
unfoldable pub load_jobs : Option (List RawJob) → Result ConfigError (List JobConfig)
unfolding make_jobs checked_jobs
load_jobs none = ok []
load_jobs (some entries) = do jobs ← make_jobs entries; checked_jobs jobs
