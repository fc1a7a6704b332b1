-- ===== src/Condor/Submit.antt =====
-- CondorSubmit and `submit` of natsprovider/condor/CondorConfiguration.py. What the shell and the files
-- answer is a parameter: `shell` gives what `_shell` returns, the printed form of the bytes.
use interlink_condorce_plugi.Prelude.{
  ℕ, zero, suc, ◌+◌, Text, codes, List, [], ◌∷◌, ◌++◌, Option, none, some, Bool, true, ◌&&◌, ◌||◌,
  nat_beq, leb, join, basename, starts_with, length, drop, collect, get_or, Result, ok, err,
  value_error, htcondor_exception, nat_eq, list_eq, if◌then◌else◌,
}
use interlink_condorce_plugi.Prelude.Format.{dedent, interpolate}
use interlink_condorce_plugi.Prelude.Paths.{join_path}
use interlink_condorce_plugi.Prelude.Numbers.{decimal}
use interlink_condorce_plugi.Prelude.Int.{ℤ, parse_int}
use interlink_condorce_plugi.Action.{Action, lift, ◌>>=◌, ◌>>◌}

pub record CondorSubmit : Type 0 where
  pub job_name : Option Text
  pub executable : Option Text
  pub log : Text
  pub stdout : Text
  pub stderr : Text
  pub when_to_transfer_output : Text
  pub should_transfer_files : Text
  pub transfer_output_files : List Text
  pub request_cpus : Option ℕ
  pub request_memory : Option ℕ

-- None is printed by its name
unfoldable pub printed : Option Text → Text
unfolding codes
printed none = codes "None"
printed (some t) = t

-- the fields that have a value, `k = v`
unfoldable pub optional_field : Text → Option ℕ → List Text
unfolding decimal codes
optional_field k none = []
optional_field k (some n) = (k ++ (codes " = " ++ decimal n)) ∷ []

unfoldable pub optional_fields : CondorSubmit → Text
unfolding optional_field join codes
optional_fields s = join (codes "\n") (
    optional_field (codes "request_memory") s.request_memory
    ++ optional_field (codes "request_cpus") s.request_cpus)

-- the lines of the f-string, twelve blanks before each but the last
abbrev pub line : List Text → Text
line ts = codes "            " ++ join [] ts

-- `abspath` is os.path.abspath
unfoldable pub submit_template :
    (abspath : Text → Text) → CondorSubmit → (command condor_dir : Text) → Text
unfolding printed join_path join codes
submit_template abspath s command condor_dir = join (codes "\n") (
    []
    ∷ line (codes "scitokens_file = /dev/null" ∷ [])
    ∷ line (codes "+Owner = undefined" ∷ [])
    ∷ line (codes "+JobBatchName               = \"" ∷ printed s.job_name ∷ codes "\"" ∷ [])
    ∷ line []
    ∷ line (codes "executable                  = " ∷ printed s.executable ∷ [])
    ∷ line (codes "arguments                   = " ∷ basename command ∷ [])
    ∷ line (codes "log                         = " ∷ join_path condor_dir s.log ∷ [])
    ∷ line (codes "error                       = " ∷ join_path condor_dir s.stderr ∷ [])
    ∷ line (codes "output                      = " ∷ join_path condor_dir s.stdout ∷ [])
    ∷ line []
    ∷ line (codes "%(optional_fields)s" ∷ [])
    ∷ line []
    ∷ line (codes "when_to_transfer_output     = " ∷ s.when_to_transfer_output ∷ [])
    ∷ line (codes "should_transfer_files       = " ∷ s.should_transfer_files ∷ [])
    ∷ line (codes "transfer_input_files        = " ∷ abspath command ∷ [])
    ∷ line (codes "transfer_output_files       = " ∷ join (codes ",") s.transfer_output_files ∷ [])
    ∷ line []
    ∷ line (codes "queue" ∷ [])
    ∷ codes "        "
    ∷ [])

unfoldable pub submit_file :
    (abspath : Text → Text) → CondorSubmit → (command condor_dir : Text) → Result Text
unfolding submit_template optional_fields dedent interpolate codes
submit_file abspath s command condor_dir =
    interpolate ((codes "optional_fields", optional_fields s) ∷ [])
      (dedent (submit_template abspath s command condor_dir))

-- the class `[\d, ]`, on ASCII
unfoldable pub is_listed : ℕ → Bool
is_listed c = (leb b'0' c && leb c b'9') || (nat_beq c b',' || nat_beq c b' ')

-- The longest run of the class, and what follows it. A run that nothing but the end of a line follows
-- gives its last character to the dot of the pattern.
unfoldable pub run_of : Text → Text × Text
unfolding is_listed
run_of [] = ([], [])
run_of (c ∷ t) = let (r, rest) = run_of t in if is_listed c then (c ∷ r, rest) else ([], c ∷ t)

unfoldable pub without_last : Text → Text
without_last [] = []
without_last (c ∷ []) = []
without_last (c ∷ d ∷ t) = c ∷ without_last (d ∷ t)

unfoldable pub ends_line : Text → Bool
ends_line [] = true
ends_line (c ∷ t) = nat_beq c b'\n'

-- the group of a match, or an empty text
unfoldable pub group_of : Text × Text → Text
unfolding without_last ends_line
group_of (r, rest) = if ends_line rest then without_last r else r

abbrev pub announced : Text
announced = codes "submitted to cluster "

-- the group of a match that begins here
unfoldable pub group_here : Text → Text
unfolding starts_with run_of group_of codes
group_here t = if starts_with t announced then group_of (run_of (drop (length announced) t)) else []

-- `re.findall(r"submitted to cluster ([\d, ]+).", t)`, where the first `skipped` characters belong to
-- a match.
unfoldable pub found : (skipped : ℕ) → Text → List Text
unfolding group_here
found skipped [] = []
found (suc n) (c ∷ t) = found n t
found zero (c ∷ t) = elim (group_here (c ∷ t)) [
  | [] ↦ found 0 t
  | d ∷ ds ↦ (d ∷ ds) ∷ found (length announced + length (d ∷ ds)) t
]

-- `', '.join(groups).split(", ")`
unfoldable pub split_list : Text → Text → List Text
split_list w [] = w ∷ []
split_list w (c ∷ []) = (w ++ c ∷ []) ∷ []
split_list w (c ∷ d ∷ t) =
    let next = w ∷ split_list [] t in
    let more = split_list (w ++ c ∷ []) (d ∷ t) in
    if nat_beq c b',' && nat_beq d b' ' then next else more

unfoldable pub int : Text → Result ℤ
unfolding parse_int
int t = elim (parse_int t) [ none ↦ err value_error | some n ↦ ok n ]

-- the first of the ids, all of which are read
unfoldable pub first_id : List ℤ → Result ℤ
first_id [] = err htcondor_exception
first_id (n ∷ ns) = ok n

unfoldable pub job_id_in : Text → Result ℤ
unfolding found split_list int first_id join codes
job_id_in ret = elim (collect int (split_list [] (join (codes ", ") (found 0 ret)))) [
  | err e ↦ err e
  | ok ids ↦ first_id ids
]

pub data Call : Type 0 where
  shell open_file : Text → Call
  print_to : (path content : Text) → Call

pub record Host : Type 0 where
  pub token : Result (Unit {0})
  pub shell : Text → Result Text
  pub open_file : Text → Result (Unit {0})

abbrev pub Trace : Type 0
Trace = List Call

unfoldable pub make_call : {A : Type 0} → Call → Result A → Action Trace A
make_call c r calls = (r, calls ++ c ∷ [])

module _ (abspath : Text → Text) (host : Host) (pool scheduler_name : Text) where
  unfoldable pub submit : (uid job : Text) → CondorSubmit → Action Trace ℤ
  unfolding make_call submit_file job_id_in join_path join codes
  submit uid job s =
      let named = record s { job_name = some (get_or s.job_name uid) } in
      let condor_dir = codes "/tmp/.condor." ++ uid in
      let submit_path = join_path condor_dir (codes "condor.sub") in
      let script_path = join_path condor_dir (codes "command.sh") in
      let mkdir = codes "mkdir -p " ++ (condor_dir ++ (codes "; chmod a+w " ++ condor_dir)) in
      let command =
        codes "cd "
        ++ (condor_dir
            ++ (codes "\n"
                ++ join (codes " ") (
                    codes "condor_submit"
                    ∷ (codes "-pool " ++ pool)
                    ∷ (codes "-name " ++ scheduler_name)
                    ∷ (codes "-spool " ++ submit_path)
                    ∷ []))) in
      do
        lift host.token
        made ← make_call (Call.shell mkdir) (host.shell mkdir)
        make_call (Call.open_file submit_path) (host.open_file submit_path)
        text ← lift (submit_file abspath named script_path condor_dir)
        make_call (print_to submit_path (text ++ codes "\n")) (ok tt)
        make_call (Call.open_file script_path) (host.open_file script_path)
        make_call (print_to script_path (job ++ codes "\n")) (ok tt)
        ret ← make_call (Call.shell command) (host.shell command)
        lift (job_id_in ret)
