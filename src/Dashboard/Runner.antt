-- ===== src/Dashboard/Runner.antt =====
-- internal/dashboard/runner.go: the commands that the dashboard's terminal runs, and their output.
--
-- The process that a command becomes, the path of the binary and the JSON of the body are read from
-- outside: arguments. Times and the environment of the process are left out.
pub mod Capture
use curio_core.Base.{
  any-All, Member-map, any_Member, take, ◌-◌, length, ◌||◌, leb, fields, bytes_eq, All,
  contains_any, bytes_eq_iff, Bool-cases, ltb, ◌&&◌, ◌∷◌, Member, ◌==◌, ◌++◌, ◌*◌, OnSome, any,
  codes, if◌then◌else◌, Bytes, Bool, Option, List, ℕ, arith, inr, inl, false, true, some, none,
  refl, [], ◌≡◌,
}

abbrev pub allowlisted_subcommands : List Bytes
allowlisted_subcommands =
    codes "version"
    ∷ codes "wallet list"
    ∷ codes "doctor"
    ∷ codes "sp info"
    ∷ codes "probe"
    ∷ codes "config show"
    ∷ []

-- the characters that a shell reads: `$|&;<>()\"' and the end of a line
abbrev pub metachars : Bytes
metachars = 96 ∷ 36 ∷ 124 ∷ 38 ∷ 59 ∷ 60 ∷ 62 ∷ 40 ∷ 41 ∷ 92 ∷ 34 ∷ 39 ∷ 10 ∷ []

-- the loop over the prefix
abbrev pub agrees : List Bytes → List Bytes → Bool
agrees args [] = true
agrees [] (p ∷ ps) = false
agrees (a ∷ args) (p ∷ ps) = bytes_eq a p && agrees args ps

unfoldable pub args_have_prefix : List Bytes → List Bytes → Bool
args_have_prefix args prefix =
    if ltb (length args) (length prefix) then false else agrees args prefix

unfoldable pub command_is_allowed : List Bytes → Bool
command_is_allowed args =
    if any (contains_any metachars) args
    then false
    else any (λ a. args_have_prefix args (fields a)) allowlisted_subcommands

-- `capBuf`
pub record CapBuf : Type 0 where
  pub buf : Bytes
  pub limit : ℕ
  pub truncated : Bool

-- `Write`
unfoldable pub write : Bytes → CapBuf → CapBuf
write p c =
    if ltb 0 c.limit && leb c.limit (length c.buf)
    then record c { truncated = true }
    else if ltb 0 c.limit && ltb (c.limit - length c.buf) (length p)
    then record c { buf = c.buf ++ take (c.limit - length c.buf) p; truncated = true }
    else record c { buf = c.buf ++ p }

unfoldable pub write_all : List Bytes → CapBuf → CapBuf
write_all [] c = c
write_all (p ∷ ps) c = write_all ps (write p c)

abbrev pub max_output_bytes : ℕ
max_output_bytes = 64 * 1024

-- how a process ends: well, with an exit code (none for -1), or with another error
pub data RunEnd : Type 0 where
  ended : RunEnd
  exit_error : Option ℕ → RunEnd
  failed : Bytes → RunEnd

-- a run of the binary: what it writes to its two outputs, how it ends, and whether the time was up
pub record Run : Type 0 where
  pub out : List Bytes
  pub err : List Bytes
  pub end : RunEnd
  pub timed_out : Bool

pub record RunResponse : Type 0 where
  pub ok : Bool
  pub exit_code : Option ℕ
  pub stdout : Bytes
  pub stderr : Bytes
  pub error : Bytes
  pub truncated : Bool

abbrev pub refused : Bytes → RunResponse
refused e = record {
  ok = false;
  exit_code = some 0;
  stdout = [];
  stderr = [];
  error = e;
  truncated = false;
}

abbrev pub exit_code_of : RunEnd → Option ℕ
exit_code_of ended = some 0
exit_code_of (exit_error code) = code
exit_code_of (failed e) = none

abbrev pub error_of : RunEnd → Bytes
error_of ended = []
error_of (exit_error code) = []
error_of (failed e) = e

abbrev pub is_success : Option ℕ → Bool
is_success none = false
is_success (some code) = code == 0

abbrev pub run_error : Run → Bytes
run_error r = if r.timed_out then codes "timeout after 30s" else error_of r.end

abbrev pub captured : List Bytes → CapBuf
captured ps = write_all ps (record { buf = []; limit = max_output_bytes; truncated = false })

unfoldable pub response : Run → RunResponse
response r = record {
  ok = is_success (exit_code_of r.end) && bytes_eq (run_error r) [];
  exit_code = exit_code_of r.end;
  stdout = (captured r.out).buf;
  stderr = (captured r.err).buf;
  error = run_error r;
  truncated = (captured r.out).truncated || (captured r.err).truncated;
}

abbrev pub join_comma : List Bytes → Bytes
join_comma [] = []
join_comma (a ∷ []) = a
join_comma (a ∷ b ∷ rest) = a ++ (codes ", " ++ join_comma (b ∷ rest))

module _ (executable : Option Bytes) (run : List Bytes → Run) where
  -- the process that is started, if one is, and the answer
  abbrev pub run_command : Option Bytes → List Bytes → Option (List Bytes) × RunResponse
  run_command none args = (none, refused (codes "resolve curio-core binary"))
  run_command (some bin) args = (some args, response (run args))

  abbrev pub run_args : List Bytes → Option (List Bytes) × RunResponse
  run_args [] = (none, refused (codes "missing args"))
  run_args (a ∷ args) =
      if command_is_allowed (a ∷ args) then run_command executable (a ∷ args) else (
        none,
        refused
            (codes "command not in allowlist; permitted: " ++ join_comma allowlisted_subcommands),
      )

  unfoldable pub handle_api_run : Option (List Bytes) → Option (List Bytes) × RunResponse
  handle_api_run none = (none, refused (codes "invalid JSON body"))
  handle_api_run (some args) = run_args args

-- the commands on the list, as arguments
abbrev pub read_only_commands : List (List Bytes)
read_only_commands =
    (codes "version" ∷ [])
    ∷ (codes "wallet" ∷ codes "list" ∷ [])
    ∷ (codes "doctor" ∷ [])
    ∷ (codes "sp" ∷ codes "info" ∷ [])
    ∷ (codes "probe" ∷ [])
    ∷ (codes "config" ∷ codes "show" ∷ [])
    ∷ []

abbrev pub IsReadOnly : List Bytes → Type 0
IsReadOnly argv =
    ((command : List Bytes) × (rest : List Bytes) × Member command read_only_commands
      × (argv ≡ command ++ rest))
    × All (λ a. contains_any metachars a ≡ false) argv

agrees_split :
    (args prefix : List Bytes)
    → agrees args prefix ≡ true
    → (rest : List Bytes) × (args ≡ prefix ++ rest)
agrees_split args [] h = (args, refl)
agrees_split [] (p ∷ ps) h = cc
agrees_split (a ∷ args) (p ∷ ps) h =
    let (rest, e) = agrees_split args ps (ground (arith, h)) in
    (rest, ground (arith, h, e, bytes_eq_iff a p))

args_have_prefix_split :
    (args prefix : List Bytes)
    → args_have_prefix args prefix ≡ true
    → (rest : List Bytes) × (args ≡ prefix ++ rest)
unfolding args_have_prefix
args_have_prefix_split args prefix h = agrees_split args prefix (ground (arith, h))

command_is_allowed-IsReadOnly :
    (args : List Bytes) → command_is_allowed args ≡ true → IsReadOnly args
unfolding command_is_allowed
command_is_allowed-IsReadOnly args h = elim (Bool-cases (any (contains_any metachars) args)) [
  | inl e ↦ absurd (ground (arith, e, h))
  | inr e ↦
      let found : any (λ a. args_have_prefix args (fields a)) allowlisted_subcommands ≡ true =
        ground (arith, e, h) in
      let (entry, on_list, fits) =
        any_Member (λ a. args_have_prefix args (fields a)) allowlisted_subcommands found in
      let (rest, same) = args_have_prefix_split args (fields entry) fits in
      (
        (fields entry, rest, Member-map fields on_list, same),
        any-All (contains_any metachars) args e,
      )
]

-- Whatever the body of the request, a process is started only with arguments that begin with one of
-- six commands that read, and none of which holds a character that a shell would read.
pub handle_api_run-IsReadOnly :
    (executable : Option Bytes) (run : List Bytes → Run) (body : Option (List Bytes))
    → OnSome IsReadOnly (handle_api_run executable run body).0
unfolding handle_api_run
handle_api_run-IsReadOnly executable run none = tt
handle_api_run-IsReadOnly executable run (some []) = tt
handle_api_run-IsReadOnly none run (some (a ∷ args)) = ground arith
handle_api_run-IsReadOnly (some bin) run (some (a ∷ args)) =
    elim (Bool-cases (command_is_allowed (a ∷ args))) [
      | inl e ↦ rw e (command_is_allowed-IsReadOnly (a ∷ args) e)
      | inr e ↦ rw e tt
    ]
