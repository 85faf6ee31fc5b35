-- ===== src/Execution.antt =====
-- `app/core/execution.py`: which programs may run, and the argv that is handed to them.
pub mod Slots
pub mod Run
mod Examples
use netops_console.Prelude.{
  ℕ, suc, ◌-◌, Bool, not, ◌||◌, Option, List, [], ◌∷◌, any, is_empty, leb, ltb, ◌==◌, if◌then◌else◌,
  Result, ok, err, ◌>>=◌, ◌>>◌, raise_if, or_raise,
}
use netops_console.Prelude.Text.{Text, codes, eqb, has, strip}

-- `ALLOWED_BINARIES`
abbrev pub allowed_binaries : List Text
allowed_binaries =
    codes "nmap"
    ∷ codes "ping"
    ∷ codes "traceroute"
    ∷ codes "dig"
    ∷ codes "host"
    ∷ codes "ip"
    ∷ codes "arp"
    ∷ []

-- `_FORBIDDEN_NAMES`
abbrev pub forbidden_names : List Text
forbidden_names =
    codes "sh"
    ∷ codes "bash"
    ∷ codes "zsh"
    ∷ codes "dash"
    ∷ codes "ksh"
    ∷ codes "csh"
    ∷ codes "fish"
    ∷ codes "python"
    ∷ codes "python3"
    ∷ codes "perl"
    ∷ codes "ruby"
    ∷ codes "node"
    ∷ codes "php"
    ∷ codes "awk"
    ∷ codes "gawk"
    ∷ codes "find"
    ∷ codes "xargs"
    ∷ codes "env"
    ∷ codes "eval"
    ∷ codes "sudo"
    ∷ codes "su"
    ∷ codes "vi"
    ∷ codes "vim"
    ∷ codes "less"
    ∷ codes "more"
    ∷ codes "man"
    ∷ codes "docker"
    ∷ codes "kubectl"
    ∷ []

-- The messages of `ExecutionRejected`.
pub data ExecutionRejected : Type 0 where
  not_bare_name never_allowed not_allowed not_installed not_file has_nul bad_timeout :
      ExecutionRejected

-- `shutil.which`, and `Path.resolve` where the result is a file.
pub record Files : Type 0 where
  pub which : Text → Option Text
  pub resolve_file : Text → Option Text

unfoldable pub among : Text → List Text → Bool
among name names = any (eqb name) names

module _ (files : Files) where
  unfoldable pub resolve_binary : Text → Result ExecutionRejected Text
  resolve_binary name = do
    raise_if (is_empty name || has b'/' name || has 92 name || not (eqb name (strip name)))
        not_bare_name
    raise_if (among name forbidden_names) never_allowed
    raise_if (not (among name allowed_binaries)) not_allowed
    path ← or_raise (files.which name) not_installed
    resolved ← or_raise (files.resolve_file path) not_file
    ok resolved

  unfoldable pub checked_arguments : List Text → Result ExecutionRejected (List Text)
  checked_arguments [] = ok []
  checked_arguments (x ∷ xs) = do
    raise_if (has 0 x) has_nul
    rest ← checked_arguments xs
    ok (x ∷ rest)

  unfoldable pub build_argv : Text → List Text → Result ExecutionRejected (List Text)
  build_argv program arguments = do
    resolved ← resolve_binary program
    checked ← checked_arguments arguments
    ok (resolved ∷ checked)

-- `MAX_TIMEOUT`, in seconds
abbrev pub max_timeout : ℕ
max_timeout = 600

-- `ExecutionEngine`: how many permits its two semaphores have, and how many are taken.
pub record Engine : Type 0 where
  pub max_concurrent : ℕ
  pub max_discovery_concurrent : ℕ
  pub taken : ℕ
  pub discovery_taken : ℕ

-- Why `run` raises before it spawns anything.
pub data Refusal : Type 0 where
  rejected : ExecutionRejected → Refusal
  busy : Refusal

unfoldable pub locked : Bool → Engine → Bool
locked discovery e =
    if discovery
    then leb e.max_discovery_concurrent e.discovery_taken
    else leb e.max_concurrent e.taken

unfoldable pub acquire : Bool → Engine → Engine
acquire discovery e =
    if discovery
    then record e { discovery_taken = suc e.discovery_taken }
    else record e { taken = suc e.taken }

unfoldable pub release : Bool → Engine → Engine
release discovery e =
    if discovery
    then record e { discovery_taken = e.discovery_taken - 1 }
    else record e { taken = e.taken - 1 }

abbrev pub lift : Result ExecutionRejected (List Text) → Result Refusal (List Text)
lift (ok argv) = ok argv
lift (err e) = err (rejected e)

-- `ExecutionEngine.run` up to the spawn: the argv, and the engine with a permit taken.
unfoldable pub start_run :
    Files → Text → List Text → ℕ → Bool → Engine → Result Refusal (List Text × Engine)
start_run files program arguments timeout discovery e = do
  argv ← lift (build_argv files program arguments)
  raise_if (timeout == 0 || ltb max_timeout timeout) (rejected bad_timeout)
  raise_if (locked discovery e) busy
  ok (argv, acquire discovery e)
