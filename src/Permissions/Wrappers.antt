-- ===== src/Permissions/Wrappers.antt =====
-- nexau/archs/permissions/helpers.py: `_strip_process_wrappers`, `_command_permission_key` and
-- `_has_output_redirect`, which look at the words of one command.
pub mod Suffix
pub mod Peeled
use nex_au.Prelude.{
  ℕ, zero, suc, ◌≡◌, refl, Bool, true, false, not, ◌&&◌, ◌||◌, List, [], ◌∷◌, ◌++◌, ◌==◌, nat_eq,
  list_eq, contains, leb, length, if◌then◌else◌,
}
use nex_au.Prelude.Text.{Text, text, starts_with}

-- `_PROCESS_WRAPPERS`
abbrev process_wrappers : List Text
process_wrappers = text "timeout" ∷ text "time" ∷ text "nice" ∷ text "nohup" ∷ text "stdbuf" ∷ []

unfoldable pub is_wrapper : Text → Bool
is_wrapper t = contains process_wrappers t

pub starts_with_dash : Text → Bool
unfolding starts_with
starts_with_dash t = starts_with t (b'-' ∷ [])

-- `"=" in token`
unfoldable pub has_equals : Text → Bool
has_equals t = contains t b'='

-- The two inner loops behind `env`.
pub skip_flags : List Text → List Text
skip_flags [] = []
skip_flags (t ∷ ts) = let rest = skip_flags ts in if starts_with_dash t then rest else t ∷ ts

pub skip_assignments : List Text → List Text
skip_assignments [] = []
skip_assignments (t ∷ ts) =
    let rest = skip_assignments ts in
    if has_equals t && not (starts_with_dash t) then rest else t ∷ ts

-- `i + 1 < len(tokens) and not tokens[i + 1].startswith("-")`
runs_next : List Text → Bool
runs_next [] = false
runs_next (t ∷ _) = not (starts_with_dash t)

or_else : List Text → List Text → List Text
or_else [] tokens = tokens
or_else (t ∷ ts) tokens = t ∷ ts

-- What stays at `tokens[i]`: the word itself, or what follows a wrapper.
pub data Head : Type 0 where
  wrapper env xargs other : Head

pub head_kind : Text → List Text → Head
unfolding is_wrapper runs_next
head_kind t ts =
    if is_wrapper t
    then wrapper
    else if t == text "env"
    then env
    else if t == text "xargs" && runs_next ts
    then xargs
    else other

-- Behind `env`, its flags and its assignments: where nothing follows, `env` itself is the command.
env_loop : (List Text → List Text) → List Text → List Text → List Text
env_loop go whole [] = whole
env_loop go whole (t ∷ ts) = go (t ∷ ts)

-- `is_float` is `float(s)` of the standard library, as far as the program looks at it: does it
-- return, and raise no ValueError?
module _ (is_float : Text → Bool) where
  -- The inner loop behind a wrapper: flags and numbers are passed over.
  pub skip_arguments : List Text → List Text
  skip_arguments [] = []
  skip_arguments (t ∷ ts) =
      let rest = skip_arguments ts in if starts_with_dash t || is_float t then rest else t ∷ ts

  -- The loop: the words from `i` on. A wrapper's arguments are never more than the words that
  -- follow, so `fuel` is their number at most.
  pub strip_loop : ℕ → List Text → List Text
  unfolding skip_arguments
  strip_loop zero ts = ts
  strip_loop (suc fuel) [] = []
  strip_loop (suc fuel) (t ∷ ts) = elim (head_kind t ts) [
    | wrapper ↦ strip_loop fuel (skip_arguments ts)
    | env ↦ env_loop (strip_loop fuel) (t ∷ ts) (skip_assignments (skip_flags ts))
    | xargs ↦ strip_loop fuel ts
    | other ↦ t ∷ ts
  ]

  -- `tokens[i:] if i < len(tokens) else tokens`
  unfoldable pub strip_process_wrappers : List Text → List Text
  unfolding strip_loop head_kind env_loop skip_flags skip_assignments or_else starts_with_dash
  strip_process_wrappers tokens = or_else (strip_loop (length tokens) tokens) tokens

-- `_COMMANDS_WITH_SUBCOMMANDS`
abbrev commands_with_subcommands : List Text
commands_with_subcommands =
    text "git"
    ∷ text "svn"
    ∷ text "hg"
    ∷ text "npm"
    ∷ text "npx"
    ∷ text "yarn"
    ∷ text "pnpm"
    ∷ text "bun"
    ∷ text "deno"
    ∷ text "pip"
    ∷ text "pip3"
    ∷ text "uv"
    ∷ text "poetry"
    ∷ text "pdm"
    ∷ text "rye"
    ∷ text "conda"
    ∷ text "cargo"
    ∷ text "go"
    ∷ text "mvn"
    ∷ text "gradle"
    ∷ text "docker"
    ∷ text "docker-compose"
    ∷ text "podman"
    ∷ text "kubectl"
    ∷ text "helm"
    ∷ text "brew"
    ∷ text "apt"
    ∷ text "apt-get"
    ∷ text "yum"
    ∷ text "dnf"
    ∷ text "pacman"
    ∷ text "apk"
    ∷ text "systemctl"
    ∷ text "journalctl"
    ∷ text "launchctl"
    ∷ text "service"
    ∷ text "make"
    ∷ text "cmake"
    ∷ text "ninja"
    ∷ []

has_subcommands : Text → Bool
has_subcommands head = contains commands_with_subcommands head

-- `_command_permission_key`; the empty list, which the callers rule out, is an IndexError.
unfoldable pub command_permission_key : Text → List Text → Text
unfolding has_subcommands starts_with_dash
command_permission_key head [] = head
command_permission_key head (t ∷ ts) =
    if has_subcommands head && not (starts_with_dash t) then head ++ b' ' ∷ t else head

-- `^[0-9]*>{1,2}`
redirect_match : Text → Bool
redirect_match [] = false
redirect_match (c ∷ cs) =
    let rest = redirect_match cs in if leb b'0' c && leb c b'9' then rest else c == b'>'

redirects : Text → Bool
unfolding redirect_match
redirects token = token == text "&>" || starts_with token (text ">&") || redirect_match token

-- `_has_output_redirect`, of the words behind the command's head.
unfoldable pub has_output_redirect : List Text → Bool
unfolding redirects
has_output_redirect [] = false
has_output_redirect (t ∷ ts) = redirects t || has_output_redirect ts

strip_timeout :
    strip_process_wrappers
      (λ t. t == text "30")
      (text "timeout"
        ∷ text "-k"
        ∷ text "30"
        ∷ text "env"
        ∷ text "A=1"
        ∷ text "git"
        ∷ text "push"
        ∷ [])
    ≡ text "git" ∷ text "push" ∷ []
unfolding strip_process_wrappers is_wrapper has_equals
strip_timeout = refl
