-- ===== src/Permissions.antt =====
-- nexau/archs/permissions/types.py: the signals that a permission check raises, and the rules of
-- a FrameworkContext that it reads. The checks of helpers.py are in the modules below.
pub mod Simple
pub mod Split
pub mod Wrappers
pub mod Shell
mod Samples
use nex_au.Prelude.{List}
use nex_au.Prelude.Text.{Text, text}

-- What a check does: return, or raise PermissionDenied or AskPermission.
-- `recursion_error` is Python's RecursionError, when nested shells exhaust the stack.
pub data Outcome : Type 0 where
  proceed : Outcome
  permission_denied : (reason permission_key : Text) → Outcome
  ask_permission : (prompt permission_key : Text) → Outcome
  recursion_error : Outcome

pub record Rules : Type 0 where
  pub allow_rules : List Text
  pub deny_rules : List Text

-- `_WILDCARD`
abbrev pub wildcard : Text
wildcard = text "**"
