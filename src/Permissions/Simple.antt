-- ===== src/Permissions/Simple.antt =====
-- nexau/archs/permissions/helpers.py: `check_permission`, `check_path_permission`,
-- `check_url_permission` and `check_mcp_permission`.
pub mod Grants
use nex_au.Prelude.{
  ℕ, Bool, true, false, not, ◌&&◌, ◌||◌, Option, none, some, List, [], ◌∷◌, ◌++◌, ◌==◌, nat_eq,
  list_eq, contains, any, if◌then◌else◌,
}
use nex_au.Prelude.Text.{Text, text}
use nex_au.Permissions.{Outcome, proceed, permission_denied, ask_permission, Rules, wildcard}

pub check_permission : Rules → (permission_key prompt : Text) → Outcome
check_permission rules key prompt =
    if contains rules.allow_rules wildcard
    then proceed
    else if contains rules.deny_rules key
    then permission_denied (key ++ text " 被禁止") key
    else if contains rules.allow_rules key
    then proceed
    else ask_permission prompt key

-- `PurePosixPath` and `pathspec`'s matching of gitignore patterns.
pub record Paths : Type 0 where
  pub parent : Text → Text
  pub parts : Text → List Text
  pub name : Text → Text
  pub match_file : List Text → Text → Bool

pub path_to_dir_glob : Paths → Text → Text
path_to_dir_glob paths path =
    let parent = paths.parent path in
    if parent == text "/" || parent == text "." then text "/**" else parent ++ text "/**"

-- `_PROTECTED_DIRS` and `_PROTECTED_FILES`: both are empty for now.
abbrev protected_dirs : List Text
protected_dirs = []

abbrev protected_files : List Text
protected_files = []

pub is_protected_path : Paths → Text → Bool
is_protected_path paths path =
    any (contains protected_dirs) (paths.parts path) || contains protected_files (paths.name path)

pub is_empty : List Text → Bool
is_empty [] = true
is_empty (_ ∷ _) = false

pub check_path_permission : Paths → Rules → Text → Outcome
unfolding is_empty
check_path_permission paths rules path =
    if contains rules.allow_rules wildcard && not (is_protected_path paths path)
    then proceed
    else if not (is_empty rules.deny_rules) && paths.match_file rules.deny_rules path
    then permission_denied (text "路径 " ++ path ++ text " 被禁止") path
    else if not (is_empty rules.allow_rules) && paths.match_file rules.allow_rules path
    then (if is_protected_path paths path
        then ask_permission (text "允许访问受保护路径 " ++ path ++ text " 吗?") path
        else proceed)
    else ask_permission (text "允许访问 " ++ path ++ text " 吗?") (path_to_dir_glob paths path)

-- `urlparse(url).hostname`, which may be None, and `fnmatch.fnmatch(name, pattern)`.
pub record Urls : Type 0 where
  pub hostname : Text → Option Text
  pub fnmatch : Text → Text → Bool

-- `urlparse(url).hostname or url`
pub host_of : Urls → Text → Text
host_of urls url = elim (urls.hostname url) [
  | none ↦ url
  | some host ↦ if host == [] then url else host
]

pub check_url_permission : Urls → Rules → Text → Outcome
check_url_permission urls rules url =
    let host = host_of urls url in
    if contains rules.allow_rules wildcard
    then proceed
    else if any (urls.fnmatch host) rules.deny_rules
    then permission_denied (text "域名 " ++ host ++ text " 被禁止") host
    else if any (urls.fnmatch host) rules.allow_rules
    then proceed
    else ask_permission (text "允许访问 " ++ url ++ text " 吗?") host

pub server_key : Text → Text
server_key server = text "mcp__" ++ server

pub tool_key : Text → Text → Text
tool_key server tool = text "mcp__" ++ server ++ text "__" ++ tool

pub check_mcp_permission : Rules → (server_name tool_name : Text) → Outcome
check_mcp_permission rules server tool =
    let s = server_key server in
    let t = tool_key server tool in
    if contains rules.allow_rules wildcard
    then proceed
    else if contains rules.deny_rules s || contains rules.deny_rules t
    then permission_denied (text "MCP 工具 " ++ t ++ text " 被禁止") t
    else if contains rules.allow_rules s || contains rules.allow_rules t
    then proceed
    else ask_permission (text "允许调用 MCP 工具 " ++ t ++ text " 吗?") t
