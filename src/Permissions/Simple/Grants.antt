-- ===== src/Permissions/Simple/Grants.antt =====
-- nexau/archs/permissions/helpers.py: deny rules, allow rules and granted keys in the three-way
-- checks of paths, hosts, MCP tools and plain keys.
use nex_au.Prelude.{
  ◌≡◌, ◌↔◌, refl, ◌⊎◌, true, false, ◌||◌, List, [], ◌∷◌, ◌++◌, arith, contains, any, beq_self,
  list_eq, nat_eq,
}
use nex_au.Prelude.Text.{Text, text}
use nex_au.Permissions.{proceed, permission_denied, ask_permission, Rules, wildcard}
use nex_au.Permissions.Simple.{
  Paths, protected_dirs, is_empty, is_protected_path, Urls, host_of, server_key, tool_key,
  check_permission, check_path_permission, check_url_permission, check_mcp_permission,
}

abbrev pub grant : Text → Rules → Rules
grant key rules = record rules { allow_rules = key ∷ rules.allow_rules }

-- Where `check_permission` asks, granting the key that it asks for makes the same call proceed.
pub check_permission-grant :
    (rules : Rules) (k p : Text) {prompt key : Text}
    → check_permission rules k p ≡ ask_permission prompt key
    → check_permission (grant key rules) k p ≡ proceed
unfolding check_permission
check_permission-grant rules k p {prompt} {key} h = ground (arith, beq_self key, beq_self k)

-- Where `check_mcp_permission` asks, granting the key that it asks for makes the same call proceed.
pub check_mcp_permission-grant :
    (rules : Rules) (server tool : Text) {prompt key : Text}
    → check_mcp_permission rules server tool ≡ ask_permission prompt key
    → check_mcp_permission (grant key rules) server tool ≡ proceed
unfolding check_mcp_permission
check_mcp_permission-grant rules server tool {prompt} {key} h =
    ground (arith, beq_self key, beq_self (tool_key server tool))

-- A call of an MCP tool proceeds without asking exactly where the wildcard is allowed, or neither
-- the server nor the tool is denied and one of the two is allowed.
pub check_mcp_permission_proceeds :
    (rules : Rules) (server tool : Text)
    → (check_mcp_permission rules server tool ≡ proceed) ↔ (
        (contains rules.allow_rules wildcard ≡ true)
        ⊎ ((contains rules.deny_rules (server_key server)
              || contains rules.deny_rules (tool_key server tool))
            ≡ false)
          × ((contains rules.allow_rules (server_key server)
                || contains rules.allow_rules (tool_key server tool))
              ≡ true))
unfolding check_mcp_permission
check_mcp_permission_proceeds rules server tool = (λ h. ground arith, λ h. ground arith)

any_in_none : (xs : List Text) → any (contains protected_dirs) xs ≡ false
any_in_none [] = refl
any_in_none (x ∷ xs) = any_in_none xs

never_protected : (paths : Paths) (path : Text) → is_protected_path paths path ≡ false
unfolding is_protected_path
never_protected paths path = rw (any_in_none (paths.parts path))

-- A path that the deny patterns match is never let through, whatever the allow patterns are, unless
-- the wildcard is allowed; and with the wildcard every path is, since no path is protected.
check_path_permission_denies :
    (paths : Paths) (rules : Rules) (path d : Text) (ds : List Text)
    → rules.deny_rules ≡ d ∷ ds
    → paths.match_file rules.deny_rules path ≡ true
    → (contains rules.allow_rules wildcard ≡ true)
        × (check_path_permission paths rules path ≡ proceed)
      ⊎ (check_path_permission paths rules path
          ≡ permission_denied (text "路径 " ++ path ++ text " 被禁止") path)
unfolding check_path_permission is_empty
check_path_permission_denies paths rules path d ds e m = ground (arith, never_protected paths path)

-- Where `check_url_permission` asks, granting the host that it asks for makes the same call
-- proceed, if `fnmatch` matches each name with itself.
pub check_url_permission-grant :
    (urls : Urls) (rules : Rules) (url : Text) {prompt key : Text}
    → urls.fnmatch (host_of urls url) (host_of urls url) ≡ true
    → check_url_permission urls rules url ≡ ask_permission prompt key
    → check_url_permission urls (grant key rules) url ≡ proceed
unfolding check_url_permission
check_url_permission-grant urls rules url {prompt} {key} m h = ground arith
