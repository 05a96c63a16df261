-- ===== src/McpHub.antt =====
-- internal/mcphub/mcphub.go: the fixed list of tool servers.
use foreman.Prelude.{String, List, [], ◌∷◌, ◌++◌, map, ◌≡◌, refl}

-- `ToolBinding`, less the description and the schema, which nothing sets.
pub record ToolBinding : Type 0 where
  pub name : String
  pub server_name : String

pub record McpServerConfig : Type 0 where
  pub name : String
  pub transport : String
  pub command : String
  pub args : List String

pub record StaticHub : Type 0 where
  pub servers : List McpServerConfig
  pub tools : List ToolBinding

unfoldable pub new_static_hub : List McpServerConfig → StaticHub
new_static_hub cfgs = record {
  servers = cfgs;
  tools = map (λ (s : McpServerConfig). record { name = s.name; server_name = s.name }) cfgs;
}

-- None of the three fails.
unfoldable pub resolve_tools : StaticHub → List ToolBinding
resolve_tools h = h.tools

unfoldable pub register_server : McpServerConfig → StaticHub → StaticHub
register_server cfg h = record h { servers = h.servers ++ cfg ∷ [] }

unfoldable pub list_servers : StaticHub → List McpServerConfig
list_servers h = h.servers

abbrev git : McpServerConfig
git = record { name = "git"; transport = "stdio"; command = "git-mcp"; args = [] }

-- A server that is registered is listed, and has no tools.
register_server_test :
    (list_servers (register_server git (new_static_hub [])) ≡ git ∷ [])
    × (resolve_tools (register_server git (new_static_hub [])) ≡ [])
unfolding list_servers register_server new_static_hub resolve_tools
register_server_test = (refl, refl)
