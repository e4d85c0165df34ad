-- ===== src/Tools.antt =====
-- tools/tool.hpp and core/registry: the interface of a tool and the registry of tools by name.
-- What a tool does is code behind a virtual call: `invoke` is a field, over the state `World` of
-- everything outside the engine. `Json` is the value type of the JSON library.
pub mod Listing
use g.Base.{
  Bool, true, false, [], ◌∷◌, map, str_lt, if◌then◌else◌, List, Option, none, some, Str, Map,
  lookup, insert,
}
use g.Types.{ToolCall}

pub record ToolResult (Json : Type 0) : Type 0 where
  pub ok : Bool
  pub output : Json
  pub error_message : Str
  pub observed_resources : List Str

-- The descriptor's fields that the engine reads, and the virtual methods.
pub record Tool (Json Ctx World : Type 0) : Type 0 where
  pub name : Str
  pub declared_resources : List Str
  pub resources_for : ToolCall → List Str
  pub invoke : ToolCall → Ctx → World → ToolResult Json × World

-- `default_resources_for`: the declared resources, whatever the call
unfoldable pub default_resources_for : List Str → ToolCall → List Str
default_resources_for declared call = declared

abbrev pub Registry : Type 0 → Type 0 → Type 0 → Type 0
Registry Json Ctx World = Map (Tool Json Ctx World)

module _ {Json Ctx World : Type 0} where
  -- a null pointer is ignored; a tool of the same name is replaced
  unfoldable pub register_tool :
      Option (Tool Json Ctx World) → Registry Json Ctx World → Registry Json Ctx World
  register_tool none r = r
  register_tool (some t) r = insert t.name t r

  unfoldable pub find : Str → Registry Json Ctx World → Option (Tool Json Ctx World)
  find name r = lookup name r

-- `std::sort` of texts that are all different
insert_name : Str → List Str → List Str
insert_name s [] = s ∷ []
insert_name s (t ∷ ts) = let rest = insert_name s ts in if str_lt t s then t ∷ rest else s ∷ t ∷ ts

sort_names : List Str → List Str
unfolding insert_name
sort_names [] = []
sort_names (s ∷ ss) = insert_name s (sort_names ss)

module _ {Json Ctx World : Type 0} where
  insert_tool : Tool Json Ctx World → List (Tool Json Ctx World) → List (Tool Json Ctx World)
  insert_tool t [] = t ∷ []
  insert_tool t (u ∷ us) =
      let rest = insert_tool t us in if str_lt u.name t.name then u ∷ rest else t ∷ u ∷ us

  sort_tools : List (Tool Json Ctx World) → List (Tool Json Ctx World)
  unfolding insert_tool
  sort_tools [] = []
  sort_tools (t ∷ ts) = insert_tool t (sort_tools ts)

  unfoldable pub list : Registry Json Ctx World → List (Tool Json Ctx World)
  unfolding sort_tools
  list r = sort_tools (map (λ e. e.1) r)

  unfoldable pub names : Registry Json Ctx World → List Str
  unfolding sort_names
  names r = sort_names (map (λ e. e.0) r)
