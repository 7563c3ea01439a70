-- ===== src/Plugin/Dependencies.antt =====
-- The order of the plugins by their dependencies: resolve_dependencies and visit_plugin of
-- src/crates/bey-plugin/src/lib.rs. The head of the list is the top of the stack. The recursion is
-- on fuel; a search that lacks fuel panics, as one that overflows the call stack.
pub mod Graph
pub mod Searching
pub mod Resolving
use bey.Base.{
  ℕ, zero, suc, if◌then◌else◌, Option, none, some, List, [], ◌∷◌, ◌++◌, length, String, string_eq,
  lookup, is_some, contains, insert_member,
}
use bey.Base.Errors.{
  NetResult, ok, err, panics, ◌>>=◌, ErrorInfo, new_error, with_category, validation,
}
use bey.Plugin.Entry.{PluginEntry, Registry}

-- `visited`, `stack` and `order`.
pub record Search : Type 0 where
  pub visited : List String
  pub stack : List String
  pub order : List String

abbrev pub circular : ErrorInfo
circular = with_category (new_error 8009) validation

abbrev pub missing_dependency : ErrorInfo
missing_dependency = with_category (new_error 8010) validation

abbrev pub pop_stack : List String → List String
pop_stack [] = []
pop_stack (x ∷ xs) = xs

abbrev pub push : String → Search → Search
push name s = record s { stack = name ∷ s.stack }

-- What follows the loop over the dependencies.
abbrev pub finish : String → Search → Search
finish name s = record {
  visited = insert_member name s.visited;
  stack = pop_stack s.stack;
  order = s.order ++ name ∷ [];
}

module _ {P : Type 0} where
  abbrev pub dependencies_of : Option (PluginEntry P) → List String
  dependencies_of none = []
  dependencies_of (some entry) = entry.metadata.dependencies

  -- The loop over the dependencies; `visit` is the recursive call.
  unfoldable pub visit_dependencies :
      (String → Search → NetResult Search) → Registry P → List String → Search → NetResult Search
  visit_dependencies visit plugins [] s = ok s
  visit_dependencies visit plugins (dep ∷ deps) s =
      let rest = visit_dependencies visit plugins deps in
      if is_some (lookup dep plugins) then (visit dep s >>= rest) else err missing_dependency

  unfoldable pub visit_plugin : ℕ → Registry P → String → Search → NetResult Search
  visit_plugin zero plugins name s = panics
  visit_plugin (suc fuel) plugins name s =
      let visited =
        visit_dependencies (visit_plugin fuel plugins) plugins
          (dependencies_of (lookup name plugins)) (push name s) in
      if contains name s.stack
      then err circular
      else (if contains name s.visited then ok s else (visited >>= λ t. ok (finish name t)))

  -- The loop over all plugins.
  unfoldable pub visit_all : ℕ → Registry P → Registry P → Search → NetResult Search
  visit_all fuel plugins [] s = ok s
  visit_all fuel plugins ((name, entry) ∷ entries) s =
      let rest = visit_all fuel plugins entries in
      if contains name s.visited then rest s else (visit_plugin fuel plugins name s >>= rest)

  unfoldable pub resolve_dependencies : Registry P → NetResult (List String)
  resolve_dependencies plugins =
      visit_all (suc (length plugins)) plugins plugins
        (record { visited = []; stack = []; order = [] })
      >>= λ s. ok s.order
