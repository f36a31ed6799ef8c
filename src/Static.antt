-- ===== src/Static.antt =====
-- crates/zaphyl-core/src/static_files.rs: the file that a request path names under a root. The
-- percent-decoding and the file system are arguments. A path of the file system is the list of its
-- parts.
pub mod Under
use zaphyl.Prelude.{
  ℕ, Bool, true, false, not, ◌&&◌, Option, none, some, List, [], ◌∷◌, ◌++◌, if◌then◌else◌, map,
  and_then, is_empty,
}
use zaphyl.Str.{Str, lit, str_eq, split}

abbrev pub PathBuf : Type 0
PathBuf = List Str

pub record FileSystem : Type 0 where
  -- The text that percent-encoding stands for, if it is UTF-8.
  pub decode : Str → Option Str
  pub is_dir : PathBuf → Bool
  pub is_file : PathBuf → Bool
  -- The absolute path without symbolic links, if the file exists.
  pub canonicalize : PathBuf → Option PathBuf
  pub read : PathBuf → Option (List ℕ)

-- `std::path::Component`; there are no prefixes outside Windows.
pub data Component : Type 0 where
  root_dir cur_dir parent_dir : Component
  normal : Str → Component

-- Empty parts and dots are passed over, but for a dot at the start.
unfoldable pub inner_components : List Str → List Component
inner_components [] = []
inner_components (part ∷ parts) =
    let rest = inner_components parts in
    if is_empty part
    then rest
    else if str_eq part (lit ".")
    then rest
    else if str_eq part (lit "..")
    then parent_dir ∷ rest
    else normal part ∷ rest

abbrev pub first_components : List Str → List Component
first_components [] = []
first_components (part ∷ parts) =
    if is_empty part
    then root_dir ∷ inner_components parts
    else if str_eq part (lit ".")
    then cur_dir ∷ inner_components parts
    else inner_components (part ∷ parts)

-- `Path::components`; an empty path has none.
unfoldable pub components : Str → List Component
unfolding inner_components
components path = if is_empty path then [] else first_components (split b'/' path)

-- The parts that are pushed onto the root, unless one leads upwards.
unfoldable pub normal_parts : List Component → Option PathBuf
normal_parts [] = some []
normal_parts (normal part ∷ cs) = and_then (normal_parts cs) (λ parts. some (part ∷ parts))
normal_parts (parent_dir ∷ cs) = none
normal_parts (root_dir ∷ cs) = normal_parts cs
normal_parts (cur_dir ∷ cs) = normal_parts cs

-- `Path::starts_with`, by whole parts.
unfoldable pub starts_with_path : PathBuf → PathBuf → Bool
starts_with_path path [] = true
starts_with_path [] (b ∷ base) = false
starts_with_path (p ∷ path) (b ∷ base) = str_eq p b && starts_with_path path base

module _ (fs : FileSystem) where
  abbrev pub with_index : PathBuf → PathBuf
  with_index candidate =
      if fs.is_dir candidate then candidate ++ lit "index.html" ∷ [] else candidate

  abbrev pub contained : PathBuf → PathBuf → Option PathBuf
  contained real root = if starts_with_path real root && fs.is_file real then some real else none

  abbrev pub confined : PathBuf → PathBuf → Option PathBuf
  confined root candidate =
      and_then (fs.canonicalize (with_index candidate))
        (λ real. and_then (fs.canonicalize root) (contained real))

  unfoldable pub resolve : PathBuf → Str → Option PathBuf
  unfolding components normal_parts starts_with_path
  resolve root request_path = and_then (fs.decode request_path) (λ decoded.
      and_then (normal_parts (components decoded)) (λ parts. confined root (root ++ parts)))
