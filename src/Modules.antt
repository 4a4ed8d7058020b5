-- ===== src/Modules.antt =====
-- `FilesBelongToSameModule` of utils/tools/cpplint.py: whether a source file and a header are of
-- one module.
pub mod Pairs
mod Examples
use front_server.Common.{
  Bool, true, false, ◌&&◌, List, [], ◌∷◌, if◌then◌else◌, Text, codes, text_eq, ends_with, replace,
  without_last,
}

-- The directories `public` and `internal` are left out of a path.
pub shorten : Text → Text
shorten path =
    replace (codes "/internal/") (codes "/") (replace (codes "/public/") (codes "/") path)

-- What is left of the name of the source file, for one that ends with `.cc`.
pub module_of_source : Text → Text
unfolding shorten
module_of_source filename_cc =
    let stem = without_last (codes ".cc") filename_cc in
    shorten (
      if ends_with stem (codes "_unittest")
      then without_last (codes "_unittest") stem
      else if ends_with stem (codes "_test")
      then without_last (codes "_test") stem
      else stem)

-- What is left of the name of the header, for one that ends with `.h`.
pub module_of_header : Text → Text
unfolding shorten
module_of_header filename_h =
    let stem = without_last (codes ".h") filename_h in
    shorten (if ends_with stem (codes "-inl") then without_last (codes "-inl") stem else stem)

-- `filename_cc[:-len(filename_h)]`, which is the empty text for an empty `filename_h`.
pub common_path : Text → Text → Text
common_path filename_cc filename_h =
    if text_eq filename_h [] then [] else without_last filename_h filename_cc

-- `FilesBelongToSameModule`
unfoldable pub files_belong_to_same_module : Text → Text → Bool × Text
unfolding module_of_source module_of_header common_path
files_belong_to_same_module filename_cc filename_h =
    let source = module_of_source filename_cc in
    let header = module_of_header filename_h in
    if ends_with filename_cc (codes ".cc")
    then (if ends_with filename_h (codes ".h")
        then (if ends_with source header then (true, common_path source header) else (false, []))
        else (false, []))
    else (false, [])
