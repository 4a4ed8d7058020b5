-- ===== src/Names/Examples.antt =====
-- Runs of the searches for the root of a repository.
use front_server.Common.{
  ◌||◌, none, some, ◌≡◌, refl, Text, codes, text_eq, text_run, split_path, normpath,
}
use front_server.Common.Regex.{regex_run}
use front_server.Common.Patterns.{shape_run}
use front_server.Names.Root.{repository_name-ends, IsEndOf, climb_blade-stuck}
use front_server.Names.{
  has_entry, dirname, full_name, climb_blade, Disk, repository_name, get_header_guard_cpp_variable,
  relpath,
}

-- A checkout by git in /w/src, whose file BLADE_ROOT is in /w/src/base.
abbrev checkout : Disk
checkout = record {
  exists = λ path. text_eq path (codes "/w/src/.git") || text_eq path (codes "/w/src/base/a/b.h");
  is_file = λ path. text_eq path (codes "/w/src/base/BLADE_ROOT");
  getcwd = codes "/w/src/base";
}

named : repository_name checkout (codes "a/b.h") ≡ some (codes "base/a/b.h")
unfolding repository_name text_run split_path normpath
named = refl

guarded :
    get_header_guard_cpp_variable checkout (codes "a/.flymake/b-c_flymake.h")
    ≡ some (codes "A_B_C_H")
unfolding get_header_guard_cpp_variable text_run regex_run shape_run split_path normpath
guarded = refl

relative : relpath checkout (codes "/w/x/y") (codes "") ≡ some (codes "../../x/y")
unfolding relpath text_run split_path normpath
relative = refl

repository_name-ends_example :
    (name : Text) × (repository_name checkout (codes "a/b.h") ≡ some name)
    × IsEndOf (full_name checkout (codes "a/b.h")) name
unfolding has_entry full_name dirname text_run split_path normpath
repository_name-ends_example = repository_name-ends checkout (codes "a/b.h") refl

climb_blade-stuck_example : climb_blade 5 checkout (codes "//") ≡ none
unfolding text_run
climb_blade-stuck_example = climb_blade-stuck 5 checkout refl
