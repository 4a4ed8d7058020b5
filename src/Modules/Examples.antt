-- ===== src/Modules/Examples.antt =====
-- Runs of `FilesBelongToSameModule`, and the theorems of its modules at concrete inputs.
use front_server.Common.{
  ◌≡◌, ◌≢◌, refl, ◌↔◌, true, [], ◌++◌, codes, ends_with, without_last, sym, ◌∙◌, arith, text_run,
}
use front_server.Modules.{module_of_source, module_of_header, files_belong_to_same_module}
use front_server.Modules.Pairs.{IsBase, files_belong_to_same_module_iff}

longer_path :
    files_belong_to_same_module (codes "/a/base/internal/info_test.cc") (codes "base/public/info.h")
    ≡ (true, codes "/a/")
unfolding files_belong_to_same_module without_last text_run
longer_path = refl

header_stem : module_of_header (codes "base/info.h") ≡ codes "base/info"
unfolding module_of_header without_last text_run
header_stem = refl

stem_not_empty : codes "base/info" ≢ []
unfolding codes
stem_not_empty e = absurd (ground arith)

not_empty : module_of_header (codes "base/info.h") ≢ []
not_empty e = stem_not_empty (sym header_stem ∙ e)

files_belong_to_same_module_iff_example :
    (files_belong_to_same_module (codes "/a/base/info.cc") (codes "base/info.h")
      ≡ (true, codes "/a/"))
    ↔ ((ends_with (codes "/a/base/info.cc") (codes ".cc") ≡ true)
        × (ends_with (codes "base/info.h") (codes ".h") ≡ true)
        × (module_of_source (codes "/a/base/info.cc")
            ≡ codes "/a/" ++ module_of_header (codes "base/info.h")))
files_belong_to_same_module_iff_example =
    files_belong_to_same_module_iff (codes "/a/base/info.cc") (codes "base/info.h") (codes "/a/")
      not_empty

info-IsBase : IsBase (codes "base/info")
unfolding text_run
info-IsBase = (refl, refl, refl)
