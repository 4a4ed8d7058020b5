-- ===== src/Process/Usage.antt =====
-- The usage text of utils/tools/cpplint.py.
use front_server.Common.{List, [], ◌∷◌, ◌++◌, Text, codes}

abbrev usage_lines : List Text
usage_lines =
    codes ""
    ∷ codes "Syntax: cpplint.py [--verbose=#] [--output=vs7] [--filter=-x,+y,...]"
    ∷ codes "                   [--counting=total|toplevel|detailed]"
    ∷ codes "                   [--quiet]"
    ∷ codes "        <file> [file] ..."
    ∷ codes ""
    ∷ codes "  The style guidelines this tries to follow are those in"
    ∷ codes "    http://km.oa.com/group/2574/articles/show/51469"
    ∷ codes ""
    ∷ codes "  Every problem is given a confidence score from 1-5, with 5 meaning we are"
    ∷ codes "  certain of the problem, and 1 meaning it could be a legitimate construct."
    ∷ codes "  This will miss some errors, and is not a substitute for a code review."
    ∷ codes ""
    ∷ codes "  To suppress false-positive errors of a certain category, add a"
    ∷ codes "  'NOLINT(category)' comment to the line.  NOLINT or NOLINT(*)"
    ∷ codes "  suppresses errors of all categories on that line."
    ∷ codes ""
    ∷ codes "  The files passed in will be linted; at least one file must be provided."
    ∷ codes "  Linted extensions are .cc, .cpp, and .h.  Other file types will be ignored."
    ∷ codes ""
    ∷ codes "  Flags:"
    ∷ codes ""
    ∷ codes "    output=vs7"
    ∷ codes "      By default, the output is formatted to ease emacs parsing.  Visual Studio"
    ∷ codes "      compatible output (vs7) may also be used.  Other formats are unsupported."
    ∷ codes ""
    ∷ codes "    verbose=#"
    ∷ codes "      Specify a number 0-5 to restrict errors to certain verbosity levels."
    ∷ codes ""
    ∷ codes "    filter=-x,+y,..."
    ∷ codes "      Specify a comma-separated list of category-filters to apply: only"
    ∷ codes "      error messages whose category names pass the filters will be printed."
    ∷ codes "      (Category names are printed with the message and look like"
    ∷ codes "      \"[whitespace/indent]\".)  Filters are evaluated left to right."
    ∷ codes "      \"-FOO\" and \"FOO\" means \"do not print categories that start with FOO\"."
    ∷ codes "      \"+FOO\" means \"do print categories that start with FOO\"."
    ∷ codes ""
    ∷ codes "      Examples: --filter=-whitespace,+whitespace/braces"
    ∷ codes "                --filter=whitespace,runtime/printf,+runtime/printf_format"
    ∷ codes "                --filter=-,+build/include_what_you_use"
    ∷ codes ""
    ∷ codes "      To see a list of all the categories used in cpplint, pass no arg:"
    ∷ codes "         --filter="
    ∷ codes ""
    ∷ codes "    counting=total|toplevel|detailed"
    ∷ codes "      The total number of errors found is always printed. If"
    ∷ codes "      'toplevel' is provided, then the count of errors in each of"
    ∷ codes "      the top-level categories like 'build' and 'whitespace' will"
    ∷ codes "      also be printed. If 'detailed' is provided, then a count"
    ∷ codes "      is provided for each category like 'build/class'."
    ∷ codes ""
    ∷ codes "    quiet"
    ∷ codes "      Don't echo 'Done process <filename>'"
    ∷ codes ""
    ∷ []

lines_text : List Text → Text
lines_text [] = []
lines_text (line ∷ lines) = line ++ 10 ∷ lines_text lines

-- `_USAGE`
unfoldable pub usage_text : Text
unfolding lines_text codes
usage_text = lines_text usage_lines ++ codes ""
