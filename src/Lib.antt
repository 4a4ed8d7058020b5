-- ===== src/Lib.antt =====
-- Verification of utils/tools/cpplint.py, the style checker for the C++ code of this repository.
--
-- The checker reads a file as a list of lines, cleanses them of comments and strings, and runs its
-- checks over them line by line. The checks keep states of their own, for the nesting of blocks,
-- the includes and the current function, and report through one function, `Error`, which asks the
-- NOLINT comments, the verbosity and the filters whether to print.
--
-- The files, each with the functions of cpplint.py that it models:
--   Lint        `_CppLintState`, `ParseNolintSuppressions`, `IsErrorSuppressedByNolint`,
--               `_ShouldPrintError`, `Error`; Lint/Categories holds the lists of categories
--   Include     `_ScopedIncludeState`, `_IncludeState` and the directives of `CheckIncludeLine`;
--               Include/Headers has `_ClassifyInclude`, `_DropCommonSuffixes`, `_IsTestFilename`
--               and `FileInfo.Split`, Include/Line has `CheckIncludeLine`
--   Cleanse     `IsCppString`, `RemoveMultiLineComments`, `CleanseComments`, `CleansedLines`
--   Expression  `FindEndOfExpressionInLine`, `CloseExpression`
--   Angles      `FindNextMatchingAngleBracket`, `FindPreviousMatchingAngleBracket`
--   Blocks      `CheckBraces`, `CheckEmptyLoopBody`
--   Inside      `_GetTextInside`
--   Modules     `FilesBelongToSameModule`
--   Missing     `UpdateIncludeState`, `CheckForIncludeWhatYouUse`, `IsSourceFile`
--   Nesting     `_BlockInfo` and its classes, `_PreprocessorInfo`, `_NestingState`; the blocks
--               are in Nesting/Info, the regular expressions in Nesting/Patterns
--   Function    `_FunctionState`, `CheckForFunctionLengths`
--   File        `CheckForCopyright`, `CheckForHeaderGuard`,
--               `CheckForUnicodeReplacementCharacters`, `CheckForNewlineAtEOF`
--   Line        `CheckForMultilineCommentsAndStrings`, `CheckPosixThreading`,
--               `CheckInvalidIncrement`, `CheckComment`, `CheckAccess`, `CheckSectionSpacing`,
--               `GetPreviousNonBlankLine`, `IndentLength`, `IsBadIndent`, the last three and
--               `IsBlankLine` in Line/Layout
--   Spacing     `CheckSpacing`, `CheckSpacingForFunctionCall`: blank lines and comments, operators,
--               parentheses, and other marks in a file each
--   Style       `GetLineWidth`, `CheckStyle`
--   Macros      `ReplaceableCheck`, `CheckCheck`, `CheckAltTokens`
--   Constructs  `CheckForNonStandardConstructs`
--   Language    `CheckLanguage`, `CheckCStyleCast`, `CheckSizeOf`, `CheckMakePairUsesDeduction`:
--               references, casts, calls, types and arrays in a file each
--   Names       `FileInfo`, `relpath`, `GetHeaderGuardCPPVariable`
--   Driver      `ParseArguments`, `ParseGlobalNolintSuppressions`
--   Process     `ProcessLine`, `ProcessFileData`, `ReadWithEncodingDetect`, `ProcessFile`,
--               `PrintUsage`, `PrintCategories`, `main`
-- A folder of the same name holds the proofs of a part, with its runs in Examples. Common holds what
-- they share: lists and integers, the string methods of Python (Common/Strings), `posixpath`
-- (Common/Paths), and a matcher for regular expressions that tries the alternatives in Python's
-- order (Common/Regex, Common/Patterns), since the checker's decisions are those of its patterns.
--
-- How the code is modelled:
--   - A text is a list of character codes. White space, letters and digits are those of ASCII. A
--     line has no newline character, so `$` is the end of the line and `.` any character.
--   - A check returns its log: the calls of `error` and the additions to the suppressions, in
--     order. `run_log` applies a log to the globals, with `Error` for each report.
--   - A failed `assert`, an `IndexError` and the position -1 are `none`. `ParseArguments` returns
--     how it leaves the program.
--   - A dictionary is an association list in the order of insertion. The stack of blocks has its
--     top first. The stack of include scopes holds positions in the list of all scopes, since both
--     lists of the code share their objects.
--   - Numbers that may be negative in the code are integers: the depths of brackets. The verbosity
--     is taken to be a natural number. `int(math.log(n, 2))` is computed exactly.
--   - A regular expression of the code is one of the matcher's, except the pattern for the end of a
--     header guard, which the code makes from the guard's variable as it is: what
--     `sre_compile.compile` makes of that text is a parameter.
--   - The lazy group of the TODO pattern is a loop up to the next parenthesis, which is the same, as
--     nothing behind the group can fail.
--   - Loops that the lines of a file bound are recursion on the list. `RemoveMultiLineComments` has
--     the number of lines plus one as fuel, and the loops of `Update` over a line its length plus
--     one: a round goes past at least one line, or at least one character. The logarithm has its
--     argument as fuel, which it halves. The loop of `CheckBraces` that joins lines has the number
--     of the line plus two as fuel, since it goes up by at least one line in a round; if that runs
--     out, the loop of the code does not end.
--   - The loop of `ProcessFileData` over the lines is recursion on their number. The two searches for
--     an angle bracket are one search with different marks, which goes down a list of lines: for the
--     backward search they are the reversed lines in front.
--   - What the host of the program says is a parameter, the record `Host` of Process: the year,
--     whether stderr is a terminal, how lines end, the names that `FileInfo` and
--     `GetHeaderGuardCPPVariable` find for a file, the contents of files decoded by UTF-8 and by GBK,
--     what `sre_compile.compile` makes of a text, and the tables of Unicode that `GetLineWidth` asks. The results of `getopt` and the place where
--     the search of `_GetTextInside` ends are parameters as well. In Names the disk is a parameter.
--   - The loops of `FileInfo` that go up the directories have the length of the path as fuel: a
--     directory is shorter than what lies in it, except one that is its own directory.
--   - `Lint` holds the globals of the program and what was written to stderr.
--
-- Not modelled: the class `_IncludeError`, which nothing raises, and the functions that only call one
-- method of the program's state; `extra_check_functions`, which the program leaves empty. The names
-- that Process takes from its host are not yet those of Names. The C++ code of the repository (server,
-- tools, utils, thirdparty) is outside this library.
pub mod Common
pub mod Lint
pub mod Include
pub mod Cleanse
pub mod Expression
pub mod Blocks
pub mod Inside
pub mod Modules
pub mod Nesting
pub mod Function
pub mod File
pub mod Line
pub mod Missing
pub mod Angles
pub mod Macros
pub mod Constructs
pub mod Language
pub mod Spacing
pub mod Style
pub mod Driver
pub mod Names
pub mod Process
