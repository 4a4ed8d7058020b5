-- ===== src/Process/Isolation.antt =====
-- What one file leaves behind for the next.
use front_server.Common.{◌≡◌, ap, ◌∙◌, List, [], ◌∷◌, ◌++◌, some, Text}
use front_server.Lint.{Lint, Suppressions, reset_nolint_suppressions}
use front_server.Driver.{global_filters, marks_of}
use front_server.Driver.Counting.{
  parse_global_nolint_suppressions-append_filters, append_filters-suppressions,
}
use front_server.Process.{Host, process_file_data, first_marker, last_marker}

-- If the file has no GLOBAL_NOLINT comment of an unknown category in front of one that ends the
-- search, `ProcessFileData` does the same whatever NOLINT comments earlier files had.
pub process_file_data-suppressions :
    (h : Host) (filename extension : Text) (lines : List Text) (l : Lint)
    (suppressions : Suppressions)
    → (global_filters 0 (marks_of (first_marker ∷ lines ++ last_marker ∷ []))).1 ≡ []
    → process_file_data h filename extension lines (record l { suppressions = suppressions })
      ≡ process_file_data h filename extension lines l
unfolding process_file_data reset_nolint_suppressions
process_file_data-suppressions h filename extension lines l suppressions e =
    let marked = first_marker ∷ lines ++ last_marker ∷ [] in
    let filters = (global_filters 0 (marks_of marked)).0 in
    let other =
      parse_global_nolint_suppressions-append_filters h.tty filename marked
        (record l { suppressions = suppressions }) e
      ∙ ap some (append_filters-suppressions filters l suppressions) in
    rw (
      process_file_data,
      parse_global_nolint_suppressions-append_filters h.tty filename marked l e,
      other,
    )
