-- ===== src/Diff/Intraline/Tests.antt =====
-- The emphasis of a pair of lines that differ in their last character.
use revu.Prelude.{◌≡◌, refl, some, List, [], ◌∷◌, Text, codes, text_eq}
use revu.Diff.Intraline.{removed, added, kept, Change, Spans, intraline_diff}
use revu.Diff.Intraline.Spans.{IsSpans, intraline_diff-IsSpans}

abbrev last_letter : Text → Text → List Change
last_letter del_text add_text =
    record { kind = kept; value = codes "abc" }
    ∷ record { kind = removed; value = codes "d" }
    ∷ record { kind = added; value = codes "e" }
    ∷ []

abbrev emphasis : Spans
emphasis = (record { start = 3; end = 4 } ∷ [], record { start = 3; end = 4 } ∷ [])

emphasis_run : intraline_diff last_letter (codes "abcd") (codes "abce") ≡ some emphasis
unfolding intraline_diff text_eq
emphasis_run = refl

intraline_diff-IsSpans_example : IsSpans 0 4 emphasis.0 × IsSpans 0 4 emphasis.1
intraline_diff-IsSpans_example =
    intraline_diff-IsSpans last_letter (codes "abcd") (codes "abce") emphasis refl refl emphasis_run
