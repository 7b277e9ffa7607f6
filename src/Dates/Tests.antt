-- ===== src/Dates/Tests.antt =====
-- Lines that main.cpp's loop for dates reads.
use miscellaneous.Base.{text, Text, List, [], ◌∷◌, some, ◌≡◌, refl}
use miscellaneous.Dates.{regex_match, stoi, check_date, check_dates, Answer}
use miscellaneous.Dates.Checks.{AllJudged, before_quit, check_dates-Judged}

abbrev lines : List Text
lines = text "2024/02/09" ∷ text "2024/13/1" ∷ text "0999/1/31" ∷ text "q" ∷ text "2024/1/1" ∷ []

lines_checked :
    check_dates lines ≡ some (Answer.valid 2024 2 9 ∷ Answer.invalid ∷ Answer.valid 999 1 31 ∷ [])
unfolding check_dates check_date regex_match stoi
lines_checked = refl

no_such_day : check_date (text "2023/02/31") ≡ some (Answer.valid 2023 2 31)
unfolding check_date regex_match stoi
no_such_day = refl

check_dates-Judged_example :
    (answers : List Answer) × (check_dates lines ≡ some answers)
    × AllJudged (before_quit lines) answers
check_dates-Judged_example = check_dates-Judged lines
