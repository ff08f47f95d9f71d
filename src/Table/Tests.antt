-- ===== src/Table/Tests.antt =====
-- The table at concrete rows.
use centos_info_collect.Base.{ℕ, Bool, Text, Option, none, some, List, [], ◌∷◌, codes, ltb}
use centos_info_collect.Base.Number.{decimal}
use centos_info_collect.Table.{ModernDataTable, new}

abbrev before : Text → Text → Bool
before a b = ltb (decimal a) (decimal b)

-- The first column cannot be sorted.
abbrev headers : List (Option Text)
headers = none ∷ some (codes "number") ∷ []

abbrev page : List (ℕ × List Text)
page = (7, codes "b" ∷ codes "20" ∷ []) ∷ (8, codes "a" ∷ codes "3" ∷ []) ∷ []

abbrev table : ModernDataTable
table = new headers page

abbrev same : Text → Text
same s = s
