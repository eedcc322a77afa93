-- ===== src/Pool/Page/Tests.antt =====
-- The theorems on slotted pages at a page with one tuple.
use cpp_interview.Prelude.{ℕ, List, [], ◌∷◌}
use cpp_interview.Pool.Page.{SlottedPage, init, insert_tuple, update_tuple}
use cpp_interview.Pool.Page.Valid.{IsValid, init-IsValid}
use cpp_interview.Pool.Page.Tuples.{insert_tuple_lem}
use cpp_interview.Pool.Page.Updates.{IsUpdated, update_tuple_lem}

abbrev buffer : ℕ → ℕ
buffer a = 255

abbrev payload : List ℕ
payload = 1 ∷ 2 ∷ 3 ∷ []

abbrev one_tuple : SlottedPage
one_tuple = (insert_tuple buffer (init 3) payload).1

one_tuple-IsValid : IsValid one_tuple
one_tuple-IsValid = (insert_tuple_lem buffer (init 3) payload (init-IsValid 3)).0

update_tuple_lem_example :
    IsUpdated one_tuple 0 (4 ∷ 5 ∷ []) (update_tuple buffer one_tuple 0 (4 ∷ 5 ∷ []))
update_tuple_lem_example = update_tuple_lem buffer one_tuple 0 (4 ∷ 5 ∷ []) one_tuple-IsValid
