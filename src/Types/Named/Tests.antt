-- ===== src/Types/Named/Tests.antt =====
-- A row with a recursive tail.
use inty.Common.{◌≡◌, refl, [], ◌∷◌}
use inty.Common.Dict.{nat_eq, has}
use inty.Types.Ty.{Ty, number, row, array, named, nil, cons, no_props, prop, recursive, pre}
use inty.Types.Named.{named_ids}
use inty.Types.Named.Exact.{mentions, has-named_ids}

abbrev nested : Ty
nested =
    array (row (prop "next" pre (named 3 (cons number nil)) pre pre no_props) (recursive 4 nil))

ids_of_nested : named_ids nested ≡ 4 ∷ 3 ∷ []
unfolding named_ids
ids_of_nested = refl

has-named_ids_example : has (named_ids nested) 3 ≡ mentions 3 nested
has-named_ids_example = has-named_ids nested 3
