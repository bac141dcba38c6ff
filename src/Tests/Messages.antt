-- ===== src/Tests/Messages.antt =====
-- The theorems on messages at small messages.
use nixsrv.Prelude.{◌≡◌, refl, some, [], ◌∷◌, ok}
use nixsrv.Util.Split.{split}
use nixsrv.Util.Split.Words.{words, split-eq-words}
use nixsrv.Message
use nixsrv.Message.{find, find_path, set, append, remove, get_string, set_null, null_at}
use nixsrv.Message.Paths.{settable, set_path-total}
use nixsrv.Message.Fields.{find-set}
use nixsrv.Tests.Value
use nixsrv.Tests.Value.{Value, object, field, end, text, array, cons, nil, value_json}

-- A message with one field, and what the operations make of it.
abbrev small : Value
small = object (field "a" (text "v") end)

abbrev with_field : Value
with_field = object (field "b" (object (field "c" (text "v") end)) (field "a" (text "v") end))

split-eq-words_example : split "b..c" "." ≡ words "." "b..c"
split-eq-words_example = split-eq-words "b..c" "."

find-set_example : find "b.c" with_field ≡ some (text "v")
unfolding set Message.set_path Message.child split Value.member Value.get Value.without
find-set_example = find-set "b.c" (text "v") small refl

abbrev with_null : Value
with_null = object (field "b" Value.null (field "a" (text "v") end))

set_path-total_example : (v' : Value) × (Message.set_path ("b" ∷ "c" ∷ []) (text "v") small ≡ ok v')
unfolding settable Value.member Value.get
set_path-total_example = set_path-total ("b" ∷ "c" ∷ []) (text "v") small refl
