-- ===== src/Texts/Tests.antt =====
-- Runs of the operations on texts, and the theorems at a text.
use Prim.Native.Nat.{ℕ}
use hemp.Base.{◌≡◌, refl, some, List, [], ◌∷◌, ◌++◌, take, drop, arith}
use hemp.Values.Signed.{negsuc, signed}
use hemp.Texts.Buffer.{
  Text, write, padded, append_stringn, append_string, insert_string, insert_at, capacity, realloc,
  garbage, read, from_end, init_size, from_string,
}
use hemp.Texts.Laws.{Holds, Ended, Gives, append_stringn-Gives}
use hemp.Texts.Edits.{position, IsOffset, insert_string-Gives}

abbrev junk : ℕ → ℕ
junk n = 255

-- "abcd", in seven bytes.
abbrev abcd : Text
abcd = record { string = 97 ∷ 98 ∷ 99 ∷ 100 ∷ 0 ∷ 7 ∷ 7 ∷ []; capacity = 6; length = 4 }

abbrev four : List ℕ
four = 97 ∷ 98 ∷ 99 ∷ 100 ∷ []

abcd-Holds : Holds abcd four
abcd-Holds = record {
  spare = 0 ∷ 7 ∷ 7 ∷ [];
  bytes = refl;
  length_is = refl;
  fits = omega arith;
  room = omega arith;
}

abcd-Ended : Ended abcd four
abcd-Ended = record { holds = abcd-Holds; ended = (7 ∷ 7 ∷ [], refl) }

inserted :
    insert_string junk abcd (negsuc 0) (120 ∷ 121 ∷ 122 ∷ [])
    ≡ some (record {
      string = 97 ∷ 98 ∷ 99 ∷ 120 ∷ 121 ∷ 122 ∷ 100 ∷ 0 ∷ [];
      capacity = 7;
      length = 7;
    })
unfolding insert_string insert_at from_end signed capacity realloc garbage read write padded
inserted = refl

built :
    from_string junk (97 ∷ []) ≡ some (record { string = 97 ∷ 0 ∷ []; capacity = 1; length = 1 })
unfolding from_string append_string append_stringn init_size capacity realloc garbage write padded
built = refl

append_stringn-Gives_example :
    Gives (append_stringn junk abcd (120 ∷ []) 3) (four ++ padded 3 (120 ∷ []))
append_stringn-Gives_example =
    append_stringn-Gives junk abcd four (120 ∷ []) 3 abcd-Holds (omega arith)

insert_string-Gives_example : Gives (insert_string junk abcd (negsuc 0) (120 ∷ 121 ∷ 122 ∷ [])) (
    take (position 4 (negsuc 0)) four
    ++ (120 ∷ 121 ∷ 122 ∷ [])
    ++ drop (position 4 (negsuc 0)) four)
unfolding IsOffset
insert_string-Gives_example =
    insert_string-Gives junk abcd four (120 ∷ 121 ∷ 122 ∷ []) (negsuc 0) abcd-Holds (omega arith)
      (omega arith) (omega arith)
