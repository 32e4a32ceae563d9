-- ===== src/Texts/Buffer.antt =====
-- A text of library/type/text.c: the bytes that are allocated, none for a NULL string, of which the
-- first `length` are the text and the next is a NUL. A write outside of the allocated bytes, and a
-- read, are `none`. The bytes that `realloc` and `malloc` add are left by the parameter `fresh`.
use hemp.Base.{
  ℕ, zero, suc, ◌+◌, ◌-◌, ◌%◌, ◌^◌, ◌||◌, Option, none, some, List, [], ◌∷◌, ◌++◌, length, take,
  drop, ltb, leb, ◌==◌, if◌then◌else◌, ◌>>=◌,
}
use hemp.Values.Signed.{ℤ, pos, negsuc, signed}

pub record Text : Type 0 where
  pub string : List ℕ
  pub capacity : ℕ
  pub length : ℕ

-- Bytes that are written at a position.
unfoldable pub write : ℕ → List ℕ → List ℕ → Option (List ℕ)
write i bytes buffer =
    if leb (i + length bytes) (length buffer)
    then some (take i buffer ++ (bytes ++ drop (i + length bytes) buffer))
    else none

-- Bytes that are read at a position.
unfoldable pub read : ℕ → ℕ → List ℕ → Option (List ℕ)
read i n buffer = if leb (i + n) (length buffer) then some (take n (drop i buffer)) else none

-- What `strncpy` writes: the bytes of a string, cut or padded with NULs.
unfoldable pub padded : ℕ → List ℕ → List ℕ
padded zero s = []
padded (suc n) [] = 0 ∷ padded n []
padded (suc n) (c ∷ s) = c ∷ padded n s

-- The sum of a negative offset and the length, in an `int32_t`; below zero it is zero.
unfoldable pub from_end : ℕ → ℕ → ℕ
unfolding signed
from_end len k = elim (signed ((2 ^ 64 + len - (k + 1)) % 2 ^ 32)) [ pos n ↦ n | negsuc _ ↦ 0 ]

module _ (fresh : ℕ → ℕ) where
  unfoldable pub garbage : ℕ → List ℕ
  garbage zero = []
  garbage (suc n) = fresh n ∷ garbage n

  -- `realloc`, or `malloc` where there is no string
  unfoldable pub realloc : ℕ → List ℕ → List ℕ
  unfolding garbage
  realloc n buffer = take n buffer ++ garbage (n - length buffer)

  -- `hemp_text_init_size`
  unfoldable pub init_size : ℕ → Text
  unfolding garbage
  init_size zero = record { string = []; capacity = 0; length = 0 }
  init_size (suc n) = record {
    string = garbage ((suc n + 1) % 2 ^ 64);
    capacity = suc n;
    length = 0;
  }

  -- `hemp_text_capacity`
  unfoldable pub capacity : Text → ℕ → Text
  unfolding realloc
  capacity text len =
      let size = (len + 1) % 2 ^ 64 in
      if ltb text.capacity size
      then record text { string = realloc size text.string; capacity = size - 1 }
      else text

  -- `hemp_text_append_stringn`
  unfoldable pub append_stringn : Text → List ℕ → ℕ → Option Text
  unfolding capacity write padded
  append_stringn text append n =
      let new_length = (text.length + n) % 2 ^ 64 in
      let grown = capacity text new_length in
      do
        bytes ← write grown.length (padded n append) grown.string
        ended ← write new_length (0 ∷ []) bytes
        some (record grown { string = ended; length = new_length })

  -- `hemp_text_append_string`
  unfoldable pub append_string : Text → List ℕ → Option Text
  unfolding append_stringn
  append_string text append = append_stringn text append (length append)

  -- `hemp_text_append_text`, of the bytes of the other text
  unfoldable pub append_text : Text → Text → Option Text
  unfolding append_stringn read
  append_text text append = do
    bytes ← read 0 append.length append.string
    append_stringn text bytes append.length

  -- `hemp_text_from_text` and `hemp_text_from_string`
  unfoldable pub from_text : Text → Option Text
  unfolding init_size append_text
  from_text source = append_text (init_size source.length) source

  unfoldable pub from_string : List ℕ → Option Text
  unfolding init_size append_string
  from_string source = append_string (init_size (length source)) source

  -- `hemp_text_insert_string` from where the offset is a position in the text
  unfoldable pub insert_at : Text → ℕ → List ℕ → Option Text
  unfolding capacity read write padded
  insert_at text offset insert =
      let extra = length insert in
      let new_length = (text.length + extra) % 2 ^ 64 in
      let grown = capacity text new_length in
      do
        moved ← read offset (grown.length - offset) grown.string
        shifted ← write (offset + extra) moved grown.string
        bytes ← write offset (padded extra insert) shifted
        ended ← write new_length (0 ∷ []) bytes
        some (record grown { string = ended; length = new_length })

  -- `hemp_text_insert_string`
  unfoldable pub insert_string : Text → ℤ → List ℕ → Option Text
  unfolding insert_at from_end append_string
  insert_string text (negsuc k) insert = insert_at text (from_end text.length k) insert
  insert_string text (pos offset) insert =
      if ltb text.length offset || (text.length == 0)
      then append_string text insert
      else insert_at text offset insert

  -- `hemp_text_replace_string`
  unfoldable pub replace_string : Text → List ℕ → Option Text
  unfolding capacity write
  replace_string text replace =
      let new_length = length replace in
      let grown = capacity text new_length in
      do
        bytes ← write 0 (replace ++ 0 ∷ []) grown.string
        ended ← write new_length (0 ∷ []) bytes
        some (record grown { string = ended; length = new_length })

-- `hemp_text_truncate`
unfoldable pub truncate : Text → ℕ → Option Text
unfolding write
truncate text len =
    if ltb len text.length
    then (do
      ended ← write len (0 ∷ []) text.string
      some (record text { string = ended; length = len }))
    else some text
