-- ===== src/User/Starting.antt =====
-- user/xo-user.c: whether the module is there, which the program asks before anything else.
use kxo.Prelude.{
  ℕ, List, [], ◌∷◌, Bool, true, false, Option, none, some, ◌==◌, ◌&&◌, if◌then◌else◌, take,
}
use kxo.Terminal.Strokes.{chars, bytes_of}

-- The first line of what `fgets` has read, up to its end.
unfoldable pub first_line : List ℕ → List ℕ
first_line [] = []
first_line (c ∷ cs) = let rest = first_line cs in if c == b'\n' then [] else c ∷ rest

-- `strcmp` of two texts is 0.
unfoldable pub same_text : List ℕ → List ℕ → Bool
same_text [] [] = true
same_text [] (c ∷ cs) = false
same_text (c ∷ cs) [] = false
same_text (c ∷ cs) (d ∷ ds) = (c == d) && same_text cs ds

-- `status_check`, of the file with the state of the module, `none` when it cannot be opened; the
-- buffer has room for 19 characters.
unfoldable pub status_check : Option (List ℕ) → Bool
unfolding first_line same_text
status_check none = false
status_check (some text) = same_text (bytes_of (chars "live")) (first_line (take 19 text))
