-- ===== src/Go/FilePath.antt =====
-- filepath.Clean and filepath.Join on Unix.
use env_forge.Prelude.{
  ◌==◌, if◌then◌else◌, ◌≡◌, refl, inl, inr, Bool, Bool-cases, true, false, not, ◌||◌, List, [], ◌∷◌,
  ◌++◌, Text, lit, is_empty, text_eq,
}
use env_forge.Go.Format.{join}

-- the parts between the slashes; `current` is the part that is being read
unfoldable pub split_slash : Text → Text → List Text
split_slash current [] = current ∷ []
split_slash current (c ∷ s) =
    let closed = current ∷ split_slash [] s in
    let longer = split_slash (current ++ c ∷ []) s in if c == b'/' then closed else longer

abbrev is_rooted : Text → Bool
is_rooted [] = false
is_rooted (c ∷ s) = c == b'/'

-- ".." removes the part before it, if there is one
unfoldable pub go_up : Bool → List Text → List Text
go_up rooted [] = if rooted then [] else lit ".." ∷ []
go_up rooted (part ∷ parts) = if text_eq part (lit "..") then lit ".." ∷ part ∷ parts else parts

-- the parts that are left, the last one first
unfoldable pub resolve : Bool → List Text → List Text → List Text
resolve rooted stack [] = stack
resolve rooted stack (part ∷ parts) =
    resolve rooted
      (if is_empty part || text_eq part (lit ".")
        then stack
        else if text_eq part (lit "..")
        then go_up rooted stack
        else part ∷ stack)
      parts

abbrev or_dot : Text → Text
or_dot [] = lit "."
or_dot (c ∷ s) = c ∷ s

unfoldable pub clean : Text → Text
unfolding split_slash resolve go_up
clean path =
    let rooted = is_rooted path in
    or_dot (
      (if rooted then lit "/" else [])
      ++ join (mathlib.Core.List.reverse (resolve rooted [] (split_slash [] path))) (lit "/"))

-- filepath.Join(dir, name)
unfoldable pub join_path : Text → Text → Text
join_path dir name = if is_empty dir then clean name else clean (dir ++ lit "/" ++ name)

-- filepath.Clean never returns an empty path, and so neither does filepath.Join.
or_dot_lem : (s : Text) → not (is_empty (or_dot s)) ≡ true
unfolding lit
or_dot_lem [] = refl
or_dot_lem (c ∷ s) = refl

clean_lem : (path : Text) → not (is_empty (clean path)) ≡ true
unfolding clean
clean_lem path = or_dot_lem _

pub join_path_lem : (dir name : Text) → not (is_empty (join_path dir name)) ≡ true
unfolding join_path
join_path_lem dir name = elim (Bool-cases (is_empty dir)) [
  | inl none_given ↦ rw none_given (clean_lem name)
  | inr given ↦ rw given (clean_lem _)
]
