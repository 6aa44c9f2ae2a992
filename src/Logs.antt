-- ===== src/Logs.antt =====
-- The newest lines of the mitigation log (src/control_plane/main.go: handleLogs).
pub mod Newest
use shield_core.Prelude.{
  ℕ, ◌+◌, ◌&&◌, Bool, true, List, [], ◌∷◌, ◌++◌, Text, text_eq, ltb, if◌then◌else◌,
}
use shield_core.Strings.{split, trim_space}

-- The lines from the last to the first.
unfoldable pub backwards : List Text → List Text
backwards [] = []
backwards (l ∷ ls) = backwards ls ++ l ∷ []

-- The loop over the lines from the last on, with the number of lines it has taken.
unfoldable pub newest_from : ℕ → List Text → List Text
newest_from taken [] = []
newest_from taken (l ∷ ls) =
    let line = trim_space l in
    let skipped = newest_from taken ls in
    let next = newest_from (taken + 1) ls in
    if ltb taken 100 then (if text_eq line [] then skipped else line ∷ next) else []

unfoldable pub newest_logs : Text → List Text
unfolding newest_from backwards
newest_logs content = newest_from 0 (backwards (split 10 (trim_space content)))

-- logs/mitigation.log, where it is and can be read, with what encoding/json takes as a value.
pub data LogFile : Type 0 where
  absent unreadable : LogFile
  content_of : Text → (Text → Bool) → LogFile

unfoldable pub are_values : (Text → Bool) → List Text → Bool
are_values is_json [] = true
are_values is_json (l ∷ ls) = is_json l && are_values is_json ls

-- The answer: an error, the lines as JSON values, or nothing, where one of the lines is none and
-- the error of `Encode` is dropped.
pub data LogAnswer : Type 0 where
  not_read no_body : LogAnswer
  shown : List Text → LogAnswer

unfoldable pub handle_logs : LogFile → LogAnswer
unfolding newest_logs are_values
handle_logs absent = shown []
handle_logs unreadable = not_read
handle_logs (content_of content is_json) =
    let lines = newest_logs content in if are_values is_json lines then shown lines else no_body
