-- ===== src/Web/TaskRunner.antt =====
-- src/websocket/taskrunner.cpp: fetchNetStats and session::on_read. The command that is run and the
-- pipe to it are left to `pipe`, the bytes that the command writes.
pub mod Laws
pub mod Conversation
pub mod Main
mod Tests
use dlms_access_point.Prelude.{
  ℕ, ◌==◌, if◌then◌else◌, Text, zero, suc, length, Option, none, some, [], ◌∷◌, ◌++◌, codes,
  text_eq, List,
}

-- The characters before the first newline, and those behind it.
pub split_line : Text → Text × Text
split_line [] = ([], [])
split_line (c ∷ s) =
    let (line, rest) = split_line s in if c == b'\n' then ([], s) else (c ∷ line, rest)

-- `std::getline(pipe_stream, line)`: it fails where nothing is left.
pub getline : Text → Option (Text × Text)
unfolding split_line
getline [] = none
getline (c ∷ s) = some (split_line (c ∷ s))

-- The loop on fuel: `none` when it runs out.
pub copy_lines : ℕ → Text → Text → Option Text
unfolding getline
copy_lines zero pipe ss = none
copy_lines (suc fuel) pipe ss = elim (getline pipe) [
  | none ↦ some ss
  | some (line, rest) ↦ elim line [
    | [] ↦ some ss
    | c ∷ cs ↦ copy_lines fuel rest (ss ++ ((c ∷ cs) ++ b'\n' ∷ []))
  ]
]

-- Each round takes a character, so the fuel is more than the loop can use.
pub fetch_net_stats : Text → Option Text
unfolding copy_lines
fetch_net_stats pipe = copy_lines (suc (length pipe)) pipe []

-- The text that is collected; none where the fuel has run out.
fetched : Option Text → Text
fetched none = []
fetched (some ss) = ss

-- `pipes` are what the command writes each time that it is run from now on.
pub answer : List Text → Text → List Text × Text
unfolding fetched
answer [] buffer =
    if text_eq buffer (codes "{netstat}")
    then ([], fetched (fetch_net_stats []) ++ b'\n' ∷ [])
    else ([], buffer ++ codes "{error:unknown_command}\n")
answer (pipe ∷ pipes) buffer =
    if text_eq buffer (codes "{netstat}")
    then (pipes, fetched (fetch_net_stats pipe) ++ b'\n' ∷ [])
    else (pipe ∷ pipes, buffer ++ codes "{error:unknown_command}\n")

-- The text of another command, which nothing calls.
pub invoke_netem : Text → Option Text
unfolding copy_lines
invoke_netem pipe = copy_lines (suc (length pipe)) pipe []
