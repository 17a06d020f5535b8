-- ===== src/Agent/Fallback.antt =====
-- `agent/query_strategy.py`: snippets of the local files, for the hits or for the words of the query.
use cga.Prelude.{
  ℕ, suc, ◌+◌, ◌-◌, Bool, true, false, Option, none, some, List, [], ◌∷◌, ◌++◌, ◌==◌, length, take,
  drop, leb, ltb, min, if◌then◌else◌,
}
use cga.Text.{Text, codes, starts_with, join}
use cga.Json.{Json, int, str, obj, end, field, get, or_else, given_text}
use cga.Agent.Quality.{Python, is_blank, fields_of}

-- The repository: the lines of a file, where it is a file that can be read; and the files that are scanned, with their paths and
-- texts, in the order of the patterns.
pub record Files : Type 0 where
  pub lines_of : Text → Option (List Text)
  pub scanned : List (Text × Option Text)

-- `lines[start:end]`
abbrev slice : ℕ → ℕ → List Text → List Text
slice start stop lines = take (stop - start) (drop start lines)

abbrev shortened : ℕ → Text → Text
shortened max_chars snippet =
    if ltb max_chars (length snippet) then take (max_chars - 3) snippet ++ codes "..." else snippet

abbrev snippet_of : Python → ℕ → ℕ → ℕ → Option (List Text) → Text
snippet_of f line_start line_end context none = []
snippet_of f line_start line_end context (some lines) = shortened 1200 (
    f.strip (
      join 10 (slice (line_start - (1 + context)) (min (length lines) (line_end + context)) lines)))

-- `read_code_snippet` of at most 1200 characters; line numbers are not negative.
unfoldable pub read_code_snippet : Python → Files → Text → ℕ → ℕ → ℕ → Text
unfolding join
read_code_snippet f files path line_start line_end context =
    snippet_of f line_start line_end context (files.lines_of path)

abbrev number_or_one : Python → Option Json → ℕ
number_or_one f none = 1
number_or_one f (some v) = f.int_of v

abbrev line_of : Python → Option Json → ℕ
line_of f v = number_or_one f (or_else v none)

abbrev snippet_item : Text → Text → ℕ → ℕ → Text → Json
snippet_item source path line_start line_end snippet = obj (
    field "source" (str source) (
      field "file_path" (str path) (
        field "line_start" (int line_start)
          (field "line_end" (int line_end) (field "snippet" (str snippet) end)))))

-- The snippet as an item, unless it is empty.
abbrev item_unless_blank : Text → Text → ℕ → ℕ → Text → List Json
item_unless_blank source path line_start line_end [] = []
item_unless_blank source path line_start line_end (c ∷ s) =
    snippet_item source path line_start line_end (c ∷ s) ∷ []

abbrev hit_at : Python → Files → ℕ → Text → ℕ → ℕ → List Json
hit_at f files context [] line_start line_end = []
hit_at f files context (c ∷ p) line_start line_end =
    item_unless_blank (codes "symbol-snippet") (c ∷ p) line_start line_end
      (read_code_snippet f files (c ∷ p) line_start line_end context)

unfoldable pub hit_snippets : Python → Files → ℕ → List Json → List Json
unfolding read_code_snippet get or_else given_text
hit_snippets f files context [] = []
hit_snippets f files context (hit ∷ hits) =
    let fs = fields_of hit in
    hit_at f files context (given_text f.shown (get fs "file_path"))
      (line_of f (get fs "line_start")) (line_of f (get fs "line_end"))
    ++ hit_snippets f files context hits

-- `text.find(needle)`
abbrev next_index : Option ℕ → Option ℕ
next_index none = none
next_index (some n) = some (suc n)

unfoldable pub find_text : Text → Text → Option ℕ
unfolding starts_with
find_text needle [] = if starts_with needle [] then some 0 else none
find_text needle (c ∷ s) =
    let rest = next_index (find_text needle s) in
    if starts_with needle (c ∷ s) then some 0 else rest

unfoldable pub count_lines : Text → ℕ
count_lines [] = 0
count_lines (c ∷ s) = (if c == 10 then 1 else 0) + count_lines s

abbrev scan_hit : Python → Files → ℕ → Text → Text → Option ℕ → List Json
scan_hit f files context path text none = []
scan_hit f files context path text (some at) =
    let line_start = count_lines (take at text) + 1 in
    let line_end = min (line_start + 20) (line_start + count_lines (drop at text)) in
    item_unless_blank (codes "keyword-fallback") path line_start line_end
      (read_code_snippet f files path line_start line_end context)

-- The loop over the files: `scanned` of them are behind, and `found` holds the snippets so far.
abbrev scan_text : Python → Files → ℕ → Text → Text → Option Text → List Json
scan_text f files context needle path none = []
scan_text f files context needle path (some text) =
    scan_hit f files context path text (find_text needle (f.lower text))

abbrev is_found : List Json → Bool
is_found [] = false
is_found (v ∷ vs) = true

-- The limit on the snippets is tested after a file whose text has the needle.
abbrev has_needle : Python → Text → Option Text → Bool
has_needle f needle none = false
has_needle f needle (some text) = elim (find_text needle (f.lower text)) [
  | none ↦ false
  | some at ↦ true
]

unfoldable pub scan :
    Python → Files → ℕ → ℕ → Text → ℕ → List Json → List (Text × Option Text) → List Json
unfolding read_code_snippet find_text count_lines
scan f files max_files context needle scanned found [] = found
scan f files max_files context needle scanned found ((path, text) ∷ paths) =
    let found' = found ++ scan_text f files context needle path text in
    let rest = scan f files max_files context needle (suc scanned) found' paths in
    if ltb 300 (suc scanned)
    then found
    else if has_needle f needle text
    then (if leb max_files (length found') then found' else rest)
    else rest

abbrev or_scan : Python → Files → ℕ → ℕ → Text → List Json → List Json
or_scan f files max_files context needle (v ∷ vs) = v ∷ vs
or_scan f files max_files context needle [] =
    if is_blank needle then [] else scan f files max_files context needle 0 [] files.scanned

-- `_build_local_fallback_snippets`
unfoldable pub build_local_fallback_snippets : Python → Files → Text → List Json → ℕ → ℕ → List Json
unfolding hit_snippets scan
build_local_fallback_snippets f files query graph_hits max_files context =
    or_scan f files max_files context (f.lower (f.strip query))
      (hit_snippets f files context (take max_files graph_hits))
