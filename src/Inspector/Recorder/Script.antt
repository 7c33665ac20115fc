-- ===== src/Inspector/Recorder/Script.antt =====
-- The code generator of ios-inspector/sandstorm_inspector/recorder.py
pub mod Names
pub mod Literal
use mathlib.Core.List.{reverse}
use sandstorm_ios_driver.Prelude.{
  ℕ, suc, ◌+◌, ◌-◌, String, Bool, true, false, not, ◌&&◌, ◌||◌, Option, none, some, List, [], ◌∷◌,
  ◌++◌, map, ◌==◌, leb, length, if◌then◌else◌,
}
use sandstorm_ios_driver.Prelude.Int.{pos}
use sandstorm_ios_driver.Prelude.Text.{Text, codes, is_empty, join, starts_with, strip}
use sandstorm_ios_driver.Python.Json.{Json, str, int, end}
use sandstorm_ios_driver.Python.Runtime.{Runtime}
use sandstorm_ios_driver.Inspector.Suggestion.{escape, quoted}
use sandstorm_ios_driver.Inspector.Recorder.{Recorder, Step}
use sandstorm_ios_driver.Inspector.Tree.{Node, node, leaf, attr, text_or_empty}

-- `[0-9a-zA-Z]`, and the digits
abbrev pub is_digit : ℕ → Bool
is_digit c = leb 48 c && leb c 57

abbrev pub is_alnum : ℕ → Bool
is_alnum c = is_digit c || (leb 65 c && leb c 90) || (leb 97 c && leb c 122)

-- `_IDENTIFIER_RE.sub("_", name)`: one underscore (95) for each run of other characters. The flag
-- is set inside a run.
unfoldable pub collapse : Bool → Text → Text
collapse inside [] = []
collapse inside (c ∷ s) =
    let rest = collapse (not (is_alnum c)) s in
    if is_alnum c then c ∷ rest else if inside then rest else 95 ∷ rest

-- `s.strip("_")`
unfoldable pub lstrip_underscore : Text → Text
lstrip_underscore [] = []
lstrip_underscore (c ∷ s) = if c == 95 then lstrip_underscore s else c ∷ s

unfoldable pub strip_underscore : Text → Text
unfolding lstrip_underscore
strip_underscore s = reverse (lstrip_underscore (reverse (lstrip_underscore s)))

-- `s.lower()`, of the ASCII text that is left
abbrev pub lower_char : ℕ → ℕ
lower_char c = if leb 65 c && leb c 90 then c + 32 else c

unfoldable pub cleaned : Text → Text
unfolding collapse strip_underscore
cleaned name = map lower_char (strip_underscore (collapse false name))

abbrev pub or_recorded : Text → Text
or_recorded s = if is_empty s then codes "recorded_flow" else s

abbrev pub starts_with_digit : Text → Bool
starts_with_digit [] = false
starts_with_digit (c ∷ s) = is_digit c

unfoldable pub function_name : Text → Text → Text
unfolding cleaned
function_name name prefix =
    let title = or_recorded (cleaned name) in
    if starts_with title prefix
    then title
    else if is_empty prefix && starts_with_digit title
    then codes "case_" ++ title
    else prefix ++ title

-- `stamp` is the time of the call.
unfoldable pub header : Text → Text → Text → Text → List Text
header stamp name bundle_id run_hint =
    (codes "\"\"\"" ++ name)
    ∷ []
    ∷ (codes "Recorded with the Sandstorm iOS Inspector on " ++ (stamp ++ codes "."))
    ∷ (codes "App under test: " ++ bundle_id)
    ∷ []
    ∷ codes "Run it against a started agent:"
    ∷ codes "    sandstorm ios start --udid <UDID> --token <token>"
    ∷ (codes "    " ++ run_hint)
    ∷ codes "\"\"\""
    ∷ []

unfoldable pub connection : Text → Text → List Text → List Text
connection host port extra_imports =
    (codes "import os" ∷ [])
    ++ (extra_imports
        ++ ([]
            ∷ codes "from sandstorm_ios import IOSDevice"
            ∷ []
            ∷ (codes "HOST = os.environ.get(\"SANDSTORM_AGENT_HOST\", \"" ++ (host ++ codes "\")"))
            ∷ (codes "PORT = int(os.environ.get(\"SANDSTORM_AGENT_PORT\", \""
                ++ (port ++ codes "\"))"))
            ∷ codes "TOKEN = os.environ.get(\"SANDSTORM_TOKEN\")"
            ∷ []))

abbrev pub indent : String → Text → Text
indent blanks line = codes blanks ++ line

abbrev pub bundle_line : Text → Text
bundle_line bundle_id = codes "BUNDLE_ID = " ++ quoted bundle_id

-- The lines of `_render_pytest` before the recorded ones.
unfoldable pub pytest_head : List Text → Text → Text → Text → Text → List Text
unfolding connection function_name
pytest_head head bundle_id name host port =
    head
    ++ (([] ∷ [])
        ++ (connection host port ([] ∷ codes "import pytest" ∷ [])
            ++ ([]
                ∷ bundle_line bundle_id
                ∷ []
                ∷ []
                ∷ codes "@pytest.fixture(scope=\"module\")"
                ∷ codes "def device():"
                ∷ codes "    device = IOSDevice(host=HOST, port=PORT, token=TOKEN)"
                ∷ codes "    device.connect(retries=3)"
                ∷ codes "    yield device"
                ∷ codes "    device.disconnect()"
                ∷ []
                ∷ []
                ∷ (codes "def " ++ (function_name name (codes "test_") ++ codes "(device):"))
                ∷ codes "    app = device.app(BUNDLE_ID)"
                ∷ codes "    page = app.page"
                ∷ []
                ∷ [])))

unfoldable pub pytest_lines : List Text → List Text → Text → Text → Text → Text → List Text
unfolding pytest_head
pytest_lines head body bundle_id name host port =
    pytest_head head bundle_id name host port ++ map (indent "    ") body

unfoldable pub script_head : List Text → Text → Text → Text → List Text
unfolding connection
script_head head bundle_id host port =
    head
    ++ (([] ∷ [])
        ++ (connection host port []
            ++ ([]
                ∷ bundle_line bundle_id
                ∷ []
                ∷ []
                ∷ codes "def main() -> None:"
                ∷ codes "    device = IOSDevice(host=HOST, port=PORT, token=TOKEN)"
                ∷ codes "    device.connect(retries=3)"
                ∷ codes "    try:"
                ∷ codes "        app = device.app(BUNDLE_ID)"
                ∷ codes "        page = app.page"
                ∷ []
                ∷ [])))

abbrev pub script_tail : List Text
script_tail =
    codes "    finally:"
    ∷ codes "        device.disconnect()"
    ∷ []
    ∷ []
    ∷ codes "if __name__ == \"__main__\":"
    ∷ codes "    main()"
    ∷ []

unfoldable pub script_lines : List Text → List Text → Text → Text → Text → List Text
unfolding script_head
script_lines head body bundle_id host port =
    script_head head bundle_id host port ++ (map (indent "        ") body ++ script_tail)

-- `"\n".join(lines) + "\n"`
unfoldable pub render : List Text → Text
unfolding join
render lines = join (10 ∷ []) lines ++ (10 ∷ [])

pub data Style : Type 0 where
  pytest script : Style

-- `… or ["pass  # nothing was recorded"]`
abbrev pub or_pass : List Text → List Text
or_pass [] = codes "pass  # nothing was recorded" ∷ []
or_pass (l ∷ ls) = l ∷ ls

-- `describe_target`: the first of three attributes with a text that is not blank, else the value,
-- else the type
abbrev pub titled : Option Text → Text → Option Text
titled (some t) s = some t
titled none s = if is_empty (strip s) then none else some (strip s)

abbrev pub or_element : Text → Text
or_element t = if is_empty t then codes "element" else t

abbrev pub or_type : Option Text → Text → Text
or_type (some t) type = t
or_type none type = or_element type

module _ {F : Type 0} where
  unfoldable pub describe_target : Option (Node F) → Text
  describe_target none = codes "screen"
  describe_target (some (node end leaf)) = codes "screen"
  describe_target (some n) =
      let text_of = λ (k : String). text_or_empty (attr k n) in
      or_type
        (titled
          (titled (titled (titled none (text_of "identifier")) (text_of "label")) (text_of "title"))
          (text_of "value"))
        (text_of "type")

module _ {F : Type 0} (rt : Runtime F) where
  -- `generate`, with the time of the call
  unfoldable pub generate : Text → Text → Text → Style → Text → ℕ → Recorder → Text
  unfolding render pytest_lines script_lines header
  generate stamp bundle_id name pytest host port r = render (
      pytest_lines (header stamp name bundle_id (codes "pytest this_file.py"))
        (or_pass (map (λ s. s.code) r.steps)) bundle_id name host (rt.show (int (pos port))))
  generate stamp bundle_id name script host port r = render (
      script_lines (header stamp name bundle_id (codes "python this_file.py"))
        (or_pass (map (λ s. s.code) r.steps)) bundle_id host (rt.show (int (pos port))))
