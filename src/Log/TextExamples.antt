-- ===== src/Log/TextExamples.antt =====
-- Texts on which the theorems of Log about what is put out are applied.
use panda_lib.Base.{ℕ, ◌≡◌, refl, some, List, [], ◌∷◌, ◌++◌, ◌≤◌, ◌<◌, take, drop}
use panda_lib.Refcnt.{Ptr}
use panda_lib.Log.Escape.{escape}
use panda_lib.Log.Pretty.{prettify_json, squeezed, prettify_json-squeezed}
use panda_lib.Log.Multi.{
  Channels, channel, no_channels, plain, multi, log, log_format, to_channels, calls, leaves,
  to_channels-calls,
}
use panda_lib.Log.Lines.{text, behind_end, in_template, format_multiline, format_multiline-lines}
use panda_lib.Log.Pattern.{Info, format}
use panda_lib.Log.Ends.{Ends, format-Ends}

-- `{"a":[1]}`
abbrev json : List ℕ
json = 123 ∷ 34 ∷ 97 ∷ 34 ∷ 58 ∷ 91 ∷ 49 ∷ 93 ∷ 125 ∷ []

prettify_json_run :
    prettify_json 3 json
    ≡ some (123 ∷ 10 ∷ 32 ∷ 32 ∷ 32 ∷ 32 ∷ 34 ∷ 97 ∷ 34 ∷ 58 ∷ 91 ∷ 49 ∷ 93 ∷ 10 ∷ 125 ∷ [])
unfolding prettify_json
prettify_json_run = refl

prettify_json-squeezed_example :
    (out : List ℕ) × (prettify_json 3 json ≡ some out) × (squeezed out ≡ squeezed json)
prettify_json-squeezed_example = prettify_json-squeezed 3 json

-- Byte 20 in front of the character 0, and byte 200.
escape_collides : escape (20 ∷ 48 ∷ []) ≡ escape (200 ∷ [])
unfolding escape
escape_collides = refl

-- A MultiLogger with a logger for all, and one with a formatter inside of a MultiLogger for errors.
abbrev channels : Channels
channels =
    channel (plain 1) 0 1 (channel (multi (channel (plain 2) 8 0 no_channels)) 0 5 no_channels)

abbrev render : Ptr → List ℕ
render f = f ∷ []

to_channels_run : to_channels render 5 9 [] channels ≡ log 1 (9 ∷ []) ∷ log_format 2 8 ∷ []
unfolding to_channels
to_channels_run = refl

to_channels-calls_example :
    to_channels render 5 9 [] channels ≡ calls render 5 (leaves 9 0 channels)
to_channels-calls_example = to_channels-calls render 5 9 channels

-- Two lines in the template `<>`.
format_multiline_run :
    format_multiline (60 ∷ 62 ∷ []) 1 (97 ∷ 10 ∷ 98 ∷ [])
    ≡ text (60 ∷ 97 ∷ 62 ∷ 10 ∷ 60 ∷ 98 ∷ 62 ∷ [])
unfolding format_multiline
format_multiline_run = refl

format_multiline-lines_example :
    (1 ≤ 2
      → format_multiline (60 ∷ 62 ∷ []) 1 (97 ∷ 10 ∷ 98 ∷ [])
        ≡ text (
            take 1 (60 ∷ 62 ∷ [])
            ++ in_template (take 1 (60 ∷ 62 ∷ [])) (drop 1 (60 ∷ 62 ∷ [])) (97 ∷ 10 ∷ 98 ∷ [])))
    × (2 < 1 → format_multiline (60 ∷ 62 ∷ []) 1 (97 ∷ 10 ∷ 98 ∷ []) ≡ behind_end)
format_multiline-lines_example = format_multiline-lines (60 ∷ 62 ∷ []) 1 (97 ∷ 10 ∷ 98 ∷ [])

abbrev info : Info
info = record {
  func = [];
  file = 100 ∷ 47 ∷ 102 ∷ [];
  line = 55 ∷ [];
  module_name = [];
  level = 101 ∷ [];
  color = [];
  thread_id = 49 ∷ [];
  pid = 50 ∷ [];
  program_name = 112 ∷ [];
  date = λ n. 116 ∷ [];
  seconds = 57 ∷ [];
  nanoseconds = 0;
  to_string = λ n. 48 ∷ [];
}

-- `[%L/%1M] %f:%l` of a module without a name.
format_run :
    format info
      (109 ∷ [])
      (91 ∷ 37 ∷ 76 ∷ 47 ∷ 37 ∷ 49 ∷ 77 ∷ 93 ∷ 32 ∷ 37 ∷ 102 ∷ 58 ∷ 37 ∷ 108 ∷ [])
    ≡ some (text (91 ∷ 101 ∷ 93 ∷ 32 ∷ 102 ∷ 58 ∷ 55 ∷ []))
unfolding format
format_run = refl

-- `abc%1m%3M` of a module without a name: the place of the message is cut off.
format_cut :
    format info (97 ∷ 10 ∷ 98 ∷ []) (97 ∷ 98 ∷ 99 ∷ 37 ∷ 49 ∷ 109 ∷ 37 ∷ 51 ∷ 77 ∷ [])
    ≡ some behind_end
unfolding format
format_cut = refl

format-Ends_example :
    Ends info (97 ∷ 10 ∷ 98 ∷ []) (format info (97 ∷ 10 ∷ 98 ∷ []) (37 ∷ 49 ∷ 109 ∷ []))
format-Ends_example = format-Ends info (97 ∷ 10 ∷ 98 ∷ []) (37 ∷ 49 ∷ 109 ∷ [])
