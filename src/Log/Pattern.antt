-- ===== src/Log/Pattern.antt =====
-- PatternFormatter::format of src/panda/log/PatternFormatter.icc, not on Windows. The texts of the
-- parts of a message, and what `strftime`, the thread, the process and `to_string` give, are
-- arguments; precisions and numbers are single digits.
use panda_lib.Base.{
  ℕ, zero, suc, ◌+◌, ◌-◌, ◌%◌, ◌^◌, Bool, true, false, ◌||◌, ◌&&◌, not, Option, none, some, List,
  [], ◌∷◌, ◌++◌, ◌==◌, ltb, leb, elem, length, take, drop, if◌then◌else◌,
}
use panda_lib.Log.Lines.{Text, text, no_fuel, format_multiline}

pub record Info : Type 0 where
  pub func : List ℕ
  pub file : List ℕ
  pub line : List ℕ
  pub module_name : List ℕ
  pub level : List ℕ
  pub color : List ℕ
  pub thread_id : List ℕ
  pub pid : List ℕ
  pub program_name : List ℕ
  pub date : ℕ → List ℕ
  pub seconds : List ℕ
  pub nanoseconds : ℕ
  pub to_string : ℕ → List ℕ

abbrev zero_below : ℕ → ℕ → List ℕ
zero_below nsec n = if ltb nsec n then 48 ∷ [] else []

-- `add_mks`
unfoldable pub add_mks : Info → ℕ → List ℕ → List ℕ
add_mks info prec dest =
    let nsec = info.nanoseconds % 10 ^ 9 in
    let long =
      dest
      ++ 46 ∷ []
      ++ zero_below nsec (10 ^ 8)
      ++ zero_below nsec (10 ^ 7)
      ++ zero_below nsec (10 ^ 6)
      ++ zero_below nsec (10 ^ 5)
      ++ zero_below nsec (10 ^ 4)
      ++ zero_below nsec (10 ^ 3)
      ++ zero_below nsec (10 ^ 2)
      ++ zero_below nsec 10
      ++ info.to_string nsec in
    take (length long - 9 + prec) long

-- What is behind the last slash, or all where there is none.
abbrev pub base_name : List ℕ → List ℕ
base_name [] = []
base_name (c ∷ cs) =
    let later = base_name cs in if elem 47 cs then later else if c == 47 then cs else c ∷ cs

-- The cases of the `switch`.
pub data Directive : Type 0 where
  function file line message module_name level time thread pid program color clear dot other :
      Directive

unfoldable pub directive : ℕ → Directive
directive c =
    if c == 70
    then function
    else if c == 102
    then file
    else if c == 108
    then line
    else if c == 109
    then message
    else if c == 77
    then module_name
    else if c == 76
    then level
    else if c == 116
    then time
    else if c == 84
    then thread
    else if c == 112
    then pid
    else if c == 80
    then program
    else if c == 99
    then color
    else if c == 67
    then clear
    else if c == 46
    then dot
    else other

-- The text so far and the place of a message of several lines, an exception, or no fuel.
pub data Formatted : Type 0 where
  formatted : List ℕ → Option ℕ → Formatted
  bad_pattern : Formatted
  stopped : Formatted

module _ (info : Info) (msg : List ℕ) where
  -- One case, with the numbers before it. `go` is the loop behind it; `dotted` and `numbered` are the
  -- `switch` once more, behind a dot and behind a digit.
  unfoldable pub act :
      (List ℕ → Option ℕ → List ℕ → Formatted)
      → Formatted
      → Formatted
      → Directive
      → ℕ
      → List ℕ
      → Option ℕ
      → ℕ
      → ℕ
      → List ℕ
      → Formatted
  unfolding add_mks
  act go dotted numbered function d ret multiline x y rest =
      go (ret ++ (elim info.func [ [] ↦ 60 ∷ 116 ∷ 111 ∷ 112 ∷ 62 ∷ [] | c ∷ cs ↦ c ∷ cs ]))
        multiline rest
  act go dotted numbered file d ret multiline x y rest =
      go (ret ++ (if x == 0 then base_name info.file else info.file)) multiline rest
  act go dotted numbered line d ret multiline x y rest = go (ret ++ info.line) multiline rest
  act go dotted numbered message d ret multiline x y rest =
      if x == 1 && elem 10 msg
      then go ret (some (length ret)) rest
      else go (ret ++ msg) multiline rest
  act go dotted numbered module_name d ret multiline x y rest = elim info.module_name [
    | [] ↦
        go (if not (x == 0) && leb x (length ret) then take (length ret - x) ret else ret) multiline
          (drop y rest)
    | c ∷ cs ↦ go (ret ++ (c ∷ cs)) multiline rest
  ]
  act go dotted numbered level d ret multiline x y rest = go (ret ++ info.level) multiline rest
  act go dotted numbered time d ret multiline x y rest =
      let stamp = ret ++ (if ltb x 4 then info.date x else info.seconds) in
      go (if y == 0 then stamp else add_mks info y stamp) multiline rest
  act go dotted numbered thread d ret multiline x y rest = go (ret ++ info.thread_id) multiline rest
  act go dotted numbered pid d ret multiline x y rest = go (ret ++ info.pid) multiline rest
  act go dotted numbered program d ret multiline x y rest =
      go (ret ++ info.program_name) multiline rest
  act go dotted numbered color d ret multiline x y rest = go (ret ++ info.color) multiline rest
  act go dotted numbered clear d ret multiline x y rest =
      go (ret ++ (elim info.color [ [] ↦ [] | c ∷ cs ↦ 27 ∷ 91 ∷ 48 ∷ 109 ∷ [] ])) multiline rest
  act go dotted numbered dot d ret multiline x y [] = bad_pattern
  act go dotted numbered dot d ret multiline x y (c ∷ cs) = dotted
  act go dotted numbered other d ret multiline x y [] = bad_pattern
  act go dotted numbered other d ret multiline x y (c ∷ cs) =
      if ltb d 48 || ltb 57 d then bad_pattern else numbered

  -- The `switch` behind a percent sign. No theorem comes to the end of the pattern here.
  unfoldable pub switch :
      (List ℕ → Option ℕ → List ℕ → Formatted)
      → List ℕ
      → Option ℕ
      → ℕ
      → ℕ
      → Bool
      → List ℕ
      → Formatted
  unfolding act directive
  switch go ret multiline x y dotted [] = bad_pattern
  switch go ret multiline x y dotted (d ∷ rest) =
      let behind_dot = switch go ret multiline x y true rest in
      let behind_digit =
        switch go ret multiline (if dotted then x else d - 48) (if dotted then d - 48 else y) dotted
          rest in
      act go behind_dot behind_digit (directive d) d ret multiline x y rest

  -- The loop over the pattern.
  unfoldable pub format_loop : ℕ → List ℕ → Option ℕ → List ℕ → Formatted
  unfolding switch
  format_loop fuel ret multiline [] = formatted ret multiline
  format_loop zero ret multiline (c ∷ cs) = stopped
  format_loop (suc fuel) ret multiline (c ∷ []) = format_loop fuel (ret ++ c ∷ []) multiline []
  format_loop (suc fuel) ret multiline (c ∷ d ∷ cs) =
      if c == 37
      then switch (format_loop fuel) ret multiline 0 0 false (d ∷ cs)
      else format_loop fuel (ret ++ c ∷ []) multiline (d ∷ cs)

  unfoldable pub finished : Formatted → Option Text
  unfolding format_multiline
  finished (formatted ret none) = some (text ret)
  finished (formatted ret (some place)) = some (format_multiline ret place msg)
  finished bad_pattern = none
  finished stopped = some no_fuel

  -- `format`; `none` is the exception for a bad pattern.
  unfoldable pub format : List ℕ → Option Text
  unfolding finished format_loop
  format fmt = finished (format_loop (length fmt) [] none fmt)
