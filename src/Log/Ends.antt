-- ===== src/Log/Ends.antt =====
-- PatternFormatter::format of src/panda/log/PatternFormatter.icc ends on every pattern.
use panda_lib.Base.{
  ℕ, zero, suc, ◌-◌, ◌≤◌, ◌≡◌, refl, ap, Bool, true, false, Bool-cases, ◌||◌, ◌&&◌, not, Option,
  none, some, List, [], ◌∷◌, ◌++◌, ◌==◌, ltb, ltb→lt, ltb→ge, leb, elem, length, take, drop, ◌⊎◌,
  if◌then◌else◌, inl, inr, arith,
}
use panda_lib.Log.Lines.{Text, text, behind_end, format_multiline-lines}
use panda_lib.Log.Pattern.{
  Info, Directive, function, file, line, message, module_name, level, time, thread, pid, program,
  color, clear, dot, other, directive, Formatted, formatted, bad_pattern, stopped, act, switch,
  format_loop, finished, format,
}
use panda_lib.Log.Pretty.{length-drop}

-- A place is kept for a message of several lines alone.
abbrev IsAllowed : List ℕ → Option ℕ → Type 0
IsAllowed msg none = Unit {0}
IsAllowed msg (some place) = elem 10 msg ≡ true

abbrev IsOver : List ℕ → Formatted → Type 0
IsOver msg (formatted ret multiline) = IsAllowed msg multiline
IsOver msg bad_pattern = Unit {0}
IsOver msg stopped = ⊥

either :
    (msg : List ℕ) (b : Bool) (x y : Formatted)
    → (b ≡ true → IsOver msg x)
    → IsOver msg y
    → IsOver msg (if b then x else y)
either msg true x y p q = p refl
either msg false x y p q = q

right_and : (a b : Bool) → (a && b) ≡ true → b ≡ true
right_and true b e = e
right_and false b e = let no : false ≡ true = e in cc

module _ (info : Info) (msg : List ℕ) (n : ℕ) (go : List ℕ → Option ℕ → List ℕ → Formatted)
    (over : (ret : List ℕ) (multiline : Option ℕ) (rest : List ℕ)
      → length rest ≤ n
      → IsAllowed msg multiline
      → IsOver msg (go ret multiline rest)) where
  act-IsOver :
      (dotted numbered : Formatted) (k : Directive) (d : ℕ) (ret : List ℕ) (multiline : Option ℕ)
      (x y : ℕ) (rest : List ℕ)
      → IsOver msg dotted
      → IsOver msg numbered
      → length rest ≤ n
      → IsAllowed msg multiline
      → IsOver msg (act info msg go dotted numbered k d ret multiline x y rest)
  unfolding act
  act-IsOver dotted numbered function d ret multiline x y rest p q fits m =
      over _ multiline rest fits m
  act-IsOver dotted numbered file d ret multiline x y rest p q fits m = over _ multiline rest fits m
  act-IsOver dotted numbered line d ret multiline x y rest p q fits m = over _ multiline rest fits m
  act-IsOver dotted numbered message d ret multiline x y rest p q fits m =
      either msg (x == 1 && elem 10 msg) _ _
        (λ e. over _ _ rest fits (right_and (x == 1) (elem 10 msg) e)) (over _ _ rest fits m)
  act-IsOver dotted numbered module_name d ret multiline x y rest p q fits m =
      elim info.module_name
        as (λ name. IsOver msg (elim name [
          | [] ↦
              go (if not (x == 0) && leb x (length ret) then take (length ret - x) ret else ret)
                multiline (drop y rest)
          | c ∷ cs ↦ go (ret ++ (c ∷ cs)) multiline rest
        ])) [
          | [] ↦ over _ multiline (drop y rest) (omega (arith, length-drop y rest)) m
          | c ∷ cs ↦ over _ multiline rest fits m
        ]
  act-IsOver dotted numbered level d ret multiline x y rest p q fits m =
      over _ multiline rest fits m
  act-IsOver dotted numbered time d ret multiline x y rest p q fits m = over _ multiline rest fits m
  act-IsOver dotted numbered thread d ret multiline x y rest p q fits m =
      over _ multiline rest fits m
  act-IsOver dotted numbered pid d ret multiline x y rest p q fits m = over _ multiline rest fits m
  act-IsOver dotted numbered program d ret multiline x y rest p q fits m =
      over _ multiline rest fits m
  act-IsOver dotted numbered color d ret multiline x y rest p q fits m =
      over _ multiline rest fits m
  act-IsOver dotted numbered clear d ret multiline x y rest p q fits m =
      over _ multiline rest fits m
  act-IsOver dotted numbered dot d ret multiline x y [] p q fits m = tt
  act-IsOver dotted numbered dot d ret multiline x y (c ∷ cs) p q fits m = p
  act-IsOver dotted numbered other d ret multiline x y [] p q fits m = tt
  act-IsOver dotted numbered other d ret multiline x y (c ∷ cs) p q fits m =
      either msg (ltb d 48 || ltb 57 d) bad_pattern numbered (λ e. tt) q

  switch-IsOver :
      (ret : List ℕ) (multiline : Option ℕ) (x y : ℕ) (dotted : Bool) (rest : List ℕ)
      → length rest ≤ suc n
      → IsAllowed msg multiline
      → IsOver msg (switch info msg go ret multiline x y dotted rest)
  unfolding switch
  switch-IsOver ret multiline x y dotted [] fits m = tt
  switch-IsOver ret multiline x y dotted (d ∷ rest) fits m =
      act-IsOver _ _ (directive d) d ret multiline x y rest
        (switch-IsOver ret multiline x y true rest (omega arith) m)
        (switch-IsOver ret multiline (if dotted then x else d - 48) (if dotted then d - 48 else y)
          dotted rest (omega arith) m)
        (omega arith) m

module _ (info : Info) (msg : List ℕ) where
  loop-IsOver :
      (fuel : ℕ) (ret : List ℕ) (multiline : Option ℕ) (cs : List ℕ)
      → length cs ≤ fuel
      → IsAllowed msg multiline
      → IsOver msg (format_loop info msg fuel ret multiline cs)
  unfolding format_loop
  loop-IsOver fuel ret multiline [] fits m = m
  loop-IsOver zero ret multiline (c ∷ cs) fits m = absurd (omega arith)
  loop-IsOver (suc fuel) ret multiline (c ∷ []) fits m =
      loop-IsOver fuel (ret ++ c ∷ []) multiline [] (omega arith) m
  loop-IsOver (suc fuel) ret multiline (c ∷ d ∷ cs) fits m =
      either msg (c == 37) _ _
        (λ e.
          switch-IsOver info msg fuel (format_loop info msg fuel) (loop-IsOver fuel) ret multiline 0
            0 false (d ∷ cs) (omega arith) m)
        (loop-IsOver fuel (ret ++ c ∷ []) multiline (d ∷ cs) (omega arith) m)

  -- The ways in which `format` ends: the exception for a bad pattern, a text, or that of an insertion
  -- behind the end, which only a message of several lines can bring about.
  abbrev pub Ends : Option Text → Type 0
  Ends r =
      (r ≡ none)
      ⊎ (((t : List ℕ) × (r ≡ some (text t))) ⊎ ((elem 10 msg ≡ true) × (r ≡ some behind_end)))

  finished-Ends : (r : Formatted) → IsOver msg r → Ends (finished info msg r)
  unfolding finished
  finished-Ends (formatted ret none) o = inr (inl (ret, refl))
  finished-Ends (formatted ret (some place)) o =
      let (lines, beyond) = format_multiline-lines ret place msg in
      elim (Bool-cases (ltb (length ret) place)) [
        | inl e ↦ inr (inr (o, ap some (beyond (ltb→lt (length ret) place e))))
        | inr e ↦ inr (inl (_, ap some (lines (ltb→ge (length ret) place e))))
      ]
  finished-Ends bad_pattern o = inl refl
  finished-Ends stopped o = absurd o

  -- `format` ends on every pattern, with a text, with the exception for a bad pattern, or, for a
  -- message of several lines, with that of an insertion behind the end.
  pub format-Ends : (fmt : List ℕ) → Ends (format info msg fmt)
  unfolding format
  format-Ends fmt =
      finished-Ends (format_loop info msg (length fmt) [] none fmt)
        (loop-IsOver (length fmt) [] none fmt (omega arith) tt)
