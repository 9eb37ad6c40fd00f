-- ===== src/Log/Multi.antt =====
-- MultiLogger of src/panda/log/multi.icc: a message for several loggers, each with a least level and a
-- formatter or none. Loggers and formatters are told by address, 0 is null; levels are numbers in
-- their order. What a formatter makes of the message is an argument.
use panda_lib.Base.{
  ℕ, ◌≡◌, refl, sym, ap, ap₂, ◌∙◌, Bool-cases, List, [], ◌∷◌, ◌++◌, ◌==◌, ltb, ltb→lt, ltb→ge,
  lt→ltb, ge→ltb, ◌<◌, ◌≤◌, arith, inl, inr, if◌then◌else◌,
}
use Prim.Native.Nat.{max}
use panda_lib.Refcnt.{Ptr}

-- A logger is a MultiLogger with its channels or another one.
mutual
  pub data Logger : Type 0 where
    plain : Ptr → Logger
    multi : Channels → Logger

  pub data Channels : Type 0 where
    no_channels : Channels
    channel : (logger : Logger) (formatter : Ptr) (min_level : ℕ) (others : Channels) → Channels

-- The calls of virtual functions of the loggers: `log_format` with a formatter, and `log` with a text.
pub data Call : Type 0 where
  log_format : Ptr → Ptr → Call
  log : Ptr → List ℕ → Call

-- `defmsg`, made once by the first channel that needs it; an empty one is made again.
abbrev pub made : (Ptr → List ℕ) → Ptr → List ℕ → List ℕ
made format fmt [] = format fmt
made format fmt (c ∷ cs) = c ∷ cs

abbrev pub own_or : Ptr → Ptr → Ptr
own_or formatter fmt = if formatter == 0 then fmt else formatter

-- `MultiLogger::log_format`: the calls, from a channel on.
unfoldable pub to_channels : (Ptr → List ℕ) → ℕ → Ptr → List ℕ → Channels → List Call
to_channels format level fmt defmsg no_channels = []
to_channels format level fmt defmsg (channel (multi channels) formatter min_level others) =
    let rest = to_channels format level fmt defmsg others in
    let inside = to_channels format level (own_or formatter fmt) [] channels in
    if ltb level min_level then rest else inside ++ rest
to_channels format level fmt defmsg (channel (plain p) formatter min_level others) =
    let rest = to_channels format level fmt defmsg others in
    let formatted = to_channels format level fmt (made format fmt defmsg) others in
    if ltb level min_level
    then rest
    else if formatter == 0
    then log p (made format fmt defmsg) ∷ formatted
    else log_format p formatter ∷ rest

-- The loggers that are no MultiLogger, in their order: each with its formatter, the one that it takes
-- over from the MultiLoggers around it, and the greatest of the levels on the way to it.
pub record Leaf : Type 0 where
  pub logger : Ptr
  pub formatter : Ptr
  pub taken_over : Ptr
  pub least : ℕ

abbrev pub leaves : Ptr → ℕ → Channels → List Leaf
leaves fmt least no_channels = []
leaves fmt least (channel (multi channels) formatter min_level others) =
    leaves (own_or formatter fmt) (max least min_level) channels ++ leaves fmt least others
leaves fmt least (channel (plain p) formatter min_level others) =
    record { logger = p; formatter = formatter; taken_over = fmt; least = max least min_level }
    ∷ leaves fmt least others

-- What a message makes of a leaf: one call, or none.
abbrev pub calls : (Ptr → List ℕ) → ℕ → List Leaf → List Call
calls format level [] = []
calls format level (x ∷ xs) =
    let rest = calls format level xs in
    if ltb level x.least
    then rest
    else if x.formatter == 0
    then log x.logger (format x.taken_over) ∷ rest
    else log_format x.logger x.formatter ∷ rest

calls-append :
    (format : Ptr → List ℕ) (level : ℕ) (xs ys : List Leaf)
    → calls format level (xs ++ ys) ≡ calls format level xs ++ calls format level ys
calls-append format level [] ys = refl
calls-append format level (x ∷ xs) ys = elim (Bool-cases (ltb level x.least)) [
  | inl e ↦ rw e (calls-append format level xs ys)
  | inr e ↦ elim (Bool-cases (x.formatter == 0)) [
    | inl q ↦
        rw (e, q)
          (ap (λ zs. log x.logger (format x.taken_over) ∷ zs) (calls-append format level xs ys))
    | inr q ↦
        rw (e, q)
          (ap (λ zs. log_format x.logger x.formatter ∷ zs) (calls-append format level xs ys))
  ]
]

-- Behind a level that is too high nobody is called.
calls_below :
    (format : Ptr → List ℕ) (level : ℕ) (fmt least : ℕ) (cs : Channels)
    → level < least
    → calls format level (leaves fmt least cs) ≡ []
calls_below format level fmt least no_channels low = refl
calls_below format level fmt least (channel (multi cs) formatter min_level others) low =
    calls-append format level (leaves (own_or formatter fmt) (max least min_level) cs)
      (leaves fmt least others)
    ∙ ap₂ ◌++◌
        (calls_below format level (own_or formatter fmt) (max least min_level) cs (omega arith))
        (calls_below format level fmt least others low)
calls_below format level fmt least (channel (plain p) formatter min_level others) low =
    rw (lt→ltb level (max least min_level) (omega arith))
      (calls_below format level fmt least others low)

ltb-max : (level least m : ℕ) → least ≤ level → ltb level (max least m) ≡ ltb level m
ltb-max level least m low = elim (Bool-cases (ltb level m)) [
  | inl e ↦
      let small : level < m = ltb→lt level m e in rw e (lt→ltb level (max least m) (omega arith))
  | inr e ↦
      let great : m ≤ level = ltb→ge level m e in rw e (ge→ltb level (max least m) (omega arith))
]

made_same :
    (format : Ptr → List ℕ) (fmt : Ptr) (t : List ℕ) → format fmt ≡ t → made format fmt t ≡ t
made_same format fmt [] e = e
made_same format fmt (c ∷ cs) e = refl

calls_all :
    (format : Ptr → List ℕ) (level fmt : ℕ) (defmsg : List ℕ) (least : ℕ) (cs : Channels)
    → least ≤ level
    → made format fmt defmsg ≡ format fmt
    → to_channels format level fmt defmsg cs ≡ calls format level (leaves fmt least cs)
unfolding to_channels
calls_all format level fmt defmsg least no_channels low text = refl
calls_all format level fmt defmsg least (channel (multi cs) formatter min_level others) low text =
    elim (Bool-cases (ltb level min_level)) [
      | inl e ↦
          let small : level < min_level = ltb→lt level min_level e in
          rw e (
            calls_all format level fmt defmsg least others low text
            ∙ ap (λ zs. zs ++ calls format level (leaves fmt least others))
                (sym (
                  calls_below format level (own_or formatter fmt) (max least min_level) cs
                    (omega arith)))
            ∙ sym (
                calls-append format level (leaves (own_or formatter fmt) (max least min_level) cs)
                  (leaves fmt least others)))
      | inr e ↦
          let great : min_level ≤ level = ltb→ge level min_level e in
          rw e (
            ap₂ ◌++◌
              (calls_all format level (own_or formatter fmt) [] (max least min_level) cs
                (omega arith) refl)
              (calls_all format level fmt defmsg least others low text)
            ∙ sym (
                calls-append format level (leaves (own_or formatter fmt) (max least min_level) cs)
                  (leaves fmt least others)))
    ]
calls_all format level fmt defmsg least (channel (plain p) formatter min_level others) low text =
    elim (Bool-cases (ltb level min_level)) [
      | inl e ↦
          rw (ltb-max level least min_level low, e)
            (calls_all format level fmt defmsg least others low text)
      | inr e ↦ elim (Bool-cases (formatter == 0)) [
        | inl q ↦
            rw (ltb-max level least min_level low, e, q)
              (ap₂ (λ t zs. log p t ∷ zs) text
                (calls_all format level fmt (made format fmt defmsg) least others low
                  (ap (made format fmt) text ∙ made_same format fmt (format fmt) refl)))
        | inr q ↦
            rw (ltb-max level least min_level low, e, q)
              (ap (λ zs. log_format p formatter ∷ zs)
                (calls_all format level fmt defmsg least others low text))
      ]
    ]

-- A MultiLogger calls the loggers that are in it, at any depth, in their order, each once where
-- the level of the message is at least that of each channel on the way to it, and none else: with
-- its own formatter, or with the text that the formatter which it takes over makes.
pub to_channels-calls :
    (format : Ptr → List ℕ) (level : ℕ) (fmt : Ptr) (channels : Channels)
    → to_channels format level fmt [] channels ≡ calls format level (leaves fmt 0 channels)
to_channels-calls format level fmt channels =
    calls_all format level fmt [] 0 channels (omega arith) refl
