-- ===== src/Log/Send.antt =====
-- `do_log` of src/panda/log/log.cc: which loggers get a message, with which formatters.
use panda_lib.Base.{
  ℕ, zero, suc, ◌<◌, ◌≡◌, ◌≢◌, refl, ap, ◌∙◌, Bool-cases, true, false, List, [], ◌∷◌, ◌==◌, ==→eq,
  ==→ne, ne→==, eq→==, ◌⊎◌, inl, inr, arith, if◌then◌else◌,
}
use panda_lib.Refcnt.{Ptr}
use panda_lib.Log.{Data, Instance, effective, get_synced_data}
use panda_lib.Log.Walk.{parent_lower}
use panda_lib.Log.Sound.{IsSound, formatter-nonzero}

-- The messages given, each with its logger and formatter; the failures as in `Outcome`.
pub data Sent : Type 0 where
  sent : List (Ptr × Ptr) → Sent
  unknown_module : Sent
  no_fuel : Sent

unfoldable pub after_one : Ptr × Ptr → Sent → Sent
after_one g (sent gs) = sent (g ∷ gs)
after_one g unknown_module = unknown_module
after_one g no_fuel = no_fuel

-- The loop that passes a message on, from the module after which it goes on.
unfoldable pub pass_on : ℕ → Ptr → Instance → Sent
unfolding after_one
pass_on zero m s = no_fuel
pass_on (suc fuel) m s =
    let p = (s.objects m).parent in
    let d = s.thread_data.entry p in
    let rest = if (s.objects p).passthrough then pass_on fuel p s else sent [] in
    if p == 0
    then sent []
    else if s.thread_data.has p
    then (if d.effective_logger == 0
        then sent []
        else after_one (d.effective_logger, d.effective_formatter) rest)
    else unknown_module

unfoldable pub do_log : ℕ → Ptr → Instance → Sent
unfolding after_one pass_on get_synced_data
do_log fuel m s =
    let t = get_synced_data s in
    let d = t.thread_data.entry m in
    let rest = if (t.objects m).passthrough then pass_on fuel m t else sent [] in
    if t.thread_data.has m
    then (if d.effective_logger == 0
        then sent []
        else after_one (d.effective_logger, d.effective_formatter) rest)
    else unknown_module

-- Who hears of a message of a module: its effective logger where it has one, and where the module
-- passes messages through, those who hear of a message of its parent.
pub data Heard (s : Instance) : Ptr → List (Ptr × Ptr) → Type 0 where
  silent : (m : Ptr) → (s.src_data.entry m).effective_logger ≡ 0 → Heard s m []
  alone :
      (m : Ptr)
      → (s.src_data.entry m).effective_logger ≢ 0
      → ((s.objects m).passthrough ≡ false) ⊎ ((s.objects m).parent ≡ 0)
      → (s.src_data.entry m).effective_formatter ≢ 0
      → Heard s m
          (((s.src_data.entry m).effective_logger, (s.src_data.entry m).effective_formatter) ∷ [])
  passed :
      (m : Ptr) (gs : List (Ptr × Ptr))
      → (s.src_data.entry m).effective_logger ≢ 0
      → (s.objects m).passthrough ≡ true
      → (s.objects m).parent ≢ 0
      → (s.src_data.entry m).effective_formatter ≢ 0
      → Heard s (s.objects m).parent gs
      → Heard s m
          (((s.src_data.entry m).effective_logger, (s.src_data.entry m).effective_formatter) ∷ gs)

-- What `do_log` and the loop both do with a module that has an entry.
speak : ℕ → Ptr → Instance → Sent
unfolding after_one pass_on
speak fuel m s =
    let d = s.thread_data.entry m in
    if d.effective_logger == 0
    then sent []
    else after_one (d.effective_logger, d.effective_formatter)
        (if (s.objects m).passthrough then pass_on fuel m s else sent [])

module _ (s : Instance) (o : IsSound s) (synced : s.thread_data ≡ s.src_data) where
  pass_on-speak :
      (fuel : ℕ) (m : Ptr)
      → s.src_data.has m ≡ true
      → (s.objects m).parent ≢ 0
      → pass_on (suc fuel) m s ≡ speak fuel (s.objects m).parent s
  unfolding pass_on speak
  pass_on-speak fuel m known some_parent =
      let above : s.thread_data.has (s.objects m).parent ≡ true =
        ap (λ d. d.has (s.objects m).parent) synced ∙ (o.forest.up m known some_parent).0 in
      rw (ne→== (s.objects m).parent 0 some_parent, above) refl

  pass_on-root : (fuel : ℕ) (m : Ptr) → (s.objects m).parent ≡ 0 → pass_on (suc fuel) m s ≡ sent []
  unfolding pass_on
  pass_on-root fuel m root = rw (eq→== (s.objects m).parent 0 root) refl

  formatter_given :
      (m : Ptr) → s.src_data.has m ≡ true → (s.src_data.entry m).effective_formatter ≢ 0
  unfolding effective
  formatter_given m known = formatter-nonzero s m o known

  speak-Heard :
      (fuel : ℕ) (m : Ptr)
      → s.src_data.has m ≡ true
      → o.forest.depth m < fuel
      → (gs : List (Ptr × Ptr)) × (speak fuel m s ≡ sent gs) × Heard s m gs
  unfolding speak after_one
  speak-Heard zero m known enough = absurd (omega arith)
  speak-Heard (suc fuel) m known enough =
      elim (Bool-cases ((s.src_data.entry m).effective_logger == 0)) [
        | inl e ↦ ([], (rw (synced, e) refl), silent m (==→eq _ 0 e))
        | inr e ↦ elim (Bool-cases (s.objects m).passthrough) [
          | inr p ↦ (
            ((s.src_data.entry m).effective_logger, (s.src_data.entry m).effective_formatter) ∷ [],
            (rw (synced, e, p) refl),
            alone m (==→ne _ 0 e) (inl p) (formatter_given m known),
          )
          | inl p ↦ elim (Bool-cases ((s.objects m).parent == 0)) [
            | inl q ↦ (
              ((s.src_data.entry m).effective_logger, (s.src_data.entry m).effective_formatter)
                  ∷ [],
              (rw (p, pass_on-root fuel m (==→eq _ 0 q), synced, e) refl),
              alone m (==→ne _ 0 e) (inr (==→eq _ 0 q)) (formatter_given m known),
            )
            | inr q ↦
                let (held, lower) =
                  parent_lower s.src_data.has s.objects o.forest m known (==→ne _ 0 q) in
                let (gs, run, heard) = speak-Heard fuel (s.objects m).parent held (omega arith) in
                (
                  ((s.src_data.entry m).effective_logger, (s.src_data.entry m).effective_formatter)
                      ∷ gs,
                  (rw (p, pass_on-speak fuel m known (==→ne _ 0 q), run, synced, e) refl),
                  passed m gs (==→ne _ 0 e) p (==→ne _ 0 q) (formatter_given m known) heard,
                )
          ]
        ]
      ]

  spoken :
      (fuel : ℕ) (m : Ptr)
      → s.src_data.has m ≡ true
      → get_synced_data s ≡ s
      → do_log fuel m s ≡ speak fuel m s
  unfolding do_log speak
  spoken fuel m known same =
      let here : s.thread_data.has m ≡ true = ap (λ d. d.has m) synced ∙ known in
      rw (same, here) refl

-- The data of the thread does not matter to who hears.
Heard-same :
    (s : Instance) (d : Data) (m : Ptr) (gs : List (Ptr × Ptr))
    → Heard (record s { thread_data = d }) m gs
    → Heard s m gs
Heard-same s d _ _ (silent m none) = silent m none
Heard-same s d _ _ (alone m some last formatted) = alone m some last formatted
Heard-same s d _ _ (passed m gs some flag up formatted there) =
    passed m gs some flag up formatted (Heard-same s d (s.objects m).parent gs there)

-- On sound modules, where the data that the calling thread keeps is the main data if it has the number
-- of the main data and any other if not, a message of a module that has an entry is given to its
-- effective logger, and to those who hear of a message of its parent where it passes messages through,
-- each with a formatter that is not null; all of this as the main data says. The fuel is for the depth
-- of the module.
pub do_log-Heard :
    (s : Instance) (o : IsSound s)
    → (s.thread_data.rev ≡ s.src_data.rev → s.thread_data ≡ s.src_data)
    → (fuel : ℕ) (m : Ptr) → s.src_data.has m ≡ true
    → o.forest.depth m < fuel
    → (gs : List (Ptr × Ptr)) × (do_log fuel m s ≡ sent gs) × Heard s m gs
unfolding do_log get_synced_data speak
do_log-Heard s o same fuel m known enough =
    elim (Bool-cases (s.thread_data.rev == s.src_data.rev)) [
      | inl e ↦
          let synced : s.thread_data ≡ s.src_data =
            same (==→eq s.thread_data.rev s.src_data.rev e) in
          let (gs, run, heard) = speak-Heard s o synced fuel m known enough in
          (gs, spoken s o synced fuel m known (rw e refl) ∙ run, heard)
      | inr e ↦
          let t = record s { thread_data = s.src_data } in
          let sound : IsSound t = record { forest = o.forest; agree = o.agree; roots = o.roots } in
          let (gs, run, heard) = speak-Heard t sound refl fuel m known enough in
          (gs, (rw (e, known) run), Heard-same s s.src_data m gs heard)
    ]
